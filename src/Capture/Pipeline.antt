-- ===== src/Capture/Pipeline.antt =====
-- From captured packets to published states: the reassembly, the decoder of the flow and the
-- processor together, for packets and for a capture file with other traffic in it.
use passive_solar_mqtt_bridg.Prelude.Equality.{string_eq}
use passive_solar_mqtt_bridg.Prelude.Text.{bytes_eq}
use passive_solar_mqtt_bridg.Capture.Processor.{Processor}
