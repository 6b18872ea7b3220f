-- ===== src/Setup/Run/Runs.antt =====
-- A run at a concrete configuration: it reads an empty file and announces one sensor.
use passive_solar_mqtt_bridg.Prelude.{
  ℕ, ◌+◌, ◌≡◌, refl, true, false, none, some, List, [], ◌∷◌, Bytes, length,
}
use passive_solar_mqtt_bridg.Prelude.Equality.{nat_eq}
use passive_solar_mqtt_bridg.Config.Text.{to_lower}
use passive_solar_mqtt_bridg.Prelude.Text.{codes, same_bytes}
use passive_solar_mqtt_bridg.Config.{Config, file, pos}
use passive_solar_mqtt_bridg.HomeAssistant.{
  Sensor, discovery_topic, discovery_messages, announce, discovery_payload, with_defaults,
  value_template, entity_category, enabled_by_default, suggested_precision, is_slash,
}
use passive_solar_mqtt_bridg.Config.Text.{trim_right}
use passive_solar_mqtt_bridg.Mqtt.Packet.{
  connect_packet, encode_remaining_length, length_digits, append_given, append_utf8, connect_flags,
  flags_with, publish_packet,
}
use passive_solar_mqtt_bridg.Mqtt.{Message, status_message}
use passive_solar_mqtt_bridg.Mqtt.Client
use passive_solar_mqtt_bridg.Mqtt.Client.{
  Network, new_client, publish_each, connect, broker_address, contains_byte, greet, read_password,
  introduce, write_full, write_rounds, await_answer, is_accepted, client_accepts, publish_json,
  write_again, write_packet, is_ok,
}
use passive_solar_mqtt_bridg.Mqtt.Client.Series.{Delivers}
use passive_solar_mqtt_bridg.Capture.File.{PacketFile, open_packet_file, read_file, read_frames}
use passive_solar_mqtt_bridg.Capture.Live.{System}
use passive_solar_mqtt_bridg.Capture.Processor.{
  Calls, online, new_processor, plan_availability, publish, plan_discovery, publish_discovery,
}
use passive_solar_mqtt_bridg.Setup.Run.{
  client_options, run, run_connected, run_with, by_mode, processor_options, uint16,
}
use passive_solar_mqtt_bridg.Setup.Run.Delivered.{published_by, first_connection, run-Delivers}

abbrev calls : Calls ℕ ℕ ℕ
calls = record {
  parse_ip = λ t. some (length t);
  flow_name = λ a b c d. "a";
  unmarshal = λ raw. none;
  floats = record {
    nothing = 0;
    add = λ m n. m + n;
    of_int = λ i. 0;
    parse_float = λ t. none;
    print_number = λ n. [];
    print_int = λ i. [];
    print_other = λ o. [];
    lower_runes = to_lower;
  };
  marshal_state = λ p. none;
  marshal_discovery = λ p. some p.name;
}

abbrev net : Network
net = record {
  parse_url = λ raw. some (codes "tcp", raw);
  dial = λ log address. true;
  write = λ log bytes. (length bytes, false);
  read_full = λ log. some (0x20 ∷ 0x02 ∷ 0x00 ∷ 0x00 ∷ []);
  read_file = λ log path. none;
  done_first = λ log. false;
}

abbrev system : System ℕ
system = record {
  interfaces = λ call. none;
  interface_by_name = λ call name. none;
  socket = λ call. false;
  bind = λ index. false;
  sniffs = λ call. [];
  rounds = [];
}

abbrev file_at : Bytes → PacketFile ℕ
file_at path = record { opens = true; as_pcapng = none; rewinds = true; as_pcap = some [] }

abbrev cfg : Config
cfg = record {
  input = record { mode = file; interface = []; file = codes "f" };
  simulation = record { realtime = false };
  capture = record { interface = []; source_ip = codes "s"; cloud_ip = []; cloud_port = pos 7777 };
  mqtt = record {
    enabled = true;
    broker = codes "b";
    username = [];
    password_file = [];
    topic_base = codes "t";
  };
  homeassistant = record {
    discovery_prefix = codes "h";
    device_id = codes "d";
    device_name = codes "n";
    mapping_file = [];
  };
  logging = record { level = [] };
}

abbrev sensor : Sensor
sensor = record {
  field = codes "SOC";
  object_id = codes "soc";
  name = codes "S";
  device_class = [];
  state_class = [];
  unit = [];
  diagnostic = false;
}

abbrev messages : List Message
messages =
    status_message (codes "t") online
    ∷ record {
      topic = discovery_topic (codes "h") (codes "d") (codes "soc");
      payload = codes "S";
      retained = true;
    }
    ∷ []

messages_published :
    published_by (run net calls system file_at (λ delay. false) cfg (sensor ∷ [])) ≡ some messages
unfolding run published_by run_connected connect new_client broker_address same_bytes client_options
    contains_byte greet read_password introduce write_full write_rounds connect_packet
    encode_remaining_length length_digits append_given append_utf8 connect_flags flags_with
    await_answer is_accepted run_with by_mode processor_options uint16 read_file open_packet_file
    new_processor plan_availability publish plan_discovery discovery_messages announce
    discovery_topic discovery_payload with_defaults value_template entity_category
    enabled_by_default suggested_precision is_slash trim_right publish_discovery status_message
    client_accepts publish_each publish_json write_again write_packet publish_packet is_ok
    read_frames
messages_published = refl

run-Delivers_example :
    let c = (first_connection net calls system file_at (λ delay. false) cfg).0 in
    ((first_connection net calls system file_at (λ delay. false) cfg).1 ≡ Client.ok)
    × ((publish_each net c messages).1 ≡ Client.ok)
    × Delivers net (new_client (client_options cfg)).opts c [] messages
run-Delivers_example =
    run-Delivers net calls system file_at (λ delay. false) cfg (sensor ∷ []) messages refl
      messages_published
