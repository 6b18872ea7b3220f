-- ===== src/HomeAssistant/Runs.antt =====
-- Sensors, ids and announcements at concrete inputs.
use passive_solar_mqtt_bridg.Prelude.{
  ◌≡◌, ◌↔◌, refl, true, false, some, List, [], ◌∷◌, map, Bytes, All, arith, leb, not, ◌&&◌,
}
use passive_solar_mqtt_bridg.Prelude.Text.{codes, same_bytes}
use passive_solar_mqtt_bridg.Config.Text.{trim, trim_left, trim_right, lower}
use passive_solar_mqtt_bridg.Mqtt.{Message}
use passive_solar_mqtt_bridg.HomeAssistant.{
  Device, Sensor, SensorMapping, ok, base, base_sensors, Unicode, is_underscore, slug, object_id,
  normalize_sensor, is_seen, accepted, check_sensors, mapped_sensors, load_mapping, is_slash,
  with_defaults, discovery_payload, discovery_topic, announce, discovery_messages,
  duplicate_object_id,
}
use passive_solar_mqtt_bridg.HomeAssistant.Slug.{
  is_word, is_capital, AgreesOnAscii, IsSlug, object_id_idem,
}
use passive_solar_mqtt_bridg.HomeAssistant.Mapping.{Distinct, IsNamed, ids, load_mapping_iff}
use passive_solar_mqtt_bridg.HomeAssistant.Discovery.{AnnouncesAll, discovery_messages-AnnouncesAll}

-- A package `unicode` that knows the letters of ASCII only.
abbrev ascii : Unicode
ascii = record {
  runes = λ s. s;
  is_letter = λ r. is_word r && not (leb 48 r && leb r 57);
  is_digit = λ r. leb 48 r && leb r 57;
  is_upper = is_capital;
  to_lower = lower;
  write_rune = λ r. r ∷ [];
}

ascii_agrees : AgreesOnAscii ascii
unfolding is_word
ascii_agrees = record {
  bytes = λ s h. refl;
  words = λ b h. ground arith;
  capitals = λ b h. refl;
  small = λ b h. refl;
  one_byte = λ b h. refl;
}

camel_case : object_id ascii (codes "_EpvTotal (kWh)_") ≡ codes "epv_total_k_wh"
unfolding object_id slug is_word is_capital is_underscore lower trim trim_left trim_right
camel_case = refl

base_mapping :
    load_mapping ascii (record { include_defaults = true; sensors = [] }) ≡ ok base_sensors
unfolding load_mapping mapped_sensors check_sensors normalize_sensor is_seen accepted base_sensors
    base same_bytes
base_mapping = refl

-- A sensor with a field and nothing else.
abbrev plain : Bytes → Sensor
plain field = record {
  field = field;
  object_id = [];
  name = [];
  device_class = [];
  state_class = [];
  unit = [];
  diagnostic = true;
}

-- A sensor of the base set for which another id is made.
twice :
    load_mapping ascii (record { include_defaults = true; sensors = plain (codes "Soc") ∷ [] })
    ≡ duplicate_object_id (codes "soc")
unfolding load_mapping mapped_sensors check_sensors normalize_sensor is_seen accepted base_sensors
    base same_bytes object_id slug is_word is_capital is_underscore lower trim trim_left trim_right
twice = refl

abbrev two : SensorMapping
two = record { include_defaults = false; sensors = plain (codes "Ab") ∷ plain (codes "c") ∷ [] }

abbrev two_sensors : List Sensor
two_sensors =
    record (plain (codes "Ab")) { object_id = codes "ab"; name = codes "Ab" }
    ∷ record (plain (codes "c")) { object_id = codes "c"; name = codes "c" }
    ∷ []

two_loaded : load_mapping ascii two ≡ ok two_sensors
unfolding load_mapping mapped_sensors check_sensors normalize_sensor is_seen accepted same_bytes
    object_id slug is_word is_capital is_underscore lower trim trim_left trim_right
two_loaded = refl

abbrev device : Device
device = record { id = codes "d"; name = []; manufacturer = []; model = [] }

abbrev two_messages : List Message
two_messages =
    record { topic = codes "h/sensor/d/ab/config"; payload = codes "Ab"; retained = true }
    ∷ record { topic = codes "h/sensor/d/c/config"; payload = codes "c"; retained = true }
    ∷ []

-- Here a payload is written as its name.
two_announced :
    discovery_messages (λ p. some p.name) (codes "h//") [] device two_sensors ≡ some two_messages
unfolding discovery_messages announce discovery_payload discovery_topic with_defaults is_slash
    trim_right
two_announced = refl

load_mapping_iff_example : (load_mapping ascii two ≡ ok two_sensors) ↔ (
    (two_sensors ≡ map (normalize_sensor ascii) (mapped_sensors two))
    × All IsNamed two_sensors
    × Distinct (ids two_sensors))
load_mapping_iff_example = load_mapping_iff ascii two two_sensors

discovery_messages-AnnouncesAll_example :
    AnnouncesAll (λ p. some p.name) (codes "h//") [] (with_defaults device) two_sensors two_messages
    × Distinct (map (λ m. m.topic) two_messages)
discovery_messages-AnnouncesAll_example =
    discovery_messages-AnnouncesAll (λ p. some p.name) (codes "h//") [] ascii two device two_sensors
      two_messages two_loaded two_announced

object_id_idem_example :
    IsSlug true (object_id ascii (codes "PmeterL1"))
    × (object_id ascii (object_id ascii (codes "PmeterL1")) ≡ object_id ascii (codes "PmeterL1"))
object_id_idem_example = object_id_idem ascii ascii_agrees (codes "PmeterL1") (omega arith)
