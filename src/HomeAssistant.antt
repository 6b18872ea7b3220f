-- ===== src/HomeAssistant.antt =====
-- internal/homeassistant/discovery.go: the sensors and the messages that announce them.
-- A Go string is the list of its bytes.
pub mod Slug
pub mod Mapping
pub mod Discovery
mod Runs
use Prim.Native.String.{String}
use passive_solar_mqtt_bridg.Prelude.{
  ℕ, suc, ◌+◌, Bool, true, false, not, ◌&&◌, ◌||◌, Option, none, some, List, [], ◌∷◌, ◌++◌, map,
  Bytes, ltb, leb, ◌==◌, if◌then◌else◌,
}
use passive_solar_mqtt_bridg.Prelude.Text.{codes, is_empty, same_bytes}
use passive_solar_mqtt_bridg.Config.Text.{trim, trim_right, lower}
use passive_solar_mqtt_bridg.Mqtt
use passive_solar_mqtt_bridg.Mqtt.{raw_state_suffix, status_suffix}

pub record Device : Type 0 where
  pub id : Bytes
  pub name : Bytes
  pub manufacturer : Bytes
  pub model : Bytes

pub record Sensor : Type 0 where
  pub field : Bytes
  pub object_id : Bytes
  pub name : Bytes
  pub device_class : Bytes
  pub state_class : Bytes
  pub unit : Bytes
  pub diagnostic : Bool

pub record SensorMapping : Type 0 where
  pub include_defaults : Bool
  pub sensors : List Sensor

pub record DiscoveryDevice : Type 0 where
  pub identifiers : List Bytes
  pub name : Bytes
  pub manufacturer : Bytes
  pub model : Bytes

pub record DiscoveryPayload : Type 0 where
  pub name : Bytes
  pub unique_id : Bytes
  pub state_topic : Bytes
  pub value_template : Bytes
  pub device_class : Bytes
  pub state_class : Bytes
  pub unit_of_measurement : Bytes
  pub suggested_precision : Option ℕ
  pub entity_category : Bytes
  pub enabled_by_default : Option Bool
  pub availability_topic : Bytes
  pub payload_available : Bytes
  pub payload_not_available : Bytes
  pub device : DiscoveryDevice

-- A sensor of the base set, which is not diagnostic.
unfoldable pub base : String → String → String → String → String → String → Sensor
base field object_id name device_class state_class unit = record {
  field = codes field;
  object_id = codes object_id;
  name = codes name;
  device_class = codes device_class;
  state_class = codes state_class;
  unit = codes unit;
  diagnostic = false;
}

unfoldable pub base_sensors : List Sensor
base_sensors =
    base "SOC" "soc" "State of Charge" "battery" "measurement" "%"
    ∷ base "Pbat" "battery_power" "Battery Power" "power" "measurement" "W"
    ∷ base "PpvTotal" "pv_power_total" "PV Power Total" "power" "measurement" "W"
    ∷ base "Ppv1" "pv_power_1" "PV Power 1" "power" "measurement" "W"
    ∷ base "Ppv2" "pv_power_2" "PV Power 2" "power" "measurement" "W"
    ∷ base "Ppv3" "pv_power_3" "PV Power 3" "power" "measurement" "W"
    ∷ base "Ppv4" "pv_power_4" "PV Power 4" "power" "measurement" "W"
    ∷ base "EpvTotal" "pv_energy_total" "PV Energy Total" "energy" "total_increasing" "kWh"
    ∷ base "PrealL1" "inverter_power_l1" "Inverter Power L1" "power" "measurement" "W"
    ∷ base "PrealL2" "inverter_power_l2" "Inverter Power L2" "power" "measurement" "W"
    ∷ base "PrealL3" "inverter_power_l3" "Inverter Power L3" "power" "measurement" "W"
    ∷ base "PrealTotal" "inverter_power_total" "Inverter Power Total" "power" "measurement" "W"
    ∷ base "PmeterL1" "meter_power_l1" "Meter Power L1" "power" "measurement" "W"
    ∷ base "PmeterL2" "meter_power_l2" "Meter Power L2" "power" "measurement" "W"
    ∷ base "PmeterL3" "meter_power_l3" "Meter Power L3" "power" "measurement" "W"
    ∷ base "PmeterTotal" "grid_power_total" "Grid Power Total" "power" "measurement" "W"
    ∷ base "Einput" "grid_import_energy_total" "Grid Import Energy Total" "energy"
        "total_increasing" "kWh"
    ∷ base "Eoutput" "grid_export_energy_total" "Grid Export Energy Total" "energy"
        "total_increasing" "kWh"
    ∷ base "Echarge" "battery_charge_energy_total" "Battery Charge Energy Total" "energy"
        "total_increasing" "kWh"
    ∷ base "EDischarge" "battery_discharge_energy_total" "Battery Discharge Energy Total" "energy"
        "total_increasing" "kWh"
    ∷ []

unfoldable pub is_underscore : ℕ → Bool
is_underscore b = b == 95

-- What Go makes of a text: `runes` are the characters that `range` yields for a string, the tests
-- and `to_lower` are those of the package `unicode`, and `write_rune` is what `WriteRune` writes.
pub record Unicode : Type 0 where
  pub runes : Bytes → List ℕ
  pub is_letter : ℕ → Bool
  pub is_digit : ℕ → Bool
  pub is_upper : ℕ → Bool
  pub to_lower : ℕ → ℕ
  pub write_rune : ℕ → Bytes

module _ (unicode : Unicode) where
  -- What the loop of `objectID` writes for the rest of a name. The loop looks at its builder only
  -- to see whether anything was written, `started`, and at `previousUnderscore`, `after`.
  unfoldable pub slug : Bool → Bool → List ℕ → Bytes
  slug started after [] = []
  slug started after (r ∷ rs) =
      let word = unicode.write_rune (unicode.to_lower r) ++ slug true false rs in
      let gap = 95 ∷ slug started true rs in
      let rest = slug started after rs in
      if unicode.is_letter r || unicode.is_digit r
      then (if unicode.is_upper r && started && not after then 95 ∷ word else word)
      else (if started && not after then gap else rest)

  unfoldable pub object_id : Bytes → Bytes
  object_id value = trim is_underscore (slug false false (unicode.runes value))

-- The loop of `SensorForField`.
unfoldable pub find_sensor : Bytes → List Sensor → Option Sensor
find_sensor field [] = none
find_sensor field (s ∷ ss) = if same_bytes s.field field then some s else find_sensor field ss

module _ (unicode : Unicode) where
  unfoldable pub sensor_for_field : Bytes → Sensor
  sensor_for_field field = elim (find_sensor field base_sensors) [
    | some s ↦ s
    | none ↦ record {
      field = field;
      object_id = codes "field_" ++ object_id unicode field;
      name = field;
      device_class = [];
      state_class = [];
      unit = [];
      diagnostic = true;
    }
  ]

  unfoldable pub normalize_sensor : Sensor → Sensor
  normalize_sensor s = record s {
    object_id =
        if is_empty s.object_id && not (is_empty s.field)
        then object_id unicode s.field
        else s.object_id;
    name = if is_empty s.name then s.field else s.name;
  }

-- How `LoadMappingFile` ends once the file is read.
pub data MappingResult : Type 0 where
  ok : List Sensor → MappingResult
  no_field : ℕ → MappingResult
  no_object_id : Bytes → MappingResult
  duplicate_object_id : Bytes → MappingResult

-- `_, ok := seen[id]`
unfoldable pub is_seen : Bytes → List Bytes → Bool
is_seen id [] = false
is_seen id (j ∷ js) = same_bytes j id || is_seen id js

-- A sensor in front of those that the rest of the loop accepts.
unfoldable pub accepted : Sensor → MappingResult → MappingResult
accepted s (ok ss) = ok (s ∷ ss)
accepted s (no_field index) = no_field index
accepted s (no_object_id field) = no_object_id field
accepted s (duplicate_object_id id) = duplicate_object_id id

unfoldable pub mapped_sensors : SensorMapping → List Sensor
mapped_sensors m = (if m.include_defaults then base_sensors else []) ++ m.sensors

module _ (unicode : Unicode) where
  -- The loop over the sensors, from `index` on, with the ids that it has seen.
  unfoldable pub check_sensors : ℕ → List Bytes → List Sensor → MappingResult
  check_sensors index seen [] = ok []
  check_sensors index seen (s ∷ ss) =
      let n = normalize_sensor unicode s in
      let rest = check_sensors (suc index) (n.object_id ∷ seen) ss in
      if is_empty n.field
      then no_field index
      else if is_empty n.object_id
      then no_object_id n.field
      else if is_seen n.object_id seen
      then duplicate_object_id n.object_id
      else accepted n rest

  unfoldable pub load_mapping : SensorMapping → MappingResult
  load_mapping m = check_sensors 0 [] (mapped_sensors m)

unfoldable pub value_template : Sensor → Bytes
value_template s =
    if s.diagnostic
    then codes "{{ value_json['values'].get('"
      ++ (s.field ++ (codes "', value_json['fields'].get('" ++ (s.field ++ codes "')) }}")))
    else codes "{{ value_json['values'].get('" ++ (s.field ++ codes "') }}")

unfoldable pub entity_category : Sensor → Bytes
entity_category s = if s.diagnostic then codes "diagnostic" else []

unfoldable pub enabled_by_default : Sensor → Option Bool
enabled_by_default s = if s.diagnostic then some false else none

unfoldable pub suggested_precision : Sensor → Option ℕ
suggested_precision s = if same_bytes s.field (codes "SOC") then some 1 else none

-- The first lines of `DiscoveryMessages`.
unfoldable pub with_defaults : Device → Device
with_defaults d = record d {
  manufacturer = if is_empty d.manufacturer then codes "AlphaESS" else d.manufacturer;
  model = if is_empty d.model then codes "SMILE-T10-HV" else d.model;
}

unfoldable pub discovery_payload : Bytes → Device → Sensor → DiscoveryPayload
discovery_payload topic_base d s = record {
  name = s.name;
  unique_id = d.id ++ (codes "_" ++ s.object_id);
  state_topic = topic_base ++ raw_state_suffix;
  value_template = value_template s;
  device_class = s.device_class;
  state_class = s.state_class;
  unit_of_measurement = s.unit;
  suggested_precision = suggested_precision s;
  entity_category = entity_category s;
  enabled_by_default = enabled_by_default s;
  availability_topic = topic_base ++ status_suffix;
  payload_available = codes "online";
  payload_not_available = codes "offline";
  device = record {
    identifiers = d.id ∷ [];
    name = d.name;
    manufacturer = d.manufacturer;
    model = d.model;
  };
}

unfoldable pub is_slash : ℕ → Bool
is_slash b = b == 47

unfoldable pub discovery_topic : Bytes → Bytes → Bytes → Bytes
discovery_topic prefix device_id object_id =
    trim_right is_slash prefix
    ++ (codes "/sensor/" ++ (device_id ++ (codes "/" ++ (object_id ++ codes "/config"))))

-- `json.Marshal` of a payload is the parameter `marshal`, `none` where it returns an error.
module _ (marshal : DiscoveryPayload → Option Bytes) where
  -- The loop over the sensors.
  unfoldable pub announce : Bytes → Bytes → Device → List Sensor → Option (List Mqtt.Message)
  announce prefix topic_base d [] = some []
  announce prefix topic_base d (s ∷ ss) =
      let rest = announce prefix topic_base d ss in
      elim (marshal (discovery_payload topic_base d s)) [
        | none ↦ none
        | some text ↦ elim rest [
          | none ↦ none
          | some messages ↦ some (
              record {
                topic = discovery_topic prefix d.id s.object_id;
                payload = text;
                retained = true;
              }
              ∷ messages)
        ]
      ]

  unfoldable pub discovery_messages :
      Bytes → Bytes → Device → List Sensor → Option (List Mqtt.Message)
  discovery_messages prefix topic_base d sensors =
      announce prefix topic_base (with_defaults d) sensors
