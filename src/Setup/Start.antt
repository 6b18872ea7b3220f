-- ===== src/Setup/Start.antt =====
-- cmd/passive-solar-mqtt/main.go: from the command line to the configuration and the sensors that a
-- run starts with.
pub mod Ready
mod Runs
use passive_solar_mqtt_bridg.Prelude.{
  Bool, true, false, ◌||◌, Option, none, some, List, [], Bytes, if◌then◌else◌,
}
use passive_solar_mqtt_bridg.Prelude.Text.{codes}
use passive_solar_mqtt_bridg.Config.Text.{is_empty, same_bytes, to_lower}
use passive_solar_mqtt_bridg.Config
use passive_solar_mqtt_bridg.Config.{
  Config, unset, pos, Loaded, bad_mode, invalid, Problem, normalize, check_loaded,
}
use passive_solar_mqtt_bridg.Config.Save.{SaveCalls, save}
use passive_solar_mqtt_bridg.Config.Paths.{Environment, Resolved, at_path, failed_at, resolve}
use passive_solar_mqtt_bridg.HomeAssistant
use passive_solar_mqtt_bridg.HomeAssistant.{
  Unicode, Sensor, SensorMapping, MappingResult, no_field, no_object_id, duplicate_object_id,
  load_mapping,
}
use passive_solar_mqtt_bridg.Setup.Options
use passive_solar_mqtt_bridg.Setup.Options.{
  CliOptions, UsageError, Parsed, err, check_options, apply_input_overrides,
}
use passive_solar_mqtt_bridg.Setup.Complete.{Session, Step, SetupError, go, stop, complete_config}

-- Why `main` ends before `run`, or what it calls `run` with.
pub data Startup : Type 0 where
  bad_usage : UsageError → Startup
  no_path unreadable bad_mapping : Startup
  not_complete : SetupError → Startup
  unknown_mode : Bytes → Startup
  bad_config : List Problem → Startup
  ready : Config → List Sensor → Startup

-- `var cfg config.Config`
abbrev pub empty_config : Config
empty_config = record {
  input = record { mode = unset; interface = []; file = [] };
  simulation = record { realtime = false };
  capture = record { interface = []; source_ip = []; cloud_ip = []; cloud_port = pos 0 };
  mqtt = record {
    enabled = false;
    broker = [];
    username = [];
    password_file = [];
    topic_base = [];
  };
  homeassistant = record {
    discovery_prefix = [];
    device_id = [];
    device_name = [];
    mapping_file = [];
  };
  logging = record { level = [] };
}

-- What `main` calls that is not modelled: the file system and the packages `yaml`, `filepath`
-- and `unicode`.
-- `read_config` and `read_mapping` are `none` where reading or the package `yaml`
-- fails; `beside` is `filepath.Join(filepath.Dir(configPath), path)`.
pub record Surroundings : Type 0 where
  pub env : Environment
  pub is_file : Bytes → Bool
  pub expand_env : Bytes → Bytes
  pub read_config : Bytes → Option Config
  pub read_mapping : Bytes → Option SensorMapping
  pub unicode : Unicode
  pub is_abs : Bytes → Bool
  pub beside : Bytes → Bytes → Bytes
  pub saving : SaveCalls

unfoldable pub is_verbose : Config → Bool
is_verbose cfg =
    let level = to_lower cfg.logging.level in
    same_bytes level (codes "debug")
    || same_bytes level (codes "trace")
    || same_bytes level (codes "verbose")

-- `none` is an error.
unfoldable pub mapped : MappingResult → Option (List Sensor)
mapped (HomeAssistant.ok sensors) = some sensors
mapped (no_field index) = none
mapped (no_object_id field) = none
mapped (duplicate_object_id id) = none

module _ (s : Surroundings) where
  -- No sensors where no mapping is configured.
  unfoldable pub load_sensor_mapping : Config → Bytes → Option (List Sensor)
  load_sensor_mapping cfg config_path =
      let name = cfg.homeassistant.mapping_file in
      let path = if s.is_abs name then name else s.beside config_path name in
      if is_empty name
      then some []
      else (elim (s.read_mapping path) [ none ↦ none | some m ↦ mapped (load_mapping s.unicode m) ])

  -- The sensors, once the configuration is in order.
  unfoldable pub with_sensors : Bytes → Loaded → Startup
  with_sensors config_path (Config.ok cfg) = elim (load_sensor_mapping cfg config_path) [
    | none ↦ bad_mapping
    | some sensors ↦ ready cfg sensors
  ]
  with_sensors config_path (bad_mode mode) = unknown_mode mode
  with_sensors config_path (invalid problems) = bad_config problems

  -- `Normalize` and `Validate`, once nothing is missing.
  unfoldable pub in_order : Bytes → Step → Startup
  in_order config_path (stop e) = not_complete e
  in_order config_path (go t) =
      with_sensors config_path (check_loaded (normalize s.is_file s.expand_env t.cfg))

  -- The questions, once the options are applied.
  unfoldable pub completed : Bytes → Bytes → Parsed Config → Startup
  completed config_path input (err e) = bad_usage e
  completed config_path input (Options.ok cfg) =
      in_order config_path (complete_config s.is_file (save s.saving config_path) cfg input)

  -- The configuration file, once its path is known.
  unfoldable pub configured : CliOptions → Bytes → Resolved → Startup
  configured opts input (failed_at path) = no_path
  configured opts input (at_path path exists) =
      elim (if exists then s.read_config path else some empty_config) [
        | none ↦ unreadable
        | some cfg ↦ completed path input (apply_input_overrides cfg opts)
      ]

  unfoldable pub with_options : Bytes → Parsed CliOptions → Startup
  with_options input (err e) = bad_usage e
  with_options input (Options.ok opts) = configured opts input (resolve s.env opts.config_path)

  -- `main` up to `run`, for the options, the positional arguments and the input that is typed.
  unfoldable pub start : CliOptions → List Bytes → Bytes → Startup
  start opts arguments input = with_options input (check_options opts arguments)
