-- ===== src/Setup/Start/Ready.antt =====
-- What a run starts with.
use passive_solar_mqtt_bridg.Prelude.{
  ◌≡◌, refl, inl, inr, Option, none, some, List, Bytes, All, Bool-cases, Option-cases,
  if◌then◌else◌,
}
use mathlib.Core.Path.{subst}
use passive_solar_mqtt_bridg.Config.Text.{is_empty}
use passive_solar_mqtt_bridg.Config
use passive_solar_mqtt_bridg.Config.{
  Config, Loaded, bad_mode, invalid, normalize, check_loaded, load,
}
use passive_solar_mqtt_bridg.Config.Valid.{IsValid, SameInterfaces, load-IsValid}
use passive_solar_mqtt_bridg.Config.Save.{save}
use passive_solar_mqtt_bridg.Config.Paths.{Resolved, at_path, failed_at, resolve}
use passive_solar_mqtt_bridg.HomeAssistant
use passive_solar_mqtt_bridg.HomeAssistant.{
  Sensor, MappingResult, no_field, no_object_id, duplicate_object_id, load_mapping,
}
use passive_solar_mqtt_bridg.HomeAssistant.Mapping.{IsNamed, Distinct, ids, load_mapping_iff}
use passive_solar_mqtt_bridg.Setup.Options
use passive_solar_mqtt_bridg.Setup.Options.{
  CliOptions, Parsed, err, check_options, apply_input_overrides,
}
use passive_solar_mqtt_bridg.Setup.Complete.{Step, go, stop, complete_config}
use passive_solar_mqtt_bridg.Setup.Start.{
  Startup, bad_usage, no_path, unreadable, bad_mapping, not_complete, unknown_mode, bad_config,
  ready, empty_config, Surroundings, mapped, load_sensor_mapping, with_sensors, in_order, completed,
  configured, with_options, start,
}

-- A configuration that `Validate` accepts, with the interface in both places in interface mode, and
-- sensors that can be told apart.
abbrev pub IsReady : Config → List Sensor → Type 0
IsReady cfg sensors =
    IsValid cfg × SameInterfaces cfg.input.mode cfg × All IsNamed sensors × Distinct (ids sensors)

abbrev Good : Startup → Type 0
Good (ready cfg sensors) = IsReady cfg sensors
Good (bad_usage e) = Unit
Good no_path = Unit
Good unreadable = Unit
Good bad_mapping = Unit
Good (not_complete e) = Unit
Good (unknown_mode mode) = Unit
Good (bad_config problems) = Unit

abbrev AreApart : Option (List Sensor) → Type 0
AreApart none = Unit
AreApart (some sensors) = All IsNamed sensors × Distinct (ids sensors)

module _ (s : Surroundings) where
  mapped-AreApart :
      (r : MappingResult) (m : HomeAssistant.SensorMapping)
      → load_mapping s.unicode m ≡ r
      → AreApart (mapped r)
  unfolding mapped
  mapped-AreApart (HomeAssistant.ok sensors) m h =
      let (same, named, distinct) = (load_mapping_iff s.unicode m sensors).0 h in (named, distinct)
  mapped-AreApart (no_field index) m h = tt
  mapped-AreApart (no_object_id field) m h = tt
  mapped-AreApart (duplicate_object_id id) m h = tt

  load_sensor_mapping-AreApart :
      (cfg : Config) (config_path : Bytes) → AreApart (load_sensor_mapping s cfg config_path)
  unfolding load_sensor_mapping
  load_sensor_mapping-AreApart cfg config_path =
      let name = cfg.homeassistant.mapping_file in
      elim (Bool-cases (is_empty name)) [
        | inl e ↦ rw e (tt, tt)
        | inr e ↦
            elim (Option-cases
              (s.read_mapping (if s.is_abs name then name else s.beside config_path name))) [
                | inl n ↦ rw (e, n) tt
                | inr (m, n) ↦ rw (e, n) (mapped-AreApart (load_mapping s.unicode m) m refl)
              ]
      ]

  with_sensors-Good :
      (config_path : Bytes) (l : Loaded) (cfg : Config)
      → load s.is_file s.expand_env cfg ≡ l
      → Good (with_sensors s config_path l)
  unfolding with_sensors
  with_sensors-Good config_path (bad_mode mode) cfg h = tt
  with_sensors-Good config_path (invalid problems) cfg h = tt
  with_sensors-Good config_path (Config.ok cfg') cfg h =
      let (valid, same) = load-IsValid s.is_file s.expand_env cfg cfg' h in
      let apart = load_sensor_mapping-AreApart cfg' config_path in
      elim (Option-cases (load_sensor_mapping s cfg' config_path)) [
        | inl e ↦ rw (Good, with_sensors, e) tt
        | inr (sensors, e) ↦
            let (named, distinct) : All IsNamed sensors × Distinct (ids sensors) =
              subst AreApart e apart in
            rw (Good, with_sensors, e) (valid, same, named, distinct)
      ]

  in_order-Good : (config_path : Bytes) (r : Step) → Good (in_order s config_path r)
  unfolding in_order load
  in_order-Good config_path (stop e) = tt
  in_order-Good config_path (go t) =
      with_sensors-Good config_path (check_loaded (normalize s.is_file s.expand_env t.cfg)) t.cfg
        refl

  completed-Good :
      (config_path input : Bytes) (r : Parsed Config) → Good (completed s config_path input r)
  unfolding completed
  completed-Good config_path input (err e) = tt
  completed-Good config_path input (Options.ok cfg) =
      in_order-Good config_path (complete_config s.is_file (save s.saving config_path) cfg input)

  configured-Good :
      (opts : CliOptions) (input : Bytes) (r : Resolved) → Good (configured s opts input r)
  unfolding configured
  configured-Good opts input (failed_at path) = tt
  configured-Good opts input (at_path path exists) =
      elim (Option-cases (if exists then s.read_config path else some empty_config)) [
        | inl e ↦ rw (Good, configured, e) tt
        | inr (cfg, e) ↦
            rw (Good, configured, e) (completed-Good path input (apply_input_overrides cfg opts))
      ]

  with_options-Good : (input : Bytes) (r : Parsed CliOptions) → Good (with_options s input r)
  unfolding with_options
  with_options-Good input (err e) = tt
  with_options-Good input (Options.ok opts) =
      configured-Good opts input (resolve s.env opts.config_path)

  -- Whatever the options, the configuration file, the mapping file and the answers that are typed:
  -- where `main` comes to `run`, the configuration has all that `Validate` asks for, in interface
  -- mode it names the interface in both places, and every sensor of the mapping has a field and an
  -- id, no two of them the same.
  pub start-IsReady :
      (opts : CliOptions) (arguments : List Bytes) (input : Bytes) (cfg : Config)
      (sensors : List Sensor)
      → start s opts arguments input ≡ ready cfg sensors
      → IsReady cfg sensors
  unfolding start
  start-IsReady opts arguments input cfg sensors h =
      subst Good h (with_options-Good input (check_options opts arguments))
