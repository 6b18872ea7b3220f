-- ===== src/Setup/Start/Runs.antt =====
-- A start with a configuration that lacks nothing.
use passive_solar_mqtt_bridg.Prelude.{◌≡◌, refl, true, false, none, some, [], ◌∷◌}
use passive_solar_mqtt_bridg.Prelude.Text.{codes, same_bytes}
use passive_solar_mqtt_bridg.Config.Text.{
  trim, trim_left, trim_right, trim_space, trim_quotes, is_space, is_quote, to_lower, lower,
  has_suffix,
}
use passive_solar_mqtt_bridg.Config.{
  Config, file, pos, clean_value, clean_path_value, clean_config, redirect_file, default_mode,
  settle, normalize, judge, validate, check_valid, check_loaded, when, input_problems,
  looks_like_capture_file,
}
use passive_solar_mqtt_bridg.Config.Paths.{found, file_exists, at_given, resolve}
use passive_solar_mqtt_bridg.Setup.Options.{
  CliOptions, check_options, override_file, override_interface, override_realtime, override_verbose,
  override_mqtt, apply_input_overrides,
}
use passive_solar_mqtt_bridg.Setup.Complete.{
  ask_if_empty, ask_cloud_port, ask_settings, give_capture_interface, confirm, choose_mode,
  fill_source, complete_config,
}
use passive_solar_mqtt_bridg.Setup.Start.{
  Surroundings, ready, load_sensor_mapping, with_sensors, in_order, completed, configured,
  with_options, start,
}
use passive_solar_mqtt_bridg.Setup.Start.Ready.{IsReady, start-IsReady}

abbrev cfg : Config
cfg = record {
  input = record { mode = file; interface = []; file = codes "f" };
  simulation = record { realtime = false };
  capture = record {
    interface = [];
    source_ip = codes "s";
    cloud_ip = codes "c";
    cloud_port = pos 7777;
  };
  mqtt = record {
    enabled = false;
    broker = codes "b";
    username = [];
    password_file = [];
    topic_base = codes "t";
  };
  homeassistant = record {
    discovery_prefix = codes "h";
    device_id = codes "d";
    device_name = codes "n";
    mapping_file = [];
  };
  logging = record { level = [] };
}

abbrev surroundings : Surroundings
surroundings = record {
  env = record {
    config_path = [];
    xdg_config_home = [];
    home = [];
    stat = λ path. found false;
    join_xdg = λ path. path;
    join_home = λ path. path;
  };
  is_file = λ path. false;
  expand_env = λ path. path;
  read_config = λ path. some cfg;
  read_mapping = λ path. none;
  unicode = record {
    runes = λ t. t;
    is_letter = λ r. false;
    is_digit = λ r. false;
    is_upper = λ r. false;
    to_lower = λ r. r;
    write_rune = λ r. r ∷ [];
  };
  is_abs = λ path. true;
  beside = λ a b. b;
  saving = record {
    home_variable = [];
    user_home_dir = none;
    clean = λ path. path;
    rel = λ base path. none;
    join_home = λ path. path;
    marshal_yaml = λ c. some [];
    make_directory = λ path. true;
    write_file = λ path bytes. true;
  };
}

abbrev opts : CliOptions
opts = record {
  config_path = codes "x";
  pcap_file = [];
  interface = [];
  realtime = false;
  no_realtime = false;
  verbose = false;
  mqtt = false;
  no_mqtt = false;
}

started : start surroundings opts [] [] ≡ ready cfg []
unfolding start with_options check_options configured resolve at_given file_exists completed
    apply_input_overrides override_file override_interface override_realtime override_verbose
    override_mqtt in_order complete_config choose_mode fill_source ask_if_empty
    give_capture_interface ask_settings ask_cloud_port confirm normalize redirect_file clean_config
    clean_value clean_path_value trim trim_left trim_right trim_space trim_quotes is_space is_quote
    to_lower lower has_suffix same_bytes looks_like_capture_file default_mode settle check_loaded
    check_valid judge validate when input_problems with_sensors load_sensor_mapping
started = refl

start-IsReady_example : IsReady cfg []
start-IsReady_example = start-IsReady surroundings opts [] [] cfg [] started
