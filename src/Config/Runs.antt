-- ===== src/Config/Runs.antt =====
-- Runs of the configuration code, and the theorems about it at concrete inputs.
use passive_solar_mqtt_bridg.Prelude.{Bool, true, false, ◌≡◌, refl, ◌↔◌, [], ◌∷◌, Bytes}
use passive_solar_mqtt_bridg.Config.Text.{
  trim, trim_left, trim_right, trim_space, trim_quotes, is_space, is_quote, to_lower, lower,
  has_suffix, same_bytes,
}
use passive_solar_mqtt_bridg.Config.{
  interface, unset, pos, Config, ok, when, input_problems, validate, clean_value,
  looks_like_capture_file, clean_path_value, clean_config, redirect_file, default_mode,
  fill_interfaces, settle, normalize, judge, check_valid, check_loaded, load,
}
use passive_solar_mqtt_bridg.Config.Valid.{IsValid, SameInterfaces, validate_iff, load-IsValid}
use passive_solar_mqtt_bridg.Config.Paths.{
  Environment, missing, found, candidate_paths, resolve, IsFirst, resolve-IsFirst,
}

abbrev text : Bytes
text = b'x' ∷ []

abbrev no_file : Bytes → Bool
no_file path = false

abbrev unchanged : Bytes → Bytes
unchanged value = value

-- " 'eth0' "
abbrev quoted : Bytes
quoted = 32 ∷ 39 ∷ b'e' ∷ b't' ∷ b'h' ∷ b'0' ∷ 39 ∷ 32 ∷ []

abbrev eth0 : Bytes
eth0 = b'e' ∷ b't' ∷ b'h' ∷ b'0' ∷ []

abbrev config_of : Bytes → Bytes → Config
config_of input_interface capture_interface = record {
  input = record { mode = unset; interface = input_interface; file = [] };
  simulation = record { realtime = false };
  capture = record {
    interface = capture_interface;
    source_ip = text;
    cloud_ip = text;
    cloud_port = pos 7777;
  };
  mqtt = record {
    enabled = true;
    broker = text;
    username = [];
    password_file = [];
    topic_base = text;
  };
  homeassistant = record {
    discovery_prefix = text;
    device_id = text;
    device_name = text;
    mapping_file = [];
  };
  logging = record { level = [] };
}

abbrev loaded : Config
loaded = record (config_of eth0 eth0) {
  input = record { mode = interface; interface = eth0; file = [] };
}

cleaned : clean_value quoted ≡ eth0
unfolding clean_value trim_space trim_quotes trim trim_left trim_right is_space is_quote
cleaned = refl

-- "A.PCAP"
capture_name : looks_like_capture_file no_file (b'A' ∷ b'.' ∷ b'P' ∷ b'C' ∷ b'A' ∷ b'P' ∷ []) ≡ true
unfolding looks_like_capture_file clean_value trim_space trim_quotes trim trim_left trim_right
    is_space is_quote to_lower lower has_suffix same_bytes
capture_name = refl

loads : load no_file unchanged (config_of [] quoted) ≡ ok loaded
unfolding load normalize redirect_file clean_config clean_path_value looks_like_capture_file
    clean_value trim_space trim_quotes trim trim_left trim_right is_space is_quote to_lower lower
    has_suffix same_bytes default_mode settle fill_interfaces check_loaded check_valid judge
    validate input_problems when
loads = refl

validate_iff_example : (validate loaded ≡ []) ↔ IsValid loaded
validate_iff_example = validate_iff loaded

load-IsValid_example : IsValid loaded × SameInterfaces loaded.input.mode loaded
load-IsValid_example = load-IsValid no_file unchanged (config_of [] quoted) loaded loads

abbrev home_only : Environment
home_only = record {
  config_path = [];
  xdg_config_home = [];
  home = text;
  stat = λ path. elim path [ [] ↦ missing | b ∷ bs ↦ found false ];
  join_xdg = λ path. path;
  join_home = λ path. path;
}

resolve-IsFirst_example : IsFirst home_only (candidate_paths home_only) (resolve home_only [])
resolve-IsFirst_example = resolve-IsFirst home_only refl
