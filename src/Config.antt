-- ===== src/Config.antt =====
-- internal/config/config.go: the configuration, how it is put in order and what it must hold.
-- A Go string is the list of its bytes, read as ASCII where case and white space matter.
pub mod Text
pub mod Valid
pub mod Paths
pub mod Save
mod Runs
use passive_solar_mqtt_bridg.Prelude.{
  ℕ, zero, suc, Bool, true, false, ◌||◌, List, [], ◌∷◌, ◌++◌, Bytes, if◌then◌else◌,
}
use Text.{is_empty, trim_space, trim_quotes, to_lower, has_suffix}

-- The strings "", "interface" and "file", and every other one.
pub data InputMode : Type 0 where
  unset interface file : InputMode
  unsupported : Bytes → InputMode

-- A Go `int`; `negsuc n` is -(n + 1).
pub data ℤ : Type 0 where
  pos negsuc : ℕ → ℤ

abbrev pub is_zero : ℤ → Bool
is_zero (pos zero) = true
is_zero (pos (suc n)) = false
is_zero (negsuc n) = false

pub record InputConfig : Type 0 where
  pub mode : InputMode
  pub interface : Bytes
  pub file : Bytes

pub record SimulationConfig : Type 0 where
  pub realtime : Bool

pub record CaptureConfig : Type 0 where
  pub interface : Bytes
  pub source_ip : Bytes
  pub cloud_ip : Bytes
  pub cloud_port : ℤ

pub record MqttConfig : Type 0 where
  pub enabled : Bool
  pub broker : Bytes
  pub username : Bytes
  pub password_file : Bytes
  pub topic_base : Bytes

pub record HomeAssistantConfig : Type 0 where
  pub discovery_prefix : Bytes
  pub device_id : Bytes
  pub device_name : Bytes
  pub mapping_file : Bytes

pub record LoggingConfig : Type 0 where
  pub level : Bytes

pub record Config : Type 0 where
  pub input : InputConfig
  pub simulation : SimulationConfig
  pub capture : CaptureConfig
  pub mqtt : MqttConfig
  pub homeassistant : HomeAssistantConfig
  pub logging : LoggingConfig

-- The errors of `Validate`, one for each message.
pub data Problem : Type 0 where
  interface_required realtime_needs_file file_required mode_unsupported : Problem
  source_ip_required cloud_ip_required cloud_port_required broker_required : Problem
  topic_base_required discovery_prefix_required device_id_required device_name_required : Problem

-- How `Normalize` and `Load` end.
pub data Loaded : Type 0 where
  ok : Config → Loaded
  bad_mode : Bytes → Loaded
  invalid : List Problem → Loaded

-- ".pcap" and ".pcapng"
abbrev pub pcap_suffix : Bytes
pcap_suffix = b'.' ∷ b'p' ∷ b'c' ∷ b'a' ∷ b'p' ∷ []

abbrev pub pcapng_suffix : Bytes
pcapng_suffix = b'.' ∷ b'p' ∷ b'c' ∷ b'a' ∷ b'p' ∷ b'n' ∷ b'g' ∷ []

unfoldable pub clean_value : Bytes → Bytes
clean_value value = trim_quotes (trim_space value)

-- `os.Stat` found something at this path that is no directory: the parameter `is_file`.
unfoldable pub looks_like_capture_file : (Bytes → Bool) → Bytes → Bool
looks_like_capture_file is_file value =
    let cleaned = clean_value value in
    let lower = to_lower cleaned in
    has_suffix pcap_suffix lower || has_suffix pcapng_suffix lower || is_file cleaned

-- `errs = append(errs, …)` under a test.
unfoldable pub when : Bool → Problem → List Problem
when true problem = problem ∷ []
when false problem = []

-- The switch on the mode, of `Validate`.
unfoldable pub input_problems : InputMode → InputConfig → SimulationConfig → List Problem
input_problems interface input simulation =
    when (is_empty input.interface) interface_required
    ++ when simulation.realtime realtime_needs_file
input_problems file input simulation = when (is_empty input.file) file_required
input_problems unset input simulation = mode_unsupported ∷ []
input_problems (unsupported mode) input simulation = mode_unsupported ∷ []

unfoldable pub validate : Config → List Problem
validate cfg =
    input_problems cfg.input.mode cfg.input cfg.simulation
    ++ when (is_empty cfg.capture.source_ip) source_ip_required
    ++ when (is_empty cfg.capture.cloud_ip) cloud_ip_required
    ++ when (is_zero cfg.capture.cloud_port) cloud_port_required
    ++ when (is_empty cfg.mqtt.broker) broker_required
    ++ when (is_empty cfg.mqtt.topic_base) topic_base_required
    ++ when (is_empty cfg.homeassistant.discovery_prefix) discovery_prefix_required
    ++ when (is_empty cfg.homeassistant.device_id) device_id_required
    ++ when (is_empty cfg.homeassistant.device_name) device_name_required

unfoldable pub default_mode : InputMode → InputMode
default_mode unset = interface
default_mode interface = interface
default_mode file = file
default_mode (unsupported mode) = unsupported mode

unfoldable pub fill_interfaces : Config → Config
fill_interfaces cfg =
    let input_interface =
      if is_empty cfg.input.interface then cfg.capture.interface else cfg.input.interface in
    let capture_interface =
      if is_empty cfg.capture.interface then input_interface else cfg.capture.interface in
    record cfg {
      input = record cfg.input { interface = input_interface };
      capture = record cfg.capture { interface = capture_interface };
    }

-- The switch on the mode, of `Normalize`.
unfoldable pub settle : InputMode → Config → Loaded
settle interface cfg = ok (fill_interfaces cfg)
settle file cfg = ok cfg
settle unset cfg = bad_mode []
settle (unsupported mode) cfg = bad_mode mode

unfoldable pub judge : List Problem → Config → Loaded
judge [] cfg = ok cfg
judge (p ∷ ps) cfg = invalid (p ∷ ps)

unfoldable pub check_valid : Config → Loaded
check_valid cfg = judge (validate cfg) cfg

-- An error of `Normalize` ends `Load`.
unfoldable pub check_loaded : Loaded → Loaded
check_loaded (ok cfg) = check_valid cfg
check_loaded (bad_mode mode) = bad_mode mode
check_loaded (invalid problems) = invalid problems

-- `expand_env` is `os.ExpandEnv`.
module _ (expand_env : Bytes → Bytes) where
  unfoldable pub clean_path_value : Bytes → Bytes
  clean_path_value value = expand_env (clean_value value)

  -- The first lines of `Normalize`.
  unfoldable pub clean_config : Config → Config
  clean_config cfg = record cfg {
    input = record cfg.input {
      interface = clean_value cfg.input.interface;
      file = clean_path_value cfg.input.file;
    };
    capture = record cfg.capture { interface = clean_value cfg.capture.interface };
    mqtt = record cfg.mqtt { password_file = clean_path_value cfg.mqtt.password_file };
    homeassistant = record cfg.homeassistant {
      mapping_file = clean_path_value cfg.homeassistant.mapping_file;
    };
  }

module _ (is_file : Bytes → Bool) where
  -- An interface that is the name of a capture file is one.
  unfoldable pub redirect_file : Config → Config
  redirect_file cfg =
      if looks_like_capture_file is_file cfg.input.interface
      then record cfg { input = record { mode = file; interface = []; file = cfg.input.interface } }
      else cfg

module _ (is_file : Bytes → Bool) (expand_env : Bytes → Bytes) where
  unfoldable pub normalize : Config → Loaded
  normalize cfg =
      let named = redirect_file is_file (clean_config expand_env cfg) in
      let mode = default_mode named.input.mode in
      settle mode (record named { input = record named.input { mode = mode } })

  -- `Load`, from the configuration that the file holds.
  unfoldable pub load : Config → Loaded
  load cfg = check_loaded (normalize cfg)
