-- ===== src/Setup/Options.antt =====
-- The options of the command line: `parseFlags` after the package `flag` has read them, and
-- `applyInputOverrides`.
use passive_solar_mqtt_bridg.Prelude.{
  Bool, true, false, not, ◌&&◌, List, [], ◌∷◌, Bytes, length, ◌==◌, if◌then◌else◌,
}
use passive_solar_mqtt_bridg.Config.Text.{is_empty}
use passive_solar_mqtt_bridg.Config.{Config, interface, file}

pub record CliOptions : Type 0 where
  pub config_path : Bytes
  pub pcap_file : Bytes
  pub interface : Bytes
  pub realtime : Bool
  pub no_realtime : Bool
  pub verbose : Bool
  pub mqtt : Bool
  pub no_mqtt : Bool

pub data UsageError : Type 0 where
  positional_arguments file_and_interface realtime_and_no_realtime mqtt_and_no_mqtt : UsageError

pub data Parsed (A : Type 0) : Type 0 where
  ok : A → Parsed A
  err : UsageError → Parsed A

-- The end of `parseFlags`, for the options and the positional arguments that were read.
unfoldable pub check_options : CliOptions → List Bytes → Parsed CliOptions
check_options opts arguments =
    if not (length arguments == 0)
    then err positional_arguments
    else if not (is_empty opts.pcap_file) && not (is_empty opts.interface)
    then err file_and_interface
    else if opts.realtime && opts.no_realtime
    then err realtime_and_no_realtime
    else if opts.mqtt && opts.no_mqtt
    then err mqtt_and_no_mqtt
    else ok opts

-- "debug"
abbrev pub debug : Bytes
debug = b'd' ∷ b'e' ∷ b'b' ∷ b'u' ∷ b'g' ∷ []

-- One function for each `if` of `applyInputOverrides`, in the order of the source.
unfoldable pub override_file : CliOptions → Config → Config
override_file opts cfg =
    if is_empty opts.pcap_file
    then cfg
    else record cfg { input = record { mode = file; interface = []; file = opts.pcap_file } }

unfoldable pub override_interface : CliOptions → Config → Config
override_interface opts cfg = if is_empty opts.interface then cfg else record cfg {
  input = record cfg.input { mode = interface; interface = opts.interface };
  capture = record cfg.capture { interface = opts.interface };
}

unfoldable pub override_realtime : CliOptions → Config → Config
override_realtime opts cfg =
    let on = if opts.realtime then true else cfg.simulation.realtime in
    record cfg { simulation = record { realtime = if opts.no_realtime then false else on } }

unfoldable pub override_verbose : CliOptions → Config → Config
override_verbose opts cfg =
    if opts.verbose then record cfg { logging = record { level = debug } } else cfg

unfoldable pub override_mqtt : CliOptions → Config → Config
override_mqtt opts cfg =
    let on = if opts.mqtt then true else cfg.mqtt.enabled in
    record cfg { mqtt = record cfg.mqtt { enabled = if opts.no_mqtt then false else on } }

unfoldable pub apply_input_overrides : Config → CliOptions → Parsed Config
apply_input_overrides cfg opts =
    if not (is_empty opts.pcap_file) && not (is_empty opts.interface)
    then err file_and_interface
    else ok (
        override_mqtt opts (
          override_verbose opts
            (override_realtime opts (override_interface opts (override_file opts cfg)))))
