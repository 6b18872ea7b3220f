-- ===== src/Setup/Complete.antt =====
-- `completeConfigInteractive`: what is missing from a configuration is asked for, then the
-- configuration is saved, kept for this run, or dropped.
pub mod Ends
pub mod Filled
use passive_solar_mqtt_bridg.Prelude.{
  Bool, true, false, not, ◌&&◌, ◌||◌, none, some, List, [], ◌∷◌, ◌++◌, Bytes, if◌then◌else◌,
}
use passive_solar_mqtt_bridg.Config.Text.{is_empty, same_bytes}
use passive_solar_mqtt_bridg.Config.{
  InputMode, unset, interface, file, unsupported, pos, is_zero, Config, clean_value,
  looks_like_capture_file,
}
use passive_solar_mqtt_bridg.Setup.Prompts.{prompt_required, prompt_int, prompt_choice}

pub data SetupError : Type 0 where
  end_of_input aborted save_failed unexpected_answer : SetupError
  bad_mode : InputMode → SetupError

-- The configuration so far, the input that is left, whether anything changed, and what was saved.
pub record Session : Type 0 where
  pub cfg : Config
  pub input : Bytes
  pub changed : Bool
  pub saved : List Config

pub data Step : Type 0 where
  go : Session → Step
  stop : SetupError → Step

infixl 5 ◌>>=◌
abbrev pub ◌>>=◌ : Step → (Session → Step) → Step
go s >>= next = next s
stop e >>= next = stop e

abbrev pub changed_to : Session → Config → Session
changed_to s cfg = record s { cfg = cfg; changed = true }

-- `promptRequired`, and what its answer makes of the configuration.
unfoldable pub ask : (Config → Bytes → Config) → Session → Step
ask update s =
    let (answer, rest) = prompt_required s.input in
    elim answer [
      | none ↦ stop end_of_input
      | some value ↦ go (record (changed_to s (update s.cfg value)) { input = rest })
    ]

-- `if cfg.… == "" { … }`: the field, and the question that fills it.
unfoldable pub ask_if_empty : (Config → Bytes) → (Config → Bytes → Config) → Session → Step
ask_if_empty field update s = if is_empty (field s.cfg) then ask update s else go s

-- The assignments to the fields that are asked for.
abbrev pub set_file : Config → Bytes → Config
set_file cfg v = record cfg { input = record cfg.input { file = v } }

abbrev pub set_source_ip : Config → Bytes → Config
set_source_ip cfg v = record cfg { capture = record cfg.capture { source_ip = v } }

abbrev pub set_cloud_ip : Config → Bytes → Config
set_cloud_ip cfg v = record cfg { capture = record cfg.capture { cloud_ip = v } }

abbrev pub set_broker : Config → Bytes → Config
set_broker cfg v = record cfg { mqtt = record cfg.mqtt { broker = v } }

abbrev pub set_topic_base : Config → Bytes → Config
set_topic_base cfg v = record cfg { mqtt = record cfg.mqtt { topic_base = v } }

abbrev pub set_discovery_prefix : Config → Bytes → Config
set_discovery_prefix cfg v = record cfg {
  homeassistant = record cfg.homeassistant { discovery_prefix = v };
}

abbrev pub set_device_id : Config → Bytes → Config
set_device_id cfg v = record cfg { homeassistant = record cfg.homeassistant { device_id = v } }

abbrev pub set_device_name : Config → Bytes → Config
set_device_name cfg v = record cfg { homeassistant = record cfg.homeassistant { device_name = v } }

unfoldable pub ask_cloud_port : Session → Step
ask_cloud_port s =
    if is_zero s.cfg.capture.cloud_port
    then (let (answer, rest) = prompt_int s.input in
        elim answer [
          | none ↦ stop end_of_input
          | some port ↦
              go
                (record (changed_to s
                  (record s.cfg { capture = record s.cfg.capture { cloud_port = pos port } })) {
                    input = rest;
                  })
        ])
    else go s

-- The questions after those about the input.
unfoldable pub ask_settings : Session → Step
ask_settings s =
    ask_if_empty (λ c. c.capture.source_ip) set_source_ip s
    >>= ask_if_empty (λ c. c.capture.cloud_ip) set_cloud_ip
    >>= ask_cloud_port
    >>= ask_if_empty (λ c. c.mqtt.broker) set_broker
    >>= ask_if_empty (λ c. c.mqtt.topic_base) set_topic_base
    >>= ask_if_empty (λ c. c.homeassistant.discovery_prefix) set_discovery_prefix
    >>= ask_if_empty (λ c. c.homeassistant.device_id) set_device_id
    >>= ask_if_empty (λ c. c.homeassistant.device_name) set_device_name

-- The interface of the input is that of the capture, if only the latter is given.
unfoldable pub take_capture_interface : Session → Session
take_capture_interface s =
    if is_empty s.cfg.input.interface && not (is_empty s.cfg.capture.interface)
    then changed_to s
        (record s.cfg { input = record s.cfg.input { interface = s.cfg.capture.interface } })
    else s

unfoldable pub give_capture_interface : InputMode → Session → Session
give_capture_interface interface s =
    if is_empty s.cfg.capture.interface
    then changed_to s
        (record s.cfg { capture = record s.cfg.capture { interface = s.cfg.input.interface } })
    else s
give_capture_interface file s = s
give_capture_interface unset s = s
give_capture_interface (unsupported mode) s = s

-- "ja", "nein" and "abbrechen"
abbrev pub ja : Bytes
ja = b'j' ∷ b'a' ∷ []

abbrev pub nein : Bytes
nein = b'n' ∷ b'e' ∷ b'i' ∷ b'n' ∷ []

abbrev pub abbrechen : Bytes
abbrechen = b'a' ∷ b'b' ∷ b'b' ∷ b'r' ∷ b'e' ∷ b'c' ∷ b'h' ∷ b'e' ∷ b'n' ∷ []

-- `save` says whether `config.Save` succeeds.
module _ (save : Config → Bool) where
  -- The switch on the answer.
  unfoldable pub answered : Bytes → Session → Step
  answered answer s =
      if same_bytes answer ja
      then (if save s.cfg
          then go (record s { saved = s.saved ++ s.cfg ∷ [] })
          else stop save_failed)
      else if same_bytes answer nein
      then go s
      else if same_bytes answer abbrechen
      then stop aborted
      else stop unexpected_answer

  unfoldable pub confirm : Session → Step
  confirm s =
      if s.changed
      then (let (answer, rest) = prompt_choice (ja ∷ nein ∷ abbrechen ∷ []) s.input in
          elim answer [
            | none ↦ stop end_of_input
            | some value ↦ answered value (record s { input = rest })
          ])
      else go s

module _ (is_file : Bytes → Bool) where
  unfoldable pub apply_input_source : Config → Bytes → Config
  apply_input_source cfg value =
      let cleaned = clean_value value in
      if looks_like_capture_file is_file cleaned
      then record cfg { input = record { mode = file; interface = []; file = cleaned } }
      else record cfg {
        input = record cfg.input { mode = interface; interface = cleaned };
        capture = record cfg.capture { interface = cleaned };
      }

  -- The mode that an answer to the first question left: a file ends the questions about the input.
  unfoldable pub ask_again : InputMode → Session → Step
  ask_again file s = go s
  ask_again interface s = ask_if_empty (λ c. c.input.interface) apply_input_source s
  ask_again unset s = ask_if_empty (λ c. c.input.interface) apply_input_source s
  ask_again (unsupported mode) s = ask_if_empty (λ c. c.input.interface) apply_input_source s

  -- The first `if`: a mode that is not given.
  unfoldable pub choose_mode : InputMode → Session → Step
  choose_mode unset s =
      let c = s.cfg in
      if not (is_empty c.input.file)
      then go (changed_to s (record c { input = record c.input { mode = file } }))
      else if not (is_empty c.input.interface) || not (is_empty c.capture.interface)
      then go (changed_to s (record c { input = record c.input { mode = interface } }))
      else ask apply_input_source s
  choose_mode interface s = go s
  choose_mode file s = go s
  choose_mode (unsupported mode) s = go s

  -- The switch on the mode.
  unfoldable pub fill_source : InputMode → Session → Step
  fill_source interface s =
      ask_if_empty (λ c. c.input.interface) apply_input_source (take_capture_interface s) >>= λ s'.
      ask_again s'.cfg.input.mode s'
  fill_source file s = ask_if_empty (λ c. c.input.file) set_file s
  fill_source unset s = stop (bad_mode unset)
  fill_source (unsupported mode) s = stop (bad_mode (unsupported mode))

  unfoldable pub complete_config : (Config → Bool) → Config → Bytes → Step
  complete_config save cfg input =
      choose_mode cfg.input.mode (record { cfg = cfg; input = input; changed = false; saved = [] })
      >>= (λ s. fill_source s.cfg.input.mode s)
      >>= (λ s. ask_settings (give_capture_interface s.cfg.input.mode s))
      >>= confirm save
