-- ===== src/Setup/Runs.antt =====
-- A session with the questions, and the theorem about them at it.
use passive_solar_mqtt_bridg.Prelude.{true, false, ◌≡◌, refl, [], ◌∷◌, Bytes}
use passive_solar_mqtt_bridg.Config.Text.{
  trim, trim_left, trim_right, trim_space, trim_quotes, is_space, is_quote, to_lower, lower,
  has_suffix, same_bytes,
}
use passive_solar_mqtt_bridg.Config.{
  unset, interface, pos, Config, clean_value, looks_like_capture_file,
}
use passive_solar_mqtt_bridg.Setup.Prompts.{
  read_string, prompt_line, ask_required, prompt_required, digits_value, in_range, positive,
  ask_int, prompt_int, is_choice, ask_choice, prompt_choice,
}
use passive_solar_mqtt_bridg.Setup.Complete.{
  go, ask, ask_if_empty, ask_cloud_port, ask_settings, take_capture_interface,
  give_capture_interface, answered, confirm, apply_input_source, ask_again, choose_mode,
  fill_source, complete_config,
}
use passive_solar_mqtt_bridg.Setup.Complete.Filled.{Filled, complete_config-Filled}

abbrev text : Bytes
text = b'x' ∷ []

-- A configuration without an input, a source address and a port.
abbrev partial : Config
partial = record {
  input = record { mode = unset; interface = []; file = [] };
  simulation = record { realtime = false };
  capture = record { interface = []; source_ip = []; cloud_ip = text; cloud_port = pos 0 };
  mqtt = record {
    enabled = true;
    broker = text;
    username = [];
    password_file = [];
    topic_base = text;
  };
  homeassistant = record {
    discovery_prefix = text;
    device_id = text;
    device_name = text;
    mapping_file = [];
  };
  logging = record { level = [] };
}

-- The answers "e0", "", "s", "-1", "80" and "Ja".
abbrev answers : Bytes
answers =
    b'e' ∷ b'0' ∷ 10 ∷ 10 ∷ b's' ∷ 10 ∷ b'-' ∷ b'1' ∷ 10 ∷ b'8' ∷ b'0' ∷ 10 ∷ b'J' ∷ b'a' ∷ 10 ∷ []

abbrev completed : Config
completed = record partial {
  input = record { mode = interface; interface = b'e' ∷ b'0' ∷ []; file = [] };
  capture = record {
    interface = b'e' ∷ b'0' ∷ [];
    source_ip = b's' ∷ [];
    cloud_ip = text;
    cloud_port = pos 80;
  };
}

session :
    complete_config (λ path. false) (λ cfg. true) partial answers
    ≡ go (record { cfg = completed; input = []; changed = true; saved = completed ∷ [] })
unfolding complete_config choose_mode fill_source ask_again apply_input_source confirm answered
    give_capture_interface take_capture_interface ask_settings ask_cloud_port ask_if_empty ask
    prompt_choice ask_choice is_choice prompt_int ask_int positive in_range digits_value
    prompt_required ask_required prompt_line read_string clean_value looks_like_capture_file trim
    trim_left trim_right trim_space trim_quotes is_space is_quote to_lower lower has_suffix
    same_bytes
session = refl

complete_config-Filled_example : Filled completed
complete_config-Filled_example =
    complete_config-Filled (λ path. false) (λ cfg. true) partial answers session
