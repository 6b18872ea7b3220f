-- ===== src/Setup/Complete/Filled.antt =====
-- What the questions fill in, and that a configuration which lacks nothing is left alone.
use passive_solar_mqtt_bridg.Prelude.{
  Bool, false, not, ◌&&◌, ◌≡◌, ◌≢◌, ◌⊎◌, inl, inr, refl, [], ◌∷◌, Bytes, Bool-cases, Option-cases,
}
use mathlib.Core.Path.{subst}
use passive_solar_mqtt_bridg.Config.Text.{is_empty, same_bytes}
use passive_solar_mqtt_bridg.Config.{
  InputMode, unset, interface, file, unsupported, pos, Config, looks_like_capture_file, clean_value,
}
use passive_solar_mqtt_bridg.Setup.Prompts.{prompt_choice}
use passive_solar_mqtt_bridg.Setup.Complete.{
  ja, nein, abbrechen, Session, Step, go, stop, ask_if_empty, set_file, set_source_ip, set_cloud_ip,
  set_broker, set_topic_base, set_discovery_prefix, set_device_id, set_device_name, ask_settings,
  take_capture_interface, give_capture_interface, answered, confirm, apply_input_source, ask_again,
  choose_mode, fill_source, complete_config,
}
use passive_solar_mqtt_bridg.Setup.Complete.Ends.{
  >>=-Ends, Ends, ask-Ends, ask_if_empty-Ends, ask_cloud_port-Ends,
}

abbrev pub HasMode : Config → Type 0
HasMode c = (c.input.mode ≡ interface) ⊎ (c.input.mode ≡ file)

-- What the questions after those about the input are for.
pub record Filled (c : Config) : Type 0 where
  pub mode : HasMode c
  pub source_ip : c.capture.source_ip ≢ []
  pub cloud_ip : c.capture.cloud_ip ≢ []
  pub cloud_port : c.capture.cloud_port ≢ pos 0
  pub broker : c.mqtt.broker ≢ []
  pub topic_base : c.mqtt.topic_base ≢ []
  pub discovery_prefix : c.homeassistant.discovery_prefix ≢ []
  pub device_id : c.homeassistant.device_id ≢ []
  pub device_name : c.homeassistant.device_name ≢ []

abbrev With1 : Config → Type 0
With1 c = HasMode c × (c.capture.source_ip ≢ [])

abbrev With2 : Config → Type 0
With2 c = With1 c × (c.capture.cloud_ip ≢ [])

abbrev With3 : Config → Type 0
With3 c = With2 c × (c.capture.cloud_port ≢ pos 0)

abbrev With4 : Config → Type 0
With4 c = With3 c × (c.mqtt.broker ≢ [])

abbrev With5 : Config → Type 0
With5 c = With4 c × (c.mqtt.topic_base ≢ [])

abbrev With6 : Config → Type 0
With6 c = With5 c × (c.homeassistant.discovery_prefix ≢ [])

abbrev With7 : Config → Type 0
With7 c = With6 c × (c.homeassistant.device_id ≢ [])

abbrev With8 : Config → Type 0
With8 c = With7 c × (c.homeassistant.device_name ≢ [])

ask_settings-Ends : (s : Session) → HasMode s.cfg → Ends With8 (ask_settings s)
unfolding ask_settings
ask_settings-Ends s p =
    >>=-Ends With7 With8 _ _
      (>>=-Ends With6 With7 _ _
        (>>=-Ends With5 With6 _ _
          (>>=-Ends With4 With5 _ _
            (>>=-Ends With3 With4 _ _
              (>>=-Ends With2 With3 _ _
                (>>=-Ends With1 With2 _ _
                  (ask_if_empty-Ends HasMode (λ c. c.capture.source_ip) set_source_ip (λ c v q. q)
                    (λ c v. refl) s p)
                  (ask_if_empty-Ends With1 (λ c. c.capture.cloud_ip) set_cloud_ip (λ c v q. q)
                    (λ c v. refl)))
                (ask_cloud_port-Ends With2 (λ c n q. q)))
              (ask_if_empty-Ends With3 (λ c. c.mqtt.broker) set_broker (λ c v q. q) (λ c v. refl)))
            (ask_if_empty-Ends With4 (λ c. c.mqtt.topic_base) set_topic_base (λ c v q. q)
              (λ c v. refl)))
          (ask_if_empty-Ends With5 (λ c. c.homeassistant.discovery_prefix) set_discovery_prefix
            (λ c v q. q) (λ c v. refl)))
        (ask_if_empty-Ends With6 (λ c. c.homeassistant.device_id) set_device_id (λ c v q. q)
          (λ c v. refl)))
      (ask_if_empty-Ends With7 (λ c. c.homeassistant.device_name) set_device_name (λ c v q. q)
        (λ c v. refl))

Ends-imp : (P Q : Config → Type 0) → ((c : Config) → P c → Q c) → (m : Step) → Ends P m → Ends Q m
Ends-imp P Q f (go s) p = f s.cfg p
Ends-imp P Q f (stop e) p = tt

give_capture_interface-HasMode :
    (mode : InputMode) (s : Session) → HasMode s.cfg → HasMode (give_capture_interface mode s).cfg
unfolding give_capture_interface
give_capture_interface-HasMode interface s p =
    elim (Bool-cases (is_empty s.cfg.capture.interface)) [ inl e ↦ rw e p | inr e ↦ rw e p ]
give_capture_interface-HasMode file s p = p
give_capture_interface-HasMode unset s p = p
give_capture_interface-HasMode (unsupported mode) s p = p

take_capture_interface-HasMode :
    (s : Session) → HasMode s.cfg → HasMode (take_capture_interface s).cfg
unfolding take_capture_interface
take_capture_interface-HasMode s p =
    elim (Bool-cases (is_empty s.cfg.input.interface && not (is_empty s.cfg.capture.interface))) [
      | inl e ↦ rw e p
      | inr e ↦ rw e p
    ]

module _ (save : Config → Bool) (P : Config → Type 0) where
  answered-Ends : (answer : Bytes) (s : Session) → P s.cfg → Ends P (answered save answer s)
  unfolding answered
  answered-Ends answer s p = elim (Bool-cases (same_bytes answer ja)) [
    | inl e ↦ elim (Bool-cases (save s.cfg)) [
      | inl f ↦ rw (e, f, Ends) p
      | inr f ↦ rw (e, f, Ends) tt
    ]
    | inr e ↦ elim (Bool-cases (same_bytes answer nein)) [
      | inl f ↦ rw (e, f, Ends) p
      | inr f ↦ elim (Bool-cases (same_bytes answer abbrechen)) [
        | inl g ↦ rw (e, f, g, Ends) tt
        | inr g ↦ rw (e, f, g, Ends) tt
      ]
    ]
  ]

  confirm-Ends : (s : Session) → P s.cfg → Ends P (confirm save s)
  unfolding confirm
  confirm-Ends s p = elim (Bool-cases s.changed) [
    | inr e ↦ rw (e, Ends) p
    | inl e ↦ elim (Option-cases (prompt_choice (ja ∷ nein ∷ abbrechen ∷ []) s.input).0) [
      | inl f ↦ rw (e, f, Ends) tt
      | inr (v, f) ↦
          rw (e, f)
            (answered-Ends v
              (record s { input = (prompt_choice (ja ∷ nein ∷ abbrechen ∷ []) s.input).1 }) p)
    ]
  ]

module _ (is_file : Bytes → Bool) where
  apply_input_source-HasMode : (c : Config) (v : Bytes) → HasMode (apply_input_source is_file c v)
  unfolding apply_input_source
  apply_input_source-HasMode c v =
      elim (Bool-cases (looks_like_capture_file is_file (clean_value v))) [
        | inl e ↦ rw e (inr refl)
        | inr e ↦ rw e (inl refl)
      ]

  ask_source-Ends :
      (s : Session)
      → HasMode s.cfg
      → Ends HasMode (ask_if_empty (λ c. c.input.interface) (apply_input_source is_file) s)
  unfolding ask_if_empty
  ask_source-Ends s p = elim (Bool-cases (is_empty s.cfg.input.interface)) [
    | inl e ↦
        rw (e, Ends)
          (ask-Ends HasMode HasMode (apply_input_source is_file) s p
            (λ c v q given. apply_input_source-HasMode c v))
    | inr e ↦ rw (e, Ends) p
  ]

  ask_again-Ends :
      (mode : InputMode) (s : Session) → HasMode s.cfg → Ends HasMode (ask_again is_file mode s)
  unfolding ask_again
  ask_again-Ends file s p = p
  ask_again-Ends interface s p = ask_source-Ends s p
  ask_again-Ends unset s p = ask_source-Ends s p
  ask_again-Ends (unsupported mode) s p = ask_source-Ends s p

  fill_source-Ends :
      (mode : InputMode) (s : Session)
      → s.cfg.input.mode ≡ mode
      → Ends HasMode (fill_source is_file mode s)
  unfolding fill_source
  fill_source-Ends interface s e =
      >>=-Ends HasMode HasMode _ _
        (ask_source-Ends (take_capture_interface s) (take_capture_interface-HasMode s (inl e)))
        (λ s' p. ask_again-Ends s'.cfg.input.mode s' p)
  fill_source-Ends file s e =
      Ends-imp (λ c. HasMode c × (c.input.file ≢ [])) HasMode (λ c p. p.0)
        (ask_if_empty (λ c. c.input.file) set_file s)
        (ask_if_empty-Ends HasMode (λ c. c.input.file) set_file (λ c v q. q) (λ c v. refl) s
          (inr e))
  fill_source-Ends unset s e = tt
  fill_source-Ends (unsupported mode) s e = tt

  complete_config-Ends :
      (save : Config → Bool) (cfg : Config) (input : Bytes)
      → Ends With8 (complete_config is_file save cfg input)
  unfolding complete_config
  complete_config-Ends save cfg input =
      >>=-Ends With8 With8 _ _
        (>>=-Ends HasMode With8 _ _
          (>>=-Ends (λ c. Unit) HasMode _ _
            (any (
              choose_mode is_file cfg.input.mode
                (record { cfg = cfg; input = input; changed = false; saved = [] })))
            (λ s p. fill_source-Ends s.cfg.input.mode s refl))
          (λ s p.
            ask_settings-Ends (give_capture_interface s.cfg.input.mode s)
              (give_capture_interface-HasMode s.cfg.input.mode s p)))
        (confirm-Ends save With8)
    where
      any : (m : Step) → Ends (λ c. Unit) m
      any (go s) = tt
      any (stop e) = tt

  -- A configuration that the questions end with, saved or not, has one of the two modes, and every
  -- setting that `Validate` asks for apart from the input: whatever was missing and whatever was
  -- answered.
  pub complete_config-Filled :
      (save : Config → Bool) (cfg : Config) (input : Bytes) {s : Session}
      → complete_config is_file save cfg input ≡ go s
      → Filled s.cfg
  complete_config-Filled save cfg input h =
      let ((((((((a, b), c), d), e), f), g), i), j) =
        subst (Ends With8) h (complete_config-Ends save cfg input) in
      record {
        mode = a;
        source_ip = b;
        cloud_ip = c;
        cloud_port = d;
        broker = e;
        topic_base = f;
        discovery_prefix = g;
        device_id = i;
        device_name = j;
      }
