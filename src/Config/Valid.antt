-- ===== src/Config/Valid.antt =====
-- What a configuration holds once it is loaded.
use passive_solar_mqtt_bridg.Prelude.{
  zero, suc, Bool, true, false, ◌≡◌, ◌≢◌, ◌↔◌, refl, [], ◌∷◌, ◌++◌, Bytes, List, arith,
}
use mathlib.Core.Path.{subst, ap}
use passive_solar_mqtt_bridg.Config.Text.{is_empty}
use passive_solar_mqtt_bridg.Config.{
  InputMode, unset, interface, file, unsupported, ℤ, pos, negsuc, Config, InputConfig,
  SimulationConfig, Problem, source_ip_required, cloud_ip_required, cloud_port_required,
  broker_required, topic_base_required, discovery_prefix_required, device_id_required,
  device_name_required, Loaded, ok, bad_mode, invalid, when, input_problems, validate, check_loaded,
  clean_config, redirect_file, default_mode, fill_interfaces, settle, normalize, check_valid, judge,
  load, is_zero,
}

-- The input that `Validate` wants.
abbrev pub HasSource : InputMode → InputConfig → SimulationConfig → Type 0
HasSource interface input simulation = (input.interface ≢ []) × (simulation.realtime ≡ false)
HasSource file input simulation = input.file ≢ []
HasSource unset input simulation = true ≡ false
HasSource (unsupported mode) input simulation = true ≡ false

pub record IsValid (cfg : Config) : Type 0 where
  pub source : HasSource cfg.input.mode cfg.input cfg.simulation
  pub source_ip : cfg.capture.source_ip ≢ []
  pub cloud_ip : cfg.capture.cloud_ip ≢ []
  pub cloud_port : cfg.capture.cloud_port ≢ pos 0
  pub broker : cfg.mqtt.broker ≢ []
  pub topic_base : cfg.mqtt.topic_base ≢ []
  pub discovery_prefix : cfg.homeassistant.discovery_prefix ≢ []
  pub device_id : cfg.homeassistant.device_id ≢ []
  pub device_name : cfg.homeassistant.device_name ≢ []

is_empty_iff : (s : Bytes) → (is_empty s ≡ false) ↔ (s ≢ [])
is_empty_iff [] = ground arith
is_empty_iff (b ∷ bs) = ground arith

is_zero_iff : (n : ℤ) → (is_zero n ≡ false) ↔ (n ≢ pos 0)
is_zero_iff (pos zero) = ground arith
is_zero_iff (pos (suc n)) = ground arith
is_zero_iff (negsuc n) = ground arith

when_iff : (b : Bool) (p : Problem) → (when b p ≡ []) ↔ (b ≡ false)
unfolding when
when_iff true p = ground arith
when_iff false p = ground arith

nil-append {ℓ} : {A : Type ℓ} (xs ys : List A) → (xs ++ ys ≡ []) ↔ ((xs ≡ []) × (ys ≡ []))
nil-append [] ys = ground arith
nil-append (x ∷ xs) ys = ground arith

input_problems_iff :
    (mode : InputMode) (input : InputConfig) (simulation : SimulationConfig)
    → (input_problems mode input simulation ≡ []) ↔ HasSource mode input simulation
unfolding input_problems when
input_problems_iff interface input simulation = ground (arith, is_empty_iff input.interface)
input_problems_iff file input simulation = ground (arith, is_empty_iff input.file)
input_problems_iff unset input simulation = ground arith
input_problems_iff (unsupported mode) input simulation = ground arith

both {ℓ κ ι} :
    {A : Type ℓ} {P : Type κ} {Q : Type ι} {xs ys : List A}
    → (xs ≡ []) ↔ P
    → (ys ≡ []) ↔ Q
    → (xs ++ ys ≡ []) ↔ (P × Q)
both {xs = xs} {ys = ys} (to, from) (to', from') = (
  λ e. let (e0, e1) = (nil-append xs ys).0 e in (to e0, to' e1),
  λ pq. (nil-append xs ys).1 (from pq.0, from' pq.1),
)

given : (s : Bytes) (p : Problem) → (when (is_empty s) p ≡ []) ↔ (s ≢ [])
unfolding when
given s p = ground (arith, is_empty_iff s, when_iff (is_empty s) p)

port_given : (n : ℤ) (p : Problem) → (when (is_zero n) p ≡ []) ↔ (n ≢ pos 0)
unfolding when
port_given n p = ground (arith, is_zero_iff n, when_iff (is_zero n) p)

-- `Validate` finds nothing exactly where these settings are given: an interface and no replay in
-- real time, or a file; and every other setting that has no default.
pub validate_iff : (cfg : Config) → (validate cfg ≡ []) ↔ IsValid cfg
unfolding validate
validate_iff cfg = (to, from)
  where
    parts : (validate cfg ≡ []) ↔ (
        (((((((HasSource cfg.input.mode cfg.input cfg.simulation × (cfg.capture.source_ip ≢ []))
                    × (cfg.capture.cloud_ip ≢ []))
                  × (cfg.capture.cloud_port ≢ pos 0))
                × (cfg.mqtt.broker ≢ []))
              × (cfg.mqtt.topic_base ≢ []))
            × (cfg.homeassistant.discovery_prefix ≢ []))
          × (cfg.homeassistant.device_id ≢ []))
        × (cfg.homeassistant.device_name ≢ []))
    parts =
        both
          (both
            (both
              (both
                (both
                  (both
                    (both
                      (both (input_problems_iff cfg.input.mode cfg.input cfg.simulation)
                        (given cfg.capture.source_ip source_ip_required))
                      (given cfg.capture.cloud_ip cloud_ip_required))
                    (port_given cfg.capture.cloud_port cloud_port_required))
                  (given cfg.mqtt.broker broker_required))
                (given cfg.mqtt.topic_base topic_base_required))
              (given cfg.homeassistant.discovery_prefix discovery_prefix_required))
            (given cfg.homeassistant.device_id device_id_required))
          (given cfg.homeassistant.device_name device_name_required)

    to : validate cfg ≡ [] → IsValid cfg
    to h =
        let ((((((((a0, a1), a2), a3), a4), a5), a6), a7), a8) = parts.0 h in
        record {
          source = a0;
          source_ip = a1;
          cloud_ip = a2;
          cloud_port = a3;
          broker = a4;
          topic_base = a5;
          discovery_prefix = a6;
          device_id = a7;
          device_name = a8;
        }

    from : IsValid cfg → validate cfg ≡ []
    from v = parts.1 (
      (
        (
          (((((v.source, v.source_ip), v.cloud_ip), v.cloud_port), v.broker), v.topic_base),
          v.discovery_prefix,
        ),
        v.device_id,
      ),
      v.device_name,
    )

-- In interface mode both names of the interface are given, or neither is.
abbrev pub SameInterfaces : InputMode → Config → Type 0
SameInterfaces interface cfg = (cfg.input.interface ≡ []) ↔ (cfg.capture.interface ≡ [])
SameInterfaces file cfg = Unit
SameInterfaces unset cfg = true ≡ false
SameInterfaces (unsupported mode) cfg = true ≡ false

ok-injective : {c d : Config} → ok c ≡ ok d → c ≡ d
ok-injective h = cc

judge_ok : (ps : List Problem) (c cfg' : Config) → judge ps c ≡ ok cfg' → (c ≡ cfg') × (ps ≡ [])
unfolding judge
judge_ok [] c cfg' h = (ok-injective h, refl)
judge_ok (p ∷ ps) c cfg' h = cc

check_loaded_ok :
    (l : Loaded) (cfg' : Config) → check_loaded l ≡ ok cfg' → (l ≡ ok cfg') × (validate cfg' ≡ [])
unfolding check_loaded check_valid
check_loaded_ok (ok c) cfg' h =
    let (same, clean) = judge_ok (validate c) c cfg' h in
    (ap ok same, subst (λ c. validate c ≡ []) same clean)
check_loaded_ok (bad_mode mode) cfg' h = cc
check_loaded_ok (invalid problems) cfg' h = cc

module _ (is_file : Bytes → Bool) (expand_env : Bytes → Bytes) where
  fill_interfaces-SameInterfaces : (cfg : Config) → SameInterfaces interface (fill_interfaces cfg)
  unfolding fill_interfaces
  fill_interfaces-SameInterfaces cfg =
      ground (arith, is_empty_iff cfg.input.interface, is_empty_iff cfg.capture.interface)

  settle-SameInterfaces :
      (mode : InputMode) (cfg cfg' : Config)
      → settle
          (default_mode mode)
          (record cfg { input = record cfg.input { mode = default_mode mode } })
        ≡ ok cfg'
      → SameInterfaces cfg'.input.mode cfg'
  unfolding settle default_mode fill_interfaces
  settle-SameInterfaces unset cfg cfg' h =
      subst (λ c. SameInterfaces c.input.mode c) (ok-injective h)
        (fill_interfaces-SameInterfaces
          (record cfg { input = record cfg.input { mode = interface } }))
  settle-SameInterfaces interface cfg cfg' h =
      subst (λ c. SameInterfaces c.input.mode c) (ok-injective h)
        (fill_interfaces-SameInterfaces
          (record cfg { input = record cfg.input { mode = interface } }))
  settle-SameInterfaces file cfg cfg' h =
      subst (λ c. SameInterfaces c.input.mode c) (ok-injective h) tt
  settle-SameInterfaces (unsupported mode) cfg cfg' h = cc

  -- What `Normalize` accepts has one of the two modes.
  normalize-SameInterfaces :
      (cfg cfg' : Config)
      → normalize is_file expand_env cfg ≡ ok cfg'
      → SameInterfaces cfg'.input.mode cfg'
  unfolding normalize
  normalize-SameInterfaces cfg cfg' h =
      settle-SameInterfaces (redirect_file is_file (clean_config expand_env cfg)).input.mode
        (redirect_file is_file (clean_config expand_env cfg)) cfg' h

  -- A configuration that `Load` returns is in one of the two modes and names the source of that
  -- mode, with realtime only for a file; its addresses, broker, topic base, discovery prefix, device
  -- id and device name are not empty and its port is not 0; and in interface mode it names the
  -- interface in both places.
  pub load-IsValid :
      (cfg cfg' : Config)
      → load is_file expand_env cfg ≡ ok cfg'
      → IsValid cfg' × SameInterfaces cfg'.input.mode cfg'
  unfolding load
  load-IsValid cfg cfg' h =
      let (normal, clean) = check_loaded_ok (normalize is_file expand_env cfg) cfg' h in
      ((validate_iff cfg').0 clean, normalize-SameInterfaces cfg cfg' normal)
