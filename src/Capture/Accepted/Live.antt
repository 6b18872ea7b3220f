-- ===== src/Capture/Accepted/Live.antt =====
-- What the publisher accepted of a live capture.
use passive_solar_mqtt_bridg.Prelude.{
  ℕ, ◌≡◌, ap, Bool, true, false, not, inl, inr, some, List, [], ◌∷◌, ◌++◌, Bytes, Bool-cases,
  Option-cases,
}
use mathlib.Core.Path.{subst}
use passive_solar_mqtt_bridg.Prelude.Equality.{Eq}
use passive_solar_mqtt_bridg.Prelude.Text.{is_empty}
use passive_solar_mqtt_bridg.Mqtt.{Message}
use passive_solar_mqtt_bridg.Capture.Processor.{
  Calls, ProcessorOptions, Processor, ok, marshal_failed, publish_failed, discovery_failed,
  new_processor,
}
use passive_solar_mqtt_bridg.Capture.Accepted.{
  IsFed, IsBegun, new_processor-IsBegun, read_frames-IsFed,
}
use passive_solar_mqtt_bridg.Capture.Live.{
  System, Round, LiveResult, interface_required, detection_failed, no_interface, no_socket,
  not_bound, invalid_address, start_failed, captured, is_auto, detect_live_interface, read_rounds,
  capture_on, capture_named, read_live,
}
use passive_solar_mqtt_bridg.Capture.Live.Agree.{records_of, read_rounds-read_frames}

module _ {Ip N O : Type 0} ⦃same : Eq Ip⦄ (calls : Calls Ip N O)
    (accepts : List Message → Message → Bool) (P : List Message → Type 0)
    (keeps : (sent : List Message) (m : Message)
      → accepts sent m ≡ true
      → P sent
      → P (sent ++ m ∷ [])) where
  abbrev Fed : Processor Ip N O → Type 0
  Fed = IsFed calls accepts P keeps

  read_rounds-IsFed :
      (p : Processor Ip N O) (rs : List (Round Ip)) → Fed p → Fed (read_rounds calls p rs).0
  read_rounds-IsFed p rs h =
      subst Fed (ap (λ z. z.0) (read_rounds-read_frames calls (λ delay. false) p 0 rs))
        (read_frames-IsFed calls accepts P keeps (λ delay. false) false p 0 (records_of rs) h)

  abbrev pub IsLiveFed : LiveResult Ip N O → Type 0
  IsLiveFed interface_required = Unit
  IsLiveFed detection_failed = Unit
  IsLiveFed no_interface = Unit
  IsLiveFed no_socket = Unit
  IsLiveFed not_bound = Unit
  IsLiveFed invalid_address = Unit
  IsLiveFed (start_failed o) = Unit
  IsLiveFed (captured q end) = Fed q

  module _ (system : System Ip) (opts : ProcessorOptions) (fed : opts.publisher ≡ some accepts)
      (h : P []) where
    capture_on-IsLiveFed : (index : ℕ) → IsLiveFed (capture_on calls system opts index)
    unfolding capture_on
    capture_on-IsLiveFed index = elim (Bool-cases (not (system.socket 2))) [
      | inl a ↦ rw (IsLiveFed, capture_on, a) tt
      | inr a ↦ elim (Bool-cases (not (system.bind index))) [
        | inl b ↦ rw (IsLiveFed, capture_on, a, b) tt
        | inr b ↦
            let begun = new_processor-IsBegun calls accepts P keeps opts fed h in
            elim (Option-cases (new_processor calls opts)) [
              | inl c ↦ rw (IsLiveFed, capture_on, a, b, c) tt
              | inr ((p, ok), c) ↦
                  let k = subst (IsBegun calls accepts P keeps) c begun in
                  rw (IsLiveFed, capture_on, a, b, c) (read_rounds-IsFed p system.rounds k)
              | inr ((p, marshal_failed), c) ↦ rw (IsLiveFed, capture_on, a, b, c) tt
              | inr ((p, publish_failed), c) ↦ rw (IsLiveFed, capture_on, a, b, c) tt
              | inr ((p, discovery_failed), c) ↦ rw (IsLiveFed, capture_on, a, b, c) tt
            ]
      ]
    ]

    capture_named-IsLiveFed : (name : Bytes) → IsLiveFed (capture_named calls system opts name)
    unfolding capture_named
    capture_named-IsLiveFed name = elim (Option-cases (system.interface_by_name 0 name)) [
      | inr (index, a) ↦ rw (IsLiveFed, capture_named, a) (capture_on-IsLiveFed index)
      | inl a ↦ elim (Option-cases (detect_live_interface calls system 1 opts)) [
        | inl b ↦ rw (IsLiveFed, capture_named, a, b) tt
        | inr (detected, b) ↦ elim (Option-cases (system.interface_by_name 1 detected)) [
          | inl c ↦ rw (IsLiveFed, capture_named, a, b, c) tt
          | inr (index, c) ↦ rw (IsLiveFed, capture_named, a, b, c) (capture_on-IsLiveFed index)
        ]
      ]
    ]

    pub read_live-IsLiveFed : (name : Bytes) → IsLiveFed (read_live calls system opts name)
    unfolding read_live
    read_live-IsLiveFed name = elim (Bool-cases (is_empty name)) [
      | inl a ↦ rw (IsLiveFed, read_live, a) tt
      | inr a ↦ elim (Bool-cases (is_auto name)) [
        | inr b ↦ rw (IsLiveFed, read_live, a, b) (capture_named-IsLiveFed name)
        | inl b ↦ elim (Option-cases (detect_live_interface calls system 0 opts)) [
          | inl c ↦ rw (IsLiveFed, read_live, a, b, c) tt
          | inr (detected, c) ↦
              rw (IsLiveFed, read_live, a, b, c) (capture_named-IsLiveFed detected)
        ]
      ]
    ]
