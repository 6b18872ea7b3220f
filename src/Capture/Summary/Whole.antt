-- ===== src/Capture/Summary/Whole.antt =====
-- The counters of a whole run on a capture file, from the processor that it creates.
use passive_solar_mqtt_bridg.Prelude.{
  ℕ, ◌+◌, Bool, inl, inr, Option, none, some, List, [], ◌∷◌, Bytes, arith, Bool-cases, Option-cases,
  ◌==◌, length, if◌then◌else◌,
}
use passive_solar_mqtt_bridg.Prelude.Equality.{Eq}
use mathlib.Core.Path.{subst}
use passive_solar_mqtt_bridg.Prelude.Text.{is_empty}
use passive_solar_mqtt_bridg.Mqtt.{Message, status_message}
use passive_solar_mqtt_bridg.HomeAssistant.{Device, base_sensors, discovery_messages}
use passive_solar_mqtt_bridg.Capture.File.{
  Record, FileResult, path_required, open_failed, invalid_address, start_failed, read, read_file,
}
use passive_solar_mqtt_bridg.Capture.Processor.{
  Calls, ProcessorOptions, Processor, Outcome, ok, marshal_failed, publish_failed, discovery_failed,
  publish, plan_availability, publish_discovery, plan_discovery, new_processor, online,
}
use passive_solar_mqtt_bridg.Capture.Summary.{
  IsSound, Keeps, Keeps-refl, Keeps-bind, publish_one, IsSound-Keeps, read_frames-IsSound,
}

module _ {Ip N O : Type 0} where
  -- The counters of a run that came to read the frames are sound. A run that ends before has no
  -- counters.
  abbrev pub EndsSound : FileResult Ip N O → Type 0
  EndsSound path_required = Unit
  EndsSound open_failed = Unit
  EndsSound invalid_address = Unit
  EndsSound (start_failed o) = Unit
  EndsSound (read q end) = IsSound q

  plan_availability-Keeps : (p : Processor Ip N O) → Keeps p (plan_availability p).0
  unfolding plan_availability
  plan_availability-Keeps p =
      let message = status_message p.opts.topic_base online in
      let q : Processor Ip N O = record p {
        summary = record p.summary {
          status_publishes = p.summary.status_publishes + 1;
          status_payload_bytes = p.summary.status_payload_bytes + length message.payload;
        };
      } in
      ground (arith, publish_one q message)

  publish_discovery-Keeps :
      (p : Processor Ip N O) (ms : List Message) → Keeps p (publish_discovery p ms).0
  unfolding publish_discovery
  publish_discovery-Keeps p [] = Keeps-refl p
  publish_discovery-Keeps p (m ∷ ms) =
      let q : Processor Ip N O = record p {
        summary = record p.summary {
          discovery_publishes = p.summary.discovery_publishes + 1;
          discovery_payload_bytes = p.summary.discovery_payload_bytes + length m.payload;
        };
      } in
      Keeps-bind p (publish q m) (λ r. publish_discovery r ms) (ground (arith, publish_one q m))
        (λ r. publish_discovery-Keeps r ms)

module _ {Ip N O : Type 0} ⦃same : Eq Ip⦄ (calls : Calls Ip N O) where
  plan_discovery-Keeps : (p : Processor Ip N O) → Keeps p (plan_discovery calls p).0
  unfolding plan_discovery
  plan_discovery-Keeps p =
      let sensors = if length p.opts.sensors == 0 then base_sensors else p.opts.sensors in
      let device : Device = record {
        id = p.opts.device_id;
        name = p.opts.device_name;
        manufacturer = [];
        model = [];
      } in
      elim (Option-cases (
        discovery_messages calls.marshal_discovery p.opts.discovery_prefix p.opts.topic_base device
          sensors)) [
            | inl e ↦ rw (plan_discovery, e) (Keeps-refl p)
            | inr (ms, e) ↦ rw (plan_discovery, e) (publish_discovery-Keeps p ms)
          ]

  abbrev StartsSound : Option (Processor Ip N O × Outcome) → Type 0
  StartsSound none = Unit
  StartsSound (some (p, o)) = IsSound p

  new_processor-StartsSound : (opts : ProcessorOptions) → StartsSound (new_processor calls opts)
  unfolding new_processor
  new_processor-StartsSound opts = elim (Option-cases (calls.parse_ip opts.source_ip)) [
    | inl a ↦ rw (StartsSound, new_processor, a) tt
    | inr (source_ip, a) ↦ elim (Option-cases (calls.parse_ip opts.cloud_ip)) [
      | inl b ↦ rw (StartsSound, new_processor, a, b) tt
      | inr (cloud_ip, b) ↦
          rw (StartsSound, new_processor, a, b)
            (IsSound-Keeps calls _ _ (ground arith) (
              Keeps-bind _ _ (plan_discovery calls) (plan_availability-Keeps _)
                plan_discovery-Keeps))
    ]
  ]

  -- A run on a capture file, from the processor that it creates, whose counters all start at zero.
  -- Wherever the reading of the frames stops: of the packets that were counted no more have an IPv4
  -- layer, of these no more have TCP, of these no more match, and of these no more have a payload;
  -- no more states were published than messages read; and the publisher accepted no more messages
  -- than were counted as published, the status and the sensors of the start included.
  pub read_file-EndsSound :
      (done_before : ℕ → Bool) (realtime : Bool) (opts : ProcessorOptions) (path : Bytes)
      (opened : Option (List (Record Ip)))
      → EndsSound (read_file calls done_before realtime opts path opened)
  unfolding read_file
  read_file-EndsSound done_before realtime opts path opened = elim (Bool-cases (is_empty path)) [
    | inl e ↦ rw (EndsSound, read_file, e) tt
    | inr e ↦ elim (Option-cases opened) [
      | inl a ↦ rw (EndsSound, read_file, e, a) tt
      | inr (records, a) ↦
          let begun = new_processor-StartsSound opts in
          elim (Option-cases (new_processor calls opts)) [
            | inl b ↦ rw (EndsSound, read_file, e, a, b) tt
            | inr ((p, ok), b) ↦
                let k = subst StartsSound b begun in
                rw (EndsSound, read_file, e, a, b)
                  (read_frames-IsSound calls done_before realtime p 0 records k)
            | inr ((p, marshal_failed), b) ↦ rw (EndsSound, read_file, e, a, b) tt
            | inr ((p, publish_failed), b) ↦ rw (EndsSound, read_file, e, a, b) tt
            | inr ((p, discovery_failed), b) ↦ rw (EndsSound, read_file, e, a, b) tt
          ]
    ]
  ]
