-- ===== src/Capture/Live/Agree.antt =====
-- The live capture against the reading of a file: the same packets, the same state.
use passive_solar_mqtt_bridg.Prelude.{
  ℕ, ◌≡◌, refl, Bool, true, false, inl, inr, List, [], ◌∷◌, if◌then◌else◌, Bool-cases,
}
use passive_solar_mqtt_bridg.Prelude.Equality.{Eq}
use passive_solar_mqtt_bridg.Capture.{Packet, matches_alphaess_flow}
use passive_solar_mqtt_bridg.Capture.File.{
  Layers, no_ipv4, no_tcp, tcp, Record, frame, unreadable, ReadEnd, finished, read_failed,
  cancelled, wait_for_replay_time, count_layers, process_layers, process_frame, stop_on,
  read_frames,
}
use passive_solar_mqtt_bridg.Capture.File
use passive_solar_mqtt_bridg.Capture.Processor.{
  Calls, Processor, Outcome, ok, marshal_failed, publish_failed, discovery_failed, add_packet,
  add_ipv4_packet, add_tcp_packet, process_decoded_tcp,
}
use passive_solar_mqtt_bridg.Capture.Live.{
  Round, stopped_before, timed_out, broken, interrupted, received, LiveEnd, running, stopped,
  receive_failed, process_failed, process_received, stop_live_on, read_rounds,
}

-- The packets that come before the loop ends, with the error that ends it.
unfoldable pub records_of : {Ip : Type 0} → List (Round Ip) → List (Record Ip)
records_of [] = []
records_of (stopped_before ∷ rs) = []
records_of (timed_out ∷ rs) = records_of rs
records_of (broken ∷ rs) = unreadable ∷ []
records_of (interrupted done ∷ rs) = let rest = records_of rs in if done then [] else rest
records_of (received timestamp layers ∷ rs) = frame timestamp layers ∷ records_of rs

-- A capture that goes on or is stopped is like a file that is read to its end.
unfoldable pub as_read_end : LiveEnd → ReadEnd
as_read_end running = finished
as_read_end stopped = finished
as_read_end receive_failed = read_failed
as_read_end (process_failed o) = File.process_failed o

module _ {Ip N O : Type 0} ⦃same : Eq Ip⦄ (calls : Calls Ip N O) where
  unmatched :
      (p : Processor Ip N O) (x : Packet Ip)
      → matches_alphaess_flow x p.source_ip p.cloud_ip p.opts.cloud_port ≡ false
      → process_decoded_tcp calls p x ≡ (p, ok)
  unfolding process_decoded_tcp
  unmatched p x e = rw (process_decoded_tcp, e) refl

  process_received-eq :
      (p : Processor Ip N O) (timestamp : ℕ) (layers : Layers Ip)
      → process_received calls p timestamp layers ≡ process_frame calls p timestamp layers
  unfolding process_received process_frame process_layers count_layers add_packet add_ipv4_packet
      add_tcp_packet
  process_received-eq p timestamp no_ipv4 = refl
  process_received-eq p timestamp no_tcp = refl
  process_received-eq p timestamp (tcp x) =
      let p' = add_tcp_packet (add_ipv4_packet (add_packet p timestamp)) in
      elim (Bool-cases (matches_alphaess_flow x p.source_ip p.cloud_ip p.opts.cloud_port)) [
        | inl e ↦ rw e refl
        | inr e ↦ rw e (unmatched p' x e)
      ]

  stop-eq :
      (o : Outcome) (p : Processor Ip N O) (r : Processor Ip N O × LiveEnd)
      → stop_on calls o p (r.0, as_read_end r.1)
        ≡ ((stop_live_on calls o p r).0, as_read_end (stop_live_on calls o p r).1)
  unfolding stop_on stop_live_on as_read_end
  stop-eq ok p r = refl
  stop-eq marshal_failed p r = refl
  stop-eq publish_failed p r = refl
  stop-eq discovery_failed p r = refl

  wait_never :
      (done_before : ℕ → Bool) (previous current : ℕ)
      → wait_for_replay_time done_before false previous current ≡ true
  unfolding wait_for_replay_time
  wait_never done_before previous current = refl

  -- A live capture is the reading of a file, as fast as possible, that holds the packets it
  -- receives before it ends: it leaves the same processor, so the same counters, state and
  -- messages, and ends in the same way. Rounds without a packet change nothing.
  pub read_rounds-read_frames :
      (done_before : ℕ → Bool) (p : Processor Ip N O) (previous : ℕ) (rs : List (Round Ip))
      → read_frames calls done_before false p previous (records_of rs)
        ≡ ((read_rounds calls p rs).0, as_read_end (read_rounds calls p rs).1)
  unfolding read_rounds read_frames records_of as_read_end
  read_rounds-read_frames done_before p previous [] = refl
  read_rounds-read_frames done_before p previous (stopped_before ∷ rs) = refl
  read_rounds-read_frames done_before p previous (timed_out ∷ rs) =
      read_rounds-read_frames done_before p previous rs
  read_rounds-read_frames done_before p previous (broken ∷ rs) = refl
  read_rounds-read_frames done_before p previous (interrupted true ∷ rs) = refl
  read_rounds-read_frames done_before p previous (interrupted false ∷ rs) =
      read_rounds-read_frames done_before p previous rs
  read_rounds-read_frames done_before p previous (received timestamp layers ∷ rs) =
      let (p', o) = process_frame calls p timestamp layers in
      rw
        (
          wait_never done_before previous timestamp,
          process_received-eq p timestamp layers,
          read_rounds-read_frames done_before p' timestamp rs,
        )
        (stop-eq o p' (read_rounds calls p' rs))
