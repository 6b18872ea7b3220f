-- ===== src/Mqtt/Client/Trace.antt =====
-- What the client does to the network in what order: one connection at a time, and nothing on a
-- connection that is closed.
use passive_solar_mqtt_bridg.Prelude.{
  false, ℕ, zero, suc, ◌≡◌, refl, inl, inr, Option, none, some, List, [], ◌∷◌, Bytes, length, take,
  drop, Bool-cases, Option-cases, ◌==◌, not, ◌&&◌, ◌/◌, ◌%◌, ◌^◌,
}
use passive_solar_mqtt_bridg.Prelude.Text.{is_empty}
use passive_solar_mqtt_bridg.Mqtt.{Message}
use passive_solar_mqtt_bridg.Mqtt.Packet.{connect_packet, publish_packet}
use passive_solar_mqtt_bridg.Mqtt.Client.{
  Event, dialled, wrote, answered, closed, Network, Options, Client, Result, ok, no_address,
  dial_failed, password_failed, username_required, write_failed, read_failed, rejected, second,
  disconnect_packet, is_accepted, ◌>>=◌, new_client, close_connection_only, broker_address,
  read_password, write_rounds, write_full, close, await_answer, introduce, greet, connect,
  write_packet, write_again, publish_json,
}

-- The logs in which a connection is dialled only while none is open, bytes are written and read
-- only on the connection that is open, and only that one is closed; with what is open at the end.
pub data Trace : List Event → Option ℕ → Type 0 where
  starts : Trace [] none
  dials :
      {log : List Event} (k : ℕ) (address : Bytes)
      → Trace log none
      → Trace (dialled k address ∷ log) (some k)
  writes :
      {log : List Event} (k : ℕ) (bytes : Bytes)
      → Trace log (some k)
      → Trace (wrote k bytes ∷ log) (some k)
  answers :
      {log : List Event} (k : ℕ) (bytes : Bytes)
      → Trace log (some k)
      → Trace (answered k bytes ∷ log) (some k)
  closes : {log : List Event} (k : ℕ) → Trace log (some k) → Trace (closed k ∷ log) none

-- A call of the client.
pub data Call : Type 0 where
  connecting closing : Call
  publishing : Message → Call

abbrev pub IsOrderly : Client → Type 0
IsOrderly c = Trace c.log c.conn

bind-IsOrderly :
    (r : Client × Result) (next : Client → Client × Result)
    → IsOrderly r.0
    → ((c : Client) → IsOrderly c → IsOrderly (next c).0)
    → IsOrderly (r >>= next).0
bind-IsOrderly (c, ok) next h k = k c h
bind-IsOrderly (c, no_address) next h k = h
bind-IsOrderly (c, dial_failed) next h k = h
bind-IsOrderly (c, password_failed) next h k = h
bind-IsOrderly (c, username_required) next h k = h
bind-IsOrderly (c, write_failed) next h k = h
bind-IsOrderly (c, read_failed) next h k = h
bind-IsOrderly (c, rejected) next h k = h

close_connection_only-IsOrderly : (c : Client) → IsOrderly c → IsOrderly (close_connection_only c)
unfolding close_connection_only
close_connection_only-IsOrderly c h = elim (Option-cases c.conn) [
  | inl e ↦ rw (close_connection_only, e) h
  | inr (k, e) ↦ rw (close_connection_only, e) (Trace.closes k (rw e at h))
]

module _ (net : Network) where
  -- No context ends before the write that it is for.
  abbrev pub IsPatient : Type 0
  IsPatient = (log : List Event) → net.done_first log ≡ false

  write_rounds-Trace :
      (fuel k : ℕ) (log : List Event) (bytes : Bytes)
      → Trace log (some k)
      → Trace (write_rounds net fuel k log bytes).0 (some k)
  unfolding write_rounds
  write_rounds-Trace zero k log bytes h = h
  write_rounds-Trace (suc fuel) k log [] h = h
  write_rounds-Trace (suc fuel) k log (b ∷ bs) h =
      let n = (net.write log (b ∷ bs)).0 in
      let now = Trace.writes k (take n (b ∷ bs)) h in
      elim (Bool-cases (net.write log (b ∷ bs)).1) [
        | inl e ↦ rw e now
        | inr e ↦ elim (Bool-cases (n == 0)) [
          | inl z ↦ rw (e, z) now
          | inr z ↦
              rw (e, z)
                (write_rounds-Trace fuel k (wrote k (take n (b ∷ bs)) ∷ log) (drop n (b ∷ bs)) now)
        ]
      ]

  write_full-Trace :
      (k : ℕ) (log : List Event) (bytes : Bytes)
      → Trace log (some k)
      → Trace (write_full net k log bytes).0 (some k)
  unfolding write_full
  write_full-Trace k log bytes h = write_rounds-Trace (suc (length bytes)) k log bytes h

  close-IsOrderly : (c : Client) → IsOrderly c → IsOrderly (close net c)
  unfolding close
  close-IsOrderly c h = elim (Option-cases c.conn) [
    | inl e ↦ rw (close, e) h
    | inr (k, e) ↦
        rw (close, e) (Trace.closes k (write_full-Trace k c.log disconnect_packet (rw e at h)))
  ]

  await_answer-IsOrderly :
      (c : Client) (k : ℕ) → c.conn ≡ some k → IsOrderly c → IsOrderly (await_answer net c k).0
  unfolding await_answer
  await_answer-IsOrderly c k held h = elim (Option-cases (net.read_full c.log)) [
    | inl e ↦ rw (await_answer, e) (close-IsOrderly c h)
    | inr (response, e) ↦
        let c' = record c { log = answered k response ∷ c.log } in
        let h' : IsOrderly c' = rw held (Trace.answers k response (rw held at h)) in
        elim (Bool-cases (is_accepted response)) [
          | inl a ↦ rw (await_answer, e, a) h'
          | inr a ↦ rw (await_answer, e, a) (close-IsOrderly c' h')
        ]
  ]

  introduce-IsOrderly :
      (c : Client) (k : ℕ) (password : Bytes)
      → c.conn ≡ some k
      → IsOrderly c
      → IsOrderly (introduce net c k password).0
  unfolding introduce
  introduce-IsOrderly c k password held h =
      let o = c.opts in
      let r =
        write_full net k c.log (
          connect_packet o.client_id o.username password (o.keep_alive / second % 2 ^ 16) o.will) in
      let c' = record c { log = r.0 } in
      let h' : IsOrderly c' = rw held (write_full-Trace k c.log _ (rw held at h)) in
      elim (Bool-cases r.1) [
        | inl e ↦ rw e (await_answer-IsOrderly c' k held h')
        | inr e ↦ rw e (close-IsOrderly c' h')
      ]

  greet-IsOrderly :
      (c : Client) (k : ℕ) → c.conn ≡ some k → IsOrderly c → IsOrderly (greet net c k).0
  unfolding greet
  greet-IsOrderly c k held h = elim (Option-cases (read_password net c.log c.opts.password_file)) [
    | inl e ↦ rw (greet, e) (close-IsOrderly c h)
    | inr (password, e) ↦ elim (Bool-cases (not (is_empty password) && is_empty c.opts.username)) [
      | inl u ↦ rw (greet, e, u) (close-IsOrderly c h)
      | inr u ↦ rw (greet, e, u) (introduce-IsOrderly c k password held h)
    ]
  ]

  connect-IsOrderly : (c : Client) → IsOrderly c → IsOrderly (connect net c).0
  unfolding connect
  connect-IsOrderly c h = elim (Option-cases c.conn) [
    | inr (k, e) ↦ rw (connect, e) h
    | inl e ↦ elim (Option-cases (broker_address net c.opts.broker)) [
      | inl a ↦ rw (connect, e, a) h
      | inr (address, a) ↦
          let k = length c.log in
          elim (Bool-cases (net.dial c.log address)) [
            | inl d ↦
                rw (connect, e, a, d)
                  (greet-IsOrderly (record c { conn = some k; log = dialled k address ∷ c.log }) k
                    refl (Trace.dials k address (rw e at h)))
            | inr d ↦ rw (connect, e, a, d) h
          ]
    ]
  ]

  write_packet-IsOrderly :
      (patient : IsPatient) (c : Client) (packet : Bytes)
      → IsOrderly c
      → IsOrderly (write_packet net c packet).0
  unfolding write_packet
  write_packet-IsOrderly patient c packet h = elim (Option-cases c.conn) [
    | inl e ↦ rw (write_packet, e) h
    | inr (k, e) ↦
        let r = write_full net k c.log packet in
        let h' : Trace r.0 c.conn = rw e (write_full-Trace k c.log packet (rw e at h)) in
        elim (Bool-cases (net.done_first c.log)) [
          | inl d ↦ absurd (cc (d, patient c.log))
          | inr d ↦ elim (Bool-cases r.1) [
            | inl w ↦ rw (write_packet, e, d, w) h'
            | inr w ↦ rw (write_packet, e, d, w) h'
          ]
        ]
  ]

  connect_again-IsOrderly :
      (patient : IsPatient) (c : Client) (packet : Bytes)
      → IsOrderly c
      → IsOrderly (connect net (close_connection_only c) >>= λ c'. write_packet net c' packet).0
  connect_again-IsOrderly patient c packet h =
      bind-IsOrderly (connect net (close_connection_only c)) (λ c'. write_packet net c' packet)
        (connect-IsOrderly (close_connection_only c) (close_connection_only-IsOrderly c h))
        (λ c' h'. write_packet-IsOrderly patient c' packet h')

  write_again-IsOrderly :
      (patient : IsPatient) (packet : Bytes) (r : Client × Result)
      → IsOrderly r.0
      → IsOrderly (write_again net packet r).0
  unfolding write_again
  write_again-IsOrderly patient packet (c, ok) h = h
  write_again-IsOrderly patient packet (c, no_address) h =
      connect_again-IsOrderly patient c packet h
  write_again-IsOrderly patient packet (c, dial_failed) h =
      connect_again-IsOrderly patient c packet h
  write_again-IsOrderly patient packet (c, password_failed) h =
      connect_again-IsOrderly patient c packet h
  write_again-IsOrderly patient packet (c, username_required) h =
      connect_again-IsOrderly patient c packet h
  write_again-IsOrderly patient packet (c, write_failed) h =
      connect_again-IsOrderly patient c packet h
  write_again-IsOrderly patient packet (c, read_failed) h =
      connect_again-IsOrderly patient c packet h
  write_again-IsOrderly patient packet (c, rejected) h = connect_again-IsOrderly patient c packet h

  publish_json-IsOrderly :
      (patient : IsPatient) (c : Client) (m : Message)
      → IsOrderly c
      → IsOrderly (publish_json net c m).0
  unfolding publish_json
  publish_json-IsOrderly patient c m h =
      let send : Client → Client × Result = λ c'.
        let packet = publish_packet m.topic m.payload m.retained in
        write_again net packet (write_packet net c' packet) in
      let sends : (c' : Client) → IsOrderly c' → IsOrderly (send c').0 = λ c' h'.
        let packet = publish_packet m.topic m.payload m.retained in
        write_again-IsOrderly patient packet (write_packet net c' packet)
          (write_packet-IsOrderly patient c' packet h') in
      elim (Option-cases c.conn) [
        | inl e ↦ rw e (bind-IsOrderly (connect net c) send (connect-IsOrderly c h) sends)
        | inr (k, e) ↦ rw e (sends c h)
      ]

  -- A run of the client: its calls one after another, whatever each returns.
  unfoldable pub run_calls : Client → List Call → Client
  run_calls c [] = c
  run_calls c (connecting ∷ calls) = run_calls (connect net c).0 calls
  run_calls c (closing ∷ calls) = run_calls (close net c) calls
  run_calls c (publishing m ∷ calls) = run_calls (publish_json net c m).0 calls

  run_calls-IsOrderly :
      (patient : IsPatient) (c : Client) (calls : List Call)
      → IsOrderly c
      → IsOrderly (run_calls c calls)
  unfolding run_calls
  run_calls-IsOrderly patient c [] h = h
  run_calls-IsOrderly patient c (connecting ∷ calls) h =
      run_calls-IsOrderly patient (connect net c).0 calls (connect-IsOrderly c h)
  run_calls-IsOrderly patient c (closing ∷ calls) h =
      run_calls-IsOrderly patient (close net c) calls (close-IsOrderly c h)
  run_calls-IsOrderly patient c (publishing m ∷ calls) h =
      run_calls-IsOrderly patient (publish_json net c m).0 calls
        (publish_json-IsOrderly patient c m h)

  -- Where no context ends before the write that it is for: whatever else the network answers and
  -- in whatever order a new client is called to connect, to publish and to close, it dials only
  -- while no connection is open, writes and reads only on the one that is open, and the connection
  -- that it holds is the one that is open: none is leaked and none used after it was closed.
  pub run_calls-Trace :
      (patient : IsPatient) (opts : Options) (calls : List Call)
      → let c = run_calls (new_client opts) calls in Trace c.log c.conn
  unfolding new_client
  run_calls-Trace patient opts calls =
      run_calls-IsOrderly patient (new_client opts) calls Trace.starts
