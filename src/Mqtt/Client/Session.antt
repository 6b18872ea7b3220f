-- ===== src/Mqtt/Client/Session.antt =====
-- What the broker receives on a connection: the packets that were written, in order.
use passive_solar_mqtt_bridg.Prelude.{
  ℕ, ◌≡◌, refl, sym, ap, ◌∙◌, true, inl, inr, ◌⊎◌, none, some, List, [], ◌∷◌, ◌++◌, append_assoc,
  append-nil, Bytes, length, arith, Bool-cases, Option-cases, not, ◌&&◌, ◌/◌, ◌%◌, ◌^◌,
}
use mathlib.Core.Path.{subst}
use passive_solar_mqtt_bridg.Prelude.Equality.{nat_eq}
use passive_solar_mqtt_bridg.Prelude.Text.{is_empty}
use passive_solar_mqtt_bridg.Mqtt.{Message}
use passive_solar_mqtt_bridg.Mqtt.Packet.{connect_packet, publish_packet}
use passive_solar_mqtt_bridg.Mqtt.Client.{
  dialled, Network, Options, Client, Result, ok, no_address, dial_failed, password_failed,
  username_required, write_failed, read_failed, rejected, second, is_accepted, ◌>>=◌,
  close_connection_only, broker_address, read_password, write_full, await_answer, introduce, greet,
  connect, write_packet, write_again, publish_json,
}
use passive_solar_mqtt_bridg.Mqtt.Client.Wire.{sent, acknowledged, same_conn, write_full_whole}

-- The packets of messages, one after another.
unfoldable pub packets : List Message → Bytes
packets [] = []
packets (m ∷ ms) = publish_packet m.topic m.payload m.retained ++ packets ms

-- The CONNECT packet of a client.
abbrev pub greeting : Options → Bytes → Bytes
greeting o password =
    connect_packet o.client_id o.username password (o.keep_alive / second % 2 ^ 16) o.will

-- A connection that the broker accepted, on which it got the CONNECT packet and those of the
-- messages.
pub record IsSession (o : Options) (c : Client) (ms : List Message) : Type 0 where
  pub id : ℕ
  pub password : Bytes
  pub same_opts : c.opts ≡ o
  pub is_open : c.conn ≡ some id
  pub accepted : acknowledged id c.log ≡ true
  pub received : sent id c.log ≡ greeting o password ++ packets ms

-- What a call yields that may fail.
abbrev Yields : (Client → Type 0) → Client × Result → Type 0
Yields P r = r.1 ≡ ok → P r.0

packets-append :
    (ms : List Message) (m : Message)
    → packets (ms ++ m ∷ []) ≡ packets ms ++ publish_packet m.topic m.payload m.retained
unfolding packets
packets-append [] m = append-nil (publish_packet m.topic m.payload m.retained)
packets-append (x ∷ ms) m = rw (packets-append ms m, append_assoc) refl

Yields-bind :
    (P Q : Client → Type 0) (r : Client × Result) (next : Client → Client × Result)
    → Yields P r
    → ((c : Client) → P c → Yields Q (next c))
    → Yields Q (r >>= next)
Yields-bind P Q (c, ok) next h k = k c (h refl)
Yields-bind P Q (c, no_address) next h k = λ e. absurd (ground arith)
Yields-bind P Q (c, dial_failed) next h k = λ e. absurd (ground arith)
Yields-bind P Q (c, password_failed) next h k = λ e. absurd (ground arith)
Yields-bind P Q (c, username_required) next h k = λ e. absurd (ground arith)
Yields-bind P Q (c, write_failed) next h k = λ e. absurd (ground arith)
Yields-bind P Q (c, read_failed) next h k = λ e. absurd (ground arith)
Yields-bind P Q (c, rejected) next h k = λ e. absurd (ground arith)

close_connection_only_closed :
    (c : Client)
    → ((close_connection_only c).conn ≡ none) × ((close_connection_only c).opts ≡ c.opts)
unfolding close_connection_only
close_connection_only_closed c = elim (Option-cases c.conn) [
  | inl e ↦ rw (close_connection_only, e) (e, refl)
  | inr (k, e) ↦ rw (close_connection_only, e) (refl, refl)
]

-- The client holds no connection, or one on which the broker got the packets of these messages.
abbrev pub IsAfter : Options → List Message → Client → Type 0
IsAfter o ms c = ((c.conn ≡ none) × (c.opts ≡ o)) ⊎ IsSession o c ms

-- The message is the last that the broker got, after the others or on a new connection.
abbrev pub IsDelivered : Options → List Message → Message → Client → Type 0
IsDelivered o ms m c = IsSession o c (ms ++ m ∷ []) ⊎ IsSession o c (m ∷ [])

module _ (net : Network) where
  await_answer-IsSession :
      (c : Client) (k : ℕ) (password : Bytes)
      → c.conn ≡ some k
      → sent k c.log ≡ greeting c.opts password
      → Yields (λ c'. IsSession c.opts c' []) (await_answer net c k)
  unfolding await_answer sent acknowledged packets
  await_answer-IsSession c k password held on_wire = elim (Option-cases (net.read_full c.log)) [
    | inl e ↦ rw (await_answer, e) (λ h. absurd (ground arith))
    | inr (response, e) ↦ elim (Bool-cases (is_accepted response)) [
      | inl a ↦
          rw (await_answer, e, a)
            (λ h. record {
              id = k;
              password = password;
              same_opts = refl;
              is_open = held;
              accepted = rw (same_conn k, a) refl;
              received = on_wire ∙ sym (append-nil _);
            })
      | inr a ↦ rw (await_answer, e, a) (λ h. absurd (ground arith))
    ]
  ]

  introduce-IsSession :
      (c : Client) (k : ℕ) (password : Bytes)
      → c.conn ≡ some k
      → sent k c.log ≡ []
      → Yields (λ c'. IsSession c.opts c' []) (introduce net c k password)
  unfolding introduce
  introduce-IsSession c k password held fresh =
      let r = write_full net k c.log (greeting c.opts password) in
      elim (Bool-cases r.1) [
        | inr e ↦ rw (introduce, e) (λ h. absurd (ground arith))
        | inl e ↦
            let (on_wire, standing) = write_full_whole net k c.log (greeting c.opts password) e in
            rw (introduce, e)
              (await_answer-IsSession (record c { log = r.0 }) k password held
                (on_wire ∙ ap (λ s. s ++ greeting c.opts password) fresh))
      ]

  greet-IsSession :
      (c : Client) (k : ℕ)
      → c.conn ≡ some k
      → sent k c.log ≡ []
      → Yields (λ c'. IsSession c.opts c' []) (greet net c k)
  unfolding greet
  greet-IsSession c k held fresh =
      elim (Option-cases (read_password net c.log c.opts.password_file)) [
        | inl e ↦ rw (greet, e) (λ h. absurd (ground arith))
        | inr (password, e) ↦
            elim (Bool-cases (not (is_empty password) && is_empty c.opts.username)) [
              | inl u ↦ rw (greet, e, u) (λ h. absurd (ground arith))
              | inr u ↦ rw (greet, e, u) (introduce-IsSession c k password held fresh)
            ]
      ]

  pub connect-IsSession :
      (c : Client) → c.conn ≡ none → Yields (λ c'. IsSession c.opts c' []) (connect net c)
  unfolding connect sent
  connect-IsSession c none_held = elim (Option-cases (broker_address net c.opts.broker)) [
    | inl a ↦ rw (connect, none_held, a) (λ h. absurd (ground arith))
    | inr (address, a) ↦
        let k = length c.log in
        elim (Bool-cases (net.dial c.log address)) [
          | inr d ↦ rw (connect, none_held, a, d) (λ h. absurd (ground arith))
          | inl d ↦
              rw (connect, none_held, a, d)
                (greet-IsSession (record c { conn = some k; log = dialled k address ∷ c.log }) k
                  refl (rw (same_conn k) refl))
        ]
  ]

  write_packet-IsSession :
      (o : Options) (c : Client) (ms : List Message) (m : Message)
      → IsSession o c ms
      → Yields
          (λ c'. IsSession o c' (ms ++ m ∷ []))
          (write_packet net c (publish_packet m.topic m.payload m.retained))
  unfolding write_packet
  write_packet-IsSession o c ms m s =
      let packet = publish_packet m.topic m.payload m.retained in
      let r = write_full net s.id c.log packet in
      elim (Bool-cases (net.done_first c.log)) [
        | inl d ↦ rw (write_packet, s.is_open, d) (λ h. absurd (ground arith))
        | inr d ↦ elim (Bool-cases r.1) [
          | inr e ↦ rw (write_packet, s.is_open, d, e) (λ h. absurd (ground arith))
          | inl e ↦
              let (on_wire, standing) = write_full_whole net s.id c.log packet e in
              let s' : IsSession o (record c { log = r.0 }) (ms ++ m ∷ []) = record {
                id = s.id;
                password = s.password;
                same_opts = s.same_opts;
                is_open = s.is_open;
                accepted = standing ∙ s.accepted;
                received =
                    on_wire
                    ∙ ap (λ bs. bs ++ packet) s.received
                    ∙ append_assoc (greeting o s.password) (packets ms) packet
                    ∙ ap (λ bs. greeting o s.password ++ bs) (sym (packets-append ms m));
              } in
              rw (write_packet, s.is_open, d, e) (λ h. s')
        ]
      ]

  connect_again-IsDelivered :
      (o : Options) (c : Client) (ms : List Message) (m : Message)
      → c.opts ≡ o
      → Yields (IsDelivered o ms m) (
          connect net (close_connection_only c) >>= λ c'.
          write_packet net c' (publish_packet m.topic m.payload m.retained))
  connect_again-IsDelivered o c ms m same =
      let (no_conn, same_after) = close_connection_only_closed c in
      Yields-bind (λ c'. IsSession o c' []) (IsDelivered o ms m)
        (connect net (close_connection_only c))
        (λ c'. write_packet net c' (publish_packet m.topic m.payload m.retained))
        (subst (λ o'. Yields (λ c'. IsSession o' c' []) (connect net (close_connection_only c)))
          (same_after ∙ same) (connect-IsSession (close_connection_only c) no_conn))
        (λ c' s e. inr (write_packet-IsSession o c' [] m s e))

  write_again-IsDelivered :
      (o : Options) (ms : List Message) (m : Message) (r : Client × Result)
      → r.0.opts ≡ o
      → Yields (λ c'. IsSession o c' (ms ++ m ∷ [])) r
      → Yields
          (IsDelivered o ms m)
          (write_again net (publish_packet m.topic m.payload m.retained) r)
  unfolding write_again
  write_again-IsDelivered o ms m (c, ok) same h = λ e. inl (h e)
  write_again-IsDelivered o ms m (c, no_address) same h = connect_again-IsDelivered o c ms m same
  write_again-IsDelivered o ms m (c, dial_failed) same h = connect_again-IsDelivered o c ms m same
  write_again-IsDelivered o ms m (c, password_failed) same h =
      connect_again-IsDelivered o c ms m same
  write_again-IsDelivered o ms m (c, username_required) same h =
      connect_again-IsDelivered o c ms m same
  write_again-IsDelivered o ms m (c, write_failed) same h = connect_again-IsDelivered o c ms m same
  write_again-IsDelivered o ms m (c, read_failed) same h = connect_again-IsDelivered o c ms m same
  write_again-IsDelivered o ms m (c, rejected) same h = connect_again-IsDelivered o c ms m same

  write_packet-opts : (c : Client) (packet : Bytes) → (write_packet net c packet).0.opts ≡ c.opts
  unfolding write_packet
  write_packet-opts c packet = ground arith

  send-IsDelivered :
      (o : Options) (c : Client) (ms : List Message) (m : Message)
      → IsSession o c ms
      → Yields (IsDelivered o ms m) (
          write_again net
            (publish_packet m.topic m.payload m.retained)
            (write_packet net c (publish_packet m.topic m.payload m.retained)))
  send-IsDelivered o c ms m s =
      let packet = publish_packet m.topic m.payload m.retained in
      write_again-IsDelivered o ms m (write_packet net c packet)
        (write_packet-opts c packet ∙ s.same_opts) (write_packet-IsSession o c ms m s)

  -- A client holds no connection, or one that the broker accepted and on which it got the CONNECT
  -- packet and those of some messages. If publishing one more returns no error, whatever failed on
  -- the way, then the client holds a connection that the broker accepted and on which it got
  -- exactly the CONNECT packet and either those of these messages and of the new one, or, where
  -- there was none or it was given up, that of the new message alone.
  pub publish_json-IsDelivered :
      (o : Options) (c : Client) (ms : List Message) (m : Message)
      → IsAfter o ms c
      → (publish_json net c m).1 ≡ ok
      → IsDelivered o ms m (publish_json net c m).0
  unfolding publish_json
  publish_json-IsDelivered o c ms m (inr s) =
      rw (publish_json, s.is_open) (send-IsDelivered o c ms m s)
  publish_json-IsDelivered o c ms m (inl (no_conn, same)) =
      let packet = publish_packet m.topic m.payload m.retained in
      rw (publish_json, no_conn)
        (Yields-bind (λ c'. IsSession o c' []) (IsDelivered o ms m) (connect net c)
          (λ c'. write_again net packet (write_packet net c' packet))
          (subst (λ o'. Yields (λ c'. IsSession o' c' []) (connect net c)) same
            (connect-IsSession c no_conn))
          (λ c' s e. elim (send-IsDelivered o c' [] m s e) [ inl d ↦ inr d | inr d ↦ inr d ]))
