-- ===== src/Mqtt/Client.antt =====
-- internal/mqtt/client.go: the client, its connection and what it writes on it.
-- The network is the parameter `Network`: each of its answers may depend on all that happened
-- before, which is the log, newest first. A connection is the length of the log when it was dialled.
pub mod Trace
pub mod Wire
pub mod Session
pub mod Recovery
pub mod Series
mod Runs
use passive_solar_mqtt_bridg.Prelude.{
  ℕ, zero, suc, ◌*◌, ◌/◌, ◌%◌, ◌^◌, Bool, true, false, not, ◌&&◌, ◌||◌, Option, none, some, List,
  [], ◌∷◌, ◌++◌, Bytes, length, take, drop, ◌==◌, if◌then◌else◌,
}
use passive_solar_mqtt_bridg.Prelude.Text.{codes, is_empty, same_bytes}
use passive_solar_mqtt_bridg.Config.Text.{trim_space}
use passive_solar_mqtt_bridg.Mqtt.{Message}
use passive_solar_mqtt_bridg.Mqtt.Packet.{WillOptions, connect_packet, publish_packet}

-- What happens on the network. `abandoned` is a write that the method left to its goroutine: when
-- it happens, how much of it, and on which connection is not known.
pub data Event : Type 0 where
  dialled : ℕ → Bytes → Event
  wrote answered abandoned : ℕ → Bytes → Event
  closed : ℕ → Event

-- `url.Parse` gives the scheme and the host; `write` the bytes that were taken and whether there
-- was an error; `read_full` what `io.ReadFull` reads; `done_first` says whether `writePacket` sees
-- the end of its context before that of the write.
pub record Network : Type 0 where
  pub parse_url : Bytes → Option (Bytes × Bytes)
  pub dial : List Event → Bytes → Bool
  pub write : List Event → Bytes → ℕ × Bool
  pub read_full : List Event → Option Bytes
  pub read_file : List Event → Bytes → Option Bytes
  pub done_first : List Event → Bool

-- A duration is in nanoseconds.
pub record Options : Type 0 where
  pub broker : Bytes
  pub client_id : Bytes
  pub username : Bytes
  pub password_file : Bytes
  pub keep_alive : ℕ
  pub will : WillOptions

pub record Client : Type 0 where
  pub opts : Options
  pub conn : Option ℕ
  pub log : List Event

pub data Result : Type 0 where
  ok no_address dial_failed password_failed username_required write_failed read_failed rejected :
      Result

-- `err == nil`
unfoldable pub is_ok : Result → Bool
is_ok ok = true
is_ok no_address = false
is_ok dial_failed = false
is_ok password_failed = false
is_ok username_required = false
is_ok write_failed = false
is_ok read_failed = false
is_ok rejected = false

abbrev pub second : ℕ
second = 10 ^ 9

unfoldable pub new_client : Options → Client
new_client opts = record {
  opts = record opts { keep_alive = if opts.keep_alive == 0 then 30 * second else opts.keep_alive };
  conn = none;
  log = [];
}

-- `strings.Contains` with one byte.
unfoldable pub contains_byte : ℕ → Bytes → Bool
contains_byte c [] = false
contains_byte c (b ∷ bs) = b == c || contains_byte c bs

-- The answer of the broker that `Connect` accepts.
unfoldable pub is_accepted : Bytes → Bool
is_accepted response = same_bytes response (0x20 ∷ 0x02 ∷ 0x00 ∷ 0x00 ∷ [])

abbrev pub disconnect_packet : Bytes
disconnect_packet = 0xe0 ∷ 0x00 ∷ []

infixl 5 ◌>>=◌
-- `if err := …; err != nil { return err }`, and then the rest.
abbrev pub ◌>>=◌ : Client × Result → (Client → Client × Result) → Client × Result
(c, ok) >>= next = next c
(c, no_address) >>= next = (c, no_address)
(c, dial_failed) >>= next = (c, dial_failed)
(c, password_failed) >>= next = (c, password_failed)
(c, username_required) >>= next = (c, username_required)
(c, write_failed) >>= next = (c, write_failed)
(c, read_failed) >>= next = (c, read_failed)
(c, rejected) >>= next = (c, rejected)

unfoldable pub close_connection_only : Client → Client
close_connection_only c = elim c.conn [
  | none ↦ c
  | some k ↦ record c { conn = none; log = closed k ∷ c.log }
]

module _ (net : Network) where
  unfoldable pub broker_address : Bytes → Option Bytes
  broker_address raw = elim (net.parse_url raw) [
    | none ↦ none
    | some (scheme, host) ↦
        if not (same_bytes scheme (codes "tcp"))
        then none
        else if is_empty host
        then none
        else if not (contains_byte b':' host)
        then some (host ++ codes ":1883")
        else some host
  ]

  unfoldable pub read_password : List Event → Bytes → Option Bytes
  read_password log path = if is_empty path then some [] else (elim (net.read_file log path) [
    | none ↦ none
    | some data_read ↦ some (trim_space data_read)
  ])

  -- The loop of `writeFull`. Each round takes a byte at least, so that one round more than there
  -- are bytes is enough.
  unfoldable pub write_rounds : ℕ → ℕ → List Event → Bytes → List Event × Bool
  write_rounds zero k log bytes = (log, false)
  write_rounds (suc fuel) k log [] = (log, true)
  write_rounds (suc fuel) k log (b ∷ bs) =
      let (n, failed) = net.write log (b ∷ bs) in
      let log' = wrote k (take n (b ∷ bs)) ∷ log in
      let rest = write_rounds fuel k log' (drop n (b ∷ bs)) in
      if failed then (log', false) else if n == 0 then (log', false) else rest

  unfoldable pub write_full : ℕ → List Event → Bytes → List Event × Bool
  write_full k log bytes = write_rounds (suc (length bytes)) k log bytes

  unfoldable pub close : Client → Client
  close c = elim c.conn [
    | none ↦ c
    | some k ↦ record c { conn = none; log = closed k ∷ (write_full k c.log disconnect_packet).0 }
  ]

  -- `Connect` from the read of the broker's answer on.
  unfoldable pub await_answer : Client → ℕ → Client × Result
  await_answer c k = elim (net.read_full c.log) [
    | none ↦ (close c, read_failed)
    | some response ↦
        let c' = record c { log = answered k response ∷ c.log } in
        if is_accepted response then (c', ok) else (close c', rejected)
  ]

  -- `Connect` from the write of its packet on.
  unfoldable pub introduce : Client → ℕ → Bytes → Client × Result
  introduce c k password =
      let o = c.opts in
      let packet =
        connect_packet o.client_id o.username password (o.keep_alive / second % 2 ^ 16) o.will in
      let (log', written) = write_full k c.log packet in
      let c' = record c { log = log' } in
      if written then await_answer c' k else (close c', write_failed)

  -- `Connect` once the connection stands.
  unfoldable pub greet : Client → ℕ → Client × Result
  greet c k = elim (read_password c.log c.opts.password_file) [
    | none ↦ (close c, password_failed)
    | some password ↦
        if not (is_empty password) && is_empty c.opts.username
        then (close c, username_required)
        else introduce c k password
  ]

  -- The receiver is never nil.
  unfoldable pub connect : Client → Client × Result
  connect c = elim c.conn [
    | some k ↦ (c, ok)
    | none ↦ elim (broker_address c.opts.broker) [
      | none ↦ (c, no_address)
      | some address ↦
          let k = length c.log in
          if net.dial c.log address
          then greet (record c { conn = some k; log = dialled k address ∷ c.log }) k
          else (c, dial_failed)
    ]
  ]

  -- A connection is held wherever this is called. The write runs aside: if the context is done
  -- first, the method returns and leaves it to itself.
  unfoldable pub write_packet : Client → Bytes → Client × Result
  write_packet c packet = elim c.conn [
    | none ↦ (c, write_failed)
    | some k ↦
        let (log', written) = write_full k c.log packet in
        let c' = record c { log = log' } in
        if net.done_first c.log
        then (record c { log = abandoned k packet ∷ c.log }, write_failed)
        else if written
        then (c', ok)
        else (c', write_failed)
  ]

  -- The write, and the second attempt on a new connection after it failed.
  unfoldable pub write_again : Bytes → Client × Result → Client × Result
  write_again packet (c', ok) = (c', ok)
  write_again packet (c', r) = connect (close_connection_only c') >>= λ c''. write_packet c'' packet

  unfoldable pub publish_json : Client → Message → Client × Result
  publish_json c m = elim c.conn [ none ↦ connect c | some k ↦ (c, ok) ] >>= λ c'.
      let packet = publish_packet m.topic m.payload m.retained in
      write_again packet (write_packet c' packet)

  -- The loop of `PublishAll`.
  unfoldable pub publish_each : Client → List Message → Client × Result
  publish_each c [] = (c, ok)
  publish_each c (m ∷ ms) = publish_json c m >>= λ c'. publish_each c' ms

  -- `PublishAll` with this client; `Close` is deferred once the client is connected.
  unfoldable pub publish_all : Client → List Message → Client × Result
  publish_all c ms = connect c >>= λ c'. let (c'', r) = publish_each c' ms in (close c'', r)

  -- Whether this client publishes a message, after those that it published since.
  unfoldable pub client_accepts : Client → List Message → Message → Bool
  client_accepts c published m = is_ok (publish_json (publish_each c published).0 m).1
