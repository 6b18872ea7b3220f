-- ===== src/Mqtt/Packet/Connect.antt =====
-- What a broker reads from the connect packet, after MQTT 3.1.1.
use passive_solar_mqtt_bridg.Prelude.{
  ℕ, ◌+◌, ◌*◌, ◌/◌, ◌%◌, ◌^◌, ◌<◌, ◌≡◌, refl, sym, ap, Bool, true, false, ◌&&◌, Option, none, some,
  [], ◌∷◌, ◌++◌, append_assoc, append-nil, Bytes, length, arith, ◌==◌, if◌then◌else◌,
}
use passive_solar_mqtt_bridg.Mqtt.Packet.{
  WillOptions, is_given, encode_remaining_length, append_utf8, connect_flags, flags_with,
  append_given, protocol_name, connect_packet,
}
use passive_solar_mqtt_bridg.Mqtt.Packet.Publish.{
  FitsUtf8, read_utf8, read_body, read_body-encode, read-append_utf8, append_utf8-append,
}

pub record Connecting : Type 0 where
  pub protocol : Bytes
  pub level : ℕ
  pub clean_session : Bool
  pub keep_alive : ℕ
  pub client_id : Bytes
  pub will : Option WillOptions
  pub username : Option Bytes
  pub password : Option Bytes

infixl 5 ◌>>=◌
abbrev ◌>>=◌ {ℓ κ} : {A : Type ℓ} {B : Type κ} → Option A → (A → Option B) → Option B
none >>= f = none
some a >>= f = f a

-- A text that stands there only if its flag is set.
unfoldable pub read_given : Bool → Bytes → Option (Option Bytes × Bytes)
read_given true bs = do (v, rest) ← read_utf8 bs; some (some v, rest)
read_given false bs = some (none, bs)

-- One bit of the connect flags.
abbrev pub flag : ℕ → ℕ → Bool
flag flags bit = flags / bit % 2 == 1

abbrev pub with_payload : Option Bytes → Option Bytes → Bool → Option WillOptions
with_payload (some t) (some p) r = some (record { topic = t; payload = p; retained = r })
with_payload (some t) none r = none
with_payload none p r = none

unfoldable pub read_fields : Bytes → ℕ → ℕ → ℕ → Bytes → Option Connecting
read_fields protocol level flags keep_alive bs = do
  (client_id, r1) ← read_utf8 bs
  (topic, r2) ← read_given (flag flags 0x04) r1
  (payload, r3) ← read_given (flag flags 0x04) r2
  (username, r4) ← read_given (flag flags 0x80) r3
  (password, r5) ← read_given (flag flags 0x40) r4
  some record {
    protocol = protocol;
    level = level;
    clean_session = flag flags 0x02;
    keep_alive = keep_alive;
    client_id = client_id;
    will = with_payload topic payload (flag flags 0x20);
    username = username;
    password = password;
  }

unfoldable pub read_variable : Bytes → Bytes → Option Connecting
read_variable protocol (level ∷ flags ∷ h ∷ l ∷ bs) =
    read_fields protocol level flags (h * 256 + l) bs
read_variable protocol bs = none

unfoldable pub read_connect : Bytes → Option (Connecting × Bytes)
read_connect [] = none
read_connect (h ∷ bs) =
    if h == 0x10
    then (do
      (b, rest) ← read_body bs
      (protocol, r) ← read_utf8 b
      c ← read_variable protocol r
      some (c, rest))
    else none

-- What the flags say, for each choice of what is given.
abbrev SaysFlags : Bool → Bool → Bool → Bool → ℕ → Type 0
SaysFlags t r u p flags =
    (flag flags 0x02 ≡ true)
    × (flag flags 0x04 ≡ t)
    × (flag flags 0x20 ≡ (t && r))
    × (flag flags 0x80 ≡ u)
    × (flag flags 0x40 ≡ p)

flags_say : (t r u p : Bool) → SaysFlags t r u p (flags_with t r u p)
unfolding flags_with
flags_say true true true true = (refl, refl, refl, refl, refl)
flags_say true true true false = (refl, refl, refl, refl, refl)
flags_say true true false true = (refl, refl, refl, refl, refl)
flags_say true true false false = (refl, refl, refl, refl, refl)
flags_say true false true true = (refl, refl, refl, refl, refl)
flags_say true false true false = (refl, refl, refl, refl, refl)
flags_say true false false true = (refl, refl, refl, refl, refl)
flags_say true false false false = (refl, refl, refl, refl, refl)
flags_say false true true true = (refl, refl, refl, refl, refl)
flags_say false true true false = (refl, refl, refl, refl, refl)
flags_say false true false true = (refl, refl, refl, refl, refl)
flags_say false true false false = (refl, refl, refl, refl, refl)
flags_say false false true true = (refl, refl, refl, refl, refl)
flags_say false false true false = (refl, refl, refl, refl, refl)
flags_say false false false true = (refl, refl, refl, refl, refl)
flags_say false false false false = (refl, refl, refl, refl, refl)

-- A part that is there if `given` says so, as the receiver reads it.
abbrev optional : Bool → Bytes → Bytes
optional true v = append_utf8 [] v
optional false v = []

abbrev present : Bool → Bytes → Option Bytes
present true v = some v
present false v = none

append_given-optional :
    (given : Bool) (dst v : Bytes) → append_given given dst v ≡ dst ++ optional given v
unfolding append_given
append_given-optional true dst v = append_utf8-append dst v
append_given-optional false dst v = sym (append-nil dst)

read-optional :
    (given : Bool) (v rest : Bytes)
    → FitsUtf8 v
    → read_given given (optional given v ++ rest) ≡ some (present given v, rest)
unfolding read_given
read-optional true v rest h = rw (read-append_utf8 v rest h)
read-optional false v rest h = refl

-- What a broker should see.
pub connecting : Bytes → Bytes → Bytes → ℕ → WillOptions → Connecting
connecting client_id username password keep_alive will = record {
  protocol = protocol_name;
  level = 4;
  clean_session = true;
  keep_alive = keep_alive;
  client_id = client_id;
  will = if is_given will.topic then some will else none;
  username = if is_given username then some username else none;
  password = if is_given password then some password else none;
}

-- Everything behind the keep-alive time, bracketed as the receiver reads it.
parts : Bytes → Bytes → Bytes → WillOptions → Bytes
parts client_id username password will =
    append_utf8 [] client_id
    ++ (optional (is_given will.topic) will.topic
        ++ (optional (is_given will.topic) will.payload
            ++ (optional (is_given username) username
                ++ (optional (is_given password) password ++ []))))

-- All texts fit their two-byte lengths, and the keep-alive time fits a `uint16`.
pub record FitsConnect (client_id username password : Bytes) (keep_alive : ℕ) (will : WillOptions)
    : Type 0 where
  pub client_id_fits : FitsUtf8 client_id
  pub username_fits : FitsUtf8 username
  pub password_fits : FitsUtf8 password
  pub topic_fits : FitsUtf8 will.topic
  pub payload_fits : FitsUtf8 will.payload
  pub keep_alive_fits : keep_alive < 2 ^ 16

word : (n : ℕ) → n < 2 ^ 16 → n / 256 % 256 * 256 + n % 256 ≡ n
word n h = omega arith

present-if : (given : Bool) (v : Bytes) → present given v ≡ (if given then some v else none)
present-if true v = refl
present-if false v = refl

present_will :
    (given : Bool) (will : WillOptions)
    → with_payload (present given will.topic) (present given will.payload) (given && will.retained)
      ≡ (if given then some will else none)
present_will true will = refl
present_will false will = refl

module _ (client_id username password : Bytes) (keep_alive : ℕ) (will : WillOptions) where
  read_fields-parts :
      FitsConnect client_id username password keep_alive will
      → read_fields protocol_name 4
          (connect_flags username password will)
          keep_alive
          (parts client_id username password will)
        ≡ some (connecting client_id username password keep_alive will)
  unfolding read_fields parts connecting connect_flags
  read_fields-parts f =
      let (clean, t, r, u, p) =
        flags_say (is_given will.topic) will.retained (is_given username) (is_given password) in
      rw (
        read-append_utf8 client_id _ f.client_id_fits,
        t,
        read-optional (is_given will.topic) will.topic _ f.topic_fits,
        read-optional (is_given will.topic) will.payload _ f.payload_fits,
        u,
        read-optional (is_given username) username _ f.username_fits,
        p,
        read-optional (is_given password) password _ f.password_fits,
        clean,
        r,
        present-if (is_given username) username,
        present-if (is_given password) password,
        present_will (is_given will.topic) will,
      )

  fixed : Bytes
  fixed =
      append_utf8 [] protocol_name
      ++ 4
        ∷ connect_flags username password will
        ∷ (keep_alive / 256 % 256)
        ∷ (keep_alive % 256)
        ∷ []

  -- The packet's content, bracketed to the right.
  content : Bytes
  content =
      append_utf8 [] protocol_name
      ++ 4
        ∷ connect_flags username password will
        ∷ (keep_alive / 256 % 256)
        ∷ (keep_alive % 256)
        ∷ parts client_id username password will

  regrouped :
      append_given
        (is_given password)
        (append_given
          (is_given username)
          (append_given
            (is_given will.topic)
            (append_given (is_given will.topic) (append_utf8 fixed client_id) will.topic)
            will.payload)
          username)
        password
      ≡ content
  unfolding fixed content parts
  regrouped =
      simp append_given-optional
        (rw (append_utf8-append fixed client_id) (simp (append_assoc, append-nil)))

  packet-content :
      connect_packet client_id username password keep_alive will
      ≡ 0x10 ∷ (encode_remaining_length (length content) ++ content)
  unfolding connect_packet fixed
  packet-content = ap (λ (c : Bytes). 0x10 ∷ (encode_remaining_length (length c) ++ c)) regrouped

  -- Whoever reads the connect packet gets the protocol MQTT, level 4, a clean session, the client's
  -- name and keep-alive time, and the will, the username and the password exactly if they were
  -- given, with the bytes behind the packet untouched, where all of these fit their fields.
  pub read-connect_packet :
      (rest : Bytes)
      → FitsConnect client_id username password keep_alive will
      → read_connect (connect_packet client_id username password keep_alive will ++ rest)
        ≡ some (connecting client_id username password keep_alive will, rest)
  unfolding read_connect read_variable
  read-connect_packet rest f =
      rw (packet-content, read_body-encode content rest)
        (unfold content in
          rw (
            read-append_utf8 protocol_name _ (omega arith),
            word keep_alive f.keep_alive_fits,
            read_fields-parts f,
          ))
