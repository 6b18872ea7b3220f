-- ===== src/Mqtt/Packet/Publish.antt =====
-- A receiver for the packets that the client sends, after MQTT 3.1.1, and what it reads from a
-- publish packet.
use passive_solar_mqtt_bridg.Prelude.{
  ℕ, ◌+◌, ◌*◌, ◌/◌, ◌%◌, ◌^◌, ◌<◌, ◌≡◌, refl, Bool, true, false, Option, none, some, [], ◌∷◌, ◌++◌,
  append_assoc, Bytes, length, length-append, take, drop, take-length-append, drop-length-append,
  arith, ◌||◌, leb, ◌==◌, le→leb, if◌then◌else◌,
}
use passive_solar_mqtt_bridg.Mqtt.Packet.{encode_remaining_length, append_utf8, publish_packet}
use passive_solar_mqtt_bridg.Mqtt.Packet.Length.{read_length, read-encode_remaining_length}

-- A text with its length in two bytes in front, and what follows it.
unfoldable pub read_utf8 : Bytes → Option (Bytes × Bytes)
read_utf8 [] = none
read_utf8 (h ∷ []) = none
read_utf8 (h ∷ l ∷ bs) =
    let n = h * 256 + l in if leb n (length bs) then some (take n bs, drop n bs) else none

abbrev pub FitsUtf8 : Bytes → Type 0
FitsUtf8 v = length v < 2 ^ 16

pub append_utf8-append : (dst v : Bytes) → append_utf8 dst v ≡ dst ++ append_utf8 [] v
unfolding append_utf8
append_utf8-append dst v = refl

pub read-append_utf8 :
    (v rest : Bytes) → FitsUtf8 v → read_utf8 (append_utf8 [] v ++ rest) ≡ some (v, rest)
unfolding read_utf8 append_utf8
read-append_utf8 v rest h =
    let n : ℕ = length v / 256 % 256 * 256 + length v % 256 in
    let e : n ≡ length v = omega arith in
    rw (
      e,
      le→leb (length v) (length (v ++ rest)) (omega (arith, length-append v rest)),
      take-length-append v rest,
      drop-length-append v rest,
    )

-- The two-byte prefix of a packet body: the body and the bytes behind the packet.
unfoldable pub read_body : Bytes → Option (Bytes × Bytes)
read_body bs = elim (read_length bs) [
  | none ↦ none
  | some (n, rest) ↦ if leb n (length rest) then some (take n rest, drop n rest) else none
]

pub read_body-encode :
    (b rest : Bytes)
    → read_body ((encode_remaining_length (length b) ++ b) ++ rest) ≡ some (b, rest)
unfolding read_body
read_body-encode b rest = rw (
  append_assoc (encode_remaining_length (length b)) b rest,
  read_body,
  read-encode_remaining_length (length b) (b ++ rest),
  le→leb (length b) (length (b ++ rest)) (omega (arith, length-append b rest)),
  take-length-append b rest,
  drop-length-append b rest,
)

pub record Published : Type 0 where
  pub topic : Bytes
  pub payload : Bytes
  pub retained : Bool

-- A publish packet of quality of service 0: its content, and what follows it.
unfoldable pub read_publish : Bytes → Option (Published × Bytes)
read_publish [] = none
read_publish (h ∷ bs) =
    if h == 0x30 || h == 0x31
    then (elim (read_body bs) [
      | none ↦ none
      | some (b, rest) ↦ elim (read_utf8 b) [
        | none ↦ none
        | some (topic, payload) ↦
            some (record { topic = topic; payload = payload; retained = h == 0x31 }, rest)
      ]
    ])
    else none

-- Whoever reads a publish packet gets the topic, the payload and the retain flag that it was made
-- from, and the bytes behind it untouched, if the topic is shorter than 2 ^ 16 bytes.
pub read-publish_packet :
    (topic payload rest : Bytes) (retained : Bool)
    → FitsUtf8 topic
    → read_publish (publish_packet topic payload retained ++ rest)
      ≡ some (record { topic = topic; payload = payload; retained = retained }, rest)
unfolding read_publish publish_packet
read-publish_packet topic payload rest true h =
    rw (read_body-encode (append_utf8 [] topic ++ payload) rest, read-append_utf8 topic payload h)
read-publish_packet topic payload rest false h =
    rw (read_body-encode (append_utf8 [] topic ++ payload) rest, read-append_utf8 topic payload h)
