-- ===== src/Mqtt/Packet.antt =====
-- The packets of internal/mqtt/client.go, byte by byte. A Go string is the list of its bytes.
pub mod Length
pub mod Publish
pub mod Connect
mod Runs
use passive_solar_mqtt_bridg.Prelude.{
  ℕ, zero, suc, ◌+◌, ◌/◌, ◌%◌, Bool, true, false, not, List, [], ◌∷◌, ◌++◌, Bytes, length, ◌==◌,
  if◌then◌else◌, bit_or,
}

-- The loop of `encodeRemainingLength`, seven bits a byte, lowest first. A digit is below 128, so
-- `digit |= 0x80` adds 128. Each round divides the length by 128, so one round more than the length is enough.
unfoldable pub length_digits : ℕ → ℕ → Bytes
length_digits zero n = []
length_digits (suc fuel) n =
    let rest = length_digits fuel (n / 128) in
    if n / 128 == 0 then (n % 128) ∷ [] else (n % 128 + 128) ∷ rest

unfoldable pub encode_remaining_length : ℕ → Bytes
encode_remaining_length n = length_digits (suc n) n

-- `byte(x)` keeps the low eight bits.
unfoldable pub append_utf8 : Bytes → Bytes → Bytes
append_utf8 dst value = dst ++ (length value / 256 % 256) ∷ (length value % 256) ∷ value

unfoldable pub publish_packet : Bytes → Bytes → Bool → Bytes
publish_packet topic payload retained =
    let header : ℕ = if retained then bit_or 0x30 0x01 else 0x30 in
    let variable_and_payload = append_utf8 [] topic ++ payload in
    header ∷ encode_remaining_length (length variable_and_payload) ++ variable_and_payload

pub record WillOptions : Type 0 where
  pub topic : Bytes
  pub payload : Bytes
  pub retained : Bool

-- `s != ""`
abbrev pub is_given : Bytes → Bool
is_given [] = false
is_given (b ∷ bs) = true

-- The connect flags: clean session, and what the packet carries.
unfoldable pub flags_with : Bool → Bool → Bool → Bool → ℕ
flags_with has_will will_retained has_username has_password =
    let session : ℕ = 0x02 in
    let willing : ℕ =
      if has_will
      then (if will_retained then bit_or (bit_or session 0x04) 0x20 else bit_or session 0x04)
      else session in
    let named : ℕ = if has_username then bit_or willing 0x80 else willing in
    if has_password then bit_or named 0x40 else named

unfoldable pub connect_flags : Bytes → Bytes → WillOptions → ℕ
connect_flags username password will =
    flags_with (is_given will.topic) will.retained (is_given username) (is_given password)

-- A part that is appended only if it is there.
unfoldable pub append_given : Bool → Bytes → Bytes → Bytes
append_given given dst value = if given then append_utf8 dst value else dst

-- "MQTT"
abbrev pub protocol_name : Bytes
protocol_name = b'M' ∷ b'Q' ∷ b'T' ∷ b'T' ∷ []

unfoldable pub connect_packet : Bytes → Bytes → Bytes → ℕ → WillOptions → Bytes
connect_packet client_id username password keep_alive_seconds will =
    let has_will = is_given will.topic in
    let fixed =
      append_utf8 [] protocol_name
      ++ 0x04
        ∷ connect_flags username password will
        ∷ (keep_alive_seconds / 256 % 256)
        ∷ (keep_alive_seconds % 256)
        ∷ [] in
    let identified = append_utf8 fixed client_id in
    let willed = append_given has_will (append_given has_will identified will.topic) will.payload in
    let named = append_given (is_given username) willed username in
    let variable_and_payload = append_given (is_given password) named password in
    0x10 ∷ encode_remaining_length (length variable_and_payload) ++ variable_and_payload
