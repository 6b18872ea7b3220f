-- ===== src/Mqtt/Packet/Runs.antt =====
-- Packets byte by byte, and the theorems about them at concrete inputs.
use passive_solar_mqtt_bridg.Prelude.{
  ◌<◌, ◌≤◌, ◌≡◌, refl, true, some, [], ◌∷◌, ◌++◌, Bytes, length, All, arith,
}
use passive_solar_mqtt_bridg.Mqtt.Packet.{
  WillOptions, length_digits, encode_remaining_length, append_utf8, publish_packet, flags_with,
  connect_flags, append_given, connect_packet,
}
use passive_solar_mqtt_bridg.Mqtt.Packet.Length.{
  read_length, read-encode_remaining_length, encode_remaining_length_shape,
  encode_remaining_length_too_long,
}
use passive_solar_mqtt_bridg.Mqtt.Packet.Publish.{read_publish, read-publish_packet}
use passive_solar_mqtt_bridg.Mqtt.Packet.Connect.{read_connect, connecting, read-connect_packet}

-- "a/b" and "on"
abbrev topic : Bytes
topic = b'a' ∷ b'/' ∷ b'b' ∷ []

abbrev text : Bytes
text = b'o' ∷ b'n' ∷ []

length_321 : encode_remaining_length 321 ≡ 193 ∷ 2 ∷ []
unfolding encode_remaining_length length_digits
length_321 = refl

publish_bytes :
    publish_packet topic text true ≡ 0x31 ∷ 7 ∷ 0 ∷ 3 ∷ b'a' ∷ b'/' ∷ b'b' ∷ b'o' ∷ b'n' ∷ []
unfolding publish_packet append_utf8 encode_remaining_length length_digits
publish_bytes = refl

abbrev offline : WillOptions
offline = record { topic = topic; payload = text; retained = true }

connect_bytes :
    connect_packet (b'c' ∷ []) (b'u' ∷ []) [] 30 offline
    ≡ 0x10 ∷ 25 ∷ 0 ∷ 4 ∷ b'M' ∷ b'Q' ∷ b'T' ∷ b'T' ∷ 4 ∷ 0xa6 ∷ 0 ∷ 30 ∷ 0 ∷ 1 ∷ b'c' ∷ 0 ∷ 3
      ∷ b'a' ∷ b'/' ∷ b'b' ∷ 0 ∷ 2 ∷ b'o' ∷ b'n' ∷ 0 ∷ 1 ∷ b'u' ∷ []
unfolding connect_packet connect_flags flags_with append_given append_utf8 encode_remaining_length
    length_digits
connect_bytes = refl

read-encode_remaining_length_example :
    read_length (encode_remaining_length 321 ++ 9 ∷ []) ≡ some (321, 9 ∷ [])
read-encode_remaining_length_example = read-encode_remaining_length 321 (9 ∷ [])

encode_remaining_length_shape_example :
    (length (encode_remaining_length 268435455) ≤ 4)
    × All (λ b. b < 256) (encode_remaining_length 268435455)
encode_remaining_length_shape_example = encode_remaining_length_shape 268435455 (omega arith)

encode_remaining_length_too_long_example : 4 < length (encode_remaining_length 268435456)
encode_remaining_length_too_long_example = encode_remaining_length_too_long 268435456 (omega arith)

read-publish_packet_example :
    read_publish (publish_packet topic text true ++ 5 ∷ [])
    ≡ some (record { topic = topic; payload = text; retained = true }, 5 ∷ [])
read-publish_packet_example = read-publish_packet topic text (5 ∷ []) true (omega arith)

read-connect_packet_example :
    read_connect (connect_packet (b'c' ∷ []) text [] 30 offline ++ [])
    ≡ some (connecting (b'c' ∷ []) text [] 30 offline, [])
read-connect_packet_example = read-connect_packet (b'c' ∷ []) text [] 30 offline [] (record {
  client_id_fits = omega arith;
  username_fits = omega arith;
  password_fits = omega arith;
  topic_fits = omega arith;
  payload_fits = omega arith;
  keep_alive_fits = omega arith;
})
