-- ===== src/Alphaess/Checksum/Detect.antt =====
-- The checksum fits 16 bits, and changes whenever one byte changes.
use passive_solar_mqtt_bridg.Prelude.{
  ℕ, zero, suc, ◌/◌, ◌^◌, ◌<◌, ◌≡◌, ◌≢◌, [], ◌∷◌, ◌++◌, Bytes, All, arith, bit_xor,
}
use passive_solar_mqtt_bridg.Prelude.Xor.{xor_cancel, xor_cancel_left, xor-lt, xor_high, and_one}
use passive_solar_mqtt_bridg.Alphaess.Checksum.{crc_bit, crc_bits, crc_bytes, crc16_modbus}

abbrev pub IsByte : ℕ → Type 0
IsByte b = b < 256

abbrev pub IsU16 : ℕ → Type 0
IsU16 c = c < 2 ^ 16

crc_bit-IsU16 : (c : ℕ) → IsU16 c → IsU16 (crc_bit c)
unfolding crc_bit
crc_bit-IsU16 c h = ground (arith, xor-lt 16 (c / 2) 0xa001)

crc_bit_injective : (c c' : ℕ) → IsU16 c → IsU16 c' → crc_bit c ≡ crc_bit c' → c ≡ c'
unfolding crc_bit
crc_bit_injective c c' h h' e = ground (
  arith,
  and_one c,
  and_one c',
  xor_high 15 (c / 2) 0xa001,
  xor_high 15 (c' / 2) 0xa001,
  xor_cancel (c / 2) (c' / 2) 0xa001,
)

crc_bits-IsU16 : (n c : ℕ) → IsU16 c → IsU16 (crc_bits n c)
unfolding crc_bits
crc_bits-IsU16 zero c h = h
crc_bits-IsU16 (suc n) c h = crc_bits-IsU16 n (crc_bit c) (crc_bit-IsU16 c h)

crc_bits_injective : (n c c' : ℕ) → IsU16 c → IsU16 c' → crc_bits n c ≡ crc_bits n c' → c ≡ c'
unfolding crc_bits
crc_bits_injective zero c c' h h' e = e
crc_bits_injective (suc n) c c' h h' e =
    crc_bit_injective c c' h h'
      (crc_bits_injective n (crc_bit c) (crc_bit c') (crc_bit-IsU16 c h) (crc_bit-IsU16 c' h') e)

mixed-IsU16 : (c b : ℕ) → IsU16 c → IsByte b → IsU16 (bit_xor c b)
mixed-IsU16 c b h k = xor-lt 16 c b h (omega arith)

crc_bytes-IsU16 : (d : Bytes) (c : ℕ) → IsU16 c → All IsByte d → IsU16 (crc_bytes c d)
unfolding crc_bytes
crc_bytes-IsU16 [] c h bytes = h
crc_bytes-IsU16 (b ∷ d) c h (byte, bytes) =
    crc_bytes-IsU16 d _ (crc_bits-IsU16 8 (bit_xor c b) (mixed-IsU16 c b h byte)) bytes

-- The checksum of bytes is a `uint16`.
crc16_modbus-IsU16 : (d : Bytes) → All IsByte d → IsU16 (crc16_modbus d)
unfolding crc16_modbus
crc16_modbus-IsU16 d bytes = crc_bytes-IsU16 d 0xffff (omega arith) bytes

crc_bytes_injective :
    (d : Bytes) (c c' : ℕ)
    → IsU16 c
    → IsU16 c'
    → All IsByte d
    → crc_bytes c d ≡ crc_bytes c' d
    → c ≡ c'
unfolding crc_bytes
crc_bytes_injective [] c c' h h' bytes e = e
crc_bytes_injective (b ∷ d) c c' h h' (byte, bytes) e =
    let wide = mixed-IsU16 c b h byte in
    let wide' = mixed-IsU16 c' b h' byte in
    xor_cancel c c' b (
      crc_bits_injective 8 (bit_xor c b) (bit_xor c' b) wide wide'
        (crc_bytes_injective d _ _ (crc_bits-IsU16 8 _ wide) (crc_bits-IsU16 8 _ wide') bytes e))

crc_bytes_detects :
    (front back : Bytes) (c b b' : ℕ)
    → IsU16 c
    → All IsByte front
    → All IsByte back
    → IsByte b
    → IsByte b'
    → crc_bytes c (front ++ b ∷ back) ≡ crc_bytes c (front ++ b' ∷ back)
    → b ≡ b'
unfolding crc_bytes
crc_bytes_detects [] back c b b' h fs bs byte byte' e =
    let wide = mixed-IsU16 c b h byte in
    let wide' = mixed-IsU16 c b' h byte' in
    xor_cancel_left c b b' (
      crc_bits_injective 8 (bit_xor c b) (bit_xor c b') wide wide'
        (crc_bytes_injective back _ _ (crc_bits-IsU16 8 _ wide) (crc_bits-IsU16 8 _ wide') bs e))
crc_bytes_detects (f ∷ front) back c b b' h (x, fs) bs byte byte' e =
    crc_bytes_detects front back _ b b' (crc_bits-IsU16 8 _ (mixed-IsU16 c f h x)) fs bs byte byte'
      e

-- Two byte strings that differ in exactly one byte have different checksums: every change of a
-- single byte is detected, whatever stands before and behind it.
pub crc16_modbus_detects :
    (front back : Bytes) (b b' : ℕ)
    → All IsByte front
    → All IsByte back
    → IsByte b
    → IsByte b'
    → b ≢ b'
    → crc16_modbus (front ++ b ∷ back) ≢ crc16_modbus (front ++ b' ∷ back)
unfolding crc16_modbus
crc16_modbus_detects front back b b' fs bs byte byte' apart e =
    apart (crc_bytes_detects front back 0xffff b b' (omega arith) fs bs byte byte' e)
