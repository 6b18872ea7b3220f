-- ===== src/Alphaess/Checksum.antt =====
-- `crc16Modbus` of internal/alphaess/decoder.go.
pub mod Detect
use passive_solar_mqtt_bridg.Prelude.{
  ℕ, zero, suc, ◌/◌, List, [], ◌∷◌, Bytes, ◌==◌, if◌then◌else◌, bit_and, bit_xor,
}

-- `if crc&1 != 0 { crc = (crc >> 1) ^ 0xa001 } else { crc >>= 1 }`
unfoldable pub crc_bit : ℕ → ℕ
crc_bit crc = if bit_and crc 1 == 0 then crc / 2 else bit_xor (crc / 2) 0xa001

unfoldable pub crc_bits : ℕ → ℕ → ℕ
crc_bits zero crc = crc
crc_bits (suc n) crc = crc_bits n (crc_bit crc)

unfoldable pub crc_bytes : ℕ → Bytes → ℕ
crc_bytes crc [] = crc
crc_bytes crc (b ∷ bs) = crc_bytes (crc_bits 8 (bit_xor crc b)) bs

unfoldable pub crc16_modbus : Bytes → ℕ
crc16_modbus = crc_bytes 0xffff
