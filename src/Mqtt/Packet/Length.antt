-- ===== src/Mqtt/Packet/Length.antt =====
-- The remaining length of a packet, against the decoding that MQTT 3.1.1 prescribes.
use passive_solar_mqtt_bridg.Prelude.{
  ℕ, zero, suc, ◌+◌, ◌-◌, ◌*◌, ◌/◌, ◌^◌, ◌≤◌, ◌<◌, ◌≡◌, Option, none, some, [], ◌∷◌, ◌++◌, Bytes,
  length, All, arith, ltb, ◌==◌, Bool-cases, inl, inr, if◌then◌else◌,
}
use passive_solar_mqtt_bridg.Mqtt.Packet.{length_digits, encode_remaining_length}
use native.Mathlib.Nat.{pow-suc, one-le-pow}

-- Read a length off the front: a byte of 128 or more says that another follows.
unfoldable pub read_length : Bytes → Option (ℕ × Bytes)
read_length [] = none
read_length (b ∷ bs) =
    if ltb b 128
    then some (b, bs)
    else (elim (read_length bs) [ none ↦ none | some (n, rest) ↦ some (b - 128 + 128 * n, rest) ])

read-length_digits :
    (fuel n : ℕ) (rest : Bytes)
    → n < fuel
    → read_length (length_digits fuel n ++ rest) ≡ some (n, rest)
unfolding length_digits read_length
read-length_digits zero n rest h = absurd (omega arith)
read-length_digits (suc fuel) n rest h = elim (Bool-cases (n / 128 == 0)) [
  | inl last ↦ ground arith
  | inr more ↦ ground (arith, read-length_digits fuel (n / 128) rest)
]

-- Reading back a written length gives it, whatever its size, and leaves what follows.
pub read-encode_remaining_length :
    (n : ℕ) (rest : Bytes) → read_length (encode_remaining_length n ++ rest) ≡ some (n, rest)
unfolding encode_remaining_length
read-encode_remaining_length n rest = read-length_digits (suc n) n rest (omega arith)

digits_shape :
    (k fuel n : ℕ)
    → n < fuel
    → n < 128 ^ suc k
    → (length (length_digits fuel n) ≤ suc k) × All (λ b. b < 256) (length_digits fuel n)
unfolding length_digits
digits_shape k zero n h fits = absurd (omega arith)
digits_shape zero (suc fuel) n h fits = ground arith
digits_shape (suc k) (suc fuel) n h fits = elim (Bool-cases (n / 128 == 0)) [
  | inl last ↦ ground arith
  | inr more ↦ ground (arith, pow-suc 128 (suc k), digits_shape k fuel (n / 128))
]

-- A length below 2 ^ 28 takes four bytes at most, as MQTT 3.1.1 wants it; each element written is
-- a byte.
pub encode_remaining_length_shape :
    (n : ℕ)
    → n < 2 ^ 28
    → (length (encode_remaining_length n) ≤ 4) × All (λ b. b < 256) (encode_remaining_length n)
unfolding encode_remaining_length
encode_remaining_length_shape n h = digits_shape 3 (suc n) n (omega arith) (omega arith)

digits_long : (k fuel n : ℕ) → n < fuel → 128 ^ k ≤ n → k < length (length_digits fuel n)
unfolding length_digits
digits_long k zero n h big = absurd (omega arith)
digits_long zero (suc fuel) n h big = ground arith
digits_long (suc k) (suc fuel) n h big =
    ground (arith, pow-suc 128 k, one-le-pow k 128, digits_long k fuel (n / 128))

-- From 2 ^ 28 on it takes five bytes or more, which MQTT 3.1.1 does not allow.
pub encode_remaining_length_too_long : (n : ℕ) → 2 ^ 28 ≤ n → 4 < length (encode_remaining_length n)
unfolding encode_remaining_length
encode_remaining_length_too_long n h = digits_long 4 (suc n) n (omega arith) (omega arith)
