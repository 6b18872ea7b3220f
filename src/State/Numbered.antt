-- ===== src/State/Numbered.antt =====
-- Which keys are numbered: those with a digit behind the prefix, and none with other bytes.
use passive_solar_mqtt_bridg.Prelude.{
  ℕ, ◌≤◌, ◌<◌, ◌≡◌, ◌⊎◌, refl, inl, inr, some, [], ◌∷◌, ◌++◌, Bytes, All, arith, true, false,
  Bool-cases, Option-cases, ◌&&◌, not, ◌==◌,
}
use passive_solar_mqtt_bridg.Prelude.Text.{bytes_eq, is_empty}
use passive_solar_mqtt_bridg.State.{
  after_prefix, all_digits, digits_number, is_number_below, is_atoi, is_numbered, text_le,
}

after_prefix-append : (p s : Bytes) → after_prefix p (p ++ s) ≡ some s
unfolding after_prefix
after_prefix-append [] s = refl
after_prefix-append (b ∷ p) s = ground (arith, after_prefix-append p s)

after_prefix_inv : (p k s : Bytes) → after_prefix p k ≡ some s → k ≡ p ++ s
unfolding after_prefix
after_prefix_inv [] k s h = ground arith
after_prefix_inv (b ∷ p) [] s h = cc
after_prefix_inv (b ∷ p) (c ∷ k) s h = ground (arith, after_prefix_inv p k s)

digit_is_atoi : (d : ℕ) → 48 ≤ d → d ≤ 57 → is_atoi (d ∷ []) ≡ true
unfolding is_atoi is_number_below all_digits digits_number
digit_is_atoi d h k = ground arith

pub digit_is_numbered : (p : Bytes) (d : ℕ) → 48 ≤ d → d ≤ 57 → is_numbered p (p ++ d ∷ []) ≡ true
unfolding is_numbered
digit_is_numbered p d h k =
    rw (is_numbered, after_prefix-append p (d ∷ []), digit_is_atoi d h k) refl

pub digits_in_order : (p : Bytes) (d e : ℕ) → d < e → text_le (p ++ d ∷ []) (p ++ e ∷ []) ≡ true
unfolding text_le
digits_in_order [] d e h = ground arith
digits_in_order (b ∷ p) d e h = ground (arith, digits_in_order p d e h)

-- A digit or a sign.
abbrev pub IsNumeral : ℕ → Type 0
IsNumeral b = (48 ≤ b) × (b ≤ 57) ⊎ (b ≡ 43) ⊎ (b ≡ 45)

-- The prefix is not followed by digits and signs alone.
abbrev pub HasNoNumber : Bytes → Bytes → Type 0
HasNoNumber prefix key = (s : Bytes) → key ≡ prefix ++ s → (s ≡ []) ⊎ (All IsNumeral s → ⊥)

all_digits-IsNumeral : (s : Bytes) → all_digits s ≡ true → All IsNumeral s
unfolding all_digits
all_digits-IsNumeral [] h = tt
all_digits-IsNumeral (b ∷ s) h = (ground arith, all_digits-IsNumeral s (ground arith))

below-IsNumeral : (n : ℕ) (s : Bytes) → is_number_below n s ≡ true → All IsNumeral s
unfolding is_number_below
below-IsNumeral n s h = all_digits-IsNumeral s (ground arith)

is_atoi-IsNumeral : (s : Bytes) → is_atoi s ≡ true → All IsNumeral s
unfolding is_atoi
is_atoi-IsNumeral [] h = tt
is_atoi-IsNumeral (b ∷ s) h = elim (Bool-cases (b == 45)) [
  | inl e ↦ (ground arith, below-IsNumeral _ s (rw (is_atoi, e) at h))
  | inr e ↦ elim (Bool-cases (b == 43)) [
    | inl f ↦ (ground arith, below-IsNumeral _ s (rw (is_atoi, e, f) at h))
    | inr f ↦ below-IsNumeral _ (b ∷ s) (rw (is_atoi, e, f) at h)
  ]
]

pub plain_not_numbered :
    (prefix key : Bytes) → HasNoNumber prefix key → is_numbered prefix key ≡ false
unfolding is_numbered
plain_not_numbered prefix key h = elim (Option-cases (after_prefix prefix key)) [
  | inl e ↦ rw (is_numbered, e) refl
  | inr (s, e) ↦ elim (Bool-cases (not (is_empty s) && is_atoi s)) [
    | inr f ↦ rw (is_numbered, e, f) refl
    | inl f ↦ elim (h s (after_prefix_inv prefix key s e)) [
      | inl nothing ↦ absurd (cc (rw (nothing, is_empty) at f))
      | inr other_bytes ↦ absurd (other_bytes (is_atoi-IsNumeral s (ground arith)))
    ]
  ]
]
