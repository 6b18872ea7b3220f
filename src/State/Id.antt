-- ===== src/State/Id.antt =====
-- The device's id that is made of a serial number.
use passive_solar_mqtt_bridg.Prelude.{
  ℕ, ◌<◌, ◌≤◌, Bool, ◌&&◌, ◌≡◌, ◌⊎◌, refl, ap, ap₂, ◌∙◌, inl, inr, [], ◌∷◌, map, Bytes, All, arith,
  Bool-cases,
}
use passive_solar_mqtt_bridg.Prelude.Text.{is_empty}
use passive_solar_mqtt_bridg.Config.Text.{trim, trim_left, trim_right, lower, to_lower}
use passive_solar_mqtt_bridg.HomeAssistant.{is_underscore}
use passive_solar_mqtt_bridg.HomeAssistant.Slug.{trim_right_idem}
use passive_solar_mqtt_bridg.State.{Floats, sanitize_byte, sanitize_id}

-- A byte that may stand in an id.
abbrev pub IsIdByte : ℕ → Type 0
IsIdByte b = (97 ≤ b) × (b ≤ 122) ⊎ (48 ≤ b) × (b ≤ 57) ⊎ (b ≡ 95)

module _ (P : ℕ → Type 0) (cut : ℕ → Bool) where
  All-trim_left : (s : Bytes) → All P s → All P (trim_left cut s)
  unfolding trim_left
  All-trim_left [] h = tt
  All-trim_left (b ∷ bs) (h, hs) = elim (Bool-cases (cut b)) [
    | inl e ↦ rw e (All-trim_left bs hs)
    | inr e ↦ rw e (h, hs)
  ]

  All-trim_right : (s : Bytes) → All P s → All P (trim_right cut s)
  unfolding trim_right
  All-trim_right [] h = tt
  All-trim_right (b ∷ bs) (h, hs) = elim (Bool-cases (cut b && is_empty (trim_right cut bs))) [
    | inl e ↦ rw e tt
    | inr e ↦ rw e (h, All-trim_right bs hs)
  ]

trim_left-trim : (cut : ℕ → Bool) (s : Bytes) → trim_left cut (trim cut s) ≡ trim cut s
unfolding trim trim_left trim_right
trim_left-trim cut [] = refl
trim_left-trim cut (b ∷ bs) = elim (Bool-cases (cut b)) [
  | inl e ↦ rw e (trim_left-trim cut bs)
  | inr e ↦ rw e (rw e (rw e))
]

pub trim_idem : (cut : ℕ → Bool) (s : Bytes) → trim cut (trim cut s) ≡ trim cut s
unfolding trim
trim_idem cut s = ap (trim_right cut) (trim_left-trim cut s) ∙ trim_right_idem cut (trim_left cut s)

sanitize_byte-IsIdByte : (b : ℕ) → IsIdByte (sanitize_byte b)
unfolding sanitize_byte
sanitize_byte-IsIdByte b = ground arith

sanitize_byte_fixed : (b : ℕ) → IsIdByte b → sanitize_byte (lower b) ≡ b
unfolding sanitize_byte lower
sanitize_byte_fixed b h = ground arith

All-sanitize : (s : Bytes) → All IsIdByte (map sanitize_byte s)
All-sanitize [] = tt
All-sanitize (b ∷ bs) = (sanitize_byte-IsIdByte b, All-sanitize bs)

sanitize_fixed : (s : Bytes) → All IsIdByte s → map sanitize_byte (to_lower s) ≡ s
unfolding to_lower
sanitize_fixed [] h = refl
sanitize_fixed (b ∷ bs) (h, hs) =
    ap₂ (λ c cs. c ∷ cs) (sanitize_byte_fixed b h) (sanitize_fixed bs hs)

IdBytes-small : (s : Bytes) → All IsIdByte s → All (λ b. b < 128) s
IdBytes-small [] h = tt
IdBytes-small (b ∷ bs) (h, hs) = (ground arith, IdBytes-small bs hs)

module _ {N O : Type 0} (floats : Floats N O)
    (ascii : (s : Bytes) → All (λ b. b < 128) s → floats.lower_runes s ≡ to_lower s) where
  -- An id holds small letters, digits and underscores only, and the id that is made of it is
  -- itself. Of `strings.ToLower` it is assumed what it does to ASCII.
  pub sanitize_id_idem :
      (value : Bytes)
      → All IsIdByte (sanitize_id floats value)
        × (sanitize_id floats (sanitize_id floats value) ≡ sanitize_id floats value)
  unfolding sanitize_id
  sanitize_id_idem value =
      let s = map sanitize_byte (floats.lower_runes value) in
      let clean : All IsIdByte (trim is_underscore s) =
        unfold trim in
        All-trim_right IsIdByte is_underscore (trim_left is_underscore s)
          (All-trim_left IsIdByte is_underscore s (All-sanitize (floats.lower_runes value))) in
      let small = IdBytes-small (trim is_underscore s) clean in
      (
        clean,
        ap (λ t. trim is_underscore (map sanitize_byte t)) (ascii (trim is_underscore s) small)
            ∙ ap (trim is_underscore) (sanitize_fixed (trim is_underscore s) clean)
            ∙ trim_idem is_underscore s,
      )
