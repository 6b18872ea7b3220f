-- ===== src/HomeAssistant/Slug.antt =====
-- The ids that `objectID` makes of ASCII names: words in lower case, joined by single underscores.
use passive_solar_mqtt_bridg.Prelude.{
  ℕ, All, ◌<◌, ◌≤◌, Bool, true, false, not, ◌&&◌, ◌||◌, ◌≡◌, ◌⊎◌, refl, ap, ◌∙◌, inl, inr, [], ◌∷◌,
  Bytes, arith, Bool-cases, leb, if◌then◌else◌,
}
use passive_solar_mqtt_bridg.Prelude.Text.{is_empty}
use passive_solar_mqtt_bridg.Config.Text.{trim, trim_left, trim_right, lower}
use passive_solar_mqtt_bridg.HomeAssistant.{is_underscore, Unicode, slug, object_id}

abbrev pub IsAscii : Bytes → Type 0
IsAscii s = All (λ b. b < 128) s

-- A letter or a digit of ASCII.
unfoldable pub is_word : ℕ → Bool
is_word b = leb 48 b && leb b 57 || leb 65 b && leb b 90 || leb 97 b && leb b 122

unfoldable pub is_capital : ℕ → Bool
is_capital b = leb 65 b && leb b 90

-- What the tables of Unicode say of ASCII, and what UTF-8 makes of it.
pub record AgreesOnAscii (unicode : Unicode) : Type 0 where
  pub bytes : (s : Bytes) → IsAscii s → unicode.runes s ≡ s
  pub words : (b : ℕ) → b < 128 → unicode.is_letter b || unicode.is_digit b ≡ is_word b
  pub capitals : (b : ℕ) → b < 128 → unicode.is_upper b ≡ is_capital b
  pub small : (b : ℕ) → b < 128 → unicode.to_lower b ≡ lower b
  pub one_byte : (b : ℕ) → b < 128 → unicode.write_rune b ≡ b ∷ []

-- `slug` on ASCII.
unfoldable ascii_slug : Bool → Bool → Bytes → Bytes
ascii_slug started after [] = []
ascii_slug started after (b ∷ bs) =
    let word = lower b ∷ ascii_slug true false bs in
    let gap = 95 ∷ ascii_slug started true bs in
    let rest = ascii_slug started after bs in
    if is_word b
    then (if is_capital b && started && not after then 95 ∷ word else word)
    else (if started && not after then gap else rest)

-- A digit or a letter in lower case.
abbrev pub IsSmall : ℕ → Type 0
IsSmall b = (48 ≤ b) × (b ≤ 57) ⊎ (97 ≤ b) × (b ≤ 122)

-- Small letters, digits and single underscores; no underscore comes first if `after`.
abbrev pub IsSlug : Bool → Bytes → Type 0
IsSlug after [] = Unit
IsSlug after (b ∷ bs) = IsSmall b × IsSlug false bs ⊎ (b ≡ 95) × (after ≡ false) × IsSlug true bs

is_word-IsSmall : (b : ℕ) → is_word b ≡ true → IsSmall (lower b)
unfolding is_word lower
is_word-IsSmall b h = ground arith

after_gap :
    (started : Bool) (bs : Bytes)
    → IsSlug (not started || true) (ascii_slug started true bs)
    → IsSlug true (ascii_slug started true bs)
after_gap true bs h = h
after_gap false bs h = h

ascii_slug-IsSlug :
    (started after : Bool) (v : Bytes) → IsSlug (not started || after) (ascii_slug started after v)
unfolding ascii_slug
ascii_slug-IsSlug started after [] = tt
ascii_slug-IsSlug started after (b ∷ bs) = elim (Bool-cases (is_word b)) [
  | inl w ↦ elim (Bool-cases (is_capital b && started && not after)) [
    | inl u ↦
        rw (w, u)
          (inr (refl, ground arith, inl (is_word-IsSmall b w, ascii_slug-IsSlug true false bs)))
    | inr u ↦ rw (w, u) (inl (is_word-IsSmall b w, ascii_slug-IsSlug true false bs))
  ]
  | inr w ↦ elim (Bool-cases (started && not after)) [
    | inl g ↦
        rw (w, g)
          (inr (refl, ground arith, after_gap started bs (ascii_slug-IsSlug started true bs)))
    | inr g ↦ rw (w, g) (ascii_slug-IsSlug started after bs)
  ]
]

small-is_word : (b : ℕ) → IsSmall b → (is_word b ≡ true) × (is_capital b ≡ false) × (lower b ≡ b)
unfolding is_word is_capital lower
small-is_word b (inl h) = ground arith
small-is_word b (inr h) = ground arith

underscore_no_word : is_word 95 ≡ false
unfolding is_word
underscore_no_word = refl

-- A ascii_slug is written as it is read.
slug_fixed :
    (started after : Bool) (w : Bytes)
    → IsSlug (not started || after) w
    → ascii_slug started after w ≡ w
unfolding ascii_slug
slug_fixed started after [] h = refl
slug_fixed started after (b ∷ bs) (inl (small, h)) =
    let (word, no_upper, same) = small-is_word b small in
    rw (word, no_upper, same, slug_fixed true false bs h)
slug_fixed true false (b ∷ bs) (inr (e, free, h)) =
    rw (e, underscore_no_word, slug_fixed true true bs h)
slug_fixed true true (b ∷ bs) (inr (e, free, h)) = cc
slug_fixed false after (b ∷ bs) (inr (e, free, h)) = cc

trim_right-IsSlug :
    (after : Bool) (w : Bytes) → IsSlug after w → IsSlug after (trim_right is_underscore w)
unfolding trim_right
trim_right-IsSlug after [] h = tt
trim_right-IsSlug after (b ∷ bs) h =
    elim (Bool-cases (is_underscore b && is_empty (trim_right is_underscore bs))) [
      | inl e ↦ rw e tt
      | inr e ↦ rw e (elim h [
        | inl (small, t) ↦ inl (small, trim_right-IsSlug false bs t)
        | inr (u, free, t) ↦ inr (u, free, trim_right-IsSlug true bs t)
      ])
    ]

trim_left_fixed : (w : Bytes) → IsSlug true w → trim_left is_underscore w ≡ w
unfolding trim_left is_underscore
trim_left_fixed [] h = refl
trim_left_fixed (b ∷ bs) (inl (small, h)) = ground arith
trim_left_fixed (b ∷ bs) (inr (e, free, h)) = cc

pub trim_right_idem :
    (cut : ℕ → Bool) (s : Bytes) → trim_right cut (trim_right cut s) ≡ trim_right cut s
unfolding trim_right
trim_right_idem cut [] = refl
trim_right_idem cut (b ∷ bs) = elim (Bool-cases (cut b && is_empty (trim_right cut bs))) [
  | inl e ↦ rw e
  | inr e ↦ rw (e, trim_right, trim_right_idem cut bs, e)
]

-- An id on ASCII.
ascii_id : Bytes → Bytes
ascii_id value = trim_right is_underscore (ascii_slug false false value)

ascii_id-IsSlug : (value : Bytes) → IsSlug true (ascii_id value)
unfolding ascii_id
ascii_id-IsSlug value =
    trim_right-IsSlug true (ascii_slug false false value) (ascii_slug-IsSlug false false value)

ascii_id_idem : (value : Bytes) → ascii_id (ascii_id value) ≡ ascii_id value
unfolding ascii_id
ascii_id_idem value =
    ap (trim_right is_underscore) (slug_fixed false false (ascii_id value) (ascii_id-IsSlug value))
    ∙ trim_right_idem is_underscore (ascii_slug false false value)

IsSlug-IsAscii : (after : Bool) (w : Bytes) → IsSlug after w → IsAscii w
IsSlug-IsAscii after [] h = tt
IsSlug-IsAscii after (b ∷ bs) (inl (inl small, h)) = (omega arith, IsSlug-IsAscii false bs h)
IsSlug-IsAscii after (b ∷ bs) (inl (inr small, h)) = (omega arith, IsSlug-IsAscii false bs h)
IsSlug-IsAscii after (b ∷ bs) (inr (e, free, h)) = (omega arith, IsSlug-IsAscii true bs h)

lower-ascii : (b : ℕ) → b < 128 → lower b < 128
unfolding lower
lower-ascii b h = ground arith

module _ (unicode : Unicode) (agrees : AgreesOnAscii unicode) where
  slug-ascii_slug :
      (started after : Bool) (s : Bytes)
      → IsAscii s
      → slug unicode started after s ≡ ascii_slug started after s
  unfolding slug ascii_slug
  slug-ascii_slug started after [] h = refl
  slug-ascii_slug started after (b ∷ bs) (h, hs) = rw (
    agrees.words b h,
    agrees.capitals b h,
    agrees.small b h,
    agrees.one_byte (lower b) (lower-ascii b h),
    slug-ascii_slug true false bs hs,
    slug-ascii_slug started true bs hs,
    slug-ascii_slug started after bs hs,
  )

  object_id-ascii_id : (value : Bytes) → IsAscii value → object_id unicode value ≡ ascii_id value
  unfolding object_id trim ascii_id
  object_id-ascii_id value ascii = rw (
    agrees.bytes value ascii,
    slug-ascii_slug false false value ascii,
    trim_left_fixed (ascii_slug false false value) (ascii_slug-IsSlug false false value),
  )

  -- The id that is made of an ASCII name consists of small letters, digits and single underscores,
  -- with none at the start, and the id that is made of this id is the same. What is assumed of the
  -- package `unicode` and of UTF-8 is what they say of ASCII.
  pub object_id_idem :
      (value : Bytes)
      → IsAscii value
      → IsSlug true (object_id unicode value)
        × (object_id unicode (object_id unicode value) ≡ object_id unicode value)
  object_id_idem value ascii =
      let id = ascii_id-IsSlug value in
      rw
        (
          object_id-ascii_id value ascii,
          object_id-ascii_id (ascii_id value) (IsSlug-IsAscii true (ascii_id value) id),
        )
        (id, ascii_id_idem value)
