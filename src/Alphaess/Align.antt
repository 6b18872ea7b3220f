-- ===== src/Alphaess/Align.antt =====
-- Where the next record starts, once more bytes have come.
use passive_solar_mqtt_bridg.Prelude.{
  ℕ, ◌+◌, ◌≤◌, ◌<◌, ◌≡◌, refl, inl, inr, true, false, Option, none, some, [], ◌∷◌, ◌++◌, Bytes,
  length, length-append, drop-append_le, get_or-append, arith, Option-cases,
}
use passive_solar_mqtt_bridg.Alphaess.Scan.{index_byte, last_index_byte, index_frame_start}
use passive_solar_mqtt_bridg.Alphaess.Scan.Positions.{
  Beyond, absent, beyond, index_byte-lt, index_frame_start-lt, index_byte-append_some,
  index_byte-append_none, index_frame_start-append_some, index_frame_start-append_none,
}
use passive_solar_mqtt_bridg.Alphaess.{
  payload_length, align_at, align_to_next_record_start, starts_with_frame,
}

pub payload_length-append :
    (d x : Bytes) → 7 ≤ length d → payload_length (d ++ x) ≡ payload_length d
unfolding payload_length
payload_length-append d x h = ground (
  arith,
  get_or-append d x 3 0,
  get_or-append d x 4 0,
  get_or-append d x 5 0,
  get_or-append d x 6 0,
)

pub starts-append : (d x : Bytes) → 2 ≤ length d → starts_with_frame (d ++ x) ≡ starts_with_frame d
unfolding starts_with_frame
starts-append d x h =
    ground (arith, get_or-append d x 0 0, get_or-append d x 1 0, length-append d x)

pub starts-long : (d : Bytes) → starts_with_frame d ≡ true → 2 ≤ length d
unfolding starts_with_frame
starts-long d h = ground arith

-- A switch that skips something keeps its choice, where positions found stay and a search that
-- found nothing finds nothing before the end of `d`.
module _ (d x : Bytes) where
  abbrev KeepsChoice : Option ℕ → Option ℕ → Option ℕ → Option ℕ → Type 0
  KeepsChoice o o' p p' =
      (align_at o p d).0 ≡ true
      → (align_at o' p' (d ++ x) ≡ (true, (align_at o p d).1 ++ x)) × (2 ≤ length d)

  keeps_both :
      (i j : ℕ) → i + 1 < length d → j < length d → KeepsChoice (some i) (some i) (some j) (some j)
  unfolding align_at
  keeps_both i j hi hj h = ground (arith, drop-append_le i d x, drop-append_le j d x)

  keeps_frame :
      (i : ℕ) (p' : Option ℕ)
      → i + 1 < length d
      → Beyond 0 d p'
      → KeepsChoice (some i) (some i) none p'
  unfolding align_at
  keeps_frame i p' hi (absent e) h = ground (arith, drop-append_le i d x)
  keeps_frame i p' hi (beyond j e le) h = ground (arith, drop-append_le i d x)

  keeps_json :
      (o' : Option ℕ) (j : ℕ) → j < length d → Beyond 1 d o' → KeepsChoice none o' (some j) (some j)
  unfolding align_at
  keeps_json o' j hj (absent e) h = ground (arith, drop-append_le j d x)
  keeps_json o' j hj (beyond i e le) h = ground (arith, drop-append_le j d x)

  pub align-append :
      (align_to_next_record_start d).0 ≡ true
      → (align_to_next_record_start (d ++ x) ≡ (true, (align_to_next_record_start d).1 ++ x))
        × (2 ≤ length d)
  unfolding align_to_next_record_start
  align-append = elim (Option-cases (index_frame_start d)) [
    | inr (i, e) ↦
        let hi = index_frame_start-lt d i e in
        elim (Option-cases (index_byte b'{' d)) [
          | inr (j, f) ↦
              rw (e, f, index_frame_start-append_some d x i e, index_byte-append_some b'{' d x j f)
                (keeps_both i j hi (index_byte-lt b'{' d j f))
          | inl f ↦
              rw (e, f, index_frame_start-append_some d x i e)
                (keeps_frame i _ hi (index_byte-append_none b'{' d x f))
        ]
    | inl e ↦ elim (Option-cases (index_byte b'{' d)) [
      | inr (j, f) ↦
          rw (e, f, index_byte-append_some b'{' d x j f)
            (keeps_json _ j (index_byte-lt b'{' d j f) (index_frame_start-append_none d x e))
      | inl f ↦ λ h. absurd (nothing_found e f h)
    ]
  ]
    where
      nothing_found :
          index_frame_start d ≡ none
          → index_byte b'{' d ≡ none
          → (align_to_next_record_start d).0 ≡ true
          → ⊥
      nothing_found e f h = unfold align_at in cc (rw (e, f) at h)

-- A buffer that starts with an object is left where it is.
pub align-object :
    (d : Bytes) → index_byte b'{' d ≡ some 0 → align_to_next_record_start d ≡ (false, d)
unfolding align_to_next_record_start align_at
align-object d e = elim (Option-cases (index_frame_start d)) [
  | inl n ↦ rw (e, n)
  | inr (i, n) ↦ rw (e, n) (ground arith)
]

pub frame_first : (d : Bytes) → index_frame_start d ≡ some 0 → starts_with_frame d ≡ true
unfolding index_frame_start starts_with_frame
frame_first [] h = cc
frame_first (a ∷ []) h = cc
frame_first (a ∷ b ∷ bs) h = elim (Option-cases (index_frame_start (b ∷ bs))) [
  | inl e ↦ ground arith
  | inr (j, e) ↦ ground arith
]

pub object_first : (d : Bytes) → index_byte b'{' d ≡ some 0 → starts_with_frame d ≡ false
unfolding index_byte starts_with_frame
object_first [] h = cc
object_first (b ∷ bs) h = elim (Option-cases (index_byte b'{' bs)) [
  | inl e ↦ ground arith
  | inr (j, e) ↦ ground arith
]

pub last-none : (c : ℕ) (d : Bytes) → index_byte c d ≡ none → last_index_byte c d ≡ none
unfolding index_byte last_index_byte
last-none c [] h = refl
last-none c (b ∷ bs) h = elim (Option-cases (index_byte c bs)) [
  | inl e ↦ ground (arith, last-none c bs e)
  | inr (j, e) ↦ absurd (ground arith)
]
