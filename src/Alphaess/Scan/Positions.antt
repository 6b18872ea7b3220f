-- ===== src/Alphaess/Scan/Positions.antt =====
-- Where the searches find something, and what more bytes at the end change about it.
use passive_solar_mqtt_bridg.Prelude.{
  ℕ, suc, ◌+◌, ◌≤◌, ◌<◌, ◌≡◌, inl, inr, Option, none, some, [], ◌∷◌, ◌++◌, Bytes, length, arith,
  Option-cases,
}
use passive_solar_mqtt_bridg.Alphaess.Scan.{
  index_byte, index_frame_start, ScanState, scan_start, scan, scan_byte, find_json_object_end,
}

-- A position behind the end of `d`, less `slack`, or none.
pub data Beyond (slack : ℕ) (d : Bytes) (o : Option ℕ) : Type 0 where
  absent : o ≡ none → Beyond slack d o
  beyond : (j : ℕ) → o ≡ some j → length d ≤ j + slack → Beyond slack d o

pub index_byte-lt : (c : ℕ) (d : Bytes) (i : ℕ) → index_byte c d ≡ some i → i < length d
unfolding index_byte
index_byte-lt c [] i h = cc
index_byte-lt c (b ∷ bs) i h = elim (Option-cases (index_byte c bs)) [
  | inl e ↦ ground arith
  | inr (j, e) ↦ ground (arith, index_byte-lt c bs j e)
]

pub index_byte-append_some :
    (c : ℕ) (d x : Bytes) (i : ℕ) → index_byte c d ≡ some i → index_byte c (d ++ x) ≡ some i
unfolding index_byte
index_byte-append_some c [] x i h = cc
index_byte-append_some c (b ∷ bs) x i h = elim (Option-cases (index_byte c bs)) [
  | inl e ↦ ground arith
  | inr (j, e) ↦ ground (arith, index_byte-append_some c bs x j e)
]

pub index_byte-append_none :
    (c : ℕ) (d x : Bytes) → index_byte c d ≡ none → Beyond 0 d (index_byte c (d ++ x))
unfolding index_byte
index_byte-append_none c [] x h = elim (Option-cases (index_byte c x)) [
  | inl e ↦ absent e
  | inr (j, e) ↦ beyond j e (omega arith)
]
index_byte-append_none c (b ∷ bs) x h = elim (Option-cases (index_byte c bs)) [
  | inr (j, e) ↦ absurd (ground arith)
  | inl e ↦ elim (index_byte-append_none c bs x e) [
    | absent a ↦ absent (ground arith)
    | beyond j a le ↦ beyond (suc j) (ground arith) (omega arith)
  ]
]

pub index_frame_start-lt : (d : Bytes) (i : ℕ) → index_frame_start d ≡ some i → i + 1 < length d
unfolding index_frame_start
index_frame_start-lt [] i h = cc
index_frame_start-lt (a ∷ []) i h = cc
index_frame_start-lt (a ∷ b ∷ bs) i h = elim (Option-cases (index_frame_start (b ∷ bs))) [
  | inl e ↦ ground arith
  | inr (j, e) ↦ ground (arith, index_frame_start-lt (b ∷ bs) j e)
]

pub index_frame_start-append_some :
    (d x : Bytes) (i : ℕ) → index_frame_start d ≡ some i → index_frame_start (d ++ x) ≡ some i
unfolding index_frame_start
index_frame_start-append_some [] x i h = cc
index_frame_start-append_some (a ∷ []) x i h = cc
index_frame_start-append_some (a ∷ b ∷ bs) x i h =
    elim (Option-cases (index_frame_start (b ∷ bs))) [
      | inl e ↦ ground arith
      | inr (j, e) ↦ ground (arith, index_frame_start-append_some (b ∷ bs) x j e)
    ]

pub index_frame_start-append_none :
    (d x : Bytes) → index_frame_start d ≡ none → Beyond 1 d (index_frame_start (d ++ x))
unfolding index_frame_start
index_frame_start-append_none [] x h = elim (Option-cases (index_frame_start x)) [
  | inl e ↦ absent e
  | inr (j, e) ↦ beyond j e (omega arith)
]
index_frame_start-append_none (a ∷ []) x h = elim (Option-cases (index_frame_start (a ∷ x))) [
  | inl e ↦ absent e
  | inr (j, e) ↦ beyond j e (omega arith)
]
index_frame_start-append_none (a ∷ b ∷ bs) x h = elim (Option-cases (index_frame_start (b ∷ bs))) [
  | inr (j, e) ↦ absurd (ground arith)
  | inl e ↦ elim (index_frame_start-append_none (b ∷ bs) x e) [
    | absent n ↦ absent (ground arith)
    | beyond j n le ↦ beyond (suc j) (ground arith) (omega arith)
  ]
]

scan-bounds : (s : ScanState) (d : Bytes) (e : ℕ) → scan s d ≡ some e → (1 ≤ e) × (e ≤ length d)
unfolding scan
scan-bounds s [] e h = cc
scan-bounds s (b ∷ bs) e h = elim (Option-cases (scan (scan_byte s b) bs)) [
  | inl n ↦ ground arith
  | inr (j, n) ↦ ground (arith, scan-bounds (scan_byte s b) bs j n)
]

scan-append : (s : ScanState) (d x : Bytes) (e : ℕ) → scan s d ≡ some e → scan s (d ++ x) ≡ some e
unfolding scan
scan-append s [] x e h = cc
scan-append s (b ∷ bs) x e h = elim (Option-cases (scan (scan_byte s b) bs)) [
  | inl n ↦ ground arith
  | inr (j, n) ↦ ground (arith, scan-append (scan_byte s b) bs x j n)
]

-- An object is found within the bytes that are there, and takes one of them at least.
pub find_json_object_end-bounds :
    (d : Bytes) (e : ℕ) → find_json_object_end d ≡ some e → (1 ≤ e) × (e ≤ length d)
unfolding find_json_object_end
find_json_object_end-bounds [] e h = cc
find_json_object_end-bounds (b ∷ bs) e h = ground (arith, scan-bounds scan_start (b ∷ bs) e)

pub find_json_object_end-append :
    (d x : Bytes) (e : ℕ) → find_json_object_end d ≡ some e → find_json_object_end (d ++ x) ≡ some e
unfolding find_json_object_end
find_json_object_end-append [] x e h = cc
find_json_object_end-append (b ∷ bs) x e h = ground (arith, scan-append scan_start (b ∷ bs) x e)
