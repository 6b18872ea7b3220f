-- ===== src/Reassembly/Complete/Pieces.antt =====
-- A stream cut into pieces, and where each piece lies.
use passive_solar_mqtt_bridg.Prelude.{
  ℕ, zero, suc, ◌+◌, ◌-◌, ◌≤◌, ◌<◌, ◌≡◌, refl, sym, ap, ap₂, ◌∙◌, ◌⊎◌, inl, inr, List, [], ◌∷◌,
  ◌++◌, length, length-append, take-length-append, take, drop, concat, All, arith,
}
use passive_solar_mqtt_bridg.Prelude.Slice.{slice}
use passive_solar_mqtt_bridg.Reassembly.{Bytes}

-- `run` is one of the pieces, and starts at `o`, where the first piece starts at `base`.
abbrev pub PieceFrom : ℕ → List Bytes → ℕ → Bytes → Type 0
PieceFrom base [] o run = ⊥
PieceFrom base (c ∷ cs) o run = (o ≡ base) × (run ≡ c) ⊎ PieceFrom (base + length c) cs o run

abbrev pub HasBytes : Bytes → Type 0
HasBytes run = 0 < length run

pub piece_bounds :
    (base : ℕ) (cs : List Bytes) (o : ℕ) (run : Bytes)
    → All HasBytes cs
    → PieceFrom base cs o run
    → (base ≤ o) × (0 < length run) × (o + length run ≤ base + length (concat cs))
piece_bounds base [] o run h p = absurd p
piece_bounds base (c ∷ cs) o run (h, hs) (inl (e, same)) =
    omega (arith, ap length same, length-append c (concat cs))
piece_bounds base (c ∷ cs) o run (h, hs) (inr p) =
    omega (arith, piece_bounds (base + length c) cs o run hs p, length-append c (concat cs))

slice-skip :
    (c rest : Bytes) (o n : ℕ) → length c ≤ o → slice o n (c ++ rest) ≡ slice (o - length c) n rest
unfolding slice
slice-skip [] rest o n h = ap (λ (k : ℕ). take n (drop k rest)) (omega arith)
slice-skip (x ∷ c) rest zero n h = absurd (omega arith)
slice-skip (x ∷ c) rest (suc o) n h =
    slice-skip c rest o n (omega arith) ∙ ap (λ (k : ℕ). take n (drop k rest)) (omega arith)

here : (o base : ℕ) → o ≡ base → o - base ≡ 0
here o base e = omega arith

pub piece-slice :
    (base : ℕ) (cs : List Bytes) (o : ℕ) (run : Bytes)
    → All HasBytes cs
    → PieceFrom base cs o run
    → run ≡ slice (o - base) (length run) (concat cs)
unfolding slice
piece-slice base [] o run h p = absurd p
piece-slice base (c ∷ cs) o run (h, hs) (inl (e, same)) =
    same
    ∙ sym (
        ap₂ (λ (a n : ℕ). take n (drop a (c ++ concat cs))) (here o base e) (ap length same)
        ∙ take-length-append c (concat cs))
piece-slice base (c ∷ cs) o run (h, hs) (inr p) =
    let (low, _, _) = piece_bounds (base + length c) cs o run hs p in
    piece-slice (base + length c) cs o run hs p
    ∙ ap (λ (k : ℕ). slice k (length run) (concat cs)) (omega arith)
    ∙ sym (slice-skip c (concat cs) (o - base) (length run) (omega arith))

pub piece_next :
    (base : ℕ) (cs : List Bytes) (o : ℕ) (run : Bytes)
    → All HasBytes cs
    → PieceFrom base cs o run
    → (o + length run ≡ base + length (concat cs))
      ⊎ ((r : Bytes) × PieceFrom base cs (o + length run) r)
piece_next base [] o run h p = absurd p
piece_next base (c ∷ []) o run h (inl (e, same)) =
    inl (omega (arith, ap length same, length-append c []))
piece_next base (c ∷ d ∷ cs) o run h (inl (e, same)) =
    inr (d, inr (inl (omega (arith, ap length same), refl)))
piece_next base (c ∷ cs) o run (h, hs) (inr p) = elim (piece_next (base + length c) cs o run hs p) [
  | inl e ↦ inl (omega (arith, length-append c (concat cs)))
  | inr (r, q) ↦ inr (r, inr q)
]

-- Two pieces that start at one place are one piece, and of others the earlier ends first.
pub piece_unique :
    (base : ℕ) (cs : List Bytes) (o : ℕ) (run other : Bytes)
    → All HasBytes cs
    → PieceFrom base cs o run
    → PieceFrom base cs o other
    → run ≡ other
piece_unique base [] o run other h p q = absurd p
piece_unique base (c ∷ cs) o run other (h, hs) (inl (e, same)) (inl (e', same')) = same ∙ sym same'
piece_unique base (c ∷ cs) o run other (h, hs) (inl (e, same)) (inr q) =
    absurd (omega (arith, piece_bounds (base + length c) cs o other hs q))
piece_unique base (c ∷ cs) o run other (h, hs) (inr p) (inl (e, same)) =
    absurd (omega (arith, piece_bounds (base + length c) cs o run hs p))
piece_unique base (c ∷ cs) o run other (h, hs) (inr p) (inr q) =
    piece_unique (base + length c) cs o run other hs p q

pub piece_apart :
    (base : ℕ) (cs : List Bytes) (o o' : ℕ) (run other : Bytes)
    → All HasBytes cs
    → PieceFrom base cs o run
    → PieceFrom base cs o' other
    → o < o'
    → o + length run ≤ o'
piece_apart base [] o o' run other h p q lt = absurd p
piece_apart base (c ∷ cs) o o' run other (h, hs) (inl (e, same)) (inl (e', same')) lt =
    absurd (omega arith)
piece_apart base (c ∷ cs) o o' run other (h, hs) (inl (e, same)) (inr q) lt =
    omega (arith, ap length same, piece_bounds (base + length c) cs o' other hs q)
piece_apart base (c ∷ cs) o o' run other (h, hs) (inr p) (inl (e, same)) lt =
    absurd (omega (arith, piece_bounds (base + length c) cs o run hs p))
piece_apart base (c ∷ cs) o o' run other (h, hs) (inr p) (inr q) lt =
    piece_apart (base + length c) cs o o' run other hs p q lt
