-- ===== src/Reassembly/Complete/Drain.antt =====
-- Draining the buffer delivers whole pieces and loses none of them.
use passive_solar_mqtt_bridg.Reassembly.Complete.Pieces.{
  PieceFrom, HasBytes, piece_bounds, piece_next,
}
use passive_solar_mqtt_bridg.Prelude.{
  ℕ, zero, suc, ◌+◌, ◌%◌, ◌^◌, ◌≤◌, ◌<◌, ◌≡◌, refl, sym, ◌∙◌, ◌⊎◌, inl, inr, none, some, List, [],
  ◌∷◌, true, length, length-append, concat, All, arith, Bool-cases, Option-cases, ==_iff, ◌==◌,
}
use mathlib.Core.Path.{subst}
use passive_solar_mqtt_bridg.Prelude.Equality.{nat_eq}
use passive_solar_mqtt_bridg.Dict.{Dict, lookup, delete}
use passive_solar_mqtt_bridg.Dict.Laws.{lookup-delete, delete-inv, length-delete}
use passive_solar_mqtt_bridg.Reassembly.{Bytes, FlowState, u32_size, advance, drain}

-- A drained flow holds nothing back at the place where it stands.
abbrev pub IsDrained : FlowState → Type 0
IsDrained s = lookup s.next_seq s.buffered ≡ none

empty : (k : ℕ) (m : Dict ℕ Bytes) → length m ≤ 0 → lookup k m ≡ none
unfolding lookup
empty k [] h = refl
empty k (x ∷ m) h = absurd (omega arith)

pub drain-IsDrained :
    (fuel : ℕ) (s : FlowState) → length s.buffered ≤ fuel → IsDrained (drain fuel s).1
unfolding drain advance
drain-IsDrained zero s h = empty s.next_seq s.buffered h
drain-IsDrained (suc fuel) s h = elim (Option-cases (lookup s.next_seq s.buffered)) [
  | inl e ↦ rw (e, drain) e
  | inr (run, e) ↦
      rw (e, drain) (drain-IsDrained fuel _ (omega (arith, length-delete s.next_seq s.buffered e)))
]

module _ (isn : ℕ) (cuts : List Bytes) where
  abbrev pub Piece : ℕ → Bytes → Type 0
  Piece = PieceFrom 0 cuts

  abbrev pub seq_of : ℕ → ℕ
  seq_of o = (isn + o) % u32_size

  -- The flow stands between two pieces, and holds back whole pieces only.
  pub record Tidy (s : FlowState) (pos : ℕ) : Type 0 where
    pub at_pos : s.next_seq ≡ seq_of pos
    pub going : s.started ≡ true
    pub edge : (pos ≡ length (concat cuts)) ⊎ ((r : Bytes) × Piece pos r)
    pub held :
        (k : ℕ) (run : Bytes)
        → lookup k s.buffered ≡ some run
        → (o : ℕ) × (k ≡ seq_of o) × Piece o run

  -- The piece at `o` has been delivered, or is held back.
  abbrev pub Seen : FlowState → ℕ → ℕ → Bytes → Type 0
  Seen s pos o run = (o < pos) ⊎ (lookup (seq_of o) s.buffered ≡ some run)

  -- From `s` at `pos` to a tidy flow that has lost no piece.
  pub record Keeps (s : FlowState) (pos : ℕ) (r : List Bytes × FlowState) : Type 0 where
    pub end : ℕ
    pub stop : end ≡ pos + length (concat r.0)
    pub tidy : Tidy r.1 end
    pub seen : (o : ℕ) (run : Bytes) → Piece o run → Seen s pos o run → Seen r.1 end o run

module _ (isn : ℕ) (cuts : List Bytes) (short : length (concat cuts) < 2 ^ 31)
    (full : All HasBytes cuts) where
  pub same_place :
      (o pos : ℕ)
      → seq_of isn cuts o ≡ seq_of isn cuts pos
      → o ≤ length (concat cuts)
      → pos ≤ length (concat cuts)
      → o ≡ pos
  same_place o pos e h k = omega arith

  pub Keeps-nil : (s : FlowState) (pos : ℕ) → Tidy isn cuts s pos → Keeps isn cuts s pos ([], s)
  Keeps-nil s pos t = record {
    end = pos;
    stop = omega arith;
    tidy = t;
    seen = λ o run p seen. seen;
  }

  pub edge-le : (s : FlowState) (pos : ℕ) → Tidy isn cuts s pos → pos ≤ length (concat cuts)
  edge-le s pos t = elim t.edge [
    | inl e ↦ omega arith
    | inr (r, p) ↦ omega (arith, piece_bounds 0 cuts pos r full p)
  ]

  pub Tidy-advance :
      (s : FlowState) (pos : ℕ) (run : Bytes)
      → Tidy isn cuts s pos
      → Piece isn cuts pos run
      → Tidy isn cuts (advance s (length run)) (pos + length run)
  unfolding advance
  Tidy-advance s pos run t p = record {
    at_pos = omega (arith, t.at_pos, piece_bounds 0 cuts pos run full p);
    going = t.going;
    edge = elim (piece_next 0 cuts pos run full p) [
      | inl e ↦ inl (omega arith)
      | inr (r, q) ↦ inr (r, q)
    ];
    held = t.held;
  }

  Tidy-delete :
      (s : FlowState) (pos k : ℕ)
      → Tidy isn cuts s pos
      → Tidy isn cuts (record s { buffered = delete k s.buffered }) pos
  Tidy-delete s pos k t = record {
    at_pos = t.at_pos;
    going = t.going;
    edge = t.edge;
    held = λ j run e. t.held j run (delete-inv k j s.buffered e);
  }

  -- What stands in the buffer under `next_seq` is the piece at `pos`.
  held_here :
      (s : FlowState) (pos : ℕ) (run : Bytes)
      → Tidy isn cuts s pos
      → lookup s.next_seq s.buffered ≡ some run
      → Piece isn cuts pos run
  held_here s pos run t e =
      let (o, k, p) = t.held s.next_seq run e in
      subst (λ i. Piece isn cuts i run)
        (same_place o pos (sym k ∙ t.at_pos) (omega (arith, piece_bounds 0 cuts o run full p))
          (edge-le s pos t))
        p

  -- Taking the piece at `pos` out of the buffer and advancing over it loses no other piece.
  Seen-advance :
      (s : FlowState) (pos : ℕ) (run : Bytes) (o : ℕ) (other : Bytes)
      → Tidy isn cuts s pos
      → Piece isn cuts pos run
      → Piece isn cuts o other
      → Seen isn cuts s pos o other
      → Seen isn cuts
          (advance (record s { buffered = delete s.next_seq s.buffered }) (length run))
          (pos + length run)
          o
          other
  unfolding advance
  Seen-advance s pos run o other t p q (inl lt) = inl (omega arith)
  Seen-advance s pos run o other t p q (inr e) =
      elim (Bool-cases (s.next_seq == seq_of isn cuts o)) [
        | inl same ↦
            let place =
              same_place o pos (sym ((==_iff _ _).0 same) ∙ t.at_pos)
                (omega (arith, piece_bounds 0 cuts o other full q)) (edge-le s pos t) in
            inl (omega (arith, place, piece_bounds 0 cuts pos run full p))
        | inr apart ↦ inr (rw (lookup-delete s.next_seq (seq_of isn cuts o) s.buffered, apart) e)
      ]

  pub Keeps-cons :
      (s s' : FlowState) (pos : ℕ) (run : Bytes) (r : List Bytes × FlowState)
      → ((o : ℕ) (other : Bytes)
          → Piece isn cuts o other
          → Seen isn cuts s pos o other
          → Seen isn cuts s' (pos + length run) o other)
      → Keeps isn cuts s' (pos + length run) r
      → Keeps isn cuts s pos (run ∷ r.0, r.1)
  Keeps-cons s s' pos run r carry k = record {
    end = k.end;
    stop = omega (arith, k.stop, length-append run (concat r.0));
    tidy = k.tidy;
    seen = λ o other p seen. k.seen o other p (carry o other p seen);
  }

  pub drain-Keeps :
      (fuel : ℕ) (s : FlowState) (pos : ℕ)
      → Tidy isn cuts s pos
      → Keeps isn cuts s pos (drain fuel s)
  unfolding drain
  drain-Keeps zero s pos t = Keeps-nil s pos t
  drain-Keeps (suc fuel) s pos t = elim (Option-cases (lookup s.next_seq s.buffered)) [
    | inl e ↦ rw (e, drain) (Keeps-nil s pos t)
    | inr (run, e) ↦
        let p = held_here s pos run t e in
        rw (e, drain)
          (Keeps-cons s _ pos run _ (λ o other q. Seen-advance s pos run o other t p q)
            (drain-Keeps fuel _ (pos + length run)
              (Tidy-advance _ pos run (Tidy-delete s pos s.next_seq t) p)))
  ]
