-- ===== src/Reassembly/Complete/Takes.antt =====
-- One piece that arrives is delivered, held back or known, and no other piece is lost.
use passive_solar_mqtt_bridg.Reassembly.Complete.Pieces.{
  PieceFrom, HasBytes, piece_bounds, piece_unique, piece_apart,
}
use passive_solar_mqtt_bridg.Reassembly.Complete.Drain.{
  IsDrained, drain-IsDrained, Piece, seq_of, Tidy, Seen, Keeps, same_place, edge-le, Keeps-nil,
  Tidy-advance, Keeps-cons, drain-Keeps,
}
use passive_solar_mqtt_bridg.Prelude.{
  ℕ, ◌+◌, ◌-◌, ◌%◌, ◌^◌, ◌≤◌, ◌<◌, ◌≡◌, ◌≢◌, refl, sym, ap, ap₂, ◌∙◌, ◌⊎◌, inl, inr, none, some,
  List, [], ◌∷◌, true, false, length, length-append, concat, All, arith, Bool-cases, Option-cases,
  ==_iff, ltb, ltb→lt, le→leb, ◌==◌,
}
use mathlib.Core.Path.{subst}
use passive_solar_mqtt_bridg.Prelude.Equality.{nat_eq}
use passive_solar_mqtt_bridg.Dict.{lookup, insert}
use passive_solar_mqtt_bridg.Dict.Laws.{lookup-insert, insert-inv}
use passive_solar_mqtt_bridg.Reassembly.{
  Bytes, Segment, FlowState, u32_size, advance, drain, accept, push, seq_before, seq_distance,
}
use passive_solar_mqtt_bridg.Reassembly.Stream.{seq_before_lem, seq_distance_lem}

ahead-lt : (o pos : ℕ) → ltb o pos ≡ false → (o == pos) ≡ false → pos < o
ahead-lt o pos h k = ground arith

module _ (isn : ℕ) (cuts : List Bytes) where
  -- A segment that carries the piece at `o`.
  pub record IsPiece (x : Segment) : Type 0 where
    pub place : ℕ
    pub at_place : x.seq ≡ seq_of isn cuts place
    pub is_piece : Piece isn cuts place x.bytes

  abbrev pub Covers : List Segment → ℕ → Bytes → Type 0
  Covers [] o run = ⊥
  Covers (x ∷ xs) o run = (x.seq ≡ seq_of isn cuts o) × (x.bytes ≡ run) ⊎ Covers xs o run

module _ (isn : ℕ) (cuts : List Bytes) (short : length (concat cuts) < 2 ^ 31)
    (full : All HasBytes cuts) where
  -- The result of a segment that is the piece at `o`: it is seen, and nothing is lost.
  pub record Taken (s : FlowState) (pos o : ℕ) (run : Bytes) (r : List Bytes × FlowState)
      : Type 0 where
    pub keeps : Keeps isn cuts s pos r
    pub drained : IsDrained r.1
    pub taken : Seen isn cuts r.1 keeps.end o run

  same_seq : (n : ℕ) → (n == n) ≡ true
  same_seq n = (==_iff n n).1 refl

  other_seq : (m n : ℕ) → m ≢ n → (m == n) ≡ false
  other_seq m n h = ground arith

  deliver :
      (s : FlowState) (pos : ℕ) (run : Bytes)
      → Tidy isn cuts s pos
      → Piece isn cuts pos run
      → Taken s pos pos run (accept s s.next_seq run)
  unfolding accept advance
  deliver s pos run t p =
      let ahead = advance s (length run) in
      let k =
        drain-Keeps isn cuts short full (length ahead.buffered) ahead (pos + length run)
          (Tidy-advance isn cuts short full s pos run t p) in
      let whole =
        Keeps-cons isn cuts short full s ahead pos run _
          (λ o other q seen. elim seen [ inl lt ↦ inl (omega arith) | inr e ↦ inr e ]) k in
      rw (same_seq s.next_seq) record {
        keeps = whole;
        drained = drain-IsDrained (length ahead.buffered) ahead (omega arith);
        taken = inl (
            omega (
              arith,
              whole.stop,
              length-append run (concat (drain (length ahead.buffered) ahead).0),
              piece_bounds 0 cuts pos run full p,
            ));
      }

  module _ (s : FlowState) (pos o : ℕ) (run : Bytes) (t : Tidy isn cuts s pos) (lt : pos < o)
      (p : Piece isn cuts o run) where
    later : s.next_seq ≢ seq_of isn cuts o
    later e = absurd (
        omega (
          arith,
          same_place isn cuts short full pos o (sym t.at_pos ∙ e)
              (edge-le isn cuts short full s pos t)
              (omega (arith, piece_bounds 0 cuts o run full p)),
        ))

    -- What is held back under the number of a piece is that piece.
    held_same : (other : Bytes) → lookup (seq_of isn cuts o) s.buffered ≡ some other → other ≡ run
    held_same other e =
        let (o', k, q) = t.held (seq_of isn cuts o) other e in
        let place =
          same_place isn cuts short full o o' k (omega (arith, piece_bounds 0 cuts o run full p))
            (omega (arith, piece_bounds 0 cuts o' other full q)) in
        piece_unique 0 cuts o other run full (subst (λ i. PieceFrom 0 cuts i other) (sym place) q) p

    Seen-insert :
        lookup (seq_of isn cuts o) s.buffered ≡ none
        → (o' : ℕ) (other : Bytes) → Piece isn cuts o' other
        → Seen isn cuts s pos o' other
        → Seen isn cuts
            (record s { buffered = insert (seq_of isn cuts o) run s.buffered })
            pos
            o'
            other
    Seen-insert fresh o' other q (inl lt') = inl lt'
    Seen-insert fresh o' other q (inr e) =
        elim (Bool-cases (seq_of isn cuts o == seq_of isn cuts o')) [
          | inl same ↦
              absurd (cc (ap (λ (k : ℕ). lookup k s.buffered) ((==_iff _ _).0 same), fresh, e))
          | inr apart ↦
              inr (
                rw (lookup-insert (seq_of isn cuts o) (seq_of isn cuts o') run s.buffered, apart) e)
        ]

    hold : IsDrained s → Taken s pos o run (accept s (seq_of isn cuts o) run)
    unfolding accept
    hold d = elim (Option-cases (lookup (seq_of isn cuts o) s.buffered)) [
      | inr (other, e) ↦
          rw (other_seq (seq_of isn cuts o) s.next_seq (λ k. later (sym k)), e)
            record {
              keeps = Keeps-nil isn cuts short full s pos t;
              drained = d;
              taken = inr (e ∙ ap some (held_same other e));
            }
      | inl e ↦
          rw (other_seq (seq_of isn cuts o) s.next_seq (λ k. later (sym k)), e)
            record {
              keeps = record {
                end = pos;
                stop = omega arith;
                tidy = record {
                  at_pos = t.at_pos;
                  going = t.going;
                  edge = t.edge;
                  held = λ k other found.
                      elim (insert-inv (seq_of isn cuts o) k run s.buffered found) [
                        | inl (key, same) ↦ (o, sym key, subst (PieceFrom 0 cuts o) same p)
                        | inr old ↦ t.held k other old
                      ];
                };
                seen = Seen-insert e;
              };
              drained =
                  lookup-insert (seq_of isn cuts o) s.next_seq run s.buffered
                  ∙ rw (other_seq (seq_of isn cuts o) s.next_seq (λ k. later (sym k))) d;
              taken = inr (
                  lookup-insert (seq_of isn cuts o) (seq_of isn cuts o) run s.buffered
                  ∙ rw same_seq);
            }
    ]

  -- A piece that starts before the place where the flow stands ends before it.
  ends_before :
      (s : FlowState) (pos o : ℕ) (run : Bytes)
      → Tidy isn cuts s pos
      → Piece isn cuts o run
      → o < pos
      → o + length run ≤ pos
  ends_before s pos o run t p lt = elim t.edge [
    | inl e ↦ omega (arith, piece_bounds 0 cuts o run full p)
    | inr (r, q) ↦ piece_apart 0 cuts o pos run r full p q lt
  ]

  -- A piece that comes again, or that comes late, is dropped whole.
  pub push-Taken :
      (s : FlowState) (pos o : ℕ) (x : Segment)
      → Tidy isn cuts s pos
      → IsDrained s
      → x.seq ≡ seq_of isn cuts o
      → Piece isn cuts o x.bytes
      → Taken s pos o x.bytes (push s x)
  unfolding push
  push-Taken s pos o x t d at p =
      let o_in : o ≤ length (concat cuts) = omega (arith, piece_bounds 0 cuts o x.bytes full p) in
      let order =
        ap₂ seq_before at t.at_pos
        ∙ seq_before_lem isn (concat cuts) short o pos o_in (edge-le isn cuts short full s pos t) in
      elim (Bool-cases (ltb o pos)) [
        | inl behind ↦
            let lt = ltb→lt o pos behind in
            let gap : seq_distance x.seq s.next_seq ≡ pos - o =
              ap₂ seq_distance at t.at_pos
              ∙ seq_distance_lem isn (concat cuts) short o pos lt
                  (edge-le isn cuts short full s pos t) in
            let old =
              le→leb (length x.bytes % u32_size) (pos - o)
                (omega (arith, ends_before s pos o x.bytes t p lt)) in
            let nothing = Keeps-nil isn cuts short full s pos t in
            rw (order, behind, gap, old)
              record { keeps = nothing; drained = d; taken = inl (omega (arith, lt, nothing.stop)) }
        | inr ahead ↦ elim (Bool-cases (o == pos)) [
          | inl now ↦
              let place = (==_iff o pos).0 now in
              let here : Piece isn cuts pos x.bytes =
                subst (λ i. PieceFrom 0 cuts i x.bytes) place p in
              let next : x.seq ≡ s.next_seq = at ∙ ap (seq_of isn cuts) place ∙ sym t.at_pos in
              rw (order, ahead, next)
                (subst (λ i. Taken s pos i x.bytes (accept s s.next_seq x.bytes)) (sym place)
                  (deliver s pos x.bytes t here))
          | inr apart ↦
              rw (order, ahead, at) (hold s pos o x.bytes t (ahead-lt o pos ahead apart) p d)
        ]
      ]
