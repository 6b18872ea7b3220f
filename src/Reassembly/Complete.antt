-- ===== src/Reassembly/Complete.antt =====
-- Nothing is lost: when every piece of a stream has arrived, in whatever order and however often,
-- the whole stream has been delivered.
mod Pieces
mod Drain
mod Takes
pub use Pieces.{PieceFrom, HasBytes}
pub use Drain.{Piece, seq_of}
pub use Takes.{IsPiece, Covers}
use Pieces.{piece_bounds, piece-slice}
use Drain.{IsDrained, Tidy, Seen, Keeps, same_place, edge-le, Keeps-nil}
use Takes.{Taken, push-Taken}
use passive_solar_mqtt_bridg.Prelude.{
  ℕ, zero, suc, String, ◌+◌, ◌-◌, ◌%◌, ◌^◌, ◌≤◌, ◌<◌, ◌≡◌, ◌≢◌, refl, sym, ap, ap₂, ◌∙◌, ◌⊎◌, inl,
  inr, none, some, List, [], ◌∷◌, ◌++◌, Bool, true, false, length, length-append, concat,
  concat-append, drop, All, arith, Bool-cases, Option-cases, ==_iff, leb, ltb, ltb→lt, le→leb, ◌==◌,
  if◌then◌else◌,
}
use mathlib.Core.Path.{subst, subst₂}
use passive_solar_mqtt_bridg.Prelude.Equality.{nat_eq}
use passive_solar_mqtt_bridg.Prelude.Slice.{slice, slice-all}
use passive_solar_mqtt_bridg.Dict.{lookup}
use passive_solar_mqtt_bridg.Reassembly.{
  Bytes, Segment, FlowState, u32_size, new_flow, new_assembler, push, start, flow, push_all,
}
use passive_solar_mqtt_bridg.Reassembly.Stream.{Carries, Follows, Delivers}
use passive_solar_mqtt_bridg.Reassembly.Flows.{
  output, of_flow, flow_step, run_flow, IsGenuine, run_flow-Delivers, start_started,
  push_all-run_flow,
}

has_bytes : (run : Bytes) → 0 < length run → (length run == 0) ≡ false
has_bytes run h = ground arith

size :
    (now later : List Bytes)
    → length (concat (now ++ later)) ≡ length (concat now) + length (concat later)
size now later = rw concat-append (length-append (concat now) (concat later))

module _ (isn : ℕ) (cuts : List Bytes) (short : length (concat cuts) < 2 ^ 31)
    (full : All HasBytes cuts) where
  -- After all of `xs`, each piece that one of them carries is seen.
  record Collects (s : FlowState) (pos : ℕ) (xs : List Segment) (r : List Bytes × FlowState)
      : Type 0 where
    pub keeps : Keeps isn cuts s pos r
    pub drained : IsDrained r.1
    pub taken :
        (o : ℕ) (run : Bytes)
        → Piece isn cuts o run
        → Covers isn cuts xs o run
        → Seen isn cuts r.1 keeps.end o run

  flow_step-Taken :
      (s : FlowState) (pos : ℕ) (x : Segment) (p : IsPiece isn cuts x)
      → Tidy isn cuts s pos
      → IsDrained s
      → Taken isn cuts short full s pos p.place x.bytes (flow_step s x)
  unfolding flow_step
  flow_step-Taken s pos x p t d =
      rw
        (
          has_bytes x.bytes (omega (arith, piece_bounds 0 cuts p.place x.bytes full p.is_piece)),
          start_started s x.seq t.going,
        )
        (push-Taken isn cuts short full s pos p.place x t d p.at_place p.is_piece)

  run_flow-Collects :
      (s : FlowState) (pos : ℕ) (xs : List Segment)
      → All (IsPiece isn cuts) xs
      → Tidy isn cuts s pos
      → IsDrained s
      → Collects s pos xs (run_flow s xs)
  unfolding run_flow
  run_flow-Collects s pos [] ps t d = record {
    keeps = Keeps-nil isn cuts short full s pos t;
    drained = d;
    taken = λ o run q c. absurd c;
  }
  run_flow-Collects s pos (x ∷ xs) (p, ps) t d =
      let now = flow_step-Taken s pos x p t d in
      let rest =
        run_flow-Collects (flow_step s x).1 now.keeps.end xs ps now.keeps.tidy now.drained in
      record {
        keeps = record {
          end = rest.keeps.end;
          stop = omega (
            arith,
            now.keeps.stop,
            rest.keeps.stop,
            size (flow_step s x).0 (run_flow (flow_step s x).1 xs).0,
          );
          tidy = rest.keeps.tidy;
          seen = λ o run q seen. rest.keeps.seen o run q (now.keeps.seen o run q seen);
        };
        drained = rest.drained;
        taken = λ o run q c. elim c [
          | inl (seq, bytes) ↦
              let e =
                same_place isn cuts short full p.place o (sym p.at_place ∙ seq)
                  (omega (arith, piece_bounds 0 cuts p.place x.bytes full p.is_piece))
                  (omega (arith, piece_bounds 0 cuts o run full q)) in
              rest.keeps.seen o run q
                (subst₂ (Seen isn cuts (flow_step s x).1 now.keeps.end) e bytes now.taken)
          | inr c' ↦ rest.taken o run q c'
        ];
      }

  IsPiece-Carries : (x : Segment) → IsPiece isn cuts x → IsGenuine isn (concat cuts) x
  IsPiece-Carries x p = record {
    offset = p.place;
    at_offset = p.at_place;
    within = omega (arith, piece_bounds 0 cuts p.place x.bytes full p.is_piece);
    is_run =
        piece-slice 0 cuts p.place x.bytes full p.is_piece
        ∙ ap (λ (k : ℕ). slice k (length x.bytes) (concat cuts)) (omega arith);
  }

  AllIsPiece-Carries :
      (xs : List Segment) → All (IsPiece isn cuts) xs → All (IsGenuine isn (concat cuts)) xs
  AllIsPiece-Carries [] ps = tt
  AllIsPiece-Carries (x ∷ xs) (p, ps) = (IsPiece-Carries x p, AllIsPiece-Carries xs ps)

  module _ (x : Segment) (p : IsPiece isn cuts x) (at_start : p.place ≡ 0) where
    abbrev begun : FlowState
    begun = record { next_seq = x.seq; started = true; buffered = []; bytes_read = 0 }

    begun-Tidy : Tidy isn cuts begun 0
    begun-Tidy = record {
      at_pos = p.at_place ∙ ap (seq_of isn cuts) at_start;
      going = refl;
      edge = inr (x.bytes, subst (λ o. PieceFrom 0 cuts o x.bytes) at_start p.is_piece);
      held = λ k run e. unfold lookup in cc;
    }

    begun-Follows : Follows isn (concat cuts) begun 0
    begun-Follows = record {
      going = refl;
      at_pos = p.at_place ∙ ap (seq_of isn cuts) at_start;
      within = omega arith;
      held = λ k run e. unfold lookup in cc;
    }

    -- The flow stands at the end: no piece starts where it stands.
    run_flow-begun :
        (xs : List Segment)
        → All (IsPiece isn cuts) xs
        → ((o : ℕ) (run : Bytes) → Piece isn cuts o run → Covers isn cuts xs o run)
        → concat (run_flow begun xs).0 ≡ concat cuts
    run_flow-begun xs ps covered =
        let c = run_flow-Collects begun 0 xs ps begun-Tidy (unfold lookup in refl) in
        let d =
          run_flow-Delivers isn (concat cuts) short begun 0 xs begun-Follows
            (AllIsPiece-Carries xs ps) in
        elim c.keeps.tidy.edge [
          | inl e ↦
              d.in_order
              ∙ ap (λ (n : ℕ). slice 0 n (concat cuts)) (omega (arith, c.keeps.stop))
              ∙ slice-all (concat cuts)
          | inr (r, q) ↦ elim (c.taken c.keeps.end r q (covered c.keeps.end r q)) [
            | inl lt ↦ absurd (omega arith)
            | inr e ↦ absurd (
                cc (
                  ap (λ (k : ℕ). lookup k (run_flow begun xs).1.buffered) c.keeps.tidy.at_pos,
                  c.drained,
                  e,
                ))
          ]
        ]

    run_flow-new_flow : (xs : List Segment) → run_flow new_flow (x ∷ xs) ≡ run_flow begun (x ∷ xs)
    unfolding run_flow flow_step start
    run_flow-new_flow xs =
        rw (has_bytes x.bytes (omega (arith, piece_bounds 0 cuts p.place x.bytes full p.is_piece)))

  pub push_all_complete :
      (f : String) (xs : List Segment) (x : Segment) (rest : List Segment)
      → of_flow f xs ≡ x ∷ rest
      → (p : IsPiece isn cuts x) → p.place ≡ 0
      → All (IsPiece isn cuts) rest
      → ((o : ℕ) (run : Bytes) → Piece isn cuts o run → Covers isn cuts (x ∷ rest) o run)
      → output f (push_all new_assembler xs).0 ≡ concat cuts
  unfolding flow lookup
  push_all_complete f xs x rest mine p at_start ps covered =
      (push_all-run_flow new_assembler xs f).0
      ∙ ap (λ (ys : List Segment). concat (run_flow new_flow ys).0) mine
      ∙ ap (λ (r : List Bytes × FlowState). concat r.0) (run_flow-new_flow x p at_start rest)
      ∙ run_flow-begun x p at_start (x ∷ rest) (p, ps) covered
