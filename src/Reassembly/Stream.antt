-- ===== src/Reassembly/Stream.antt =====
-- What the reassembler delivers, against the sender's byte stream.
-- `sent` is the whole stream and `isn` the sequence number of its first byte. A segment is genuine
-- if it carries a run of `sent` under the sequence number of the run's first byte.
use passive_solar_mqtt_bridg.Prelude.{
  ℕ, zero, suc, ◌+◌, ◌-◌, ◌%◌, ◌^◌, ◌≤◌, ◌<◌, ◌≡◌, refl, sym, ap, ◌∙◌, ap₂, some, List, [], ◌∷◌,
  ◌++◌, inl, inr, true, false, length, length-append, length-drop, concat, drop, arith, Bool-cases,
  Option-cases, ==_iff, leb, ltb, ltb→lt, ◌==◌,
}
use mathlib.Core.Path.{subst, subst₂}
use passive_solar_mqtt_bridg.Prelude.Equality.{nat_eq}
use passive_solar_mqtt_bridg.Prelude.Slice.{slice, slice-append, drop-slice}
use passive_solar_mqtt_bridg.Dict.{lookup, insert, delete}
use passive_solar_mqtt_bridg.Dict.Laws.{insert-inv, delete-inv}
use passive_solar_mqtt_bridg.Reassembly.{
  Bytes, Segment, FlowState, u32_size, seq_before, seq_distance, advance, drain, accept, push,
}

module _ (isn : ℕ) (sent : Bytes) where
  pub record Carries (seq : ℕ) (run : Bytes) : Type 0 where
    pub offset : ℕ
    pub at_offset : seq ≡ (isn + offset) % u32_size
    pub within : offset + length run ≤ length sent
    pub is_run : run ≡ slice offset (length run) sent

  -- The flow has delivered the stream up to `pos`, and all that it holds back is genuine.
  pub record Follows (s : FlowState) (pos : ℕ) : Type 0 where
    pub going : s.started ≡ true
    pub at_pos : s.next_seq ≡ (isn + pos) % u32_size
    pub within : pos ≤ length sent
    pub held : (k : ℕ) (run : Bytes) → lookup k s.buffered ≡ some run → Carries k run

  -- A result that delivers the stream from `pos` on, with no gap, and goes on from where it ends.
  pub record Delivers (pos : ℕ) (r : List Bytes × FlowState) : Type 0 where
    pub in_order : concat r.0 ≡ slice pos (length (concat r.0)) sent
    pub after : Follows r.1 (pos + length (concat r.0))

module _ (isn : ℕ) (sent : Bytes) (short : length sent < 2 ^ 31) where
  part_new : (len n : ℕ) → leb (len % u32_size) n ≡ false → len < 2 ^ 31 → n ≤ len
  part_new len n h fits = ground arith

  same_offset :
      (o pos : ℕ)
      → (isn + o) % u32_size ≡ (isn + pos) % u32_size
      → o ≤ length sent
      → pos ≤ length sent
      → o ≡ pos
  same_offset o pos e h k = omega arith

  pub Delivers-nil :
      (s : FlowState) (pos : ℕ) → Follows isn sent s pos → Delivers isn sent pos ([], s)
  unfolding slice
  Delivers-nil s pos f = record {
    in_order = refl;
    after = record { going = f.going; at_pos = omega arith; within = omega arith; held = f.held };
  }

  Delivers-cons :
      (run : Bytes) (chunks : List Bytes) (s : FlowState) (pos : ℕ)
      → run ≡ slice pos (length run) sent
      → Delivers isn sent (pos + length run) (chunks, s)
      → Delivers isn sent pos (run ∷ chunks, s)
  Delivers-cons run chunks s pos e d = record {
    in_order =
        ap₂ (λ (a b : Bytes). a ++ b) e d.in_order
        ∙ slice-append pos (length run) (length (concat chunks)) sent
        ∙ ap (λ (n : ℕ). slice pos n sent) (sym (length-append run (concat chunks)));
    after = record {
      going = d.after.going;
      at_pos = omega (arith, length-append run (concat chunks));
      within = omega (arith, length-append run (concat chunks));
      held = d.after.held;
    };
  }

  Follows-advance :
      (s : FlowState) (pos n : ℕ)
      → Follows isn sent s pos
      → pos + n ≤ length sent
      → Follows isn sent (advance s n) (pos + n)
  unfolding advance
  Follows-advance s pos n f h = record {
    going = f.going;
    at_pos = omega arith;
    within = h;
    held = f.held;
  }

  Follows-delete :
      (s : FlowState) (pos k : ℕ)
      → Follows isn sent s pos
      → Follows isn sent (record s { buffered = delete k s.buffered }) pos
  Follows-delete s pos k f = record {
    going = f.going;
    at_pos = f.at_pos;
    within = f.within;
    held = λ j run e. f.held j run (delete-inv k j s.buffered e);
  }

  Follows-insert :
      (s : FlowState) (pos seq : ℕ) (run : Bytes)
      → Follows isn sent s pos
      → Carries isn sent seq run
      → Follows isn sent (record s { buffered = insert seq run s.buffered }) pos
  Follows-insert s pos seq run f c = record {
    going = f.going;
    at_pos = f.at_pos;
    within = f.within;
    held = λ j other e. elim (insert-inv seq j run s.buffered e) [
      | inl (key, same) ↦ subst₂ (Carries isn sent) key same c
      | inr old ↦ f.held j other old
    ];
  }

  -- A genuine run that starts where the flow stands is the next run of the stream.
  Carries-next :
      (s : FlowState) (pos : ℕ) (run : Bytes)
      → Follows isn sent s pos
      → Carries isn sent s.next_seq run
      → (run ≡ slice pos (length run) sent) × (pos + length run ≤ length sent)
  Carries-next s pos run f c =
      let e = same_offset c.offset pos (sym c.at_offset ∙ f.at_pos) (omega arith) f.within in
      (rw e at c.is_run, rw e at c.within)

  pub drain-Delivers :
      (fuel : ℕ) (s : FlowState) (pos : ℕ)
      → Follows isn sent s pos
      → Delivers isn sent pos (drain fuel s)
  unfolding drain
  drain-Delivers zero s pos f = Delivers-nil s pos f
  drain-Delivers (suc fuel) s pos f = elim (Option-cases (lookup s.next_seq s.buffered)) [
    | inl e ↦ rw (e, drain) (Delivers-nil s pos f)
    | inr (run, e) ↦
        let (r, within) = Carries-next s pos run f (f.held s.next_seq run e) in
        rw (e, drain)
          (Delivers-cons run _ _ pos r (
            drain-Delivers fuel _ (pos + length run)
              (Follows-advance _ pos (length run) (Follows-delete s pos s.next_seq f) within)))
  ]

  accept-Delivers :
      (s : FlowState) (pos seq : ℕ) (run : Bytes)
      → Follows isn sent s pos
      → Carries isn sent seq run
      → Delivers isn sent pos (accept s seq run)
  unfolding accept
  accept-Delivers s pos seq run f c = elim (Bool-cases (seq == s.next_seq)) [
    | inl now ↦
        let (r, within) =
          Carries-next s pos run f (subst (λ k. Carries isn sent k run) ((==_iff _ _).0 now) c) in
        rw now (
          Delivers-cons run _ _ pos r
            (drain-Delivers _ _ (pos + length run) (Follows-advance s pos (length run) f within)))
    | inr later ↦ elim (Option-cases (lookup seq s.buffered)) [
      | inl fresh ↦ rw (later, fresh) (Delivers-nil _ pos (Follows-insert s pos seq run f c))
      | inr (held, e) ↦ rw (later, e) (Delivers-nil s pos f)
    ]
  ]

  -- What is left of a genuine run after the bytes before `pos` are cut off.
  Carries-drop :
      (pos seq : ℕ) (run : Bytes) (n : ℕ)
      → (c : Carries isn sent seq run) → n ≤ length run
      → c.offset + n ≡ pos
      → Carries isn sent ((isn + pos) % u32_size) (drop n run)
  Carries-drop pos seq run n c h e = record {
    offset = pos;
    at_offset = refl;
    within = omega (arith, length-drop n run, c.within);
    is_run =
        ap (drop n) c.is_run
        ∙ drop-slice n c.offset (length run) sent
        ∙ ap₂ (λ (o m : ℕ). slice o m sent) e (sym (length-drop n run));
  }

  -- `seq_before` and `seq_distance` read the order and the distance of the offsets.
  pub seq_before_lem :
      (o pos : ℕ)
      → o ≤ length sent
      → pos ≤ length sent
      → seq_before ((isn + o) % u32_size) ((isn + pos) % u32_size) ≡ ltb o pos
  unfolding seq_before
  seq_before_lem o pos h k = ground arith

  pub seq_distance_lem :
      (o pos : ℕ)
      → o < pos
      → pos ≤ length sent
      → seq_distance ((isn + o) % u32_size) ((isn + pos) % u32_size) ≡ pos - o
  unfolding seq_distance
  seq_distance_lem o pos h k = omega arith

  pub push-Delivers :
      (s : FlowState) (pos : ℕ) (segment : Segment)
      → Follows isn sent s pos
      → Carries isn sent segment.seq segment.bytes
      → Delivers isn sent pos (push s segment)
  unfolding push
  push-Delivers s pos segment f c =
      let c_in : c.offset ≤ length sent = omega (arith, c.within) in
      let order = ap₂ seq_before c.at_offset f.at_pos ∙ seq_before_lem c.offset pos c_in f.within in
      elim (Bool-cases (ltb c.offset pos)) [
        | inr ahead ↦ rw (order, ahead) (accept-Delivers s pos segment.seq segment.bytes f c)
        | inl behind ↦
            let gap : seq_distance segment.seq s.next_seq ≡ pos - c.offset =
              ap₂ seq_distance c.at_offset f.at_pos
              ∙ seq_distance_lem c.offset pos (ltb→lt _ _ behind) f.within in
            elim (Bool-cases (leb (length segment.bytes % u32_size) (pos - c.offset))) [
              | inl old ↦ rw (order, behind, gap, old) (Delivers-nil s pos f)
              | inr new ↦
                  rw (order, behind, gap, new)
                    (accept-Delivers s pos s.next_seq (drop (pos - c.offset) segment.bytes) f (
                      subst (λ k. Carries isn sent k (drop (pos - c.offset) segment.bytes))
                        (sym f.at_pos)
                        (Carries-drop pos segment.seq segment.bytes (pos - c.offset) c
                          (part_new (length segment.bytes) (pos - c.offset) new (omega arith))
                          (omega (arith, ltb→lt c.offset pos)))))
            ]
      ]
