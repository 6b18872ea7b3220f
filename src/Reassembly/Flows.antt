-- ===== src/Reassembly/Flows.antt =====
-- Flows do not disturb one another: what `Assembler.Push` does to a flow is what it would do to
-- that flow alone, and what comes out of a flow is a run of its sender's stream.
use passive_solar_mqtt_bridg.Prelude.{
  ℕ, ◌+◌, ◌^◌, ◌≤◌, ◌<◌, ◌≡◌, refl, sym, ap, ap₂, ◌∙◌, String, Bool, true, false, List, [], ◌∷◌,
  ◌++◌, inl, inr, length, length-append, concat, concat-append, All, arith, append_assoc,
  Bool-cases, ◌==◌, if◌then◌else◌,
}
use mathlib.Core.Path.{subst}
use passive_solar_mqtt_bridg.Prelude.Equality.{string_eq}
use passive_solar_mqtt_bridg.Prelude.Slice.{slice, slice-append}
use passive_solar_mqtt_bridg.Dict.{lookup, insert}
use passive_solar_mqtt_bridg.Dict.Laws.{lookup-insert}
use passive_solar_mqtt_bridg.Reassembly.{
  Bytes, Segment, StreamChunk, FlowState, Assembler, new_assembler, new_flow, push, start, flow,
  chunks_of, push_segment, push_all,
}
use passive_solar_mqtt_bridg.Reassembly.Stream.{
  Carries, Follows, Delivers, Delivers-nil, push-Delivers,
}

-- All bytes of the chunks of one flow.
unfoldable pub output : String → List StreamChunk → Bytes
output f [] = []
output f (c ∷ cs) =
    let rest = output f cs in if string_eq.beq c.flow_id f then c.bytes ++ rest else rest

-- The segments of one flow.
unfoldable pub of_flow : String → List Segment → List Segment
of_flow f [] = []
of_flow f (x ∷ xs) = let rest = of_flow f xs in if string_eq.beq x.flow_id f then x ∷ rest else rest

-- One segment, and all segments, of a flow that is alone.
unfoldable pub flow_step : FlowState → Segment → List Bytes × FlowState
flow_step s x = if length x.bytes == 0 then ([], s) else push (start s x.seq) x

unfoldable pub run_flow : FlowState → List Segment → List Bytes × FlowState
run_flow s [] = ([], s)
run_flow s (x ∷ xs) =
    let (now, s') = flow_step s x in let (later, s'') = run_flow s' xs in (now ++ later, s'')

pub output-append :
    (f : String) (xs ys : List StreamChunk) → output f (xs ++ ys) ≡ output f xs ++ output f ys
unfolding output
output-append f [] ys = refl
output-append f (x ∷ xs) ys = elim (Bool-cases (string_eq.beq x.flow_id f)) [
  | inl same ↦ rw (same, output-append f xs ys, append_assoc)
  | inr other ↦ rw (other, output-append f xs ys)
]

pub output-chunks_of :
    (f g : String) (runs : List Bytes)
    → output f (chunks_of g runs) ≡ (if string_eq.beq g f then concat runs else [])
unfolding output chunks_of
output-chunks_of f g [] = ground arith
output-chunks_of f g (r ∷ rs) = ground (arith, output-chunks_of f g rs)

flow-insert :
    (a : Assembler) (g f : String) (s : FlowState)
    → flow (record { flows = insert g s a.flows }) f ≡ (if string_eq.beq g f then s else flow a f)
unfolding flow
flow-insert a g f s = ground (arith, lookup-insert g f s a.flows)

if_same {ℓ} : {A : Type ℓ} (b : Bool) (x : A) → (if b then x else x) ≡ x
if_same true x = refl
if_same false x = refl

-- What `Push` does to a flow: nothing, if the segment is of another one.
pub flow-push_segment :
    (a : Assembler) (x : Segment) (f : String)
    → flow (push_segment a x).1 f
      ≡ (if string_eq.beq x.flow_id f then (flow_step (flow a f) x).1 else flow a f)
unfolding push_segment flow_step
flow-push_segment a x f = elim (Bool-cases (length x.bytes == 0)) [
  | inl empty ↦ rw empty (sym (if_same _ (flow a f)))
  | inr more ↦ elim (Bool-cases (string_eq.beq x.flow_id f)) [
    | inl same ↦
        let e = (string_eq.beq_iff x.flow_id f).0 same in rw (more, same, flow-insert, same, e)
    | inr other ↦ rw (more, other, flow-insert, other)
  ]
]

pub output-push_segment :
    (a : Assembler) (x : Segment) (f : String)
    → output f (push_segment a x).0
      ≡ (if string_eq.beq x.flow_id f then concat (flow_step (flow a f) x).0 else [])
unfolding push_segment flow_step
output-push_segment a x f = elim (Bool-cases (length x.bytes == 0)) [
  | inl empty ↦ rw empty (unfold output in sym (if_same _ []))
  | inr more ↦ elim (Bool-cases (string_eq.beq x.flow_id f)) [
    | inl same ↦
        let e = (string_eq.beq_iff x.flow_id f).0 same in rw (more, same, output-chunks_of, same, e)
    | inr other ↦ rw (more, other, output-chunks_of, other)
  ]
]

-- However the segments of many flows are mixed, each flow delivers, and is left as, what its own
-- segments alone lead to.
pub push_all-run_flow :
    (a : Assembler) (xs : List Segment) (f : String)
    → (output f (push_all a xs).0 ≡ concat (run_flow (flow a f) (of_flow f xs)).0)
      × (flow (push_all a xs).1 f ≡ (run_flow (flow a f) (of_flow f xs)).1)
unfolding push_all run_flow of_flow
push_all-run_flow a [] f = (unfold output in refl, refl)
push_all-run_flow a (x ∷ xs) f =
    let (out, left) = push_all-run_flow (push_segment a x).1 xs f in
    elim (Bool-cases (string_eq.beq x.flow_id f)) [
      | inl same ↦
          let st = rw same at (flow-push_segment a x f) in
          let now = rw same at (output-push_segment a x f) in
          (rw (same, output-append, now, out, st, concat-append), rw (same, left, st))
      | inr other ↦
          let st = rw other at (flow-push_segment a x f) in
          let now = rw other at (output-push_segment a x f) in
          (rw (other, output-append, now, out, st), rw (other, left, st))
    ]

-- A segment of a flow is genuine if it is a run of what the flow's sender sent.
abbrev pub IsGenuine : ℕ → Bytes → Segment → Type 0
IsGenuine isn sent x = Carries isn sent x.seq x.bytes

-- The bytes are a run of the stream that starts somewhere in it.
pub record IsRun (out sent : Bytes) : Type 0 where
  pub from : ℕ
  pub within : from + length out ≤ length sent
  pub in_order : out ≡ slice from (length out) sent

-- A flow that has started is not started again.
pub start_started : (s : FlowState) (seq : ℕ) → s.started ≡ true → start s seq ≡ s
unfolding start
start_started s seq h = ground arith

module _ (isn : ℕ) (sent : Bytes) (short : length sent < 2 ^ 31) where
  size :
      (now later : List Bytes)
      → length (concat (now ++ later)) ≡ length (concat now) + length (concat later)
  size now later = rw concat-append (length-append (concat now) (concat later))

  Delivers-append :
      (now later : List Bytes) (s s' : FlowState) (pos : ℕ)
      → Delivers isn sent pos (now, s)
      → Delivers isn sent (pos + length (concat now)) (later, s')
      → Delivers isn sent pos (now ++ later, s')
  Delivers-append now later s s' pos d d' = record {
    in_order =
        concat-append now later
        ∙ ap₂ (λ (a b : Bytes). a ++ b) d.in_order d'.in_order
        ∙ slice-append pos (length (concat now)) (length (concat later)) sent
        ∙ ap (λ (n : ℕ). slice pos n sent) (sym (size now later));
    after = record {
      going = d'.after.going;
      at_pos = omega (arith, d'.after.at_pos, size now later);
      within = omega (arith, d'.after.within, size now later);
      held = d'.after.held;
    };
  }

  flow_step-Delivers :
      (s : FlowState) (pos : ℕ) (x : Segment)
      → Follows isn sent s pos
      → IsGenuine isn sent x
      → Delivers isn sent pos (flow_step s x)
  unfolding flow_step
  flow_step-Delivers s pos x f c = elim (Bool-cases (length x.bytes == 0)) [
    | inl empty ↦ rw empty (Delivers-nil isn sent short s pos f)
    | inr more ↦ rw (more, start_started s x.seq f.going) (push-Delivers isn sent short s pos x f c)
  ]

  pub run_flow-Delivers :
      (s : FlowState) (pos : ℕ) (xs : List Segment)
      → Follows isn sent s pos
      → All (IsGenuine isn sent) xs
      → Delivers isn sent pos (run_flow s xs)
  unfolding run_flow
  run_flow-Delivers s pos [] f c = Delivers-nil isn sent short s pos f
  run_flow-Delivers s pos (x ∷ xs) f (c, cs) =
      let d = flow_step-Delivers s pos x f c in
      Delivers-append _ _ _ _ pos d (
        run_flow-Delivers (flow_step s x).1 (pos + length (concat (flow_step s x).0)) xs d.after cs)

  -- The first segment with bytes starts the flow at its own offset.
  pub Follows-start :
      (x : Segment) (c : IsGenuine isn sent x) → Follows isn sent (start new_flow x.seq) c.offset
  unfolding start
  Follows-start x c = record {
    going = refl;
    at_pos = c.at_offset;
    within = omega (arith, c.within);
    held = λ k run e. unfold lookup in cc;
  }

  first :
      (x : Segment) (c : IsGenuine isn sent x)
      → Delivers isn sent c.offset (push (start new_flow x.seq) x)
  first x c = push-Delivers isn sent short _ c.offset x (Follows-start x c) c

  pub run_flow-IsRun :
      (xs : List Segment)
      → All (IsGenuine isn sent) xs
      → IsRun (concat (run_flow new_flow xs).0) sent
  unfolding run_flow flow_step slice
  run_flow-IsRun [] c = record { from = 0; within = omega arith; in_order = refl }
  run_flow-IsRun (x ∷ xs) (c, cs) = elim (Bool-cases (length x.bytes == 0)) [
    | inl empty ↦ rw empty (run_flow-IsRun xs cs)
    | inr more ↦
        let d =
          Delivers-append _ _ _ _ c.offset (first x c)
            (run_flow-Delivers _ _ xs (first x c).after cs) in
        rw more (record { from = c.offset; within = d.after.within; in_order = d.in_order })
  ]

-- Each flow's sender: the sequence number of its first byte, and its stream.
pub record Sender : Type 0 where
  pub isn : ℕ
  pub sent : Bytes
  pub is_short : length sent < 2 ^ 31

AllGenuine-of_flow :
    (senders : String → Sender) (f : String) (xs : List Segment)
    → All (λ x. IsGenuine (senders x.flow_id).isn (senders x.flow_id).sent x) xs
    → All (IsGenuine (senders f).isn (senders f).sent) (of_flow f xs)
unfolding of_flow
AllGenuine-of_flow senders f [] h = tt
AllGenuine-of_flow senders f (x ∷ xs) (h, hs) = elim (Bool-cases (string_eq.beq x.flow_id f)) [
  | inl same ↦ rw same (
    subst (λ g. IsGenuine (senders g).isn (senders g).sent x)
        ((string_eq.beq_iff x.flow_id f).0 same) h,
    AllGenuine-of_flow senders f xs hs,
  )
  | inr other ↦ rw other (AllGenuine-of_flow senders f xs hs)
]

-- If every segment of a capture carries a run of its sender's stream, the bytes that a new
-- assembler delivers for a flow are one gapless run of that flow's stream, in order and with no
-- byte twice, however the segments of all flows are mixed, reordered, repeated or overlapping.
-- The streams are shorter than 2 ^ 31 bytes, so that sequence numbers tell positions apart.
pub push_all-IsRun :
    (senders : String → Sender) (xs : List Segment) (f : String)
    → All (λ x. IsGenuine (senders x.flow_id).isn (senders x.flow_id).sent x) xs
    → IsRun (output f (push_all new_assembler xs).0) (senders f).sent
unfolding flow lookup
push_all-IsRun senders xs f h = rw ((push_all-run_flow new_assembler xs f).0) (
    run_flow-IsRun (senders f).isn (senders f).sent (senders f).is_short (of_flow f xs)
      (AllGenuine-of_flow senders f xs h))
