-- ===== src/Capture/Follows.antt =====
-- What a capture does to the reassembly, the decoder of one flow and the processor together.
use passive_solar_mqtt_bridg.Prelude.{
  ℕ, ◌+◌, ◌≤◌, ◌≡◌, refl, sym, ap, ap₂, ◌∙◌, true, false, List, [], ◌∷◌, ◌++◌, append_assoc,
  append-nil, String, Bytes, length, concat, All, arith, inl, inr, Bool-cases, ◌==◌, if◌then◌else◌,
}
use mathlib.Core.Path.{subst}
use passive_solar_mqtt_bridg.Prelude.Equality.{Eq, string_eq}
use passive_solar_mqtt_bridg.Dict.{Dict}
use passive_solar_mqtt_bridg.State.{Value}
use passive_solar_mqtt_bridg.Alphaess
use passive_solar_mqtt_bridg.Alphaess.{new_decoder, max_buffered_bytes}
use passive_solar_mqtt_bridg.Alphaess.Streams.{
  push_chunks, Fits, encode_frames, stream_messages, push_chunks-encode_frames,
}
use passive_solar_mqtt_bridg.Reassembly.{
  Segment, Assembler, new_assembler, chunks_of, push, start, flow, push_segment, push_all,
}
use passive_solar_mqtt_bridg.Reassembly.Complete.{
  IsPiece, Piece, Covers, HasBytes, push_all_complete,
}
use passive_solar_mqtt_bridg.Reassembly.Flows.{output, output-chunks_of, of_flow}
use passive_solar_mqtt_bridg.Prelude.Text.{bytes_eq}
use passive_solar_mqtt_bridg.Capture.{
  FileSummary, Packet, is_alphaess_outbound, matches_alphaess_flow, decoder_for_flow,
}
use passive_solar_mqtt_bridg.Capture.Processor.{
  Calls, Processor, ok, segment_of, count_matched, process_chunks, process_outbound_payload,
  process_decoded_tcp,
}
use passive_solar_mqtt_bridg.Capture.Effects.{
  Works, AreWritable, AreWritable-split, AreWritable-move, Handled, Handled-trans,
  process_chunks-Handled, merge_all, states,
}

-- The bytes that come out for a segment, run by run.
unfoldable pub segment_runs : Assembler → Segment → List Bytes
segment_runs a x = if length x.bytes == 0 then [] else (push (start (flow a x.flow_id) x.seq) x).0

unfoldable pub all_runs : Assembler → List Segment → List Bytes
all_runs a [] = []
all_runs a (x ∷ xs) = segment_runs a x ++ all_runs (push_segment a x).1 xs

-- What comes out for a segment is chunks of its flow.
push_segment-chunks :
    (a : Assembler) (x : Segment) → (push_segment a x).0 ≡ chunks_of x.flow_id (segment_runs a x)
unfolding push_segment chunks_of segment_runs
push_segment-chunks a x = elim (Bool-cases (length x.bytes == 0)) [
  | inl e ↦ rw e refl
  | inr e ↦ rw e refl
]

all_runs-append :
    (a : Assembler) (xs ys : List Segment)
    → all_runs a (xs ++ ys) ≡ all_runs a xs ++ all_runs (push_all a xs).1 ys
unfolding all_runs push_all
all_runs-append a [] ys = refl
all_runs-append a (x ∷ xs) ys = rw (all_runs-append (push_segment a x).1 xs ys, append_assoc) refl

chunks_of-append :
    (f : String) (rs ss : List Bytes) → chunks_of f (rs ++ ss) ≡ chunks_of f rs ++ chunks_of f ss
unfolding chunks_of
chunks_of-append f [] ss = refl
chunks_of-append f (r ∷ rs) ss = rw (chunks_of-append f rs ss)

push_all-chunks :
    (f : String) (a : Assembler) (xs : List Segment)
    → All (λ x. x.flow_id ≡ f) xs
    → (push_all a xs).0 ≡ chunks_of f (all_runs a xs)
unfolding all_runs push_all chunks_of
push_all-chunks f a [] all = refl
push_all-chunks f a (x ∷ xs) (h, all) =
    ap₂ (λ cs ds. cs ++ ds) (push_segment-chunks a x ∙ ap (λ g. chunks_of g (segment_runs a x)) h)
      (push_all-chunks f (push_segment a x).1 xs all)
    ∙ sym (chunks_of-append f (segment_runs a x) (all_runs (push_segment a x).1 xs))

push_all-append :
    (a : Assembler) (xs ys : List Segment)
    → push_all a (xs ++ ys)
      ≡ ((push_all a xs).0 ++ (push_all (push_all a xs).1 ys).0, (push_all (push_all a xs).1 ys).1)
unfolding push_all
push_all-append a [] ys = refl
push_all-append a (x ∷ xs) ys = rw (push_all-append (push_segment a x).1 xs ys, append_assoc)

module _ {Ip N O : Type 0} ⦃same : Eq Ip⦄ (calls : Calls Ip N O) where
  -- A packet that the processor with these options reads, of flow `f` and with a payload.
  abbrev pub IsOutbound : Processor Ip N O → String → Packet Ip → Type 0
  IsOutbound p f x =
      (is_alphaess_outbound x p.source_ip p.cloud_ip p.opts.cloud_port ≡ true)
      × ((length x.payload == 0) ≡ false)
      × ((segment_of calls x).flow_id ≡ f)

  -- The processor after a packet is counted and its segment is pushed.
  abbrev pushed : Processor Ip N O → Packet Ip → Processor Ip N O
  pushed p x = record p {
    summary = count_matched calls p.summary (length x.payload);
    assembler = (push_segment p.assembler (segment_of calls x)).1;
  }

  process_decoded_tcp_outbound :
      (p : Processor Ip N O) (f : String) (x : Packet Ip)
      → IsOutbound p f x
      → process_decoded_tcp calls p x
        ≡ process_chunks calls (pushed p x) (push_segment p.assembler (segment_of calls x)).0
  unfolding process_decoded_tcp process_outbound_payload matches_alphaess_flow
  process_decoded_tcp_outbound p f x (out, some_bytes, of_f) = rw (out, some_bytes)

  count_matched-json :
      (p : Processor Ip N O) (n : ℕ)
      → (count_matched calls p.summary n).json_messages ≡ p.summary.json_messages
  unfolding count_matched
  count_matched-json p n = ground arith

  push_chunks-append :
      (d : Alphaess.Decoder) (cs ds : List Bytes)
      → push_chunks calls.unmarshal d (cs ++ ds) ≡ (
        (push_chunks calls.unmarshal d cs).0
            ++ (push_chunks calls.unmarshal (push_chunks calls.unmarshal d cs).1 ds).0,
        (push_chunks calls.unmarshal (push_chunks calls.unmarshal d cs).1 ds).1,
      )
  unfolding push_chunks
  push_chunks-append d [] ds = refl
  push_chunks-append d (c ∷ cs) ds =
      rw (push_chunks-append (Alphaess.push calls.unmarshal d c).1 cs ds, append_assoc)

  -- From `p` to `q`, the segments `xs` of flow `f` came in, and the chunks `runs` came out; their
  -- messages were handled.
  pub record Follows (f : String) (p q : Processor Ip N O) (xs : List Segment) (runs : List Bytes)
      : Type 0 where
    pub assembled : q.assembler ≡ (push_all p.assembler xs).1
    pub chunked : (push_all p.assembler xs).0 ≡ chunks_of f runs
    pub handled :
        Handled calls
          (record p { assembler = q.assembler })
          q
          (push_chunks calls.unmarshal (decoder_for_flow p.decoders f) runs).0
    pub decoder :
        decoder_for_flow q.decoders f
        ≡ (push_chunks calls.unmarshal (decoder_for_flow p.decoders f) runs).1

  -- Counting packets is no more than that.
  pub Follows-quiet :
      (f : String) (p : Processor Ip N O) (s : FileSummary)
      → s.json_messages ≡ p.summary.json_messages
      → Follows f p (record p { summary = s }) [] []
  unfolding push_all chunks_of push_chunks merge_all states
  Follows-quiet f p s e = record {
    assembled = refl;
    chunked = refl;
    handled = record {
      same_opts = refl;
      same_source = refl;
      same_cloud = refl;
      same_assembler = refl;
      fields = refl;
      published = sym (append-nil p.published);
      counted = omega (arith, e);
    };
    decoder = refl;
  }

  pub Follows-trans :
      (f : String) (p q r : Processor Ip N O) (xs ys : List Segment) (now later : List Bytes)
      → Follows f p q xs now
      → Follows f q r ys later
      → Follows f p r (xs ++ ys) (now ++ later)
  Follows-trans f p q r xs ys now later h k =
      let d = decoder_for_flow p.decoders f in
      let hh = h.handled in
      let h' : Handled calls (record p { assembler = r.assembler })
          (record q { assembler = r.assembler }) (push_chunks calls.unmarshal d now).0 =
        record {
          same_opts = hh.same_opts;
          same_source = hh.same_source;
          same_cloud = hh.same_cloud;
          same_assembler = refl;
          fields = hh.fields;
          published = hh.published;
          counted = hh.counted;
        } in
      let k' =
        subst
          (λ c.
            Handled calls (record q { assembler = r.assembler }) r
              (push_chunks calls.unmarshal c later).0)
          h.decoder k.handled in
      let split = push_chunks-append d now later in
      let all = push_all-append p.assembler xs ys in
      record {
        assembled = k.assembled ∙ ap (λ a. (push_all a ys).1) h.assembled ∙ sym (ap (λ z. z.1) all);
        chunked =
            ap (λ z. z.0) all
            ∙ ap₂ (λ cs ds. cs ++ ds) h.chunked
                (ap (λ a. (push_all a ys).0) (sym h.assembled) ∙ k.chunked)
            ∙ sym (chunks_of-append f now later);
        handled =
            subst (Handled calls (record p { assembler = r.assembler }) r)
              (sym (ap (λ y. y.0) split)) (Handled-trans calls _ _ r _ _ h' k');
        decoder =
            k.decoder
            ∙ ap (λ c. (push_chunks calls.unmarshal c later).1) h.decoder
            ∙ sym (ap (λ y. y.1) split);
      }

  -- The messages of segments that come in, and that the state after each can be written.
  abbrev pub messages_of :
      String → Processor Ip N O → List Segment → List (Alphaess.Message (Dict Bytes (Value N O)))
  messages_of f p xs =
      (push_chunks calls.unmarshal (decoder_for_flow p.decoders f) (all_runs p.assembler xs)).0

  abbrev pub CanWrite : String → Processor Ip N O → List Segment → Type 0
  CanWrite f p xs = AreWritable calls p.opts p.fields (messages_of f p xs)

  abbrev pub FollowsAll : String → Processor Ip N O → Processor Ip N O → List Segment → Type 0
  FollowsAll f p q xs = Follows f p q xs (all_runs p.assembler xs)

  messages_of-append :
      (f : String) (p q : Processor Ip N O) (xs ys : List Segment)
      → FollowsAll f p q xs
      → messages_of f p (xs ++ ys) ≡ messages_of f p xs ++ messages_of f q ys
  messages_of-append f p q xs ys h =
      let d = decoder_for_flow p.decoders f in
      let now = all_runs p.assembler xs in
      let later = all_runs q.assembler ys in
      ap (λ rs. (push_chunks calls.unmarshal d rs).0)
        (all_runs-append p.assembler xs ys ∙ ap (λ a. now ++ all_runs a ys) (sym h.assembled))
      ∙ ap (λ z. z.0) (push_chunks-append d now later)
      ∙ ap (λ dec. messages_of f p xs ++ (push_chunks calls.unmarshal dec later).0) (sym h.decoder)

  -- What comes first can be written, and what comes after it.
  pub CanWrite-front :
      (f : String) (p q : Processor Ip N O) (xs ys : List Segment)
      → FollowsAll f p q xs
      → CanWrite f p (xs ++ ys)
      → CanWrite f q ys
  CanWrite-front f p q xs ys h w =
      let (l, r) =
        AreWritable-split calls p.opts p.fields (messages_of f p xs) (messages_of f q ys) (
          AreWritable-move calls {opts = p.opts} refl refl (sym (messages_of-append f p q xs ys h))
            w) in
      AreWritable-move calls h.handled.same_opts h.handled.fields refl r

  pub CanWrite-back :
      (f : String) (p : Processor Ip N O) (xs ys : List Segment)
      → CanWrite f p (xs ++ ys)
      → CanWrite f p xs
  CanWrite-back f p xs ys w =
      let d = decoder_for_flow p.decoders f in
      let now = all_runs p.assembler xs in
      let later = all_runs (push_all p.assembler xs).1 ys in
      let same_messages =
        ap (λ rs. (push_chunks calls.unmarshal d rs).0) (all_runs-append p.assembler xs ys)
        ∙ ap (λ z. z.0) (push_chunks-append d now later) in
      (AreWritable-split calls p.opts p.fields (push_chunks calls.unmarshal d now).0 _
        (AreWritable-move calls {opts = p.opts} refl refl (sym same_messages) w)).0

  pub FollowsAll-trans :
      (f : String) (p q r : Processor Ip N O) (xs ys : List Segment)
      → FollowsAll f p q xs
      → FollowsAll f q r ys
      → FollowsAll f p r (xs ++ ys)
  FollowsAll-trans f p q r xs ys h k =
      subst (Follows f p r (xs ++ ys))
        (ap (λ a. all_runs p.assembler xs ++ all_runs a ys) h.assembled
          ∙ sym (all_runs-append p.assembler xs ys))
        (Follows-trans f p q r xs ys (all_runs p.assembler xs) (all_runs q.assembler ys) h k)

  pub process_decoded_tcp-Follows :
      (f : String) (p : Processor Ip N O) (x : Packet Ip)
      → Works calls p.opts
      → IsOutbound p f x
      → CanWrite f p (segment_of calls x ∷ [])
      → (q : Processor Ip N O) × (process_decoded_tcp calls p x ≡ (q, ok))
        × FollowsAll f p q (segment_of calls x ∷ [])
  unfolding push_all all_runs
  process_decoded_tcp-Follows f p x w (out, some_bytes, of_f) wr =
      let now = all_runs p.assembler (segment_of calls x ∷ []) in
      let plain : now ≡ segment_runs p.assembler (segment_of calls x) =
        append-nil (segment_runs p.assembler (segment_of calls x)) in
      let (q, ends, h, dec) = process_chunks-Handled calls f (pushed p x) now w wr in
      let e' =
        push_segment-chunks p.assembler (segment_of calls x)
        ∙ ap₂ (λ g rs. chunks_of g rs) of_f (sym plain) in
      (
        q,
        rw (process_decoded_tcp_outbound p f x (out, some_bytes, of_f), e') ends,
        record {
          assembled = h.same_assembler;
          chunked = append-nil _ ∙ e';
          handled = record {
            same_opts = h.same_opts;
            same_source = h.same_source;
            same_cloud = h.same_cloud;
            same_assembler = refl;
            fields = h.fields;
            published = h.published;
            counted =
                h.counted
                ∙ ap
                    (λ (n : ℕ).
                      n
                      + length (push_chunks calls.unmarshal (decoder_for_flow p.decoders f) now).0)
                    (count_matched-json p (length x.payload));
          };
          decoder = dec;
        },
      )

  concat-runs : (f : String) (runs : List Bytes) → concat runs ≡ output f (chunks_of f runs)
  concat-runs f runs = rw (output-chunks_of f f runs, (string_eq.beq_iff f f).1 refl)

  of_flow_self : (f : String) (xs : List Segment) → All (λ x. x.flow_id ≡ f) xs → of_flow f xs ≡ xs
  unfolding of_flow
  of_flow_self f [] all = refl
  of_flow_self f (x ∷ xs) (h, all) = rw ((string_eq.beq_iff x.flow_id f).1 h, of_flow_self f xs all)

  -- The messages of segments that carry all pieces of a stream of frames.
  pub messages_of-encode_frames :
      (isn : ℕ) (cuts : List Bytes) (fs : List (ℕ × Bytes)) (f : String) (p : Processor Ip N O)
      (x : Segment) (xs : List Segment)
      → All HasBytes cuts
      → concat cuts ≡ encode_frames fs
      → All Fits fs
      → length (encode_frames fs) ≤ max_buffered_bytes
      → p.assembler ≡ new_assembler
      → decoder_for_flow p.decoders f ≡ new_decoder
      → All (λ s. s.flow_id ≡ f) (x ∷ xs)
      → (first : IsPiece isn cuts x) → first.place ≡ 0
      → All (IsPiece isn cuts) xs
      → ((o : ℕ) (run : Bytes) → Piece isn cuts o run → Covers isn cuts (x ∷ xs) o run)
      → messages_of f p (x ∷ xs) ≡ stream_messages calls.unmarshal fs
  messages_of-encode_frames isn cuts fs f p x xs full sent fits le empty fresh mine first at_start
        pieces covered =
      let runs = all_runs p.assembler (x ∷ xs) in
      let delivered =
        push_all_complete isn cuts (omega (arith, ap length sent)) full f (x ∷ xs) x xs
          (of_flow_self f (x ∷ xs) mine) first at_start pieces covered in
      let whole : concat runs ≡ encode_frames fs =
        concat-runs f runs
        ∙ ap (output f) (sym (push_all-chunks f p.assembler (x ∷ xs) mine))
        ∙ ap (λ a. output f (push_all a (x ∷ xs)).0) empty
        ∙ delivered
        ∙ sent in
      ap (λ z. z.0)
        (ap (λ d. push_chunks calls.unmarshal d runs) fresh
          ∙ push_chunks-encode_frames calls.unmarshal fs runs fits whole le)
