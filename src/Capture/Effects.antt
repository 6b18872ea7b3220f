-- ===== src/Capture/Effects.antt =====
-- What the processor does, message by message, when nothing fails: the state after each message is
-- published, and nothing else.
use passive_solar_mqtt_bridg.Prelude.{
  ◌+◌, ◌≡◌, refl, sym, ap, ap₂, ◌∙◌, Bool, true, none, some, List, [], ◌∷◌, ◌++◌, append_assoc,
  append-nil, String, Bytes, length, length-append, inl, inr, Option-cases, arith,
}
use mathlib.Core.Path.{subst}
use passive_solar_mqtt_bridg.Prelude.Equality.{Eq, string_eq}
use passive_solar_mqtt_bridg.Dict.{Dict, insert}
use passive_solar_mqtt_bridg.Dict.Laws.{lookup-insert}
use passive_solar_mqtt_bridg.Alphaess
use passive_solar_mqtt_bridg.Alphaess.Streams.{push_chunks}
use passive_solar_mqtt_bridg.Reassembly.{chunks_of}
use passive_solar_mqtt_bridg.Mqtt.{Message, raw_state_message}
use passive_solar_mqtt_bridg.State.{Value, marshal}
use passive_solar_mqtt_bridg.Prelude.Text.{bytes_eq}
use passive_solar_mqtt_bridg.Capture.{decoder_for_flow}
use passive_solar_mqtt_bridg.Capture.Processor.{
  Calls, ProcessorOptions, Processor, Outcome, ok, publish, merge_fields, process_message,
  process_messages, process_chunk, process_chunks,
}

module _ {Ip N O : Type 0} ⦃same : Eq Ip⦄ (calls : Calls Ip N O) where
  -- The fields after all messages.
  unfoldable pub merge_all :
      Dict Bytes (Value N O)
      → List (Alphaess.Message (Dict Bytes (Value N O)))
      → Dict Bytes (Value N O)
  merge_all fields [] = fields
  merge_all fields (m ∷ ms) = merge_all (merge_fields fields m.fields) ms

  -- The state after each message, as it is published.
  unfoldable pub states :
      ProcessorOptions
      → Dict Bytes (Value N O)
      → List (Alphaess.Message (Dict Bytes (Value N O)))
      → List Message
  states opts fields [] = []
  states opts fields (m ∷ ms) =
      let now = merge_fields fields m.fields in
      let later = states opts now ms in
      elim (marshal calls.floats calls.marshal_state now opts.device_id opts.device_name) [
        | none ↦ later
        | some payload ↦ raw_state_message opts.topic_base payload ∷ later
      ]

  -- A publisher that accepts everything.
  pub record Works (opts : ProcessorOptions) : Type 0 where
    pub accepts : List Message → Message → Bool
    pub is_publisher : opts.publisher ≡ some accepts
    pub never_refuses : (sent : List Message) (m : Message) → accepts sent m ≡ true

  -- The state after each of these messages can be written.
  abbrev pub AreWritable :
      ProcessorOptions
      → Dict Bytes (Value N O)
      → List (Alphaess.Message (Dict Bytes (Value N O)))
      → Type 0
  AreWritable opts fields [] = Unit
  AreWritable opts fields (m ∷ ms) =
      ((payload : Bytes) × (marshal calls.floats calls.marshal_state (merge_fields fields m.fields)
            opts.device_id opts.device_name
          ≡ some payload))
      × AreWritable opts (merge_fields fields m.fields) ms

  pub AreWritable-split :
      (opts : ProcessorOptions) (fields : Dict Bytes (Value N O))
      (ms ns : List (Alphaess.Message (Dict Bytes (Value N O))))
      → AreWritable opts fields (ms ++ ns)
      → AreWritable opts fields ms × AreWritable opts (merge_all fields ms) ns
  unfolding merge_all
  AreWritable-split opts fields [] ns w = (tt, w)
  AreWritable-split opts fields (m ∷ ms) ns (here, w) =
      let (l, r) = AreWritable-split opts (merge_fields fields m.fields) ms ns w in ((here, l), r)

  pub AreWritable-move :
      {opts opts' : ProcessorOptions} {fields fields' : Dict Bytes (Value N O)}
      {ms ms' : List (Alphaess.Message (Dict Bytes (Value N O)))}
      → opts' ≡ opts
      → fields' ≡ fields
      → ms' ≡ ms
      → AreWritable opts fields ms
      → AreWritable opts' fields' ms'
  AreWritable-move {opts} {opts'} {fields} {fields'} {ms} {ms'} o f m w =
      subst (λ z. AreWritable z fields' ms') (sym o)
        (subst (λ z. AreWritable opts z ms') (sym f)
          (subst (λ z. AreWritable opts fields z) (sym m) w))

  -- What a processor becomes when it has handled `ms`.
  pub record Handled (p p' : Processor Ip N O)
      (ms : List (Alphaess.Message (Dict Bytes (Value N O)))) : Type 0 where
    pub same_opts : p'.opts ≡ p.opts
    pub same_source : p'.source_ip ≡ p.source_ip
    pub same_cloud : p'.cloud_ip ≡ p.cloud_ip
    pub same_assembler : p'.assembler ≡ p.assembler
    pub fields : p'.fields ≡ merge_all p.fields ms
    pub published : p'.published ≡ p.published ++ states p.opts p.fields ms
    pub counted : p'.summary.json_messages ≡ p.summary.json_messages + length ms

  publish_accepted :
      (p : Processor Ip N O) (m : Message)
      → Works p.opts
      → publish p m ≡ (record p { published = p.published ++ m ∷ [] }, ok)
  unfolding publish
  publish_accepted p m w = rw (w.is_publisher, w.never_refuses p.published m)

  -- The processor after a message whose state is written as `payload`.
  abbrev after :
      Processor Ip N O → Alphaess.Message (Dict Bytes (Value N O)) → Bytes → Processor Ip N O
  after p m payload = record p {
    fields = merge_fields p.fields m.fields;
    summary = record p.summary {
      json_messages = p.summary.json_messages + 1;
      json_bytes = p.summary.json_bytes + length m.raw_json;
      mqtt_publishes = p.summary.mqtt_publishes + 1;
      mqtt_payload_bytes = p.summary.mqtt_payload_bytes + length payload;
    };
    published = p.published ++ raw_state_message p.opts.topic_base payload ∷ [];
  }

  process_message_accepted :
      (p : Processor Ip N O) (m : Alphaess.Message (Dict Bytes (Value N O))) {payload : Bytes}
      → Works p.opts
      → marshal calls.floats calls.marshal_state
          (merge_fields p.fields m.fields)
          p.opts.device_id
          p.opts.device_name
        ≡ some payload
      → process_message calls p m ≡ (after p m payload, ok)
  unfolding process_message
  process_message_accepted p m w e = rw (process_message, e) (publish_accepted _ _ w)

  pub Handled-nil : (p : Processor Ip N O) → Handled p p []
  unfolding merge_all states
  Handled-nil p = record {
    same_opts = refl;
    same_source = refl;
    same_cloud = refl;
    same_assembler = refl;
    fields = refl;
    published = sym (append-nil p.published);
    counted = omega arith;
  }

  Handled-cons :
      (p q : Processor Ip N O) (m : Alphaess.Message (Dict Bytes (Value N O)))
      (ms : List (Alphaess.Message (Dict Bytes (Value N O)))) {payload : Bytes}
      → marshal calls.floats calls.marshal_state
          (merge_fields p.fields m.fields)
          p.opts.device_id
          p.opts.device_name
        ≡ some payload
      → Handled (after p m payload) q ms
      → Handled p q (m ∷ ms)
  unfolding merge_all states
  Handled-cons p q m ms {payload = payload} e h = record {
    same_opts = h.same_opts;
    same_source = h.same_source;
    same_cloud = h.same_cloud;
    same_assembler = h.same_assembler;
    fields = h.fields;
    published =
        rw (states, e)
          (h.published
            ∙ append_assoc p.published (raw_state_message p.opts.topic_base payload ∷ [])
                (states p.opts (merge_fields p.fields m.fields) ms));
    counted = omega (arith, h.counted);
  }

  -- A call that ends well, and in a processor that has handled `ms` and kept its decoders.
  abbrev Yields :
      Processor Ip N O × Outcome
      → Processor Ip N O
      → List (Alphaess.Message (Dict Bytes (Value N O)))
      → Type 0
  Yields r p ms =
      (q : Processor Ip N O) × (r ≡ (q, ok)) × Handled p q ms × (q.decoders ≡ p.decoders)

  process_messages-Yields :
      (p : Processor Ip N O) (ms : List (Alphaess.Message (Dict Bytes (Value N O))))
      → Works p.opts
      → AreWritable p.opts p.fields ms
      → Yields (process_messages calls p ms) p ms
  unfolding process_messages
  process_messages-Yields p [] w wr = (p, refl, Handled-nil p, refl)
  process_messages-Yields p (m ∷ ms) w ((payload, e), wr) =
      let (q, same_end, handled, kept) = process_messages-Yields (after p m payload) ms w wr in
      (q, rw (process_message_accepted p m w e) same_end, Handled-cons p q m ms e handled, kept)

  merge_all-append :
      (fields : Dict Bytes (Value N O)) (ms ns : List (Alphaess.Message (Dict Bytes (Value N O))))
      → merge_all fields (ms ++ ns) ≡ merge_all (merge_all fields ms) ns
  unfolding merge_all
  merge_all-append fields [] ns = refl
  merge_all-append fields (m ∷ ms) ns = merge_all-append (merge_fields fields m.fields) ms ns

  states-append :
      (opts : ProcessorOptions) (fields : Dict Bytes (Value N O))
      (ms ns : List (Alphaess.Message (Dict Bytes (Value N O))))
      → states opts fields (ms ++ ns)
        ≡ states opts fields ms ++ states opts (merge_all fields ms) ns
  unfolding merge_all states
  states-append opts fields [] ns = refl
  states-append opts fields (m ∷ ms) ns =
      let now = merge_fields fields m.fields in
      elim (Option-cases
        (marshal calls.floats calls.marshal_state now opts.device_id opts.device_name)) [
          | inl e ↦ rw (states, e) (states-append opts now ms ns)
          | inr (payload, e) ↦
              rw (states, e)
                (ap (λ (xs : List Message). raw_state_message opts.topic_base payload ∷ xs)
                  (states-append opts now ms ns))
        ]

  pub Handled-trans :
      (p q r : Processor Ip N O) (ms ns : List (Alphaess.Message (Dict Bytes (Value N O))))
      → Handled p q ms
      → Handled q r ns
      → Handled p r (ms ++ ns)
  Handled-trans p q r ms ns h k = record {
    same_opts = k.same_opts ∙ h.same_opts;
    same_source = k.same_source ∙ h.same_source;
    same_cloud = k.same_cloud ∙ h.same_cloud;
    same_assembler = k.same_assembler ∙ h.same_assembler;
    fields =
        k.fields
        ∙ ap (λ fields. merge_all fields ns) h.fields
        ∙ sym (merge_all-append p.fields ms ns);
    published =
        k.published
        ∙ ap₂ (λ xs ys. xs ++ ys) h.published
            (ap₂ (λ opts fields. states opts fields ns) h.same_opts h.fields)
        ∙ append_assoc p.published (states p.opts p.fields ms)
            (states p.opts (merge_all p.fields ms) ns)
        ∙ ap (λ xs. p.published ++ xs) (sym (states-append p.opts p.fields ms ns));
    counted = omega (arith, h.counted, k.counted, length-append ms ns);
  }

  decoder-insert :
      (f : String) (d : Alphaess.Decoder) (ds : Dict String Alphaess.Decoder)
      → decoder_for_flow (insert f d ds) f ≡ d
  unfolding decoder_for_flow
  decoder-insert f d ds = ground (arith, lookup-insert f f d ds, string_eq.beq_iff f f)

  -- The chunks of one flow: a processor whose publisher and whose states do not fail ends without
  -- an error, and has handled the messages that the flow's decoder finds in them.
  pub process_chunks-Handled :
      (f : String) (p : Processor Ip N O) (runs : List Bytes)
      → Works p.opts
      → AreWritable p.opts p.fields
          (push_chunks calls.unmarshal (decoder_for_flow p.decoders f) runs).0
      → (q : Processor Ip N O) × (process_chunks calls p (chunks_of f runs) ≡ (q, ok))
        × Handled p q (push_chunks calls.unmarshal (decoder_for_flow p.decoders f) runs).0
        × (decoder_for_flow q.decoders f
            ≡ (push_chunks calls.unmarshal (decoder_for_flow p.decoders f) runs).1)
  unfolding process_chunks process_chunk chunks_of push_chunks
  process_chunks-Handled f p [] w wr = (p, refl, Handled-nil p, refl)
  process_chunks-Handled f p (run ∷ runs) w wr =
      let (now, d) = Alphaess.push calls.unmarshal (decoder_for_flow p.decoders f) run in
      let p' = record p {
        decoders = insert f d p.decoders;
        summary = record p.summary {
          stream_chunks = p.summary.stream_chunks + 1;
          stream_bytes = p.summary.stream_bytes + length run;
        };
      } in
      let (wr_now, wr_later) =
        AreWritable-split p.opts p.fields now (push_chunks calls.unmarshal d runs).0 wr in
      let (q, same_end, h, kept) = process_messages-Yields p' now w wr_now in
      let found = ap (λ ds. decoder_for_flow ds f) kept ∙ decoder-insert f d p.decoders in
      let wr_q =
        AreWritable-move h.same_opts h.fields
          (ap (λ dec. (push_chunks calls.unmarshal dec runs).0) found) wr_later in
      let (r, r_end, k, r_decoder) =
        process_chunks-Handled f q runs (subst Works (sym h.same_opts) w) wr_q in
      let k' = subst (λ dec. Handled q r (push_chunks calls.unmarshal dec runs).0) found k in
      let h' : Handled p q now = record {
        same_opts = h.same_opts;
        same_source = h.same_source;
        same_cloud = h.same_cloud;
        same_assembler = h.same_assembler;
        fields = h.fields;
        published = h.published;
        counted = h.counted;
      } in
      (
        r,
        rw same_end r_end,
        Handled-trans p q r now (push_chunks calls.unmarshal d runs).0 h' k',
        r_decoder ∙ ap (λ dec. (push_chunks calls.unmarshal dec runs).1) found,
      )
