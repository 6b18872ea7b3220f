-- ===== src/HomeAssistant/Discovery.antt =====
-- The messages that announce the sensors: no two of them share a topic.
use passive_solar_mqtt_bridg.Prelude.{
  ◌≡◌, ◌≢◌, refl, sym, ap₂, true, Option, some, List, [], ◌∷◌, ◌++◌, map, Bytes, All, arith,
  Option-cases, inl, inr,
}
use mathlib.Core.Path.{subst}
use mathlib.Core.List.{append_cancel_left, append_cancel_right}
use passive_solar_mqtt_bridg.Prelude.Text.{codes}
use passive_solar_mqtt_bridg.Config.Text.{trim_right}
use passive_solar_mqtt_bridg.Mqtt.{Message}
use passive_solar_mqtt_bridg.HomeAssistant.{
  Unicode, Device, Sensor, SensorMapping, ok, DiscoveryPayload, load_mapping, is_slash,
  with_defaults, discovery_payload, discovery_topic, announce, discovery_messages,
}
use passive_solar_mqtt_bridg.HomeAssistant.Mapping.{Distinct, ids, load_mapping_iff}

discovery_topic_inj :
    (prefix device_id a b : Bytes)
    → discovery_topic prefix device_id a ≡ discovery_topic prefix device_id b
    → a ≡ b
unfolding discovery_topic
discovery_topic_inj prefix device_id a b h = append_cancel_right a b (codes "/config") (
    append_cancel_left (codes "/") (a ++ codes "/config") (b ++ codes "/config") (
      append_cancel_left device_id _ _ (
        append_cancel_left (codes "/sensor/") _ _
          (append_cancel_left (trim_right is_slash prefix) _ _ h))))

All-ne-map :
    (f : Bytes → Bytes)
    → ((a b : Bytes) → f a ≡ f b → a ≡ b)
    → (x : Bytes) (ys : List Bytes) → All (λ y. x ≢ y) ys
    → All (λ y. f x ≢ y) (map f ys)
All-ne-map f inj x [] h = tt
All-ne-map f inj x (y ∷ ys) (apart, h) = ((λ e. apart (inj x y e)), All-ne-map f inj x ys h)

Distinct-map :
    (f : Bytes → Bytes)
    → ((a b : Bytes) → f a ≡ f b → a ≡ b)
    → (xs : List Bytes) → Distinct xs
    → Distinct (map f xs)
Distinct-map f inj [] h = tt
Distinct-map f inj (x ∷ xs) (new, h) = (All-ne-map f inj x xs new, Distinct-map f inj xs h)

module _ (marshal : DiscoveryPayload → Option Bytes) (prefix topic_base : Bytes) where
  -- A message announces a sensor: its topic, its payload, and that the broker keeps it.
  abbrev pub Announces : Device → Sensor → Message → Type 0
  Announces d s m =
      (m.topic ≡ discovery_topic prefix d.id s.object_id)
      × (marshal (discovery_payload topic_base d s) ≡ some m.payload)
      × (m.retained ≡ true)

  abbrev pub AnnouncesAll : Device → List Sensor → List Message → Type 0
  AnnouncesAll d [] [] = Unit
  AnnouncesAll d [] (m ∷ ms) = ⊥
  AnnouncesAll d (s ∷ ss) [] = ⊥
  AnnouncesAll d (s ∷ ss) (m ∷ ms) = Announces d s m × AnnouncesAll d ss ms

  announce-AnnouncesAll :
      (d : Device) (ss : List Sensor) (ms : List Message)
      → announce marshal prefix topic_base d ss ≡ some ms
      → AnnouncesAll d ss ms
  unfolding announce
  announce-AnnouncesAll d [] ms h = let e : ms ≡ [] = ground arith in rw e tt
  announce-AnnouncesAll d (s ∷ ss) ms h =
      elim (Option-cases (marshal (discovery_payload topic_base d s))) [
        | inl e ↦ absurd (ground arith)
        | inr (text, e) ↦ elim (Option-cases (announce marshal prefix topic_base d ss)) [
          | inl f ↦ absurd (ground arith)
          | inr (later, f) ↦
              let m : Message = record {
                topic = discovery_topic prefix d.id s.object_id;
                payload = text;
                retained = true;
              } in
              let q : ms ≡ m ∷ later = ground arith in
              rw q ((refl, e, refl), announce-AnnouncesAll d ss later f)
        ]
      ]

  topics :
      (d : Device) (ss : List Sensor) (ms : List Message)
      → AnnouncesAll d ss ms
      → map (λ m. m.topic) ms ≡ map (discovery_topic prefix d.id) (ids ss)
  topics d [] [] h = refl
  topics d [] (m ∷ ms) h = elim h [ ]
  topics d (s ∷ ss) [] h = elim h [ ]
  topics d (s ∷ ss) (m ∷ ms) (h, hs) = ap₂ (λ t ts. t ∷ ts) h.0 (topics d ss ms hs)

  -- The sensors of a mapping that is accepted are announced one by one, in their order, each by a
  -- message that the broker keeps and that holds the sensor's description, and no two messages
  -- have the same topic, so that none replaces another.
  pub discovery_messages-AnnouncesAll :
      (unicode : Unicode) (m : SensorMapping) (d : Device) (ss : List Sensor) (ms : List Message)
      → load_mapping unicode m ≡ ok ss
      → discovery_messages marshal prefix topic_base d ss ≡ some ms
      → AnnouncesAll (with_defaults d) ss ms × Distinct (map (λ m. m.topic) ms)
  unfolding discovery_messages
  discovery_messages-AnnouncesAll unicode m d ss ms loaded h =
      let all = announce-AnnouncesAll (with_defaults d) ss ms h in
      let (same, named, distinct) = (load_mapping_iff unicode m ss).0 loaded in
      (
        all,
        subst Distinct (sym (topics (with_defaults d) ss ms all)) (
            Distinct-map (discovery_topic prefix (with_defaults d).id)
              (discovery_topic_inj prefix (with_defaults d).id) (ids ss) distinct),
      )
