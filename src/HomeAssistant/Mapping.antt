-- ===== src/HomeAssistant/Mapping.antt =====
-- What the check of a mapping file accepts: `LoadMappingFile` after the file is read.
use passive_solar_mqtt_bridg.Prelude.{
  ℕ, suc, false, ◌≡◌, ◌≢◌, ◌↔◌, refl, sym, ap, ◌∙◌, inl, inr, List, [], ◌∷◌, map, Bytes, All, arith,
  Bool-cases,
}
use mathlib.Core.Path.{subst}
use passive_solar_mqtt_bridg.Prelude.Text.{is_empty, same_bytes_iff}
use passive_solar_mqtt_bridg.HomeAssistant.{
  Unicode, Sensor, SensorMapping, MappingResult, ok, no_field, no_object_id, duplicate_object_id,
  normalize_sensor, is_seen, accepted, check_sensors, mapped_sensors, load_mapping,
}

-- No two are equal.
abbrev pub Distinct {ℓ} : {A : Type ℓ} → List A → Type ℓ
Distinct [] = Unit
Distinct (x ∷ xs) = All (λ y. x ≢ y) xs × Distinct xs

abbrev pub ids : List Sensor → List Bytes
ids ss = map (λ s. s.object_id) ss

-- A sensor that can be announced.
abbrev pub IsNamed : Sensor → Type 0
IsNamed s = (s.field ≢ []) × (s.object_id ≢ [])

abbrev pub Unseen : List Bytes → Bytes → Type 0
Unseen seen id = All (λ j. j ≢ id) seen

is_seen_iff : (id : Bytes) (seen : List Bytes) → (is_seen id seen ≡ false) ↔ Unseen seen id
unfolding is_seen
is_seen_iff id [] = ground arith
is_seen_iff id (j ∷ js) = ground (arith, same_bytes_iff j id, is_seen_iff id js)

is_empty_iff : (s : Bytes) → (is_empty s ≡ false) ↔ (s ≢ [])
is_empty_iff [] = ground arith
is_empty_iff (b ∷ bs) = ground arith

accepted_ok :
    (s : Sensor) (r : MappingResult) (ss : List Sensor)
    → accepted s r ≡ ok ss
    → (ts : List Sensor) × (r ≡ ok ts) × (ss ≡ s ∷ ts)
unfolding accepted
accepted_ok s (ok ts) ss h = (ts, refl, ground arith)
accepted_ok s (no_field index) ss h = cc
accepted_ok s (no_object_id field) ss h = cc
accepted_ok s (duplicate_object_id id) ss h = cc

Unseen-cons :
    (id : Bytes) (seen js : List Bytes)
    → All (Unseen (id ∷ seen)) js
    → All (λ y. id ≢ y) js × All (Unseen seen) js
Unseen-cons id seen [] h = (tt, tt)
Unseen-cons id seen (j ∷ js) ((now, before), h) =
    let (here, there) = Unseen-cons id seen js h in ((now, here), (before, there))

Unseen-cons_back :
    (id : Bytes) (seen js : List Bytes)
    → All (λ y. id ≢ y) js
    → All (Unseen seen) js
    → All (Unseen (id ∷ seen)) js
Unseen-cons_back id seen [] h k = tt
Unseen-cons_back id seen (j ∷ js) (now, h) (before, k) =
    ((now, before), Unseen-cons_back id seen js h k)

Unseen-nil : (js : List Bytes) → All (Unseen []) js
Unseen-nil [] = tt
Unseen-nil (j ∷ js) = (tt, Unseen-nil js)

module _ (unicode : Unicode) where
  -- What the loop accepts of `xs`, after it has seen `seen`.
  abbrev Accepts : List Bytes → List Sensor → List Sensor → Type 0
  Accepts seen xs ss =
      (ss ≡ map (normalize_sensor unicode) xs)
      × All IsNamed ss
      × Distinct (ids ss)
      × All (Unseen seen) (ids ss)

  check_sensors-Accepts :
      (index : ℕ) (seen : List Bytes) (xs ss : List Sensor)
      → check_sensors unicode index seen xs ≡ ok ss
      → Accepts seen xs ss
  unfolding check_sensors
  check_sensors-Accepts index seen [] ss h =
      let e : ss ≡ [] = ground arith in (e, rw e tt, rw e tt, rw e tt)
  check_sensors-Accepts index seen (x ∷ xs) ss h =
      let n = normalize_sensor unicode x in
      elim (Bool-cases (is_empty n.field)) [
        | inl e ↦ absurd (ground arith)
        | inr e ↦ elim (Bool-cases (is_empty n.object_id)) [
          | inl f ↦ absurd (ground arith)
          | inr f ↦ elim (Bool-cases (is_seen n.object_id seen)) [
            | inl g ↦ absurd (ground arith)
            | inr g ↦
                let (ts, r, q) =
                  accepted_ok n (check_sensors unicode (suc index) (n.object_id ∷ seen) xs) ss
                    (rw (e, f, g) at h) in
                let (a, b, c, d) = check_sensors-Accepts (suc index) (n.object_id ∷ seen) xs ts r in
                let (here, there) = Unseen-cons n.object_id seen (ids ts) d in
                subst (Accepts seen (x ∷ xs)) (sym q) (
                  ap (λ us. n ∷ us) a,
                  (((is_empty_iff n.field).0 e, (is_empty_iff n.object_id).0 f), b),
                  (here, c),
                  ((is_seen_iff n.object_id seen).0 g, there),
                )
          ]
        ]
      ]

  check_sensors_complete :
      (index : ℕ) (seen : List Bytes) (xs : List Sensor)
      → All IsNamed (map (normalize_sensor unicode) xs)
      → Distinct (ids (map (normalize_sensor unicode) xs))
      → All (Unseen seen) (ids (map (normalize_sensor unicode) xs))
      → check_sensors unicode index seen xs ≡ ok (map (normalize_sensor unicode) xs)
  unfolding check_sensors accepted
  check_sensors_complete index seen [] a b c = refl
  check_sensors_complete index seen (x ∷ xs) ((f, o), a) (d, b) (u, c) =
      let n = normalize_sensor unicode x in
      rw (
        (is_empty_iff n.field).1 f,
        (is_empty_iff n.object_id).1 o,
        (is_seen_iff n.object_id seen).1 u,
        check_sensors_complete (suc index) (n.object_id ∷ seen) xs a b
            (Unseen-cons_back n.object_id seen (ids (map (normalize_sensor unicode) xs)) d c),
      )

  -- A mapping is accepted exactly where every sensor, with what is filled in from its field, has a
  -- field and an id, and no two ids are equal; it then yields these sensors in their order, the base
  -- set first if it is included.
  pub load_mapping_iff :
      (m : SensorMapping) (ss : List Sensor)
      → (load_mapping unicode m ≡ ok ss) ↔ (
          (ss ≡ map (normalize_sensor unicode) (mapped_sensors m))
          × All IsNamed ss
          × Distinct (ids ss))
  unfolding load_mapping
  load_mapping_iff m ss = (to, from)
    where
      to :
          load_mapping unicode m ≡ ok ss
          → (ss ≡ map (normalize_sensor unicode) (mapped_sensors m))
            × All IsNamed ss
            × Distinct (ids ss)
      to h = let (a, b, c, d) = check_sensors-Accepts 0 [] (mapped_sensors m) ss h in (a, b, c)

      from :
          (ss ≡ map (normalize_sensor unicode) (mapped_sensors m))
            × All IsNamed ss
            × Distinct (ids ss)
          → load_mapping unicode m ≡ ok ss
      from (a, b, c) =
          check_sensors_complete 0 [] (mapped_sensors m) (subst (All IsNamed) a b)
            (subst (λ us. Distinct (ids us)) a c)
            (Unseen-nil (ids (map (normalize_sensor unicode) (mapped_sensors m))))
          ∙ ap ok (sym a)
