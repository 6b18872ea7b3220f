-- ===== src/State/Keys.antt =====
-- The keys of a map: which are numbered, and that their order in the map is forgotten.
use passive_solar_mqtt_bridg.Prelude.{
  ◌≡◌, ◌≢◌, refl, sym, ap, ap₂, ◌∙◌, inl, inr, none, some, List, [], ◌∷◌, map, Bytes, All, arith,
  Bool-cases, if◌then◌else◌,
}
use mathlib.Core.List.{Permᴰ}
use mathlib.Core.Path.{subst}
use passive_solar_mqtt_bridg.Prelude.Text.{bytes_eq, same_bytes, same_bytes_iff}
use passive_solar_mqtt_bridg.Dict.{Dict, lookup, insert}
use passive_solar_mqtt_bridg.Dict.Laws.{lookup-insert}
use passive_solar_mqtt_bridg.HomeAssistant.Mapping.{Distinct}
use passive_solar_mqtt_bridg.State.{
  is_numbered, numbered_keys, matching_numbered_keys, copy_map, sort_texts, insert_text,
}
use passive_solar_mqtt_bridg.State.Order.{insert_text_comm}

module _ {V : Type 0} where
  abbrev pub keys : Dict Bytes V → List Bytes
  keys m = map (λ e. e.0) m

  -- Each key stands in the list once, as in a Go map.
  abbrev pub IsMap : Dict Bytes V → Type 0
  IsMap m = Distinct (keys m)

abbrev pub put : Bytes → Bytes → List Bytes → List Bytes
put prefix key ks = if is_numbered prefix key then insert_text key ks else ks

put_comm :
    (prefix a b : Bytes) (ks : List Bytes)
    → put prefix a (put prefix b ks) ≡ put prefix b (put prefix a ks)
put_comm prefix a b ks = ground (arith, insert_text_comm a b ks)

module _ {V : Type 0} where
  pub matching-cons :
      (prefix key : Bytes) (v : V) (m : Dict Bytes V)
      → matching_numbered_keys prefix ((key, v) ∷ m)
        ≡ put prefix key (matching_numbered_keys prefix m)
  unfolding matching_numbered_keys numbered_keys sort_texts
  matching-cons prefix key v m = elim (Bool-cases (is_numbered prefix key)) [
    | inl e ↦ rw e
    | inr e ↦ rw e
  ]

  -- The numbered keys are sorted, so the order of the map is forgotten.
  pub matching-perm :
      (prefix : Bytes) {m m' : Dict Bytes V}
      → Permᴰ m m'
      → matching_numbered_keys prefix m ≡ matching_numbered_keys prefix m'
  matching-perm prefix Permᴰ.nil = refl
  matching-perm prefix (Permᴰ.cons {a = a} {b = b} {l₁ = m} {l₂ = m'} e p) =
      matching-cons prefix a.0 a.1 m
      ∙ ap₂ (λ x ks. put prefix x.0 ks) e (matching-perm prefix p)
      ∙ sym (matching-cons prefix b.0 b.1 m')
  matching-perm prefix (Permᴰ.swap {a = a} {b = b} {a' = a'} {b' = b'} {l = m} e f) =
      matching-cons prefix a.0 a.1 (b ∷ m)
      ∙ ap (put prefix a.0) (matching-cons prefix b.0 b.1 m)
      ∙ put_comm prefix a.0 b.0 (matching_numbered_keys prefix m)
      ∙ ap₂ (λ x y. put prefix x.0 (put prefix y.0 (matching_numbered_keys prefix m))) f e
      ∙ sym (
          matching-cons prefix a'.0 a'.1 (b' ∷ m)
          ∙ ap (put prefix a'.0) (matching-cons prefix b'.0 b'.1 m))
  matching-perm prefix (Permᴰ.trans p q) = matching-perm prefix p ∙ matching-perm prefix q

  pub lookup-absent : (k : Bytes) (m : Dict Bytes V) → All (λ y. k ≢ y) (keys m) → lookup k m ≡ none
  unfolding lookup
  lookup-absent k [] h = refl
  lookup-absent k ((j, v) ∷ m) (apart, h) = ground (arith, same_bytes_iff j k, lookup-absent k m h)

  All-insert :
      (k j : Bytes) (v : V) (m : Dict Bytes V)
      → k ≢ j
      → All (λ y. k ≢ y) (keys m)
      → All (λ y. k ≢ y) (keys (insert j v m))
  unfolding insert
  All-insert k j v [] apart h = (apart, tt)
  All-insert k j v ((i, w) ∷ m) apart (now, h) = elim (Bool-cases (same_bytes i j)) [
    | inl e ↦ rw e (apart, h)
    | inr e ↦ rw e (now, All-insert k j v m apart h)
  ]

  insert-IsMap : (k : Bytes) (v : V) (m : Dict Bytes V) → IsMap m → IsMap (insert k v m)
  unfolding insert
  insert-IsMap k v [] h = (tt, tt)
  insert-IsMap k v ((j, w) ∷ m) (new, h) = elim (Bool-cases (same_bytes j k)) [
    | inl e ↦
        let same = (same_bytes_iff j k).0 e in
        rw e (subst (λ x. All (λ y. x ≢ y) (keys m)) same new, h)
    | inr e ↦
        rw e (
          All-insert j k v m (λ same. ground (arith, same_bytes_iff j k)) new,
          insert-IsMap k v m h,
        )
  ]

  pub copy_map-IsMap : (m : Dict Bytes V) → IsMap (copy_map m)
  unfolding copy_map
  copy_map-IsMap [] = tt
  copy_map-IsMap ((k, v) ∷ m) = insert-IsMap k v (copy_map m) (copy_map-IsMap m)

  pub lookup-copy_map : (k : Bytes) (m : Dict Bytes V) → lookup k (copy_map m) ≡ lookup k m
  unfolding copy_map lookup
  lookup-copy_map k [] = refl
  lookup-copy_map k ((j, v) ∷ m) =
      lookup-insert j k v (copy_map m)
      ∙ ap (λ r. if same_bytes j k then some v else r) (lookup-copy_map k m)

  matching-insert :
      (prefix k : Bytes) (v : V) (m : Dict Bytes V)
      → lookup k m ≡ none
      → matching_numbered_keys prefix (insert k v m)
        ≡ put prefix k (matching_numbered_keys prefix m)
  unfolding insert lookup
  matching-insert prefix k v [] h = matching-cons prefix k v []
  matching-insert prefix k v ((j, w) ∷ m) h = elim (Bool-cases (same_bytes j k)) [
    | inl e ↦ absurd (cc (rw e at h))
    | inr e ↦ rw e (
        matching-cons prefix j w (insert k v m)
        ∙ ap (put prefix j) (matching-insert prefix k v m (rw e at h))
        ∙ put_comm prefix j k (matching_numbered_keys prefix m)
        ∙ ap (put prefix k) (sym (matching-cons prefix j w m)))
  ]

  pub matching-copy_map :
      (prefix : Bytes) (m : Dict Bytes V)
      → IsMap m
      → matching_numbered_keys prefix (copy_map m) ≡ matching_numbered_keys prefix m
  unfolding copy_map
  matching-copy_map prefix [] h = refl
  matching-copy_map prefix ((k, v) ∷ m) (new, h) =
      matching-insert prefix k v (copy_map m) (lookup-copy_map k m ∙ lookup-absent k m new)
      ∙ ap (put prefix k) (matching-copy_map prefix m h)
      ∙ sym (matching-cons prefix k v m)

  All-perm :
      (P : Bytes → Type 0) {m m' : Dict Bytes V} → Permᴰ m m' → All P (keys m) → All P (keys m')
  All-perm P Permᴰ.nil h = tt
  All-perm P (Permᴰ.cons e p) (h, hs) = (subst (λ x. P x.0) e h, All-perm P p hs)
  All-perm P (Permᴰ.swap e f) (h, (k, hs)) = (subst (λ x. P x.0) f k, (subst (λ x. P x.0) e h, hs))
  All-perm P (Permᴰ.trans p q) h = All-perm P q (All-perm P p h)

  pub IsMap-perm : {m m' : Dict Bytes V} → Permᴰ m m' → IsMap m → IsMap m'
  IsMap-perm Permᴰ.nil h = tt
  IsMap-perm (Permᴰ.cons {l₂ = m'} e p) (new, h) =
      (subst (λ x. All (λ y. x.0 ≢ y) (keys m')) e (All-perm _ p new), IsMap-perm p h)
  IsMap-perm (Permᴰ.swap {b = b} {b' = b'} {l = m} e f) ((apart, new), (new', h)) = (
    (
      λ same. apart (ap (λ x. x.0) e ∙ sym same ∙ sym (ap (λ x. x.0) f)),
      subst (λ x. All (λ y. x.0 ≢ y) (keys m)) f new',
    ),
    (subst (λ x. All (λ y. x.0 ≢ y) (keys m)) e new, h),
  )
  IsMap-perm (Permᴰ.trans p q) h = IsMap-perm q (IsMap-perm p h)

  lookup-cons :
      (k : Bytes) (x : Bytes × V) (m : Dict Bytes V)
      → lookup k (x ∷ m) ≡ (if same_bytes x.0 k then some x.1 else lookup k m)
  unfolding lookup
  lookup-cons k (j, v) m = refl

  lookup-swap :
      (k : Bytes) (x y : Bytes × V) (m : Dict Bytes V)
      → x.0 ≢ y.0
      → lookup k (x ∷ y ∷ m) ≡ lookup k (y ∷ x ∷ m)
  unfolding lookup
  lookup-swap k (i, v) (j, w) m apart = ground (arith, same_bytes_iff i k, same_bytes_iff j k)

  pub lookup-perm :
      {m m' : Dict Bytes V} → Permᴰ m m' → IsMap m → (k : Bytes) → lookup k m ≡ lookup k m'
  lookup-perm Permᴰ.nil h k = refl
  lookup-perm (Permᴰ.cons {a = a} {b = b} {l₁ = m} {l₂ = m'} e p) (new, h) k =
      lookup-cons k a m
      ∙ ap₂ (λ x r. if same_bytes x.0 k then some x.1 else r) e (lookup-perm p h k)
      ∙ sym (lookup-cons k b m')
  lookup-perm (Permᴰ.swap {a = a} {b = b} {l = m} e f) ((apart, new), h) k =
      lookup-swap k a b m apart ∙ ap₂ (λ x y. lookup k (x ∷ y ∷ m)) f e
  lookup-perm (Permᴰ.trans p q) h k = lookup-perm p h k ∙ lookup-perm q (IsMap-perm p h) k
