-- ===== src/Dict/Laws.antt =====
-- Reading a map after a write.
use passive_solar_mqtt_bridg.Prelude.{
  ◌≤◌, ◌<◌, ◌≡◌, refl, ◌⊎◌, none, some, [], ◌∷◌, length, arith, if◌then◌else◌,
}
use passive_solar_mqtt_bridg.Prelude.Equality.{Eq}
use passive_solar_mqtt_bridg.Dict.{Dict, lookup, insert, delete}

module _ {ℓ κ} {K : Type ℓ} {V : Type κ} ⦃e : Eq K⦄ where
  pub lookup-insert :
      (k j : K) (v : V) (m : Dict K V)
      → lookup j (insert k v m) ≡ (if e.beq k j then some v else lookup j m)
  unfolding lookup insert
  lookup-insert k j v [] = refl
  lookup-insert k j v ((i, w) ∷ m) =
      ground (arith, e.beq_iff k j, e.beq_iff i k, e.beq_iff i j, lookup-insert k j v m)

  pub lookup-delete :
      (k j : K) (m : Dict K V) → lookup j (delete k m) ≡ (if e.beq k j then none else lookup j m)
  unfolding lookup delete
  lookup-delete k j [] = ground arith
  lookup-delete k j ((i, w) ∷ m) =
      ground (arith, e.beq_iff k j, e.beq_iff i k, e.beq_iff i j, lookup-delete k j m)

  pub length-delete-le : (k : K) (m : Dict K V) → length (delete k m) ≤ length m
  unfolding delete
  length-delete-le k [] = omega arith
  length-delete-le k ((i, w) ∷ m) = ground (arith, length-delete-le k m)

  -- Deleting a key that is present shrinks the map.
  pub length-delete :
      (k : K) {v : V} (m : Dict K V) → lookup k m ≡ some v → length (delete k m) < length m
  unfolding lookup delete
  length-delete k [] h = ground arith
  length-delete k {v} ((i, w) ∷ m) h =
      ground (arith, length-delete-le k m, length-delete k {v = v} m)

  -- An entry that is found after a write is the one written, or was there before.
  pub insert-inv :
      (k j : K) (v : V) (m : Dict K V) {w : V}
      → lookup j (insert k v m) ≡ some w
      → (k ≡ j) × (v ≡ w) ⊎ (lookup j m ≡ some w)
  insert-inv k j v m h = ground (arith, e.beq_iff k j, lookup-insert k j v m)

  pub delete-inv :
      (k j : K) (m : Dict K V) {w : V} → lookup j (delete k m) ≡ some w → lookup j m ≡ some w
  delete-inv k j m h = ground (arith, lookup-delete k j m)
