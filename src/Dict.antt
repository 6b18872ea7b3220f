-- ===== src/Dict.antt =====
-- Go's maps, `map[K]V`, as association lists with one entry for each key that was inserted.
-- The order of the entries is that of insertion; the program never relies on it.
pub mod Laws
use passive_solar_mqtt_bridg.Prelude.{Option, none, some, List, [], ◌∷◌, if◌then◌else◌}
use passive_solar_mqtt_bridg.Prelude.Equality.{Eq}

abbrev pub Dict {ℓ κ} : Type ℓ → Type κ → Type (ℓ ⊔ κ)
Dict K V = List (K × V)

module _ {ℓ κ} {K : Type ℓ} {V : Type κ} ⦃e : Eq K⦄ where
  -- `v, ok := m[k]`
  unfoldable pub lookup : K → Dict K V → Option V
  lookup k [] = none
  lookup k ((j, v) ∷ m) = if e.beq j k then some v else lookup k m

  -- `m[k] = v`
  unfoldable pub insert : K → V → Dict K V → Dict K V
  insert k v [] = (k, v) ∷ []
  insert k v ((j, w) ∷ m) = if e.beq j k then (k, v) ∷ m else (j, w) ∷ insert k v m

  -- `delete(m, k)`
  unfoldable pub delete : K → Dict K V → Dict K V
  delete k [] = []
  delete k ((j, w) ∷ m) = let rest = delete k m in if e.beq j k then rest else (j, w) ∷ rest
