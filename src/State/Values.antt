-- ===== src/State/Values.antt =====
-- The values of the state: every number that was received, and the totals. The order in which Go
-- walks a map does not show.
use passive_solar_mqtt_bridg.Prelude.{
  not, ◌&&◌, ◌≡◌, ◌≢◌, refl, sym, ap, ◌∙◌, inl, inr, Option, none, some, List, [], ◌∷◌, ◌++◌, Bytes,
  All, arith, Bool-cases, Option-cases, if◌then◌else◌,
}
use mathlib.Core.List.{Permᴰ}
use mathlib.Core.Path.{subst}
use passive_solar_mqtt_bridg.Prelude.Text.{codes, is_empty, bytes_eq, same_bytes, same_bytes_iff}
use passive_solar_mqtt_bridg.Dict.{Dict, lookup}
use passive_solar_mqtt_bridg.Dict.Laws.{lookup-insert}
use passive_solar_mqtt_bridg.State.{
  sanitize_id, Value, Floats, matching_numbered_keys, copy_map, parse_number, string_value,
  numeric_values, number_at, sum_keys, add_total, add_numbered_total, add_derived_values, build,
}
use passive_solar_mqtt_bridg.State.Keys.{
  IsMap, keys, matching-perm, lookup-perm, IsMap-perm, lookup-absent, copy_map-IsMap,
  lookup-copy_map, matching-copy_map,
}

module _ {N O : Type 0} (floats : Floats N O) where
  number_at-absent :
      (m : Dict Bytes (Value N O)) (k : Bytes)
      → All (λ y. k ≢ y) (keys m)
      → number_at floats m k ≡ none
  unfolding number_at
  number_at-absent m k h = rw (number_at, lookup-absent k m h)

  pub number_at-cons :
      (m : Dict Bytes (Value N O)) (j : Bytes) (v : Value N O) (k : Bytes)
      → number_at floats ((j, v) ∷ m) k
        ≡ (if same_bytes j k then parse_number floats v else number_at floats m k)
  unfolding number_at lookup
  number_at-cons m j v k = ground arith

  skipped :
      (m : Dict Bytes (Value N O)) (j : Bytes) (v : Value N O) (k : Bytes)
      → All (λ y. j ≢ y) (keys m)
      → parse_number floats v ≡ none
      → (if same_bytes j k then parse_number floats v else number_at floats m k)
        ≡ number_at floats m k
  skipped m j v k new e = elim (Bool-cases (same_bytes j k)) [
    | inl s ↦
        let same = (same_bytes_iff j k).0 s in
        rw s (e ∙ sym (number_at-absent m k (subst (λ x. All (λ y. x ≢ y) (keys m)) same new)))
    | inr s ↦ rw s
  ]

  -- The numbers that were received.
  lookup-numeric_values :
      (m : Dict Bytes (Value N O)) (k : Bytes)
      → IsMap m
      → lookup k (numeric_values floats m) ≡ number_at floats m k
  unfolding numeric_values
  lookup-numeric_values [] k h = unfold number_at lookup in refl
  lookup-numeric_values ((j, v) ∷ m) k (new, h) = elim (Option-cases (parse_number floats v)) [
    | inl e ↦
        rw (numeric_values, e)
          (lookup-numeric_values m k h ∙ sym (number_at-cons m j v k ∙ skipped m j v k new e))
    | inr (n, e) ↦
        rw (numeric_values, e)
          (lookup-insert j k n (numeric_values floats m)
            ∙ ap (λ r. if same_bytes j k then some n else r) (lookup-numeric_values m k h)
            ∙ sym (
                number_at-cons m j v k
                ∙ ap (λ r. if same_bytes j k then r else number_at floats m k) e))
  ]

  unfoldable pub sum_of : Dict Bytes (Value N O) → List Bytes → Option N
  sum_of fields [] = none
  sum_of fields (key ∷ keys) = some (sum_keys floats fields floats.nothing (key ∷ keys))

  -- The sum over the numbered keys, if there are any.
  abbrev pub total_of : Dict Bytes (Value N O) → Bytes → Option N
  total_of fields prefix = sum_of fields (matching_numbered_keys prefix fields)

  abbrev pub or_else : Option N → Option N → Option N
  or_else (some n) r = some n
  or_else none r = r

  lookup-add_total :
      (ks : List Bytes) (fields : Dict Bytes (Value N O)) (values : Dict Bytes N)
      (total_key k : Bytes)
      → lookup k (add_total floats ks fields values total_key) ≡ (
          if same_bytes total_key k
          then or_else (sum_of fields ks) (lookup k values)
          else lookup k values)
  unfolding add_total sum_of
  lookup-add_total [] fields values total_key k = ground arith
  lookup-add_total (key ∷ ks) fields values total_key k =
      lookup-insert total_key k (sum_keys floats fields floats.nothing (key ∷ ks)) values

  -- The value of a key: a total, which replaces what was received under its name, or the number
  -- that was received, if there is one.
  unfoldable pub value_of : Dict Bytes (Value N O) → Bytes → Option N
  value_of fields k =
      let received = number_at floats fields k in
      if same_bytes (codes "PmeterTotal") k
      then or_else (total_of fields (codes "PmeterL")) received
      else if same_bytes (codes "PrealTotal") k
      then or_else (total_of fields (codes "PrealL")) received
      else if same_bytes (codes "PpvTotal") k
      then or_else (total_of fields (codes "Ppv")) received
      else received

  number_at-copy_map :
      (m : Dict Bytes (Value N O)) (k : Bytes)
      → number_at floats (copy_map m) k ≡ number_at floats m k
  unfolding number_at
  number_at-copy_map m k = rw (number_at, lookup-copy_map k m)

  sum_keys-eq :
      (m m' : Dict Bytes (Value N O))
      → ((k : Bytes) → number_at floats m k ≡ number_at floats m' k)
      → (total : N) (ks : List Bytes) → sum_keys floats m total ks ≡ sum_keys floats m' total ks
  unfolding sum_keys
  sum_keys-eq m m' h total [] = refl
  sum_keys-eq m m' h total (k ∷ ks) = rw (h k) (
      sum_keys-eq m m' h
        (elim (number_at floats m' k) [ none ↦ total | some n ↦ floats.add total n ]) ks)

  sum_of-eq :
      (m m' : Dict Bytes (Value N O))
      → ((k : Bytes) → number_at floats m k ≡ number_at floats m' k)
      → (ks : List Bytes) → sum_of m ks ≡ sum_of m' ks
  unfolding sum_of
  sum_of-eq m m' h [] = refl
  sum_of-eq m m' h (k ∷ ks) = ap some (sum_keys-eq m m' h floats.nothing (k ∷ ks))

  total_of-copy_map :
      (m : Dict Bytes (Value N O)) (prefix : Bytes)
      → IsMap m
      → total_of (copy_map m) prefix ≡ total_of m prefix
  total_of-copy_map m prefix h =
      ap (sum_of (copy_map m)) (matching-copy_map prefix m h)
      ∙ sum_of-eq (copy_map m) m (number_at-copy_map m) (matching_numbered_keys prefix m)

  -- A state holds, under every key, the value that `value_of` says: the numbers that were received,
  -- and the sums over the keys "Ppv", "PrealL" and "PmeterL" with a number behind them.
  pub build-value_of :
      (m : Dict Bytes (Value N O)) (id name k : Bytes)
      → IsMap m
      → lookup k (build floats m id name).values ≡ value_of m k
  unfolding build add_derived_values add_numbered_total value_of
  build-value_of m id name k h =
      rw
        (
          lookup-add_total,
          lookup-add_total,
          lookup-add_total,
          lookup-numeric_values (copy_map m) k (copy_map-IsMap m),
          number_at-copy_map m k,
          total_of-copy_map m (codes "PmeterL") h,
          total_of-copy_map m (codes "PrealL") h,
          total_of-copy_map m (codes "Ppv") h,
        )
        (ground (
          arith,
          same_bytes_iff (codes "PmeterTotal") k,
          same_bytes_iff (codes "PrealTotal") k,
          same_bytes_iff (codes "PpvTotal") k,
        ))

  value_of-eq :
      (m m' : Dict Bytes (Value N O)) (k : Bytes)
      → number_at floats m k ≡ number_at floats m' k
      → total_of m (codes "PmeterL") ≡ total_of m' (codes "PmeterL")
      → total_of m (codes "PrealL") ≡ total_of m' (codes "PrealL")
      → total_of m (codes "Ppv") ≡ total_of m' (codes "Ppv")
      → value_of m k ≡ value_of m' k
  unfolding value_of
  value_of-eq m m' k a b c d = rw (a, b, c, d)

  pub total_of-perm :
      {m m' : Dict Bytes (Value N O)} (prefix : Bytes)
      → Permᴰ m m'
      → ((k : Bytes) → number_at floats m k ≡ number_at floats m' k)
      → total_of m prefix ≡ total_of m' prefix
  total_of-perm {m} {m'} prefix p h =
      ap (sum_of m) (matching-perm prefix p) ∙ sum_of-eq m m' h (matching_numbered_keys prefix m')

  pub number_at-perm :
      {m m' : Dict Bytes (Value N O)}
      → Permᴰ m m'
      → IsMap m
      → (k : Bytes) → number_at floats m k ≡ number_at floats m' k
  unfolding number_at
  number_at-perm {m} {m'} p h k = rw (number_at, lookup-perm p h k)

  -- The same entries in another order make the same state: the ids, the name, the time, every
  -- field and every value, the totals included, whose terms are added in the order of their keys.
  pub build-perm :
      {m m' : Dict Bytes (Value N O)} (id name : Bytes)
      → Permᴰ m m'
      → IsMap m
      → let p = build floats m id name in
        let p' = build floats m' id name in
        (p.device_id ≡ p'.device_id)
        × (p.device_name ≡ p'.device_name)
        × (p.sn ≡ p'.sn)
        × (p.time ≡ p'.time)
        × ((k : Bytes) → lookup k p.fields ≡ lookup k p'.fields)
        × ((k : Bytes) → lookup k p.values ≡ lookup k p'.values)
  unfolding build
  build-perm {m} {m'} id name p h = (
    ap
        (λ sn.
          if is_empty id && not (is_empty sn)
          then sanitize_id floats (codes "alphaess_" ++ sn)
          else id)
        (texts (codes "SN")),
    ap (λ sn. if is_empty name && not (is_empty sn) then codes "AlphaESS " ++ sn else name)
        (texts (codes "SN")),
    texts (codes "SN"),
    texts (codes "Time"),
    copied,
    same_values,
  )
    where
      copied : (k : Bytes) → lookup k (copy_map m) ≡ lookup k (copy_map m')
      copied k = lookup-copy_map k m ∙ lookup-perm p h k ∙ sym (lookup-copy_map k m')

      texts :
          (k : Bytes)
          → string_value floats (lookup k (copy_map m))
            ≡ string_value floats (lookup k (copy_map m'))
      texts k = ap (string_value floats) (copied k)

      numbers : (k : Bytes) → number_at floats m k ≡ number_at floats m' k
      numbers k = number_at-perm p h k

      same_values :
          (k : Bytes)
          → lookup k (build floats m id name).values ≡ lookup k (build floats m' id name).values
      same_values k =
          build-value_of m id name k h
          ∙ value_of-eq m m' k (numbers k) (total_of-perm (codes "PmeterL") p numbers)
              (total_of-perm (codes "PrealL") p numbers) (total_of-perm (codes "Ppv") p numbers)
          ∙ sym (build-value_of m' id name k (IsMap-perm p h))
