-- ===== src/State/Totals.antt =====
-- What the totals of a state are, for fields whose numbered keys have one digit, as the inverter
-- sends them.
use passive_solar_mqtt_bridg.Prelude.{
  ℕ, suc, ◌≤◌, ◌≡◌, ◌≢◌, refl, ap, ◌∙◌, inl, inr, some, List, [], ◌∷◌, ◌++◌, map, Bytes, All, arith,
  Bool-cases,
}
use mathlib.Core.List.{Permᴰ}
use passive_solar_mqtt_bridg.Prelude.Text.{codes, bytes_eq, same_bytes, same_bytes_iff}
use passive_solar_mqtt_bridg.Dict.{Dict, lookup}
use passive_solar_mqtt_bridg.State.{
  Value, number, integer, json_number, text, null, other, Floats, insert_text, sort_texts,
  numbered_keys, matching_numbered_keys, parse_number, number_at, sum_keys, build,
}
use passive_solar_mqtt_bridg.State.Numbered.{
  HasNoNumber, digit_is_numbered, digits_in_order, plain_not_numbered,
}
use passive_solar_mqtt_bridg.State.Keys.{IsMap, keys, matching-cons, IsMap-perm}
use passive_solar_mqtt_bridg.State.Values.{
  number_at-cons, sum_of, total_of, value_of, build-value_of, total_of-perm, number_at-perm,
}

module _ {N O : Type 0} (floats : Floats N O) where
  -- A value that stands for this number.
  abbrev pub Reads : Value N O → N → Type 0
  Reads (number n) x = n ≡ x
  Reads (integer i) x = floats.of_int i ≡ x
  Reads (json_number s) x = floats.parse_float s ≡ some x
  Reads (text s) x = (s ≢ []) × (floats.parse_float s ≡ some x)
  Reads null x = ⊥
  Reads (other o) x = ⊥

  -- A digit, and the value of the key that ends with it, and the number that this value stands for.
  abbrev pub Term : Type 0
  Term = ℕ × (Value N O × N)

  abbrev pub entries : Bytes → List Term → Dict Bytes (Value N O)
  entries prefix ts = map (λ t. (prefix ++ t.0 ∷ [], t.1.0)) ts

  -- The digits ascend, from this one on, up to 9.
  abbrev pub Ascend : ℕ → List Term → Type 0
  Ascend lo [] = Unit
  Ascend lo (t ∷ ts) = (lo ≤ t.0) × (t.0 ≤ 57) × Ascend (suc t.0) ts

  pub add_all : N → List Term → N
  add_all total [] = total
  add_all total (t ∷ ts) = add_all (floats.add total t.1.1) ts

  Reads-parse : (v : Value N O) (x : N) → Reads v x → parse_number floats v ≡ some x
  unfolding parse_number
  Reads-parse (number n) x h = ap some h
  Reads-parse (integer i) x h = ap some h
  Reads-parse (json_number s) x h = h
  Reads-parse (text []) x (h, k) = absurd (h refl)
  Reads-parse (text (b ∷ s)) x (h, k) = k
  Reads-parse null x h = elim h [ ]
  Reads-parse (other o) x h = elim h [ ]

  none_numbered :
      (prefix : Bytes) (m : Dict Bytes (Value N O))
      → All (HasNoNumber prefix) (keys m)
      → matching_numbered_keys prefix m ≡ []
  none_numbered prefix [] h = unfold matching_numbered_keys numbered_keys sort_texts in refl
  none_numbered prefix ((k, v) ∷ m) (h, hs) =
      matching-cons prefix k v m ∙ rw (plain_not_numbered prefix k h) (none_numbered prefix m hs)

  first_inserted :
      (prefix : Bytes) (d : ℕ) (ts : List Term)
      → Ascend (suc d) ts
      → insert_text (prefix ++ d ∷ []) (keys (entries prefix ts))
        ≡ (prefix ++ d ∷ []) ∷ keys (entries prefix ts)
  unfolding insert_text
  first_inserted prefix d [] h = refl
  first_inserted prefix d (t ∷ ts) (h, top, k) =
      rw (digits_in_order prefix d t.0 (omega arith)) refl

  entries_numbered :
      (prefix : Bytes) (lo : ℕ) (ts : List Term) (rest : Dict Bytes (Value N O))
      → 48 ≤ lo
      → Ascend lo ts
      → All (HasNoNumber prefix) (keys rest)
      → matching_numbered_keys prefix (entries prefix ts ++ rest) ≡ keys (entries prefix ts)
  entries_numbered prefix lo [] rest low h k = none_numbered prefix rest k
  entries_numbered prefix lo (t ∷ ts) rest low (h, top, hs) k =
      matching-cons prefix (prefix ++ t.0 ∷ []) t.1.0 (entries prefix ts ++ rest)
      ∙ rw
          (
            digit_is_numbered prefix t.0 (omega arith) top,
            entries_numbered prefix (suc t.0) ts rest (omega arith) hs k,
          )
          (first_inserted prefix t.0 ts hs)

  sum_keys-add_all :
      (m : Dict Bytes (Value N O)) (prefix : Bytes) (total : N) (ts : List Term)
      → All (λ t. number_at floats m (prefix ++ t.0 ∷ []) ≡ some t.1.1) ts
      → sum_keys floats m total (keys (entries prefix ts)) ≡ add_all total ts
  unfolding sum_keys add_all
  sum_keys-add_all m prefix total [] h = refl
  sum_keys-add_all m prefix total (t ∷ ts) (h, hs) =
      rw (sum_keys, h) (sum_keys-add_all m prefix (floats.add total t.1.1) ts hs)

  found-cons :
      (key prefix : Bytes) (v : Value N O) (ts : List Term) (rest m : Dict Bytes (Value N O))
      → All (λ y. key ≢ y) (keys (entries prefix ts ++ rest))
      → All (λ t. number_at floats m (prefix ++ t.0 ∷ []) ≡ some t.1.1) ts
      → All (λ t. number_at floats ((key, v) ∷ m) (prefix ++ t.0 ∷ []) ≡ some t.1.1) ts
  found-cons key prefix v [] rest m new h = tt
  found-cons key prefix v (t ∷ ts) rest m (apart, new) (h, hs) = (
    elim (Bool-cases (same_bytes key (prefix ++ t.0 ∷ []))) [
      | inl e ↦ absurd (apart ((same_bytes_iff key (prefix ++ t.0 ∷ [])).0 e))
      | inr e ↦ number_at-cons floats m key v (prefix ++ t.0 ∷ []) ∙ rw e h
    ],
    found-cons key prefix v ts rest m new hs,
  )

  number_at-entries :
      (prefix : Bytes) (ts : List Term) (rest : Dict Bytes (Value N O))
      → IsMap (entries prefix ts ++ rest)
      → All (λ t. Reads t.1.0 t.1.1) ts
      → All (λ t. number_at floats (entries prefix ts ++ rest) (prefix ++ t.0 ∷ []) ≡ some t.1.1) ts
  number_at-entries prefix [] rest h k = tt
  number_at-entries prefix (t ∷ ts) rest (new, h) (k, ks) =
      let key = prefix ++ t.0 ∷ [] in
      let m = entries prefix ts ++ rest in
      (
        number_at-cons floats m key t.1.0 key
            ∙ rw ((same_bytes_iff key key).1 refl) (Reads-parse t.1.0 t.1.1 k),
        found-cons key prefix t.1.0 ts rest m new (number_at-entries prefix ts rest h ks),
      )

  total_of-add_all :
      (prefix : Bytes) (t : Term) (ts : List Term) (rest m : Dict Bytes (Value N O))
      → IsMap m
      → Permᴰ m (entries prefix (t ∷ ts) ++ rest)
      → Ascend 48 (t ∷ ts)
      → All (λ u. Reads u.1.0 u.1.1) (t ∷ ts)
      → All (HasNoNumber prefix) (keys rest)
      → total_of floats m prefix ≡ some (add_all floats.nothing (t ∷ ts))
  unfolding sum_of
  total_of-add_all prefix t ts rest m h p ascend reads plain =
      let us = t ∷ ts in
      total_of-perm floats prefix p (number_at-perm floats p h)
      ∙ ap (sum_of floats (entries prefix us ++ rest))
          (entries_numbered prefix 48 us rest (omega arith) ascend plain)
      ∙ ap some (
          sum_keys-add_all (entries prefix us ++ rest) prefix floats.nothing us
            (number_at-entries prefix us rest (IsMap-perm p h) reads))

  -- The totals of a state.
  pub data Total : Type 0 where
    pv real meter : Total

  abbrev pub prefix_of : Total → Bytes
  prefix_of pv = codes "Ppv"
  prefix_of real = codes "PrealL"
  prefix_of meter = codes "PmeterL"

  abbrev pub key_of : Total → Bytes
  key_of pv = codes "PpvTotal"
  key_of real = codes "PrealTotal"
  key_of meter = codes "PmeterTotal"

  value_of-total :
      (total : Total) (m : Dict Bytes (Value N O)) (x : N)
      → total_of floats m (prefix_of total) ≡ some x
      → value_of floats m (key_of total) ≡ some x
  unfolding value_of same_bytes
  value_of-total pv m x h = rw h refl
  value_of-total real m x h = rw h refl
  value_of-total meter m x h = rw h refl

  -- The fields hold, in any order, some keys "Ppv1" to "Ppv9" or "Ppv0" whose values stand for
  -- numbers, one key at least, and beside them only keys in which "Ppv" is not followed by digits
  -- and signs alone. Then the state holds, under "PpvTotal", the sum of exactly these numbers, added
  -- to zero in the order of their keys, whatever was received under that name. The same holds of
  -- "PrealL" with "PrealTotal" and of "PmeterL" with "PmeterTotal".
  pub build-add_all :
      (total : Total) (t : Term) (ts : List Term) (rest m : Dict Bytes (Value N O))
      (id name : Bytes)
      → IsMap m
      → Permᴰ m (entries (prefix_of total) (t ∷ ts) ++ rest)
      → Ascend 48 (t ∷ ts)
      → All (λ u. Reads u.1.0 u.1.1) (t ∷ ts)
      → All (HasNoNumber (prefix_of total)) (keys rest)
      → lookup (key_of total) (build floats m id name).values
        ≡ some (add_all floats.nothing (t ∷ ts))
  build-add_all total t ts rest m id name h p ascend reads plain =
      build-value_of floats m id name (key_of total) h
      ∙ value_of-total total m (add_all floats.nothing (t ∷ ts))
          (total_of-add_all (prefix_of total) t ts rest m h p ascend reads plain)
