-- ===== src/State/Runs.antt =====
-- States that are built of concrete fields, and the theorems about them there.
use passive_solar_mqtt_bridg.Prelude.{
  ℕ, ◌+◌, ◌≡◌, refl, true, false, none, some, [], ◌∷◌, Bytes, All, arith,
}
use mathlib.Core.List.{Permᴰ}
use passive_solar_mqtt_bridg.Prelude.Text.{codes, same_bytes, bytes_eq}
use passive_solar_mqtt_bridg.Dict.{Dict, lookup, insert}
use passive_solar_mqtt_bridg.Config.Text.{trim, trim_left, trim_right, lower, to_lower}
use passive_solar_mqtt_bridg.HomeAssistant.{is_underscore}
use passive_solar_mqtt_bridg.State.{
  Value, number, text, Floats, after_prefix, all_digits, digits_number, is_number_below, is_atoi,
  is_numbered, text_le, insert_text, sort_texts, sanitize_byte, sanitize_id, numbered_keys,
  matching_numbered_keys, copy_map, parse_number, string_value, numeric_values, number_at, sum_keys,
  add_total, add_numbered_total, add_derived_values, build,
}
use passive_solar_mqtt_bridg.State.Id.{IsIdByte, sanitize_id_idem}
use passive_solar_mqtt_bridg.State.Keys.{IsMap}
use passive_solar_mqtt_bridg.State.Values.{build-perm}
use passive_solar_mqtt_bridg.State.Totals.{pv, add_all, build-add_all}

-- Numbers are natural, and a text is a number if it has digits only.
abbrev floats : Floats ℕ ℕ
floats = record {
  nothing = 0;
  add = λ m n. m + n;
  of_int = λ i. 0;
  parse_float = λ s. elim (all_digits s) [ true ↦ some (digits_number 0 s) | false ↦ none ];
  print_number = λ n. n ∷ [];
  print_int = λ i. [];
  print_other = λ o. [];
  lower_runes = to_lower;
}

abbrev received : Dict Bytes (Value ℕ ℕ)
received =
    (codes "Ppv2", text (codes "20"))
    ∷ (codes "SN", text (codes "AL-7"))
    ∷ (codes "Ppv1", number 3)
    ∷ (codes "Ppv", number 5)
    ∷ (codes "Note", text (codes "x"))
    ∷ []

ppv_total : lookup (codes "PpvTotal") (build floats received [] []).values ≡ some 23
unfolding build copy_map lookup insert same_bytes numeric_values parse_number add_derived_values
    add_numbered_total matching_numbered_keys numbered_keys is_numbered after_prefix is_atoi
    is_number_below all_digits digits_number sort_texts insert_text text_le add_total sum_keys
    number_at
ppv_total = refl

note_left_out : lookup (codes "Note") (build floats received [] []).values ≡ none
unfolding build copy_map lookup insert same_bytes numeric_values parse_number add_derived_values
    add_numbered_total matching_numbered_keys numbered_keys is_numbered after_prefix is_atoi
    is_number_below all_digits digits_number sort_texts insert_text text_le add_total sum_keys
    number_at
note_left_out = refl

device_id : (build floats received [] []).device_id ≡ codes "alphaess_al_7"
unfolding build copy_map lookup insert same_bytes string_value sanitize_id sanitize_byte to_lower
    lower trim trim_left trim_right is_underscore
device_id = refl

abbrev entry : Bytes → ℕ → Bytes × Value ℕ ℕ
entry key n = (key, number n)

abbrev some_fields : Dict Bytes (Value ℕ ℕ)
some_fields = entry (codes "Ppv1") 3 ∷ entry (codes "Ppv2") 4 ∷ []

abbrev swapped_fields : Dict Bytes (Value ℕ ℕ)
swapped_fields = entry (codes "Ppv2") 4 ∷ entry (codes "Ppv1") 3 ∷ []

some_fields-IsMap : IsMap some_fields
some_fields-IsMap = ground arith

build-perm_example :
    let p = build floats some_fields [] [] in
    let p' = build floats swapped_fields [] [] in
    (p.device_id ≡ p'.device_id)
    × (p.device_name ≡ p'.device_name)
    × (p.sn ≡ p'.sn)
    × (p.time ≡ p'.time)
    × ((k : Bytes) → lookup k p.fields ≡ lookup k p'.fields)
    × ((k : Bytes) → lookup k p.values ≡ lookup k p'.values)
build-perm_example = build-perm floats [] [] (Permᴰ.swap refl refl) some_fields-IsMap

-- Two numbers in the wrong order, and another field.
abbrev three_fields : Dict Bytes (Value ℕ ℕ)
three_fields =
    entry (codes "Ppv2") 4 ∷ entry (codes "Ppv1") 3 ∷ (codes "SN", text (codes "AL")) ∷ []

three_fields-IsMap : IsMap three_fields
three_fields-IsMap = ground arith

build-add_all_example :
    lookup (codes "PpvTotal") (build floats three_fields [] []).values
    ≡ some (add_all floats 0 ((49, (number 3, 3)) ∷ (50, (number 4, 4)) ∷ []))
build-add_all_example =
    build-add_all floats pv (49, (number 3, 3)) ((50, (number 4, 4)) ∷ [])
      ((codes "SN", text (codes "AL")) ∷ []) three_fields [] [] three_fields-IsMap
      (Permᴰ.swap refl refl) (omega arith) (refl, (refl, tt)) ((λ s e. absurd (ground arith)), tt)

sanitize_id_idem_example :
    All IsIdByte (sanitize_id floats (codes "alphaess_AL-7."))
    × (sanitize_id floats (sanitize_id floats (codes "alphaess_AL-7."))
        ≡ sanitize_id floats (codes "alphaess_AL-7."))
sanitize_id_idem_example = sanitize_id_idem floats (λ s h. refl) (codes "alphaess_AL-7.")
