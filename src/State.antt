-- ===== src/State.antt =====
-- internal/state/state.go: the state that is published, built from the fields that were received.
pub mod Order
pub mod Keys
pub mod Id
pub mod Values
pub mod Numbered
pub mod Totals
mod Runs
use passive_solar_mqtt_bridg.Prelude.{
  ℕ, ◌+◌, ◌-◌, ◌*◌, ◌^◌, Bool, true, false, not, ◌&&◌, ◌||◌, Option, none, some, List, [], ◌∷◌,
  ◌++◌, map, Bytes, ltb, leb, ◌==◌, if◌then◌else◌, length, drop,
}
use passive_solar_mqtt_bridg.Prelude.Text.{codes, is_empty, same_bytes, bytes_eq}
use passive_solar_mqtt_bridg.Dict.{Dict, lookup, insert}
use passive_solar_mqtt_bridg.Config.{ℤ}
use passive_solar_mqtt_bridg.Config.Text.{trim, to_lower}
use passive_solar_mqtt_bridg.HomeAssistant.{is_underscore}

-- A value of a `map[string]any`: the types that the code tells apart, and all others. `N` is
-- `float64`.
pub data Value (N O : Type 0) : Type 0 where
  number : N → Value N O
  integer : ℤ → Value N O
  json_number text : Bytes → Value N O
  null : Value N O
  other : O → Value N O

-- What the code uses of floating point, of `strconv.ParseFloat`, which is `none` where it returns
-- an error, of `fmt.Sprint`, and of Unicode: the characters that `range` yields for what
-- `strings.ToLower` makes of a text.
pub record Floats (N O : Type 0) : Type 0 where
  pub nothing : N
  pub add : N → N → N
  pub of_int : ℤ → N
  pub parse_float : Bytes → Option N
  pub print_number : N → Bytes
  pub print_int : ℤ → Bytes
  pub print_other : O → Bytes
  pub lower_runes : Bytes → List ℕ

pub record Payload (N O : Type 0) : Type 0 where
  pub device_id : Bytes
  pub device_name : Bytes
  pub sn : Bytes
  pub time : Bytes
  pub fields : Dict Bytes (Value N O)
  pub values : Dict Bytes N

-- `strings.HasPrefix` and `strings.TrimPrefix` in one: what follows the prefix.
unfoldable pub after_prefix : Bytes → Bytes → Option Bytes
after_prefix [] key = some key
after_prefix (p ∷ ps) [] = none
after_prefix (p ∷ ps) (b ∷ bs) = if p == b then after_prefix ps bs else none

unfoldable pub all_digits : Bytes → Bool
all_digits [] = true
all_digits (b ∷ bs) = leb 48 b && leb b 57 && all_digits bs

unfoldable pub digits_number : ℕ → Bytes → ℕ
digits_number acc [] = acc
digits_number acc (b ∷ bs) = digits_number (acc * 10 + (b - 48)) bs

-- Digits that stay below `bound`.
unfoldable pub is_number_below : ℕ → Bytes → Bool
is_number_below bound s = not (is_empty s) && all_digits s && ltb (digits_number 0 s) bound

-- `strconv.Atoi` returns no error: an optional sign and decimal digits, within 64 bits.
unfoldable pub is_atoi : Bytes → Bool
is_atoi [] = false
is_atoi (b ∷ bs) =
    if b == 45
    then is_number_below (2 ^ 63 + 1) bs
    else if b == 43
    then is_number_below (2 ^ 63) bs
    else is_number_below (2 ^ 63) (b ∷ bs)

-- The tests of the loop in `matchingNumberedKeys`.
unfoldable pub is_numbered : Bytes → Bytes → Bool
is_numbered prefix key = elim (after_prefix prefix key) [
  | none ↦ false
  | some suffix ↦ not (is_empty suffix) && is_atoi suffix
]

-- `<=` on strings.
unfoldable pub text_le : Bytes → Bytes → Bool
text_le [] t = true
text_le (b ∷ bs) [] = false
text_le (b ∷ bs) (c ∷ cs) = ltb b c || b == c && text_le bs cs

unfoldable pub insert_text : Bytes → List Bytes → List Bytes
insert_text s [] = s ∷ []
insert_text s (t ∷ ts) = if text_le s t then s ∷ t ∷ ts else t ∷ insert_text s ts

-- `sort.Strings`
unfoldable pub sort_texts : List Bytes → List Bytes
sort_texts [] = []
sort_texts (s ∷ ss) = insert_text s (sort_texts ss)

-- The byte that `sanitizeID` writes for a character.
unfoldable pub sanitize_byte : ℕ → ℕ
sanitize_byte b = if leb 97 b && leb b 122 || leb 48 b && leb b 57 then b else 95

module _ {V : Type 0} where
  -- The keys of the loop in `matchingNumberedKeys`, in the order in which it meets them.
  unfoldable pub numbered_keys : Bytes → Dict Bytes V → List Bytes
  numbered_keys prefix [] = []
  numbered_keys prefix ((key, value) ∷ m) =
      let rest = numbered_keys prefix m in if is_numbered prefix key then key ∷ rest else rest

  unfoldable pub matching_numbered_keys : Bytes → Dict Bytes V → List Bytes
  matching_numbered_keys prefix m = sort_texts (numbered_keys prefix m)

  -- `copyMap`
  unfoldable pub copy_map : Dict Bytes V → Dict Bytes V
  copy_map [] = []
  copy_map ((key, value) ∷ m) = insert key value (copy_map m)

module _ {N O : Type 0} (floats : Floats N O) where
  unfoldable pub sanitize_id : Bytes → Bytes
  sanitize_id value = trim is_underscore (map sanitize_byte (floats.lower_runes value))

  unfoldable pub parse_number : Value N O → Option N
  parse_number (number n) = some n
  parse_number (integer i) = some (floats.of_int i)
  parse_number (json_number s) = floats.parse_float s
  parse_number (text s) = if is_empty s then none else floats.parse_float s
  parse_number null = none
  parse_number (other o) = none

  -- `none` is a missing key, which reads as `nil`.
  unfoldable pub string_value : Option (Value N O) → Bytes
  string_value none = []
  string_value (some (text s)) = s
  string_value (some (json_number s)) = s
  string_value (some null) = []
  string_value (some (number n)) = floats.print_number n
  string_value (some (integer i)) = floats.print_int i
  string_value (some (other o)) = floats.print_other o

  unfoldable pub numeric_values : Dict Bytes (Value N O) → Dict Bytes N
  numeric_values [] = []
  numeric_values ((key, value) ∷ m) =
      let rest = numeric_values m in
      elim (parse_number value) [ none ↦ rest | some n ↦ insert key n rest ]

  -- `parseNumber(fields[key])`
  unfoldable pub number_at : Dict Bytes (Value N O) → Bytes → Option N
  number_at fields key = elim (lookup key fields) [ none ↦ none | some v ↦ parse_number v ]

  -- The loop of `addNumberedTotal`.
  unfoldable pub sum_keys : Dict Bytes (Value N O) → N → List Bytes → N
  sum_keys fields total [] = total
  sum_keys fields total (key ∷ keys) =
      sum_keys fields (elim (number_at fields key) [ none ↦ total | some n ↦ floats.add total n ])
        keys

  unfoldable pub add_total :
      List Bytes → Dict Bytes (Value N O) → Dict Bytes N → Bytes → Dict Bytes N
  add_total [] fields values total_key = values
  add_total (key ∷ keys) fields values total_key =
      insert total_key (sum_keys fields floats.nothing (key ∷ keys)) values

  unfoldable pub add_numbered_total :
      Dict Bytes (Value N O) → Dict Bytes N → Bytes → Bytes → Dict Bytes N
  add_numbered_total fields values prefix total_key =
      add_total (matching_numbered_keys prefix fields) fields values total_key

  unfoldable pub add_derived_values : Dict Bytes (Value N O) → Dict Bytes N → Dict Bytes N
  add_derived_values fields values =
      let pv = add_numbered_total fields values (codes "Ppv") (codes "PpvTotal") in
      let real = add_numbered_total fields pv (codes "PrealL") (codes "PrealTotal") in
      add_numbered_total fields real (codes "PmeterL") (codes "PmeterTotal")

  unfoldable pub build : Dict Bytes (Value N O) → Bytes → Bytes → Payload N O
  build fields configured_device_id configured_device_name =
      let copied = copy_map fields in
      let sn = string_value (lookup (codes "SN") copied) in
      record {
        device_id =
            if is_empty configured_device_id && not (is_empty sn)
            then sanitize_id (codes "alphaess_" ++ sn)
            else configured_device_id;
        device_name =
            if is_empty configured_device_name && not (is_empty sn)
            then codes "AlphaESS " ++ sn
            else configured_device_name;
        sn = sn;
        time = string_value (lookup (codes "Time") copied);
        fields = copied;
        values = add_derived_values copied (numeric_values copied);
      }

  -- `json.Marshal` is the parameter `json`, `none` where it returns an error.
  unfoldable pub marshal :
      (Payload N O → Option Bytes) → Dict Bytes (Value N O) → Bytes → Bytes → Option Bytes
  marshal json fields configured_device_id configured_device_name =
      json (build fields configured_device_id configured_device_name)

  -- `now` is the time of day as `time.Now` and `Format` give it.
  unfoldable pub now_payload : Dict Bytes (Value N O) → Bytes → Bytes → Bytes → Payload N O
  now_payload fields configured_device_id configured_device_name now =
      let payload = build fields configured_device_id configured_device_name in
      record payload { time = if is_empty payload.time then now else payload.time }
