-- ===== src/Setup/Prompts.antt =====
-- The questions: `promptLine`, `promptRequired`, `promptInt` and `promptChoice`. The reader is the
-- bytes that are left of an input that ends; what is printed is left out.
pub mod Enough
use passive_solar_mqtt_bridg.Prelude.{
  ℕ, zero, suc, ◌+◌, ◌*◌, ◌-◌, ◌^◌, Bool, true, false, not, ◌&&◌, ◌||◌, Option, none, some, List,
  [], ◌∷◌, Bytes, length, ltb, leb, ◌==◌, if◌then◌else◌,
}
use passive_solar_mqtt_bridg.Config.Text.{is_empty, same_bytes, trim_space, to_lower}

-- `ReadString('\n')`: what was read, with the line feed, whether there was one, and the rest.
unfoldable pub read_string : Bytes → Bytes × Bool × Bytes
read_string [] = ([], false, [])
read_string (b ∷ bs) =
    let (value, ended, rest) = read_string bs in
    if b == 10 then (b ∷ [], true, bs) else (b ∷ value, ended, rest)

-- `none` is `io.EOF`.
unfoldable pub prompt_line : Bytes → Option Bytes × Bytes
prompt_line input =
    let (value, ended, rest) = read_string input in
    if not ended && is_empty value then (none, rest) else (some (trim_space value), rest)

-- The loop of `promptRequired`. Every answer takes a byte at least, so one round more than there
-- are bytes is enough.
unfoldable pub ask_required : ℕ → Bytes → Option Bytes × Bytes
ask_required zero input = (none, input)
ask_required (suc fuel) input =
    let (answer, rest) = prompt_line input in
    let again = ask_required fuel rest in
    elim answer [
      | none ↦ (none, rest)
      | some value ↦ if is_empty value then again else (some value, rest)
    ]

unfoldable pub prompt_required : Bytes → Option Bytes × Bytes
prompt_required input = ask_required (suc (length input)) input

-- `strconv.Atoi`: an optional sign and decimal digits; `none` for any other text, and for a number
-- out of the range of a 64-bit `int`. A negative number is `none` here too,
-- since the caller refuses it in the same way.
unfoldable pub digits_value : ℕ → Bytes → Option ℕ
digits_value acc [] = some acc
digits_value acc (b ∷ bs) =
    if leb 48 b && leb b 57 then digits_value (acc * 10 + (b - 48)) bs else none

unfoldable pub in_range : Option ℕ → Option ℕ
in_range none = none
in_range (some n) = if ltb n (2 ^ 63) then some n else none

-- A positive number, or `none` where `promptInt` asks again.
unfoldable pub positive : Bytes → Option ℕ
positive [] = none
positive (b ∷ bs) =
    let parsed =
      if b == 43
      then (elim bs [ [] ↦ none | c ∷ cs ↦ digits_value 0 (c ∷ cs) ])
      else digits_value 0 (b ∷ bs) in
    elim (in_range parsed) [ none ↦ none | some n ↦ if n == 0 then none else some n ]

-- The loop of `promptInt`, with one round more than there are bytes.
unfoldable pub ask_int : ℕ → Bytes → Option ℕ × Bytes
ask_int zero input = (none, input)
ask_int (suc fuel) input =
    let (answer, rest) = prompt_required input in
    let again = ask_int fuel rest in
    elim answer [
      | none ↦ (none, rest)
      | some value ↦ elim (positive value) [ none ↦ again | some n ↦ (some n, rest) ]
    ]

unfoldable pub prompt_int : Bytes → Option ℕ × Bytes
prompt_int input = ask_int (suc (length input)) input

-- `_, ok := valid[value]`
unfoldable pub is_choice : List Bytes → Bytes → Bool
is_choice [] value = false
is_choice (c ∷ cs) value = same_bytes c value || is_choice cs value

-- The loop of `promptChoice`, with one round more than there are bytes.
unfoldable pub ask_choice : List Bytes → ℕ → Bytes → Option Bytes × Bytes
ask_choice choices zero input = (none, input)
ask_choice choices (suc fuel) input =
    let (answer, rest) = prompt_line input in
    let again = ask_choice choices fuel rest in
    elim answer [
      | none ↦ (none, rest)
      | some value ↦
          if is_choice choices (to_lower value) then (some (to_lower value), rest) else again
    ]

unfoldable pub prompt_choice : List Bytes → Bytes → Option Bytes × Bytes
prompt_choice choices input = ask_choice choices (suc (length input)) input
