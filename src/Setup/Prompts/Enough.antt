-- ===== src/Setup/Prompts/Enough.antt =====
-- The questions have rounds enough: a round that asks again has taken a byte at least.
use passive_solar_mqtt_bridg.Prelude.{
  ℕ, zero, suc, ◌≤◌, ◌<◌, ◌≡◌, some, List, [], ◌∷◌, Bytes, length, inl, inr, Option-cases, arith,
}
use passive_solar_mqtt_bridg.Setup.Prompts.{
  read_string, prompt_line, ask_required, prompt_required, ask_choice, ask_int,
}

read_string-le : (bs : Bytes) → length (read_string bs).2 ≤ length bs
unfolding read_string
read_string-le [] = omega arith
read_string-le (b ∷ bs) = ground (arith, read_string-le bs)

read_string-lt : (b : ℕ) (bs : Bytes) → length (read_string (b ∷ bs)).2 < length (b ∷ bs)
unfolding read_string
read_string-lt b bs = ground (arith, read_string-le bs)

prompt_line-shrinks :
    (input v : Bytes) → (prompt_line input).0 ≡ some v → length (prompt_line input).1 < length input
unfolding prompt_line
prompt_line-shrinks [] v h = unfold read_string in cc
prompt_line-shrinks (b ∷ bs) v h = ground (arith, read_string-lt b bs)

-- With one round more than there are bytes, another round changes nothing.
pub ask_required_enough :
    (fuel : ℕ) (input : Bytes)
    → length input < fuel
    → ask_required (suc fuel) input ≡ ask_required fuel input
unfolding ask_required
ask_required_enough zero input h = absurd (omega arith)
ask_required_enough (suc fuel) input h = elim (Option-cases (prompt_line input).0) [
  | inl e ↦ ground arith
  | inr (v, e) ↦ ground (
    arith,
    ask_required_enough fuel (prompt_line input).1 (omega (arith, prompt_line-shrinks input v e)),
  )
]

pub ask_choice_enough :
    (choices : List Bytes) (fuel : ℕ) (input : Bytes)
    → length input < fuel
    → ask_choice choices (suc fuel) input ≡ ask_choice choices fuel input
unfolding ask_choice
ask_choice_enough choices zero input h = absurd (omega arith)
ask_choice_enough choices (suc fuel) input h = elim (Option-cases (prompt_line input).0) [
  | inl e ↦ ground arith
  | inr (v, e) ↦ ground (
    arith,
    ask_choice_enough choices fuel (prompt_line input).1
        (omega (arith, prompt_line-shrinks input v e)),
  )
]

ask_required-shrinks :
    (fuel : ℕ) (input v : Bytes)
    → (ask_required fuel input).0 ≡ some v
    → length (ask_required fuel input).1 < length input
unfolding ask_required
ask_required-shrinks zero input v h = cc
ask_required-shrinks (suc fuel) input v h = elim (Option-cases (prompt_line input).0) [
  | inl e ↦ ground arith
  | inr (u, e) ↦
      ground
        (arith, prompt_line-shrinks input u e, ask_required-shrinks fuel (prompt_line input).1 v)
]

prompt_required-shrinks :
    (input v : Bytes)
    → (prompt_required input).0 ≡ some v
    → length (prompt_required input).1 < length input
unfolding prompt_required
prompt_required-shrinks input v h = ask_required-shrinks (suc (length input)) input v h

-- With one round more than there are bytes of input, another round of the question for a number
-- changes nothing.
ask_int_enough :
    (fuel : ℕ) (input : Bytes) → length input < fuel → ask_int (suc fuel) input ≡ ask_int fuel input
unfolding ask_int
ask_int_enough zero input h = absurd (omega arith)
ask_int_enough (suc fuel) input h = elim (Option-cases (prompt_required input).0) [
  | inl e ↦ ground arith
  | inr (v, e) ↦ ground (
    arith,
    ask_int_enough fuel (prompt_required input).1
        (omega (arith, prompt_required-shrinks input v e)),
  )
]
