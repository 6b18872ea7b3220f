-- ===== src/Config/Text.antt =====
-- What the program uses of the package `strings`, on ASCII text.
unfoldable pub use passive_solar_mqtt_bridg.Prelude.Text.{same_bytes, is_empty}
use passive_solar_mqtt_bridg.Prelude.{
  ℕ, ◌+◌, ◌-◌, Bool, false, ◌&&◌, ◌||◌, [], ◌∷◌, map, Bytes, ltb, leb, ◌==◌, if◌then◌else◌, length,
  drop,
}

unfoldable pub trim_left : (ℕ → Bool) → Bytes → Bytes
trim_left cut [] = []
trim_left cut (b ∷ bs) = if cut b then trim_left cut bs else b ∷ bs

unfoldable pub trim_right : (ℕ → Bool) → Bytes → Bytes
trim_right cut [] = []
trim_right cut (b ∷ bs) =
    let rest = trim_right cut bs in if cut b && is_empty rest then [] else b ∷ rest

unfoldable pub trim : (ℕ → Bool) → Bytes → Bytes
trim cut s = trim_right cut (trim_left cut s)

-- Tab, line feed, vertical tab, form feed, carriage return and the blank.
unfoldable pub is_space : ℕ → Bool
is_space b = leb 9 b && leb b 13 || b == 32

-- The cutset `"'`.
unfoldable pub is_quote : ℕ → Bool
is_quote b = b == 34 || b == 39

unfoldable pub trim_space : Bytes → Bytes
trim_space s = trim is_space s

unfoldable pub trim_quotes : Bytes → Bytes
trim_quotes s = trim is_quote s

unfoldable pub lower : ℕ → ℕ
lower b = if leb 65 b && leb b 90 then b + 32 else b

unfoldable pub to_lower : Bytes → Bytes
to_lower s = map lower s

unfoldable pub has_suffix : Bytes → Bytes → Bool
has_suffix suffix s =
    if ltb (length s) (length suffix)
    then false
    else same_bytes (drop (length s - length suffix) s) suffix
