-- ===== src/Prelude/Text.antt =====
-- Texts as lists of bytes: literals, equality, and the equality as an instance.
use Prim.Native.Char.{code}
use Prim.Native.String
use mathlib.Core.Path.{◌≡◌}
use mathlib.Core.Logic.{◌↔◌}
use mathlib.Core.Bool.{Bool, true, false, ◌&&◌}
use mathlib.Core.List.{[], ◌∷◌}
use native.Mathlib.Omega.{arith}
use passive_solar_mqtt_bridg.Prelude.Tests.{◌==◌}
use passive_solar_mqtt_bridg.Prelude.Lists.{Bytes}
use passive_solar_mqtt_bridg.Prelude.Equality.{Eq}

-- The bytes of an ASCII literal.
abbrev pub codes : String.String → Bytes
codes String.[] = []
codes (String.◌∷◌ c s) = code c ∷ codes s

-- `s == ""`
abbrev pub is_empty : Bytes → Bool
is_empty [] = true
is_empty (b ∷ bs) = false

-- Equality of strings.
unfoldable pub same_bytes : Bytes → Bytes → Bool
same_bytes [] [] = true
same_bytes [] (c ∷ cs) = false
same_bytes (b ∷ bs) [] = false
same_bytes (b ∷ bs) (c ∷ cs) = b == c && same_bytes bs cs

pub same_bytes_iff : (s t : Bytes) → (same_bytes s t ≡ true) ↔ (s ≡ t)
unfolding same_bytes
same_bytes_iff [] [] = ground arith
same_bytes_iff [] (c ∷ cs) = ground arith
same_bytes_iff (b ∷ bs) [] = ground arith
same_bytes_iff (b ∷ bs) (c ∷ cs) = ground (arith, same_bytes_iff bs cs)

instance abbrev pub bytes_eq : Eq Bytes
bytes_eq = record { beq = same_bytes; beq_iff = same_bytes_iff }
