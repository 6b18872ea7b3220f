-- ===== src/Alphaess/Scan.antt =====
-- The searches of internal/alphaess/decoder.go: Go's `bytes.Index`, `bytes.IndexByte` and
-- `bytes.LastIndexByte`, with `none` for -1, and `findJSONObjectEnd`.
pub mod Positions
use passive_solar_mqtt_bridg.Prelude.{
  ℕ, zero, suc, ◌+◌, ◌-◌, Bool, true, false, not, ◌&&◌, Option, none, some, List, [], ◌∷◌, Bytes,
  ◌==◌, if◌then◌else◌,
}

abbrev pub next : Option ℕ → Option ℕ
next none = none
next (some i) = some (suc i)

unfoldable pub index_byte : ℕ → Bytes → Option ℕ
index_byte c [] = none
index_byte c (b ∷ bs) = let rest = index_byte c bs in if b == c then some 0 else next rest

unfoldable pub last_index_byte : ℕ → Bytes → Option ℕ
last_index_byte c [] = none
last_index_byte c (b ∷ bs) = elim (last_index_byte c bs) [
  | some i ↦ some (suc i)
  | none ↦ if b == c then some 0 else none
]

-- `bytes.Index(d.buffer, []byte{0x01, 0x01})`
unfoldable pub index_frame_start : Bytes → Option ℕ
index_frame_start [] = none
index_frame_start (a ∷ []) = none
index_frame_start (a ∷ b ∷ bs) =
    let rest = index_frame_start (b ∷ bs) in if a == 0x01 && b == 0x01 then some 0 else next rest

-- The variables of the loop in `findJSONObjectEnd`.
pub record ScanState : Type 0 where
  pub depth : ℕ
  pub in_string : Bool
  pub escaped : Bool

abbrev pub scan_start : ScanState
scan_start = record { depth = 0; in_string = false; escaped = false }

-- One byte of the loop. The depth is 1 at least where a `}` is counted, since the scan starts at a
-- `{` and returns where the depth gets back to 0.
unfoldable pub scan_byte : ScanState → ℕ → ScanState
scan_byte s b =
    if s.in_string
    then (if s.escaped
        then record s { escaped = false }
        else if b == b'\\'
        then record s { escaped = true }
        else if b == b'"'
        then record s { in_string = false }
        else s)
    else if b == b'"'
    then record s { in_string = true }
    else if b == b'{'
    then record s { depth = s.depth + 1 }
    else if b == b'}'
    then record s { depth = s.depth - 1 }
    else s

-- The byte closes the object.
unfoldable pub closes : ScanState → ℕ → Bool
closes s b = not s.in_string && b == b'}' && s.depth - 1 == 0

unfoldable pub scan : ScanState → Bytes → Option ℕ
scan s [] = none
scan s (b ∷ bs) = let rest = scan (scan_byte s b) bs in if closes s b then some 1 else next rest

unfoldable pub find_json_object_end : Bytes → Option ℕ
find_json_object_end [] = none
find_json_object_end (b ∷ bs) = if b == b'{' then scan scan_start (b ∷ bs) else none
