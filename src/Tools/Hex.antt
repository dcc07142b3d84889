-- ===== src/Tools/Hex.antt =====
-- crates/ro-tools-core/src/profiles.rs: `parse_hex`, with `u32::from_str_radix(_, 16)` written out:
-- an optional plus sign, at least one digit, and no value past `u32::MAX`.
pub mod Numbers
pub mod Spelling
use nndsk_ro_launcher.Base.{
  ℕ, ◌+◌, ◌-◌, ◌*◌, Bool, true, false, ◌&&◌, Option, none, some, List, [], ◌∷◌, Text, codes, trim,
  strip_prefix, leb, ltb, if◌then◌else◌,
}

abbrev pub u32_limit : ℕ
u32_limit = 4294967296

-- `char::to_digit(16)`.
unfoldable pub hex_digit : ℕ → Option ℕ
hex_digit c =
    if leb b'0' c && leb c b'9'
    then some (c - 48)
    else if leb b'a' c && leb c b'f'
    then some (c - 87)
    else if leb b'A' c && leb c b'F'
    then some (c - 55)
    else none

-- `checked_mul(16)` and `checked_add`.
unfoldable pub push_digit : ℕ → ℕ → Option ℕ
push_digit acc d = if ltb (acc * 16 + d) u32_limit then some (acc * 16 + d) else none

unfoldable pub read_digits : ℕ → Text → Option ℕ
read_digits acc [] = some acc
read_digits acc (c ∷ s) = elim (hex_digit c) [
  | none ↦ none
  | some d ↦ elim (push_digit acc d) [ none ↦ none | some acc' ↦ read_digits acc' s ]
]

unfoldable pub from_str_radix : Text → Option ℕ
from_str_radix [] = none
from_str_radix (c ∷ s) = elim (strip_prefix (codes "+") (c ∷ s)) [
  | none ↦ read_digits 0 (c ∷ s)
  | some [] ↦ none
  | some (d ∷ t) ↦ read_digits 0 (d ∷ t)
]

unfoldable pub strip_0x : Text → Text
strip_0x s = elim (strip_prefix (codes "0x") s) [
  | some t ↦ t
  | none ↦ elim (strip_prefix (codes "0X") s) [ some t ↦ t | none ↦ s ]
]

-- An error is `none`; its text only repeats the input.
unfoldable pub parse_hex : Text → Option ℕ
parse_hex value = from_str_radix (strip_0x (trim value))
