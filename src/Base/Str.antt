-- ===== src/Base/Str.antt =====
-- Texts as lists of Unicode scalar values, with the `str` methods that the program calls.
use Prim.Native.Nat.{ℕ, ◌+◌, ◌-◌}
use Prim.Native.Char.{code}
use Prim.Native.String.{String}
use mathlib.Core.Bool.{Bool, true, false, ◌&&◌, ◌||◌}
use mathlib.Core.List.{List, [], ◌∷◌, map, reverse}
use mathlib.Core.Option
use mathlib.Core.Option.{Option, none, some}
use mathlib.Core.Path.{◌≡◌, refl}
use mathlib.Core.Logic.{◌↔◌, ◌≢◌, inl, inr}
use native.Mathlib.Omega.{arith}
use nndsk_ro_launcher.Base.Tests.{leb, ◌==◌, if◌then◌else◌, is_some, Bool-cases}
use nndsk_ro_launcher.Base.Lists.{is_empty, any, All, In}

abbrev pub Text : Type 0
Text = List ℕ

-- The code points of a literal.
abbrev pub codes : String → Text
codes String.[] = []
codes (String.◌∷◌ c s) = code c ∷ codes s

unfoldable pub text_eq : Text → Text → Bool
text_eq [] [] = true
text_eq [] (_ ∷ _) = false
text_eq (_ ∷ _) [] = false
text_eq (c ∷ s) (d ∷ t) = c == d && text_eq s t

pub text_eq_iff : (s t : Text) → (text_eq s t ≡ true) ↔ (s ≡ t)
unfolding text_eq
text_eq_iff [] [] = (λ _. refl, λ _. refl)
text_eq_iff [] (d ∷ t) = (λ h. cc, λ h. cc)
text_eq_iff (c ∷ s) [] = (λ h. cc, λ h. cc)
text_eq_iff (c ∷ s) (d ∷ t) =
    (λ h. ground (arith, text_eq_iff s t), λ h. ground (arith, text_eq_iff s t))

pub text_eq_refl : (s : Text) → text_eq s s ≡ true
text_eq_refl s = (text_eq_iff s s).1 refl

pub text_eq-false : (s t : Text) → s ≢ t → text_eq s t ≡ false
text_eq-false s t h = elim (Bool-cases (text_eq s t)) [
  | inl e ↦ absurd (h ((text_eq_iff s t).0 e))
  | inr e ↦ e
]

-- `contains` of a list of texts.
unfoldable pub contains : List Text → Text → Bool
unfolding text_eq
contains xs a = any (text_eq a) xs

-- The property White_Space, by which `str::trim` cuts.
unfoldable pub is_whitespace : ℕ → Bool
is_whitespace c =
    leb 9 c && leb c 13
    || c == 32
    || c == 0x85
    || c == 0xa0
    || c == 0x1680
    || leb 0x2000 c && leb c 0x200a
    || c == 0x2028
    || c == 0x2029
    || c == 0x202f
    || c == 0x205f
    || c == 0x3000

unfoldable pub trim_start : Text → Text
unfolding is_whitespace
trim_start [] = []
trim_start (c ∷ s) = if is_whitespace c then trim_start s else c ∷ s

unfoldable pub trim_end : Text → Text
unfolding is_whitespace
trim_end [] = []
trim_end (c ∷ s) =
    let rest = trim_end s in if is_empty rest && is_whitespace c then [] else c ∷ rest

unfoldable pub trim : Text → Text
unfolding trim_start trim_end
trim s = trim_end (trim_start s)

-- `to_ascii_uppercase` and `to_ascii_lowercase`, of one character and of a text.
unfoldable pub upper : ℕ → ℕ
upper c = if leb b'a' c && leb c b'z' then c - 32 else c

unfoldable pub lower : ℕ → ℕ
lower c = if leb b'A' c && leb c b'Z' then c + 32 else c

unfoldable pub to_upper : Text → Text
unfolding upper
to_upper = map upper

unfoldable pub to_lower : Text → Text
unfolding lower
to_lower = map lower

-- `strip_prefix`, `strip_suffix`, `starts_with`, `ends_with`.
unfoldable pub strip_prefix : Text → Text → Option Text
strip_prefix [] s = some s
strip_prefix (_ ∷ _) [] = none
strip_prefix (c ∷ p) (d ∷ s) = if c == d then strip_prefix p s else none

unfoldable pub strip_suffix : Text → Text → Option Text
unfolding strip_prefix
strip_suffix p s = Option.map reverse (strip_prefix (reverse p) (reverse s))

unfoldable pub starts_with : Text → Text → Bool
unfolding strip_prefix
starts_with p s = is_some (strip_prefix p s)

unfoldable pub ends_with : Text → Text → Bool
unfolding strip_suffix
ends_with p s = is_some (strip_suffix p s)

-- What follows the first occurrence of `p`: `&s[s.find(p)? + p.len()..]`.
unfoldable pub after_find : Text → Text → Option Text
unfolding strip_prefix
after_find p [] = strip_prefix p []
after_find p (c ∷ s) =
    let rest = after_find p s in elim (strip_prefix p (c ∷ s)) [ some r ↦ some r | none ↦ rest ]

-- `str::contains` of one character.
unfoldable pub contains_char : Text → ℕ → Bool
contains_char s c = any (λ d. d == c) s

pub contains_char-false : (s : Text) (c : ℕ) → (contains_char s c ≡ false) ↔ All (λ d. d ≢ c) s
unfolding contains_char
contains_char-false [] c = (λ _. tt, λ _. refl)
contains_char-false (d ∷ s) c =
    let (to, from) = contains_char-false s c in
    (λ h. (ground arith, to (ground arith)), λ h. ground (arith, from h.1))

pub contains_iff : (xs : List Text) (a : Text) → (contains xs a ≡ true) ↔ In a xs
unfolding contains
contains_iff [] a = (λ h. cc, λ h. absurd h)
contains_iff (x ∷ xs) a =
    let (to, from) = contains_iff xs a in
    let (eq, of_eq) = text_eq_iff a x in
    (
      λ h. elim (Bool-cases (text_eq a x)) [ inl e ↦ inl (eq e) | inr e ↦ inr (to (ground arith)) ],
      λ h. elim h [ inl e ↦ rw (of_eq e) refl | inr m ↦ ground (arith, from m) ],
    )

pub contains-false : (xs : List Text) (a : Text) → contains xs a ≡ false → ¬ In a xs
contains-false xs a h m = cc (h, (contains_iff xs a).1 m)

pub contains-false_of : (xs : List Text) (a : Text) → ¬ In a xs → contains xs a ≡ false
contains-false_of xs a h = elim (Bool-cases (contains xs a)) [
  | inl e ↦ absurd (h ((contains_iff xs a).0 e))
  | inr e ↦ e
]
