-- ===== src/Tools/Hex/Spelling.antt =====
-- Which texts `parse_hex` accepts, and as which number.
use nndsk_ro_launcher.Base.{
  ℕ, ◌<◌, ◌≡◌, ◌≢◌, ◌↔◌, ◌⊎◌, inl, inr, refl, sym, ◌∙◌, subst, ap, false, none, some, List, [], ◌∷◌,
  arith, Text, codes, trim, strip_prefix, ◌==◌, Bool-cases,
}
use nndsk_ro_launcher.Tools.Hex.{
  u32_limit, hex_digit, read_digits, from_str_radix, strip_0x, parse_hex,
}
use nndsk_ro_launcher.Tools.Hex.Numbers.{digits_of, base16, read_digits_iff}

-- Digits, at least one, behind an optional plus sign.
abbrev pub IsNumeral : Text → List ℕ → Type 0
IsNumeral s ds = (t : Text) × ((s ≡ t) ⊎ (s ≡ b'+' ∷ t)) × (t ≢ []) × (digits_of t ≡ some ds)

-- A numeral behind an optional prefix.
abbrev pub IsHexText : Text → List ℕ → Type 0
IsHexText s ds =
    (t : Text) × ((s ≡ t) ⊎ (s ≡ b'0' ∷ b'x' ∷ t) ⊎ (s ≡ b'0' ∷ b'X' ∷ t)) × IsNumeral t ds

-- The text spells the number, which fits into 32 bits.
abbrev Numeral : Text → ℕ → Type 0
Numeral s n = (ds : List ℕ) × IsNumeral s ds × (base16 0 ds ≡ n) × (n < u32_limit)

-- A plus sign and a letter x are no digits.
plus-no_digits : (s : Text) (ds : List ℕ) → digits_of (b'+' ∷ s) ≢ some ds
unfolding hex_digit
plus-no_digits s ds e = cc e

zero_x-no_digits : (s : Text) (ds : List ℕ) → digits_of (b'0' ∷ b'x' ∷ s) ≢ some ds
unfolding hex_digit
zero_x-no_digits s ds e = cc e

zero_big_x-no_digits : (s : Text) (ds : List ℕ) → digits_of (b'0' ∷ b'X' ∷ s) ≢ some ds
unfolding hex_digit
zero_big_x-no_digits s ds e = cc e

tail_eq : {a b : ℕ} {s t : Text} → a ∷ s ≡ b ∷ t → s ≡ t
tail_eq e = cc e

head_eq : {a b : ℕ} {s t : Text} → a ∷ s ≡ b ∷ t → a ≡ b
head_eq e = cc e

-- Digits behind a plus sign.
plus_iff : (s : Text) (n : ℕ) → (from_str_radix (b'+' ∷ s) ≡ some n) ↔ Numeral (b'+' ∷ s) n
unfolding from_str_radix strip_prefix
plus_iff [] n = (
  λ e. cc e,
  λ (ds, (t, way, nonempty, e), v, b). elim way [
    | inl q ↦ absurd (plus-no_digits [] ds (rw q e))
    | inr q ↦ absurd (nonempty (sym (tail_eq q)))
  ],
)
plus_iff (d ∷ s) n =
    let (to, from) = read_digits_iff 0 (d ∷ s) n (omega arith) in
    (
      λ e. let (ds, f, v, b) = to e in (ds, (d ∷ s, inr refl, (λ q. cc q), f), v, b),
      λ (ds, (t, way, nonempty, e), v, b). elim way [
        | inl q ↦ absurd (plus-no_digits (d ∷ s) ds (rw q e))
        | inr q ↦ from (ds, rw (tail_eq q) e, v, b)
      ],
    )

no_plus_iff :
    (c : ℕ) (s : Text) (n : ℕ)
    → b'+' == c ≡ false
    → (from_str_radix (c ∷ s) ≡ some n) ↔ Numeral (c ∷ s) n
unfolding from_str_radix strip_prefix
no_plus_iff c s n no_plus =
    let (to, from) = read_digits_iff 0 (c ∷ s) n (omega arith) in
    let same : from_str_radix (c ∷ s) ≡ read_digits 0 (c ∷ s) = rw (no_plus, from_str_radix) refl in
    (
      λ e. let (ds, f, v, b) = to (sym same ∙ e) in (ds, (c ∷ s, inl refl, (λ q. cc q), f), v, b),
      λ (ds, (t, way, nonempty, e), v, b). elim way [
        | inl q ↦ same ∙ from (ds, rw q e, v, b)
        | inr q ↦ let h = head_eq q in absurd (ground arith)
      ],
    )

-- What `u32::from_str_radix` reads.
from_str_radix_iff : (s : Text) (n : ℕ) → (from_str_radix s ≡ some n) ↔ Numeral s n
unfolding from_str_radix
from_str_radix_iff [] n = (
  λ e. cc e,
  λ (ds, (t, way, nonempty, e), v, b). elim way [
    | inl q ↦ absurd (nonempty (sym q))
    | inr q ↦ cc q
  ],
)
from_str_radix_iff (c ∷ s) n = elim (Bool-cases (b'+' == c)) [
  | inl plus ↦
      let same : b'+' ≡ c = ground arith in
      subst (λ k. (from_str_radix (k ∷ s) ≡ some n) ↔ Numeral (k ∷ s) n) same (plus_iff s n)
  | inr no_plus ↦ no_plus_iff c s n no_plus
]

abbrev IsStripped : Text → Text → Type 0
IsStripped s t = (s ≡ t) ⊎ (s ≡ b'0' ∷ b'x' ∷ t) ⊎ (s ≡ b'0' ∷ b'X' ∷ t)

after_zero : (s : Text) → IsStripped (b'0' ∷ s) (strip_0x (b'0' ∷ s))
unfolding strip_0x strip_prefix
after_zero [] = inl refl
after_zero (d ∷ s) = elim (Bool-cases (b'x' == d)) [
  | inl f ↦
      let x : b'x' ≡ d = ground arith in
      subst (λ k. IsStripped (b'0' ∷ k ∷ s) (strip_0x (b'0' ∷ k ∷ s))) x (inr (inl refl))
  | inr f ↦ elim (Bool-cases (b'X' == d)) [
    | inl g ↦
        let x : b'X' ≡ d = ground arith in
        subst (λ k. IsStripped (b'0' ∷ k ∷ s) (strip_0x (b'0' ∷ k ∷ s))) x (inr (inr refl))
    | inr g ↦
        let small : strip_prefix (codes "0x") (b'0' ∷ d ∷ s) ≡ none = rw (f, strip_prefix) refl in
        let big : strip_prefix (codes "0X") (b'0' ∷ d ∷ s) ≡ none = rw (g, strip_prefix) refl in
        inl (rw (small, strip_0x) (rw big refl))
  ]
]

-- What is left of a text is the text itself or follows a prefix.
strip_0x-IsStripped : (s : Text) → IsStripped s (strip_0x s)
unfolding strip_0x strip_prefix
strip_0x-IsStripped [] = inl refl
strip_0x-IsStripped (c ∷ s) = elim (Bool-cases (b'0' == c)) [
  | inr e ↦
      let small : strip_prefix (codes "0x") (c ∷ s) ≡ none = rw (e, strip_prefix) refl in
      let big : strip_prefix (codes "0X") (c ∷ s) ≡ none = rw (e, strip_prefix) refl in
      inl (rw (small, strip_0x) (rw big refl))
  | inl e ↦
      let zero : b'0' ≡ c = ground arith in
      subst (λ k. IsStripped (k ∷ s) (strip_0x (k ∷ s))) zero (after_zero s)
]

-- A text that is a numeral has no prefix.
strip_0x-numeral : (s : Text) (ds : List ℕ) → IsNumeral s ds → strip_0x s ≡ s
strip_0x-numeral s ds (t, way, nonempty, e) = elim (strip_0x-IsStripped s) [
  | inl q ↦ sym q
  | inr k ↦ elim way [
    | inl same ↦ elim k [
      | inl q ↦ absurd (zero_x-no_digits _ ds (rw (sym same ∙ q) at e))
      | inr q ↦ absurd (zero_big_x-no_digits _ ds (rw (sym same ∙ q) at e))
    ]
    | inr plus ↦ elim k [
      | inl q ↦ let h : b'+' ≡ b'0' = head_eq (sym plus ∙ q) in absurd (omega (arith, h))
      | inr q ↦ let h : b'+' ≡ b'0' = head_eq (sym plus ∙ q) in absurd (omega (arith, h))
    ]
  ]
]

-- `parse_hex` reads exactly the texts that are, between blanks, digits behind an optional prefix 0x or
-- 0X and an optional plus sign, at least one, and whose value in base 16 is below 2^32; it gives that
-- value.
pub parse_hex_iff :
    (value : Text) (n : ℕ)
    → (parse_hex value ≡ some n)
      ↔ ((ds : List ℕ) × IsHexText (trim value) ds × (base16 0 ds ≡ n) × (n < u32_limit))
unfolding parse_hex strip_0x strip_prefix
parse_hex_iff value n =
    let s = trim value in
    let (to, from) = from_str_radix_iff (strip_0x s) n in
    (
      λ e.
          let (ds, numeral, v, b) = to e in
          (ds, (strip_0x s, strip_0x-IsStripped s, numeral), v, b),
      λ (ds, (t, way, numeral), v, b).
          let rest : strip_0x s ≡ t = elim way [
            | inl q ↦ ap strip_0x q ∙ strip_0x-numeral t ds numeral
            | inr k ↦ elim k [ inl q ↦ ap strip_0x q | inr q ↦ ap strip_0x q ]
          ] in
          from (ds, rw rest numeral, v, b),
    )
