-- ===== src/Tools/Hex/Numbers.antt =====
-- The number that `parse_hex` reads.
use nndsk_ro_launcher.Base.{
  ℕ, ◌+◌, ◌*◌, ◌≤◌, ◌<◌, ◌≡◌, refl, ◌↔◌, inl, inr, Option, none, some, List, [], ◌∷◌, arith, Text,
  ltb, Option-cases, Bool-cases,
}
use nndsk_ro_launcher.Tools.Hex.{u32_limit, hex_digit, push_digit, read_digits}

-- The digits of a text, if it has no other character.
abbrev pub digits_of : Text → Option (List ℕ)
digits_of [] = some []
digits_of (c ∷ s) = elim (hex_digit c) [
  | none ↦ none
  | some d ↦ elim (digits_of s) [ none ↦ none | some ds ↦ some (d ∷ ds) ]
]

-- The value of digits in base 16, behind a value that stands in front.
abbrev pub base16 : ℕ → List ℕ → ℕ
base16 acc [] = acc
base16 acc (d ∷ ds) = base16 (acc * 16 + d) ds

le-base16 : (acc : ℕ) (ds : List ℕ) → acc ≤ base16 acc ds
le-base16 acc [] = omega arith
le-base16 acc (d ∷ ds) = omega (arith, le-base16 (acc * 16 + d) ds)

digits_of_cons :
    (c d : ℕ) (s : Text) (ds : List ℕ)
    → hex_digit c ≡ some d
    → digits_of (c ∷ s) ≡ some ds
    → (rest : List ℕ) × (digits_of s ≡ some rest) × (ds ≡ d ∷ rest)
digits_of_cons c d s ds e h = elim (Option-cases (digits_of s)) [
  | inl f ↦ absurd (ground arith)
  | inr (rest, f) ↦ (rest, f, ground arith)
]

-- The digits are read as their value in base 16, with no wrap: exactly the texts of hexadecimal
-- digits whose value is below 2^32 are read.
pub read_digits_iff :
    (acc : ℕ) (s : Text) (n : ℕ)
    → acc < u32_limit
    → (read_digits acc s ≡ some n)
      ↔ ((ds : List ℕ) × (digits_of s ≡ some ds) × (base16 acc ds ≡ n) × (n < u32_limit))
unfolding read_digits push_digit
read_digits_iff acc [] n h =
    (λ e. ([], refl, ground arith, ground arith), λ (ds, e, f, g). ground arith)
read_digits_iff acc (c ∷ s) n h = elim (Option-cases (hex_digit c)) [
  | inl bad ↦ (λ e. absurd (ground arith), λ (ds, e, f, g). absurd (ground arith))
  | inr (d, e) ↦ elim (Bool-cases (ltb (acc * 16 + d) u32_limit)) [
    | inl fits ↦
        let (to, from) = read_digits_iff (acc * 16 + d) s n (ground arith) in
        (
          λ k.
              let (ds, a, b, l) = to (ground arith) in
              (d ∷ ds, rw (e, digits_of) (rw (a, digits_of) refl), b, l),
          λ (ds, a, b, l).
              let (rest, f, g) = digits_of_cons c d s ds e a in
              let read = from (rest, f, rw g at b, l) in ground arith,
        )
    | inr big ↦ (
      λ k. absurd (ground arith),
      λ (ds, a, b, l).
          let (rest, f, g) = digits_of_cons c d s ds e a in
          absurd (ground (arith, le-base16 (acc * 16 + d) rest, rw g at b)),
    )
  ]
]
