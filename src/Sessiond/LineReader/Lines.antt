-- ===== src/Sessiond/LineReader/Lines.antt =====
-- Where a line ends in a buffer, and what one read takes off the arrivals.
use nndsk_ro_launcher.Base.{
  ℕ, zero, suc, ◌≤◌, ◌<◌, ◌≡◌, inl, inr, refl, ap, true, false, Option, none, some, List, [], ◌∷◌,
  ◌++◌, ◌==◌, length, is_empty, take, drop, Bool-cases, Option-cases, if◌then◌else◌, arith,
}
use nndsk_ro_launcher.Sessiond.LineReader.{split_line, Arrival, bytes, pause, fault}

pub split_line-after :
    (line rest : List ℕ)
    → split_line line ≡ none
    → split_line (line ++ 10 ∷ rest) ≡ some (line, rest)
unfolding split_line
split_line-after [] rest h = refl
split_line-after (b ∷ line) rest h = elim (Bool-cases (b == 10)) [
  | inl e ↦ cc (rw (e, if◌then◌else◌) at h)
  | inr e ↦ elim (Option-cases (split_line line)) [
    | inl n ↦ rw (e, split_line-after line rest n, if◌then◌else◌) refl
    | inr (t, n) ↦ cc (rw (e, n, if◌then◌else◌) at h)
  ]
]

abbrev lengthen : List ℕ → Option (List ℕ × List ℕ) → Option (List ℕ × List ℕ)
lengthen more none = none
lengthen more (some (line, rest)) = some (line, rest ++ more)

-- More bytes after a line that is there do not change it.
pub split_line-append :
    (buf more line rest : List ℕ)
    → split_line buf ≡ some (line, rest)
    → split_line (buf ++ more) ≡ some (line, rest ++ more)
unfolding split_line
split_line-append [] more line rest h = cc h
split_line-append (b ∷ buf) more line rest h = elim (Bool-cases (b == 10)) [
  | inl e ↦ rw (e, if◌then◌else◌) (ap (lengthen more) (rw (e, if◌then◌else◌) at h))
  | inr e ↦ elim (Option-cases (split_line buf)) [
    | inl n ↦ cc (rw (e, n, if◌then◌else◌) at h)
    | inr ((l, r), n) ↦
        rw (e, split_line-append buf more l r n, if◌then◌else◌)
          (ap (lengthen more) (rw (e, n, if◌then◌else◌) at h))
  ]
]

-- A part of the wire without a newline is no longer than the line that it begins.
pub shorter :
    (buf more line rest : List ℕ)
    → split_line buf ≡ none
    → buf ++ more ≡ line ++ 10 ∷ rest
    → length buf ≤ length line
unfolding split_line
shorter [] more line rest h e = omega arith
shorter (b ∷ buf) more [] rest h e =
    let newline : b ≡ 10 = cc e in
    let found : (b == 10) ≡ true = ground arith in cc (rw (found, if◌then◌else◌) at h)
shorter (b ∷ buf) more (x ∷ line) rest h e =
    let tail : buf ++ more ≡ line ++ 10 ∷ rest = cc e in
    elim (Bool-cases (b == 10)) [
      | inl n ↦ cc (rw (n, if◌then◌else◌) at h)
      | inr n ↦ elim (Option-cases (split_line buf)) [
        | inl u ↦ omega (arith, shorter buf more line rest u tail)
        | inr (t, u) ↦ cc (rw (n, u, if◌then◌else◌) at h)
      ]
    ]

-- The arrivals bring bytes, with moments without any, and no error.
abbrev pub IsClean : List Arrival → Type 0
IsClean [] = Unit
IsClean (bytes b ∷ rest) = (is_empty b ≡ false) × IsClean rest
IsClean (pause ∷ rest) = IsClean rest
IsClean (fault e ∷ rest) = ⊥

pub take-drop : (n : ℕ) (b : List ℕ) → take n b ++ drop n b ≡ b
take-drop zero b = refl
take-drop (suc n) [] = refl
take-drop (suc n) (x ∷ b) = ap (λ r. x ∷ r) (take-drop n b)

pub take-nonempty : (n : ℕ) (b : List ℕ) → 0 < n → is_empty b ≡ false → is_empty (take n b) ≡ false
take-nonempty zero b m e = absurd (omega arith)
take-nonempty (suc n) [] m e = cc e
take-nonempty (suc n) (x ∷ b) m e = refl

pub drop-nonempty : (n : ℕ) (b : List ℕ) → n < length b → is_empty (drop n b) ≡ false
drop-nonempty zero [] m = absurd (omega arith)
drop-nonempty zero (x ∷ b) m = refl
drop-nonempty (suc n) [] m = absurd (omega arith)
drop-nonempty (suc n) (x ∷ b) m = drop-nonempty n b (omega arith)

pub nonempty-length : (b : List ℕ) → is_empty b ≡ false → 0 < length b
nonempty-length [] e = cc e
nonempty-length (x ∷ b) e = omega arith
