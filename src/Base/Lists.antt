-- ===== src/Base/Lists.antt =====
-- Lists measured by native numbers under the library's names, Boolean searches, and predicates
-- on all elements.
use Prim.Native.Nat.{ℕ, zero, suc, ◌+◌, ◌≤◌}
use mathlib.Core.Path.{◌≡◌, refl, ap}
use mathlib.Core.Logic.{◌⊎◌, ◌↔◌, inl, inr}
use mathlib.Core.Bool.{Bool, true, false, ◌&&◌, ◌||◌}
use mathlib.Core.List.{List, [], ◌∷◌, ◌++◌}
use mathlib.Core.Option.{Option, none, some}
use native.Mathlib.Omega.{arith}
use nndsk_ro_launcher.Base.Tests.{if◌then◌else◌, Bool-cases}

module _ {ℓ} {A : Type ℓ} where
  abbrev pub length : List A → ℕ
  length [] = 0
  length (x ∷ xs) = suc (length xs)

  pub length-append : (xs ys : List A) → length (xs ++ ys) ≡ length xs + length ys
  length-append [] ys = omega arith
  length-append (x ∷ xs) ys = omega (arith, length-append xs ys)

  abbrev pub is_empty : List A → Bool
  is_empty [] = true
  is_empty (_ ∷ _) = false

  abbrev pub take : ℕ → List A → List A
  take zero xs = []
  take (suc n) [] = []
  take (suc n) (x ∷ xs) = x ∷ take n xs

  abbrev pub drop : ℕ → List A → List A
  drop zero xs = xs
  drop (suc n) [] = []
  drop (suc n) (x ∷ xs) = drop n xs

  pub length-take-le : (n : ℕ) (xs : List A) → length (take n xs) ≤ n
  length-take-le zero xs = omega arith
  length-take-le (suc n) [] = omega arith
  length-take-le (suc n) (x ∷ xs) = omega (arith, length-take-le n xs)

  -- `Iterator::any`, `all`, `find`, `filter` and `retain` with a Boolean test.
  abbrev pub any : (A → Bool) → List A → Bool
  any p [] = false
  any p (x ∷ xs) = p x || any p xs

  abbrev pub all : (A → Bool) → List A → Bool
  all p [] = true
  all p (x ∷ xs) = p x && all p xs

  abbrev pub find : (A → Bool) → List A → Option A
  find p [] = none
  find p (x ∷ xs) = if p x then some x else find p xs

  unfoldable pub filter : (A → Bool) → List A → List A
  filter p [] = []
  filter p (x ∷ xs) = let rest = filter p xs in if p x then x ∷ rest else rest

  -- A predicate on every element, by recursion, so that the tactics take it apart.
  abbrev pub All {κ} : (A → Type κ) → List A → Type κ
  All P [] = Unit
  All P (x ∷ xs) = P x × All P xs

-- Membership by recursion, which the tactics take apart.
abbrev pub In : {A : Type 0} → A → List A → Type 0
In a [] = ⊥
In a (x ∷ xs) = (a ≡ x) ⊎ In a xs

module _ {A : Type 0} where
  pub In-filter : (p : A → Bool) (a : A) (xs : List A) → In a (filter p xs) → In a xs × (p a ≡ true)
  unfolding filter
  In-filter p a [] h = absurd h
  In-filter p a (x ∷ xs) h = elim (Bool-cases (p x)) [
    | inl e ↦ elim (rw (e, if◌then◌else◌) at h) [
      | inl q ↦ (inl q, rw q e)
      | inr q ↦ let (m, k) = In-filter p a xs q in (inr m, k)
    ]
    | inr e ↦ let (m, k) = In-filter p a xs (rw (e, if◌then◌else◌) at h) in (inr m, k)
  ]

  pub filter-In : (p : A → Bool) (a : A) (xs : List A) → In a xs → p a ≡ true → In a (filter p xs)
  unfolding filter
  filter-In p a [] h e = absurd h
  filter-In p a (x ∷ xs) h e = ground (arith, filter-In p a xs)

  pub In-append : (a : A) (xs ys : List A) → In a (xs ++ ys) ↔ In a xs ⊎ In a ys
  In-append a [] ys = (λ h. inr h, λ h. ground arith)
  In-append a (x ∷ xs) ys =
      let (to, from) = In-append a xs ys in
      (
        λ h. elim h [
          | inl e ↦ inl (inl e)
          | inr m ↦ elim (to m) [ inl k ↦ inl (inr k) | inr k ↦ inr k ]
        ],
        λ h. elim h [
          | inl k ↦ elim k [ inl e ↦ inl e | inr m ↦ inr (from (inl m)) ]
          | inr m ↦ inr (from (inr m))
        ],
      )

  pub All-In : (P : A → Type 0) (a : A) (xs : List A) → All P xs → In a xs → P a
  All-In P a [] h m = absurd m
  All-In P a (x ∷ xs) h m = elim m [ inl e ↦ rw e h.0 | inr k ↦ All-In P a xs h.1 k ]

  -- The element is the first that passes the test.
  abbrev pub IsFirst : (A → Bool) → List A → A → Type 0
  IsFirst p xs a =
      (before : List A) × (after : List A) × (xs ≡ before ++ a ∷ after)
      × All (λ x. p x ≡ false) before
      × (p a ≡ true)

  pub find-IsFirst :
      (p : A → Bool) (xs : List A)
      → ((a : A) × (find p xs ≡ some a) × IsFirst p xs a)
        ⊎ ((find p xs ≡ none) × All (λ x. p x ≡ false) xs)
  find-IsFirst p [] = inr (refl, tt)
  find-IsFirst p (x ∷ xs) = elim (Bool-cases (p x)) [
    | inl e ↦ inl (x, rw e, ([], xs, refl, tt, e))
    | inr e ↦ elim (find-IsFirst p xs) [
      | inl (a, f, (before, after, split, none_before, k)) ↦
          inl (a, rw e f, (x ∷ before, after, ap (λ ys. x ∷ ys) split, (e, none_before), k))
      | inr (f, m) ↦ inr (rw e f, (e, m))
    ]
  ]

  pub find-cases :
      (p : A → Bool) (xs : List A)
      → ((a : A) × (find p xs ≡ some a) × In a xs × (p a ≡ true))
        ⊎ ((find p xs ≡ none) × All (λ x. p x ≡ false) xs)
  find-cases p [] = inr (refl, tt)
  find-cases p (x ∷ xs) = elim (Bool-cases (p x)) [
    | inl e ↦ inl (x, rw e, inl refl, e)
    | inr e ↦ elim (find-cases p xs) [
      | inl (a, f, m, k) ↦ inl (a, rw e f, inr m, k)
      | inr (f, m) ↦ inr (rw e f, (e, m))
    ]
  ]
