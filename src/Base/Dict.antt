-- ===== src/Base/Dict.antt =====
-- `HashMap` as an association list, over any key type with a Boolean equality. `insert` keeps one
-- entry for each key; the order of the entries has no meaning.
use Prim.Native.Nat.{ℕ, ◌+◌}
use mathlib.Core.Path.{◌≡◌, refl, ◌∙◌}
use mathlib.Core.Logic.{◌↔◌, inl, inr}
use mathlib.Core.Bool.{Bool, true}
use mathlib.Core.List.{List, [], ◌∷◌}
use mathlib.Core.Option.{Option, none, some}
use native.Mathlib.Omega.{arith}
use nndsk_ro_launcher.Base.Tests.{if◌then◌else◌, Bool-cases, ◌==◌, ==_iff}
use nndsk_ro_launcher.Base.Str.{Text, text_eq, text_eq_iff}

pub record Eq {ℓ} (A : Type ℓ) : Type ℓ where
  pub beq : A → A → Bool
  pub beq_iff : (a b : A) → (beq a b ≡ true) ↔ (a ≡ b)

instance abbrev pub nat_eq : Eq ℕ
nat_eq = record { beq = ◌==◌; beq_iff = ==_iff }

instance abbrev pub Text-eq : Eq Text
Text-eq = record { beq = text_eq; beq_iff = text_eq_iff }

module _ {K V : Type 0} ⦃eq : Eq K⦄ where
  unfoldable pub lookup : K → List (K × V) → Option V
  lookup k [] = none
  lookup k ((j, v) ∷ m) = if eq.beq j k then some v else lookup k m

  unfoldable pub insert : K → V → List (K × V) → List (K × V)
  insert k v [] = (k, v) ∷ []
  insert k v ((j, w) ∷ m) =
      let rest = insert k v m in if eq.beq j k then (k, v) ∷ m else (j, w) ∷ rest

  unfoldable pub remove : K → List (K × V) → List (K × V)
  remove k [] = []
  remove k ((j, w) ∷ m) = let rest = remove k m in if eq.beq j k then rest else (j, w) ∷ rest

  pub lookup-insert :
      (k j : K) (v : V) (m : List (K × V))
      → lookup j (insert k v m) ≡ (if eq.beq k j then some v else lookup j m)
  unfolding lookup insert
  lookup-insert k j v [] = refl
  lookup-insert k j v ((i, w) ∷ m) =
      ground (arith, eq.beq_iff k j, eq.beq_iff i k, eq.beq_iff i j, lookup-insert k j v m)

  pub lookup-remove :
      (k j : K) (m : List (K × V))
      → lookup j (remove k m) ≡ (if eq.beq k j then none else lookup j m)
  unfolding lookup remove
  lookup-remove k j [] = ground arith
  lookup-remove k j ((i, w) ∷ m) =
      ground (arith, eq.beq_iff k j, eq.beq_iff i k, eq.beq_iff i j, lookup-remove k j m)

  -- The sum of a weight over the values.
  unfoldable pub weigh : (V → ℕ) → List (K × V) → ℕ
  weigh w [] = 0
  weigh w ((k, v) ∷ m) = w v + weigh w m

  -- One entry for each key.
  abbrev pub IsMap : List (K × V) → Type 0
  IsMap [] = Unit
  IsMap ((k, v) ∷ m) = (lookup k m ≡ none) × IsMap m

  pub insert-IsMap : (k : K) (v : V) (m : List (K × V)) → IsMap m → IsMap (insert k v m)
  unfolding lookup insert
  insert-IsMap k v [] h = (refl, tt)
  insert-IsMap k v ((j, w) ∷ m) h = elim (Bool-cases (eq.beq j k)) [
    | inl e ↦ rw (e, if◌then◌else◌) (rw ((eq.beq_iff j k).0 e) at h.0, h.1)
    | inr e ↦
        rw (e, if◌then◌else◌)
          (
            lookup-insert k j v m ∙ ground (arith, eq.beq_iff k j, eq.beq_iff j k),
            insert-IsMap k v m h.1,
          )
  ]

  pub remove-IsMap : (k : K) (m : List (K × V)) → IsMap m → IsMap (remove k m)
  unfolding lookup remove
  remove-IsMap k [] h = tt
  remove-IsMap k ((j, w) ∷ m) h = elim (Bool-cases (eq.beq j k)) [
    | inl e ↦ rw (e, if◌then◌else◌) (remove-IsMap k m h.1)
    | inr e ↦
        rw (e, if◌then◌else◌)
          (
            lookup-remove k j m ∙ ground (arith, eq.beq_iff k j, eq.beq_iff j k),
            remove-IsMap k m h.1,
          )
  ]

  pub weigh-insert :
      (w : V → ℕ) (k : K) (v : V) (m : List (K × V))
      → lookup k m ≡ none
      → weigh w (insert k v m) ≡ weigh w m + w v
  unfolding lookup insert weigh
  weigh-insert w k v [] h = omega arith
  weigh-insert w k v ((j, u) ∷ m) h = ground (arith, weigh-insert w k v m)

  pub weigh-remove_absent :
      (w : V → ℕ) (k : K) (m : List (K × V)) → lookup k m ≡ none → weigh w (remove k m) ≡ weigh w m
  unfolding lookup remove weigh
  weigh-remove_absent w k [] h = refl
  weigh-remove_absent w k ((j, u) ∷ m) h = ground (arith, weigh-remove_absent w k m)

  pub weigh-remove :
      (w : V → ℕ) (k : K) (v : V) (m : List (K × V))
      → IsMap m
      → lookup k m ≡ some v
      → weigh w (remove k m) + w v ≡ weigh w m
  unfolding lookup remove weigh
  weigh-remove w k v [] u h = absurd (ground arith)
  weigh-remove w k v ((j, x) ∷ m) u h = elim (Bool-cases (eq.beq j k)) [
    | inl e ↦
        let same = weigh-remove_absent w k m (rw ((eq.beq_iff j k).0 e) at u.0) in ground arith
    | inr e ↦ ground (arith, weigh-remove w k v m)
  ]
