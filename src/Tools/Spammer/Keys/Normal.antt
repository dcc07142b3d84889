-- ===== src/Tools/Spammer/Keys/Normal.antt =====
-- What `normalize_spammer_keys` gives: the supported labels of the input, in the order of the
-- interface, each once. It leaves such a list alone.
use nndsk_ro_launcher.Base.{
  ℕ, zero, suc, ◌<◌, ◌≡◌, ◌↔◌, refl, inl, inr, ap, sym, Bool, true, Option, none, some, List, [],
  ◌∷◌, map, arith, Text, All, All-In, In, length, filter, contains_iff, In-filter, filter-In,
  text_eq, text_eq_iff, all, to_upper, trim, Bool-cases,
}
use nndsk_ro_launcher.Tools.Spammer.Keys.{
  spammer_key_labels, canonical, is_valid_spammer_key, position, spammer_key_order, sort_by_key,
  dedup, normalize_spammer_keys,
}
use nndsk_ro_launcher.Tools.Spammer.Keys.Canonical.{canonical_idem}
use nndsk_ro_launcher.Tools.Spammer.Keys.Sorting.{
  Strict, sort_by_key-Sorted, In-sort_by_key, Strict-Sorted, sort_by_key-eq, In-dedup, dedup-eq,
  dedup-Strict,
}

-- The element at an index.
abbrev nth : {A : Type 0} → ℕ → List A → Option A
nth i [] = none
nth zero (x ∷ xs) = some x
nth (suc i) (x ∷ xs) = nth i xs

position-In :
    (a : Text) (xs : List Text)
    → In a xs
    → (i : ℕ) × (position a xs ≡ some i) × (i < length xs) × (nth i xs ≡ some a)
unfolding position
position-In a [] h = absurd h
position-In a (x ∷ xs) h = elim (Bool-cases (text_eq x a)) [
  | inl e ↦ (0, rw e refl, omega arith, ap (λ y. some y) ((text_eq_iff x a).0 e))
  | inr e ↦ elim h [
    | inl q ↦ cc (e, (text_eq_iff x a).1 (sym q))
    | inr m ↦ let (i, p, l, n) = position-In a xs m in (suc i, rw (e, p) refl, omega arith, n)
  ]
]

length-labels : length spammer_key_labels ≡ 45
length-labels = refl

spammer_key_order-injective :
    (a b : Text)
    → In a spammer_key_labels
    → In b spammer_key_labels
    → spammer_key_order a ≡ spammer_key_order b
    → a ≡ b
unfolding spammer_key_order position text_eq
spammer_key_order-injective a b h k e =
    let (i, p, l, n) = position-In a spammer_key_labels h in
    let (j, q, m, o) = position-In b spammer_key_labels k in
    let same : i ≡ j = omega (arith, rw (p, q) at e, length-labels) in cc (n, o, same)

all-All : (p : Text → Bool) (xs : List Text) → all p xs ≡ true → All (λ x. p x ≡ true) xs
all-All p [] h = tt
all-All p (x ∷ xs) h = (ground arith, all-All p xs (ground arith))

labels-canonical : all (λ k. text_eq (canonical k) k) spammer_key_labels ≡ true
unfolding canonical text_eq to_upper trim
labels-canonical = refl

pub In-labels-canonical : (k : Text) → In k spammer_key_labels → canonical k ≡ k
In-labels-canonical k h = (text_eq_iff (canonical k) k).0 (
    All-In (λ x. text_eq (canonical x) x ≡ true) k spammer_key_labels
      (all-All (λ x. text_eq (canonical x) x) spammer_key_labels labels-canonical) h)

In-map-canonical : (k : Text) (xs : List Text) → In k (map canonical xs) → canonical k ≡ k
In-map-canonical k [] h = absurd h
In-map-canonical k (x ∷ xs) h = elim h [
  | inl q ↦ rw q (canonical_idem x)
  | inr m ↦ In-map-canonical k xs m
]

-- A key is in the normal form exactly if it is a label of the interface and the canonical form of
-- one of the keys.
pub normalize_spammer_keys_iff :
    (k : Text) (keys : List Text)
    → In k (normalize_spammer_keys keys) ↔ In k spammer_key_labels × In k (map canonical keys)
unfolding normalize_spammer_keys is_valid_spammer_key
normalize_spammer_keys_iff k keys =
    let valid : List Text = filter is_valid_spammer_key (map canonical keys) in
    let (to_sorted, of_sorted) = In-dedup k (sort_by_key spammer_key_order valid) in
    let (to_valid, of_valid) = In-sort_by_key spammer_key_order k valid in
    (
      λ h.
          let (m, v) =
            In-filter is_valid_spammer_key k (map canonical keys) (to_valid (to_sorted h)) in
          let label = (contains_iff spammer_key_labels (canonical k)).0 v in
          (rw (In-map-canonical k keys m) at label, m),
      λ (label, m). of_sorted (
          of_valid (
            filter-In is_valid_spammer_key k (map canonical keys) m (
              (contains_iff spammer_key_labels (canonical k)).1
                (rw (In-labels-canonical k label) label)))),
    )

-- Supported labels in the order of the interface, each once.
pub record IsKeyList (keys : List Text) : Type 0 where
  pub are_labels : All (λ k. In k spammer_key_labels) keys
  pub ascend : Strict spammer_key_order keys

All-of-In : (P : Text → Type 0) (xs : List Text) → ((a : Text) → In a xs → P a) → All P xs
All-of-In P [] f = tt
All-of-In P (x ∷ xs) f = (f x (inl refl), All-of-In P xs λ a m. f a (inr m))

-- The normal form holds labels of the interface only, in its order and each once.
pub normalize_spammer_keys-IsKeyList : (keys : List Text) → IsKeyList (normalize_spammer_keys keys)
unfolding normalize_spammer_keys
normalize_spammer_keys-IsKeyList keys =
    let sorted : List Text =
      sort_by_key spammer_key_order (filter is_valid_spammer_key (map canonical keys)) in
    let label : (a : Text) → In a (dedup sorted) → In a spammer_key_labels =
      λ a m. ((normalize_spammer_keys_iff a keys).0 m).0 in
    let labels : All (λ k. In k spammer_key_labels) sorted =
      All-of-In (λ k. In k spammer_key_labels) sorted λ a m. label a ((In-dedup a sorted).1 m) in
    record {
      are_labels = All-of-In (λ k. In k spammer_key_labels) (dedup sorted) label;
      ascend =
          dedup-Strict spammer_key_order (λ k. In k spammer_key_labels) spammer_key_order-injective
            sorted labels
            (sort_by_key-Sorted spammer_key_order
              (filter is_valid_spammer_key (map canonical keys)));
    }

map-canonical-eq : (xs : List Text) → All (λ k. In k spammer_key_labels) xs → map canonical xs ≡ xs
map-canonical-eq [] h = refl
map-canonical-eq (x ∷ xs) h = rw (In-labels-canonical x h.0, map-canonical-eq xs h.1) refl

filter-valid-eq :
    (xs : List Text) → All (λ k. In k spammer_key_labels) xs → filter is_valid_spammer_key xs ≡ xs
unfolding filter is_valid_spammer_key
filter-valid-eq [] h = refl
filter-valid-eq (x ∷ xs) h =
    rw
      (In-labels-canonical x h.0, (contains_iff spammer_key_labels x).1 h.0, filter-valid-eq xs h.1)
      refl

-- A list in normal form is left alone.
pub normalize_spammer_keys-eq :
    (keys : List Text) → IsKeyList keys → normalize_spammer_keys keys ≡ keys
unfolding normalize_spammer_keys
normalize_spammer_keys-eq keys h =
    rw
      (
        map-canonical-eq keys h.are_labels,
        filter-valid-eq keys h.are_labels,
        sort_by_key-eq spammer_key_order keys (Strict-Sorted spammer_key_order keys h.ascend),
      )
      (dedup-eq spammer_key_order keys h.ascend)
