-- ===== src/Tools/Spammer/Repeats.antt =====
-- Filters on the keys and rules of a spammer configuration, and the rules with a repeated trigger, of
-- which the first is kept.
use nndsk_ro_launcher.Base.{
  ℕ, ◌<◌, ◌≡◌, ◌≢◌, refl, inl, inr, sym, Bool, true, Option, none, some, List, [], ◌∷◌, Text, All,
  In, filter, find, contains, contains_iff, contains-false, contains-false_of, text_eq, text_eq_iff,
  text_eq-false, Bool-cases,
}
use nndsk_ro_launcher.Tools.Spammer.Keys.{spammer_key_labels, spammer_key_order}
use nndsk_ro_launcher.Tools.Spammer.Keys.Sorting.{Strict, All-map}
use nndsk_ro_launcher.Tools.Spammer.Keys.Normal.{IsKeyList}
use nndsk_ro_launcher.Tools.Spammer.Config.{GearSwitchRule, filter_map, keep_first}

module _ {A : Type 0} where
  pub filter-All : (P : A → Type 0) (p : A → Bool) (xs : List A) → All P xs → All P (filter p xs)
  unfolding filter
  filter-All P p [] h = tt
  filter-All P p (x ∷ xs) h = elim (Bool-cases (p x)) [
    | inl e ↦ rw e (h.0, filter-All P p xs h.1)
    | inr e ↦ rw e (filter-All P p xs h.1)
  ]

  pub filter-holds : (p : A → Bool) (xs : List A) → All (λ x. p x ≡ true) (filter p xs)
  unfolding filter
  filter-holds p [] = tt
  filter-holds p (x ∷ xs) = elim (Bool-cases (p x)) [
    | inl e ↦ rw e (e, filter-holds p xs)
    | inr e ↦ rw e (filter-holds p xs)
  ]

  pub filter-eq : (p : A → Bool) (xs : List A) → All (λ x. p x ≡ true) xs → filter p xs ≡ xs
  unfolding filter
  filter-eq p [] h = refl
  filter-eq p (x ∷ xs) h = rw (h.0, filter-eq p xs h.1) refl

  All-map2 :
      {P Q R : A → Type 0}
      → ((x : A) → P x → Q x → R x)
      → (xs : List A) → All P xs
      → All Q xs
      → All R xs
  All-map2 f [] h k = tt
  All-map2 f (x ∷ xs) h k = (f x h.0 k.0, All-map2 f xs h.1 k.1)

pub All-every : {A : Type 0} {P : A → Type 0} → ((x : A) → P x) → (xs : List A) → All P xs
All-every f [] = tt
All-every f (x ∷ xs) = (f x, All-every f xs)

filter-Strict :
    (key : Text → ℕ) (p : Text → Bool) (xs : List Text) → Strict key xs → Strict key (filter p xs)
unfolding filter Strict
filter-Strict key p [] h = tt
filter-Strict key p (x ∷ xs) h = elim (Bool-cases (p x)) [
  | inl e ↦ rw e (filter-All (λ y. key x < key y) p xs h.0, filter-Strict key p xs h.1)
  | inr e ↦ rw e (filter-Strict key p xs h.1)
]

pub filter-IsKeyList :
    (p : Text → Bool) (keys : List Text) → IsKeyList keys → IsKeyList (filter p keys)
filter-IsKeyList p keys h = record {
  are_labels = filter-All (λ k. In k spammer_key_labels) p keys h.are_labels;
  ascend = filter-Strict spammer_key_order p keys h.ascend;
}

-- No two rules for a trigger.
pub Distinct : List GearSwitchRule → Type 0
Distinct [] = Unit
Distinct (r ∷ rs) = All (λ q. q.trigger ≢ r.trigger) rs × Distinct rs

pub filter-Distinct :
    (p : GearSwitchRule → Bool) (rs : List GearSwitchRule) → Distinct rs → Distinct (filter p rs)
unfolding filter Distinct
filter-Distinct p [] h = tt
filter-Distinct p (r ∷ rs) h = elim (Bool-cases (p r)) [
  | inl e ↦ rw e (filter-All (λ q. q.trigger ≢ r.trigger) p rs h.0, filter-Distinct p rs h.1)
  | inr e ↦ rw e (filter-Distinct p rs h.1)
]

pub keep_first-All :
    (P : GearSwitchRule → Type 0) (seen : List Text) (rs : List GearSwitchRule)
    → All P rs
    → All P (keep_first seen rs)
unfolding keep_first
keep_first-All P seen [] h = tt
keep_first-All P seen (r ∷ rs) h = elim (Bool-cases (contains seen r.trigger)) [
  | inl e ↦ rw e (keep_first-All P seen rs h.1)
  | inr e ↦ rw e (h.0, keep_first-All P (r.trigger ∷ seen) rs h.1)
]

keep_first-fresh :
    (seen : List Text) (rs : List GearSwitchRule)
    → All (λ q. ¬ In q.trigger seen) (keep_first seen rs)
unfolding keep_first
keep_first-fresh seen [] = tt
keep_first-fresh seen (r ∷ rs) = elim (Bool-cases (contains seen r.trigger)) [
  | inl e ↦ rw e (keep_first-fresh seen rs)
  | inr e ↦ rw e (
    contains-false seen r.trigger e,
    All-map {Q = λ q. ¬ In q.trigger seen}
        (λ q (n : ¬ In q.trigger (r.trigger ∷ seen)) m. n (inr m))
        (keep_first (r.trigger ∷ seen) rs) (keep_first-fresh (r.trigger ∷ seen) rs),
  )
]

pub keep_first-Distinct :
    (seen : List Text) (rs : List GearSwitchRule) → Distinct (keep_first seen rs)
unfolding keep_first Distinct
keep_first-Distinct seen [] = tt
keep_first-Distinct seen (r ∷ rs) = elim (Bool-cases (contains seen r.trigger)) [
  | inl e ↦ rw e (keep_first-Distinct seen rs)
  | inr e ↦ rw e (
    All-map {Q = λ q. q.trigger ≢ r.trigger}
        (λ q (n : ¬ In q.trigger (r.trigger ∷ seen)) m. n (inl m))
        (keep_first (r.trigger ∷ seen) rs) (keep_first-fresh (r.trigger ∷ seen) rs),
    keep_first-Distinct (r.trigger ∷ seen) rs,
  )
]

pub keep_first-eq :
    (seen : List Text) (rs : List GearSwitchRule)
    → All (λ q. ¬ In q.trigger seen) rs
    → Distinct rs
    → keep_first seen rs ≡ rs
unfolding keep_first Distinct
keep_first-eq seen [] f d = refl
keep_first-eq seen (r ∷ rs) f d =
    let fresh : All (λ q. ¬ In q.trigger (r.trigger ∷ seen)) rs =
      All-map2 {R = λ q. ¬ In q.trigger (r.trigger ∷ seen)}
        (λ q (n : ¬ In q.trigger seen) (ne : q.trigger ≢ r.trigger) m. elim m [
          | inl e ↦ ne e
          | inr k ↦ n k
        ])
        rs f.1 d.0 in
    rw (contains-false_of seen r.trigger f.0, keep_first-eq (r.trigger ∷ seen) rs fresh d.1) refl

pub find-keep_first :
    (key : Text) (seen : List Text) (rs : List GearSwitchRule)
    → ¬ In key seen
    → find (λ rule. text_eq rule.trigger key) (keep_first seen rs)
      ≡ find (λ rule. text_eq rule.trigger key) rs
unfolding keep_first
find-keep_first key seen [] n = refl
find-keep_first key seen (r ∷ rs) n = elim (Bool-cases (contains seen r.trigger)) [
  | inl e ↦
      let ne : r.trigger ≢ key = λ q. n (rw q at ((contains_iff seen r.trigger).0 e)) in
      rw (e, text_eq-false r.trigger key ne) (find-keep_first key seen rs n)
  | inr e ↦ elim (Bool-cases (text_eq r.trigger key)) [
    | inl q ↦ rw (e, q) refl
    | inr q ↦
        let fresh : ¬ In key (r.trigger ∷ seen) =
          λ m. elim m [ inl p ↦ cc (q, (text_eq_iff r.trigger key).1 (sym p)) | inr k ↦ n k ] in
        rw (e, q) (find-keep_first key (r.trigger ∷ seen) rs fresh)
  ]
]

module _ {A B : Type 0} (f : A → Option B) (x : A) (xs : List A) where
  pub filter_map-none : f x ≡ none → filter_map f (x ∷ xs) ≡ filter_map f xs
  unfolding filter_map
  filter_map-none e = rw (e, filter_map) refl

  pub filter_map-some : (y : B) → f x ≡ some y → filter_map f (x ∷ xs) ≡ y ∷ filter_map f xs
  unfolding filter_map
  filter_map-some y e = rw (e, filter_map) refl
