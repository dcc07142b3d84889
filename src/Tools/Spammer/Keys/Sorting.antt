-- ===== src/Tools/Spammer/Keys/Sorting.antt =====
-- Sorting by a key and dropping repeats: the same elements, in strictly ascending order.
use nndsk_ro_launcher.Base.{
  ℕ, ◌≤◌, ◌<◌, ap, sym, ◌≡◌, ◌≢◌, ◌↔◌, ◌⊎◌, refl, inl, inr, List, [], ◌∷◌, arith, Text, All, In,
  leb, text_eq, text_eq_iff, text_eq-false, Bool-cases,
}
use nndsk_ro_launcher.Tools.Spammer.Keys.{insert_by_key, sort_by_key, dedup_after, dedup}

pub All-map :
    {A : Type 0} {P Q : A → Type 0} → ((a : A) → P a → Q a) → (xs : List A) → All P xs → All Q xs
All-map f [] h = tt
All-map f (x ∷ xs) h = (f x h.0, All-map f xs h.1)

module _ {A : Type 0} (key : A → ℕ) where
  -- In ascending order of the key, equal keys allowed or not.
  unfoldable pub Sorted : List A → Type 0
  Sorted [] = Unit
  Sorted (x ∷ xs) = All (λ y. key x ≤ key y) xs × Sorted xs

  unfoldable pub Strict : List A → Type 0
  Strict [] = Unit
  Strict (x ∷ xs) = All (λ y. key x < key y) xs × Strict xs

  insert_by_key-All :
      (P : A → Type 0) (x : A) (ys : List A) → P x → All P ys → All P (insert_by_key key x ys)
  unfolding insert_by_key
  insert_by_key-All P x [] p h = (p, tt)
  insert_by_key-All P x (y ∷ ys) p h = elim (Bool-cases (leb (key x) (key y))) [
    | inl e ↦ rw e (p, h)
    | inr e ↦ rw e (h.0, insert_by_key-All P x ys p h.1)
  ]

  insert_by_key-Sorted : (x : A) (ys : List A) → Sorted ys → Sorted (insert_by_key key x ys)
  unfolding insert_by_key Sorted
  insert_by_key-Sorted x [] h = (tt, tt)
  insert_by_key-Sorted x (y ∷ ys) h = elim (Bool-cases (leb (key x) (key y))) [
    | inl e ↦ rw e ((ground arith, All-map (λ z (l : key y ≤ key z). ground arith) ys h.0), h)
    | inr e ↦ rw e (
      insert_by_key-All (λ z. key y ≤ key z) x ys (ground arith) h.0,
      insert_by_key-Sorted x ys h.1,
    )
  ]

  pub sort_by_key-Sorted : (xs : List A) → Sorted (sort_by_key key xs)
  unfolding sort_by_key Sorted
  sort_by_key-Sorted [] = tt
  sort_by_key-Sorted (x ∷ xs) = insert_by_key-Sorted x (sort_by_key key xs) (sort_by_key-Sorted xs)

  In-insert_by_key : (a x : A) (ys : List A) → In a (insert_by_key key x ys) ↔ (a ≡ x) ⊎ In a ys
  unfolding insert_by_key
  In-insert_by_key a x [] = (λ h. h, λ h. h)
  In-insert_by_key a x (y ∷ ys) =
      let (to, from) = In-insert_by_key a x ys in
      elim (Bool-cases (leb (key x) (key y))) [
        | inl e ↦ rw e (λ h. h, λ h. h)
        | inr e ↦ rw e (
          λ h. elim h [
            | inl q ↦ inr (inl q)
            | inr m ↦ elim (to m) [ inl q ↦ inl q | inr k ↦ inr (inr k) ]
          ],
          λ h. elim h [
            | inl q ↦ inr (from (inl q))
            | inr m ↦ elim m [ inl q ↦ inl q | inr k ↦ inr (from (inr k)) ]
          ],
        )
      ]

  pub In-sort_by_key : (a : A) (xs : List A) → In a (sort_by_key key xs) ↔ In a xs
  unfolding sort_by_key
  In-sort_by_key a [] = (λ h. h, λ h. h)
  In-sort_by_key a (x ∷ xs) =
      let (to, from) = In-sort_by_key a xs in
      let (split, join) = In-insert_by_key a x (sort_by_key key xs) in
      (
        λ h. elim (split h) [ inl q ↦ inl q | inr m ↦ inr (to m) ],
        λ h. join (elim h [ inl q ↦ inl q | inr m ↦ inr (from m) ]),
      )

  insert_by_key-eq :
      (x : A) (ys : List A) → All (λ y. key x ≤ key y) ys → insert_by_key key x ys ≡ x ∷ ys
  unfolding insert_by_key
  insert_by_key-eq x [] h = refl
  insert_by_key-eq x (y ∷ ys) h = ground arith

  pub Strict-Sorted : (xs : List A) → Strict xs → Sorted xs
  unfolding Strict Sorted
  Strict-Sorted [] h = tt
  Strict-Sorted (x ∷ xs) h =
      (All-map (λ y (l : key x < key y). omega arith) xs h.0, Strict-Sorted xs h.1)

  pub sort_by_key-eq : (xs : List A) → Sorted xs → sort_by_key key xs ≡ xs
  unfolding sort_by_key Sorted
  sort_by_key-eq [] h = refl
  sort_by_key-eq (x ∷ xs) h = rw (sort_by_key-eq xs h.1) (insert_by_key-eq x xs h.0)

In-dedup_after :
    (a kept : Text) (xs : List Text) → In a (kept ∷ dedup_after kept xs) ↔ In a (kept ∷ xs)
unfolding dedup_after
In-dedup_after a kept [] = (λ h. h, λ h. h)
In-dedup_after a kept (x ∷ xs) = elim (Bool-cases (text_eq x kept)) [
  | inl e ↦
      let (to, from) = In-dedup_after a kept xs in
      let q = (text_eq_iff x kept).0 e in
      rw e (
        λ h. elim (to h) [ inl p ↦ inl p | inr m ↦ inr (inr m) ],
        λ h.
            from (elim h [
              | inl p ↦ inl p
              | inr m ↦ elim m [ inl p ↦ inl (cc (p, q)) | inr k ↦ inr k ]
            ]),
      )
  | inr e ↦
      let (to, from) = In-dedup_after a x xs in
      rw e (
        λ h. elim h [ inl p ↦ inl p | inr m ↦ inr (to m) ],
        λ h. elim h [ inl p ↦ inl p | inr m ↦ inr (from m) ],
      )
]

pub In-dedup : (a : Text) (xs : List Text) → In a (dedup xs) ↔ In a xs
unfolding dedup
In-dedup a [] = (λ h. h, λ h. h)
In-dedup a (x ∷ xs) = In-dedup_after a x xs

module _ (key : Text → ℕ) where
  dedup_after-eq :
      (kept : Text) (xs : List Text) → Strict key (kept ∷ xs) → dedup_after kept xs ≡ xs
  unfolding dedup_after Strict
  dedup_after-eq kept [] h = refl
  dedup_after-eq kept (x ∷ xs) h =
      let ne : x ≢ kept = λ q. ground (arith, ap key q) in
      rw (text_eq-false x kept ne, dedup_after-eq x xs h.1) refl

  pub dedup-eq : (xs : List Text) → Strict key xs → dedup xs ≡ xs
  unfolding dedup
  dedup-eq [] h = refl
  dedup-eq (x ∷ xs) h = rw (dedup_after-eq x xs h) refl

  -- The key tells apart the texts of a class.
  module _ (V : Text → Type 0) (injective : (a b : Text) → V a → V b → key a ≡ key b → a ≡ b) where
    dedup_after-Strict :
        (kept : Text) (xs : List Text)
        → V kept
        → All V xs
        → Sorted key (kept ∷ xs)
        → Strict key (kept ∷ dedup_after kept xs)
    unfolding dedup_after Strict Sorted
    dedup_after-Strict kept [] v vs h = (tt, tt)
    dedup_after-Strict kept (x ∷ xs) v vs h = elim (Bool-cases (text_eq x kept)) [
      | inl e ↦ rw e (dedup_after-Strict kept xs v vs.1 (h.0.1, h.1.1))
      | inr e ↦
          let (above, strict) = dedup_after-Strict x xs vs.0 vs.1 h.1 in
          let ne : key kept ≢ key x =
            λ q. cc (e, (text_eq_iff x kept).1 (injective x kept vs.0 v (sym q))) in
          let lt : key kept < key x = ground arith in
          rw e (
            (lt, All-map (λ y (l : key x < key y). omega arith) (dedup_after x xs) above),
            (above, strict),
          )
    ]

    pub dedup-Strict : (xs : List Text) → All V xs → Sorted key xs → Strict key (dedup xs)
    unfolding dedup Strict
    dedup-Strict [] vs h = tt
    dedup-Strict (x ∷ xs) vs h = dedup_after-Strict x xs vs.0 vs.1 h
