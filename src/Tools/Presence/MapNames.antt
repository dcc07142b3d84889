-- ===== src/Tools/Presence/MapNames.antt =====
-- The normal form of a map's name is reached at once: it is what a scan searches for and what a
-- label is compared with.
use mathlib.Core.List.{reverse, reverse_aux}
use nndsk_ro_launcher.Base.{
  ℕ, zero, suc, ◌+◌, ◌≤◌, ◌≡◌, refl, inl, inr, sym, ap, subst, true, false, not, ◌||◌, none, some,
  [], ◌∷◌, arith, Text, codes, All, all, length, filter, take, trim, trim_start, trim_end,
  is_whitespace, is_empty, lower, to_lower, strip_prefix, strip_suffix, ◌==◌, contains_char,
  Bool-cases, Option-cases, length-take-le,
}
use nndsk_ro_launcher.Tools.Presence.Snapshot.{
  is_control, is_map_char, sanitize_text, strip_extension, checked_map_name, normalize_map_name,
}

-- What the characters of a normal name are like.
pub IsPlain : ℕ → Type 0
IsPlain c = (is_map_char c ≡ true) × (lower c ≡ c)

pub record IsMapName (n : Text) : Type 0 where
  pub some_text : is_empty n ≡ false
  pub plain : All IsPlain n
  pub short : length n ≤ 40

is_control_plain : (c : ℕ) → IsPlain c → is_control c ≡ false
unfolding IsPlain is_map_char is_control contains_char
is_control_plain c h = ground arith

is_whitespace_plain : (c : ℕ) → IsPlain c → is_whitespace c ≡ false
unfolding IsPlain is_map_char is_whitespace contains_char
is_whitespace_plain c h = ground arith

dot_differs : ¬ IsPlain 46
unfolding IsPlain is_map_char contains_char
dot_differs h = cc (h.0)

filter_plain : (s : Text) → All IsPlain s → filter (λ c. not (is_control c)) s ≡ s
unfolding filter
filter_plain [] h = refl
filter_plain (c ∷ s) h = rw (is_control_plain c h.0, filter_plain s h.1) refl

take_short : (n : ℕ) (s : Text) → length s ≤ n → take n s ≡ s
take_short zero [] h = refl
take_short zero (c ∷ s) h = ground arith
take_short (suc n) [] h = refl
take_short (suc n) (c ∷ s) h = rw (take_short n s (omega arith)) refl

trim_end_plain : (s : Text) → All IsPlain s → trim_end s ≡ s
unfolding trim_end
trim_end_plain [] h = refl
trim_end_plain (c ∷ s) h = ground (arith, trim_end_plain s h.1, is_whitespace_plain c h.0)

trim_plain : (s : Text) → All IsPlain s → trim s ≡ s
unfolding trim trim_start
trim_plain [] h = trim_end_plain [] h
trim_plain (c ∷ s) h = rw (is_whitespace_plain c h.0) (trim_end_plain (c ∷ s) h)

to_lower_plain : (s : Text) → All IsPlain s → to_lower s ≡ s
unfolding to_lower IsPlain
to_lower_plain [] h = refl
to_lower_plain (c ∷ s) h = rw (h.0.1, to_lower_plain s h.1) refl

module _ (P : ℕ → Type 0) where
  reverse_aux-All : (s t : Text) → All P s → All P t → All P (reverse_aux s t)
  reverse_aux-All [] t h k = k
  reverse_aux-All (c ∷ s) t h k = reverse_aux-All s (c ∷ t) h.1 (h.0, k)

  strip_prefix-All : (p s r : Text) → All P s → strip_prefix p s ≡ some r → All P p × All P r
  unfolding strip_prefix
  strip_prefix-All [] s r h e = (tt, subst (All P) (cc e) h)
  strip_prefix-All (c ∷ p) [] r h e = cc e
  strip_prefix-All (c ∷ p) (d ∷ s) r h e = elim (Bool-cases (c == d)) [
    | inl q ↦
        let (k, l) = strip_prefix-All p s r h.1 (rw q at e) in
        let same : c ≡ d = ground arith in ((subst P (sym same) h.0, k), l)
    | inr q ↦ cc (rw q at e)
  ]

  strip_suffix-All :
      (p s r : Text) → All P s → strip_suffix p s ≡ some r → All P (reverse p) × All P r
  unfolding strip_suffix
  strip_suffix-All p s r h e = elim (Option-cases (strip_prefix (reverse p) (reverse s))) [
    | inl q ↦ cc (rw q at e)
    | inr (t, q) ↦
        let (k, l) = strip_prefix-All (reverse p) (reverse s) t (reverse_aux-All s [] h tt) q in
        let same : reverse t ≡ r = cc (rw q at e) in
        (k, subst (All P) same (reverse_aux-All t [] l tt))
  ]

strip_suffix_plain :
    (p : Text) (s : Text) → ¬ All IsPlain (reverse p) → All IsPlain s → strip_suffix p s ≡ none
strip_suffix_plain p s n h = elim (Option-cases (strip_suffix p s)) [
  | inl e ↦ e
  | inr (r, e) ↦ absurd (n ((strip_suffix-All IsPlain p s r h e).0))
]

strip_extension_plain : (s : Text) → All IsPlain s → strip_extension s ≡ s
unfolding strip_extension
strip_extension_plain s h =
    rw
      (
        strip_suffix_plain (codes ".rsw") s (λ k. dot_differs k.1.1.1.0) h,
        strip_suffix_plain (codes ".gat") s (λ k. dot_differs k.1.1.1.0) h,
        strip_extension,
      )
      refl

all_plain : (s : Text) → All IsPlain s → all is_map_char s ≡ true
unfolding IsPlain
all_plain [] h = refl
all_plain (c ∷ s) h = rw (h.0.0, all_plain s h.1) refl

normalize_map_name_of :
    (raw t : Text)
    → sanitize_text raw ≡ some t
    → normalize_map_name raw ≡ checked_map_name (strip_extension (to_lower t))
unfolding normalize_map_name
normalize_map_name_of raw t e = rw (e, normalize_map_name) refl

sanitize_text_plain : (n : Text) → IsMapName n → sanitize_text n ≡ some n
unfolding sanitize_text
sanitize_text_plain n h =
    rw (filter_plain n h.plain, take_short 40 n h.short, trim_plain n h.plain, h.some_text) refl

checked_map_name_plain : (n : Text) → IsMapName n → checked_map_name n ≡ some n
unfolding checked_map_name
checked_map_name_plain n h = rw (h.some_text, all_plain n h.plain) refl

-- A normal name is its own normal form.
normalize_map_name_plain : (n : Text) → IsMapName n → normalize_map_name n ≡ some n
normalize_map_name_plain n h =
    rw
      (
        normalize_map_name_of n n (sanitize_text_plain n h),
        to_lower_plain n h.plain,
        strip_extension_plain n h.plain,
      )
      (checked_map_name_plain n h)

length-reverse_aux : (s t : Text) → length (reverse_aux s t) ≡ length s + length t
length-reverse_aux [] t = omega arith
length-reverse_aux (c ∷ s) t = omega (arith, length-reverse_aux s (c ∷ t))

length-strip_prefix : (p s r : Text) → strip_prefix p s ≡ some r → length r ≤ length s
unfolding strip_prefix
length-strip_prefix [] s r e = let same : s ≡ r = cc e in omega (arith, ap length same)
length-strip_prefix (c ∷ p) [] r e = cc e
length-strip_prefix (c ∷ p) (d ∷ s) r e = elim (Bool-cases (c == d)) [
  | inl q ↦ omega (arith, length-strip_prefix p s r (rw q at e))
  | inr q ↦ cc (rw q at e)
]

length-strip_suffix : (p s r : Text) → strip_suffix p s ≡ some r → length r ≤ length s
unfolding strip_suffix
length-strip_suffix p s r e = elim (Option-cases (strip_prefix (reverse p) (reverse s))) [
  | inl q ↦ cc (rw q at e)
  | inr (t, q) ↦
      let same : reverse t ≡ r = cc (rw q at e) in
      omega (
        arith,
        ap length same,
        length-reverse_aux t [],
        length-reverse_aux s [],
        length-strip_prefix (reverse p) (reverse s) t q,
      )
]

-- The extension is cut off, so that what every character has is kept, and no length is gained.
strip_extension-All :
    (P : ℕ → Type 0) (s : Text)
    → All P s
    → All P (strip_extension s) × (length (strip_extension s) ≤ length s)
unfolding strip_extension
strip_extension-All P s h = elim (Option-cases (strip_suffix (codes ".rsw") s)) [
  | inr (r, e) ↦
      rw (e, strip_extension)
        ((strip_suffix-All P (codes ".rsw") s r h e).1, length-strip_suffix (codes ".rsw") s r e)
  | inl e ↦ elim (Option-cases (strip_suffix (codes ".gat") s)) [
    | inr (r, f) ↦
        rw (e, f, strip_extension)
          ((strip_suffix-All P (codes ".gat") s r h f).1, length-strip_suffix (codes ".gat") s r f)
    | inl f ↦ rw (e, f, strip_extension) (h, omega arith)
  ]
]

length-trim_start : (s : Text) → length (trim_start s) ≤ length s
unfolding trim_start
length-trim_start [] = omega arith
length-trim_start (c ∷ s) = ground (arith, length-trim_start s)

length-trim_end : (s : Text) → length (trim_end s) ≤ length s
unfolding trim_end
length-trim_end [] = omega arith
length-trim_end (c ∷ s) = ground (arith, length-trim_end s)

length-to_lower : (s : Text) → length (to_lower s) ≡ length s
unfolding to_lower
length-to_lower [] = omega arith
length-to_lower (c ∷ s) = omega (arith, length-to_lower s)

lower_idem : (c : ℕ) → lower (lower c) ≡ lower c
unfolding lower
lower_idem c = ground arith

to_lower-All : (s : Text) → All (λ c. lower c ≡ c) (to_lower s)
unfolding to_lower
to_lower-All [] = tt
to_lower-All (c ∷ s) = (lower_idem c, to_lower-All s)

length-sanitize_text : (s t : Text) → sanitize_text s ≡ some t → length t ≤ 40
unfolding sanitize_text trim
length-sanitize_text s t e =
    let kept : Text = take 40 (filter (λ c. not (is_control c)) s) in
    elim (Bool-cases (is_empty (trim kept))) [
      | inl q ↦ cc (rw q at e)
      | inr q ↦
          let same : trim kept ≡ t = cc (rw q at e) in
          omega (
            arith,
            ap length same,
            length-trim_end (trim_start kept),
            length-trim_start kept,
            length-take-le 40 (filter (λ c. not (is_control c)) s),
          )
    ]

all-IsPlain : (s : Text) → all is_map_char s ≡ true → All (λ c. lower c ≡ c) s → All IsPlain s
unfolding IsPlain
all-IsPlain [] h k = tt
all-IsPlain (c ∷ s) h k = ((ground arith, k.0), all-IsPlain s (ground arith) k.1)

checked_map_name-IsMapName :
    (v n : Text)
    → checked_map_name v ≡ some n
    → All (λ c. lower c ≡ c) v
    → length v ≤ 40
    → IsMapName n
unfolding checked_map_name
checked_map_name-IsMapName v n e low short =
    elim (Bool-cases (is_empty v || not (all is_map_char v))) [
      | inl q ↦ cc (rw q at e)
      | inr q ↦
          let same : v ≡ n = cc (rw q at e) in
          let name : IsMapName v = record {
            some_text = ground arith;
            plain = all-IsPlain v (ground arith) low;
            short = short;
          } in
          subst IsMapName same name
    ]

-- A normal form is not empty, has at most 40 characters, each a digit, a small letter or one of
-- `_@-`, and is its own normal form.
pub normalize_map_name-IsMapName :
    (raw n : Text) → normalize_map_name raw ≡ some n → IsMapName n × (normalize_map_name n ≡ some n)
unfolding normalize_map_name
normalize_map_name-IsMapName raw n e = elim (Option-cases (sanitize_text raw)) [
  | inl q ↦ cc (rw (q, normalize_map_name) at e)
  | inr (t, q) ↦
      let (low, shorter) = strip_extension-All (λ c. lower c ≡ c) (to_lower t) (to_lower-All t) in
      let name =
        checked_map_name-IsMapName (strip_extension (to_lower t)) n
          (rw (normalize_map_name_of raw t q) at e) low
          (omega (arith, shorter, length-to_lower t, length-sanitize_text raw t q)) in
      (name, normalize_map_name_plain n name)
]
