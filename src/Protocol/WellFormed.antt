-- ===== src/Protocol/WellFormed.antt =====
-- What `validate_process_spec_structure` accepts, described without its loop.
use nndsk_ro_launcher.Base.{
  ℕ, ◌+◌, ◌≤◌, ◌<◌, ◌≡◌, refl, sym, ◌≢◌, ◌↔◌, inl, inr, false, Option, none, some, List, [], ◌∷◌,
  arith, Text, text_eq, text_eq_iff, contains, contains-false, contains-false_of,
  contains_char-false, length, All, In, ok, err, Result-cases, ◌∙◌, ap, Bool-cases, if◌then◌else◌,
}
use nndsk_ro_launcher.Protocol.{
  EnvironmentChange, ProcessSpec, multiple_wine_prefix, wineprefix, max_launch_args,
  validate_env_key, value_contains_nul, count_wineprefix, validate_change, validate_changes,
  validate_process_spec_structure,
}

-- No character of the text is `c`.
abbrev pub Lacks : ℕ → Text → Type 0
Lacks c s = All (λ d. d ≢ c) s

abbrev pub ValueLacksNul : Option Text → Type 0
ValueLacksNul none = Unit
ValueLacksNul (some value) = Lacks 0 value

pub record IsValidChange (change : EnvironmentChange) : Type 0 where
  pub key_ne_nil : change.key ≢ []
  pub key_lacks_nul : Lacks 0 change.key
  pub key_lacks_eq : Lacks b'=' change.key
  pub value_lacks_nul : ValueLacksNul change.value
  pub wineprefix_set : change.key ≡ wineprefix → change.value ≢ none

abbrev pub HasDistinctKeys : List EnvironmentChange → Type 0
HasDistinctKeys [] = Unit
HasDistinctKeys (c ∷ cs) = All (λ d. d.key ≢ c.key) cs × HasDistinctKeys cs

-- A change of the list sets `WINEPREFIX`.
abbrev pub SetsPrefix : List EnvironmentChange → Type 0
SetsPrefix env = (c : EnvironmentChange) × In c env × (c.key ≡ wineprefix)

pub record IsWellFormed (spec : ProcessSpec) : Type 0 where
  pub args_bounded : length spec.args ≤ max_launch_args
  pub changes_valid : All IsValidChange spec.env
  pub keys_distinct : HasDistinctKeys spec.env
  pub sets_prefix : SetsPrefix spec.env

validate_env_key_iff :
    (key : Text) → (validate_env_key key ≡ ok tt) ↔ ((key ≢ []) × Lacks 0 key × Lacks b'=' key)
unfolding validate_env_key
validate_env_key_iff [] = (λ h. cc, λ h. absurd (h.0 refl))
validate_env_key_iff (c ∷ s) =
    let (nul, of_nul) = contains_char-false (c ∷ s) 0 in
    let (eq, of_eq) = contains_char-false (c ∷ s) b'=' in
    (λ h. (λ e. cc, nul (ground arith), eq (ground arith)), λ h. rw (of_nul h.1, of_eq h.2) refl)

value_contains_nul_iff : (v : Option Text) → (value_contains_nul v ≡ false) ↔ ValueLacksNul v
unfolding value_contains_nul
value_contains_nul_iff none = (λ _. tt, λ _. refl)
value_contains_nul_iff (some v) = contains_char-false v 0

-- How many of the changes concern `WINEPREFIX`.
abbrev prefix_count : EnvironmentChange → ℕ
prefix_count change = if text_eq change.key wineprefix then 1 else 0

module _ (change : EnvironmentChange) (n : ℕ) where
  count_wineprefix-eq-ok :
      (m : ℕ)
      → count_wineprefix change n ≡ ok m
      → (change.key ≡ wineprefix → change.value ≢ none) × (m ≡ n + prefix_count change)
  unfolding count_wineprefix
  count_wineprefix-eq-ok m h =
      (λ e f. ground (arith, (text_eq_iff change.key wineprefix).1 e), ground arith)

  count_wineprefix_ok :
      (change.key ≡ wineprefix → change.value ≢ none)
      → count_wineprefix change n ≡ ok (n + prefix_count change)
  unfolding count_wineprefix
  count_wineprefix_ok h = ground (arith, text_eq_iff change.key wineprefix)

  module _ (keys : List Text) where
    validate_change_parts :
        (r : List Text × ℕ)
        → validate_change keys n change ≡ ok r
        → (validate_env_key change.key ≡ ok tt)
          × (contains keys change.key ≡ false)
          × (value_contains_nul change.value ≡ false)
          × (count_wineprefix change n ≡ ok r.1)
          × (r.0 ≡ change.key ∷ keys)
    unfolding validate_change
    validate_change_parts r h = ground arith

    validate_change-eq-ok :
        (r : List Text × ℕ)
        → validate_change keys n change ≡ ok r
        → IsValidChange change
          × ¬ In change.key keys
          × (r ≡ (change.key ∷ keys, n + prefix_count change))
    validate_change-eq-ok r h =
        let (key, new, value, counted, seen) = validate_change_parts r h in
        let (ne, nul, eq) = (validate_env_key_iff change.key).0 key in
        let (wine, sum) = count_wineprefix-eq-ok r.1 counted in
        (
          record {
            key_ne_nil = ne;
            key_lacks_nul = nul;
            key_lacks_eq = eq;
            value_lacks_nul = (value_contains_nul_iff change.value).0 value;
            wineprefix_set = wine;
          },
          contains-false keys change.key new,
          cc,
        )

    validate_change_ok :
        IsValidChange change
        → ¬ In change.key keys
        → validate_change keys n change ≡ ok (change.key ∷ keys, n + prefix_count change)
    unfolding validate_change
    validate_change_ok v new =
        rw
          (
            (validate_env_key_iff change.key).1 (v.key_ne_nil, v.key_lacks_nul, v.key_lacks_eq),
            contains-false_of keys change.key new,
            (value_contains_nul_iff change.value).1 v.value_lacks_nul,
            count_wineprefix_ok v.wineprefix_set,
          )
          refl

abbrev prefix_counts : List EnvironmentChange → ℕ
prefix_counts [] = 0
prefix_counts (c ∷ cs) = prefix_count c + prefix_counts cs

abbrev Fresh : List Text → List EnvironmentChange → Type 0
Fresh keys cs = All (λ c. ¬ In c.key keys) cs

Fresh-cons :
    (k : Text) (keys : List Text) (cs : List EnvironmentChange)
    → Fresh (k ∷ keys) cs ↔ (All (λ d. d.key ≢ k) cs × Fresh keys cs)
Fresh-cons k keys [] = (λ _. (tt, tt), λ _. tt)
Fresh-cons k keys (c ∷ cs) =
    let (to, from) = Fresh-cons k keys cs in
    (
      λ h. let (a, b) = to h.1 in ((λ e. h.0 (inl e), a), (λ m. h.0 (inr m), b)),
      λ (h, g). (λ m. elim m [ inl e ↦ h.0 e | inr k ↦ g.0 k ], from (h.1, g.1)),
    )

validate_changes-eq-ok :
    (keys : List Text) (n : ℕ) (env : List EnvironmentChange) (m : ℕ)
    → validate_changes keys n env ≡ ok m
    → All IsValidChange env × Fresh keys env × HasDistinctKeys env × (m ≡ n + prefix_counts env)
unfolding validate_changes
validate_changes-eq-ok keys n [] m h = (tt, tt, tt, ground arith)
validate_changes-eq-ok keys n (c ∷ env) m h = elim (Result-cases (validate_change keys n c)) [
  | inr (e, f) ↦ absurd (cc (rw f at h))
  | inl ((keys', n'), f) ↦
      let (valid, new, same) = validate_change-eq-ok c n keys (keys', n') f in
      let (vs, fresh, distinct, sum) =
        validate_changes-eq-ok (c.key ∷ keys) (n + prefix_count c) env m
          (rw (f ∙ ap ok same) at h) in
      let (ne, fresh') = (Fresh-cons c.key keys env).0 fresh in
      ((valid, vs), (new, fresh'), (ne, distinct), omega arith)
]

validate_changes_ok :
    (keys : List Text) (n : ℕ) (env : List EnvironmentChange)
    → All IsValidChange env
    → Fresh keys env
    → HasDistinctKeys env
    → validate_changes keys n env ≡ ok (n + prefix_counts env)
unfolding validate_changes
validate_changes_ok keys n [] v f d = ground arith
validate_changes_ok keys n (c ∷ env) v f d = rw (validate_change_ok c n keys v.0 f.0) (
    rw
      (validate_changes_ok (c.key ∷ keys) (n + prefix_count c) env v.1
        ((Fresh-cons c.key keys env).1 (d.0, f.1)) d.1)
      (ap ok (omega arith)))

-- Distinct keys leave room for one change of `WINEPREFIX`.
prefix_counts-zero :
    (env : List EnvironmentChange) → All (λ d. d.key ≢ wineprefix) env → prefix_counts env ≡ 0
prefix_counts-zero [] h = refl
prefix_counts-zero (c ∷ env) h =
    ground (arith, text_eq_iff c.key wineprefix, prefix_counts-zero env h.1)

prefix_counts-le-one : (env : List EnvironmentChange) → HasDistinctKeys env → prefix_counts env ≤ 1
prefix_counts-le-one [] d = omega arith
prefix_counts-le-one (c ∷ env) d = elim (Bool-cases (text_eq c.key wineprefix)) [
  | inl e ↦
      let is_prefix = (text_eq_iff c.key wineprefix).0 e in
      rw e (omega (arith, prefix_counts-zero env (rw is_prefix at d.0)))
  | inr e ↦ rw e (omega (arith, prefix_counts-le-one env d.1))
]

SetsPrefix-of_count : (env : List EnvironmentChange) → 0 < prefix_counts env → SetsPrefix env
SetsPrefix-of_count [] h = absurd (omega arith)
SetsPrefix-of_count (c ∷ env) h = elim (Bool-cases (text_eq c.key wineprefix)) [
  | inl e ↦ (c, inl refl, (text_eq_iff c.key wineprefix).0 e)
  | inr e ↦ let (d, m, k) = SetsPrefix-of_count env (ground arith) in (d, inr m, k)
]

count-of_SetsPrefix :
    (env : List EnvironmentChange) (c : EnvironmentChange)
    → In c env
    → c.key ≡ wineprefix
    → 0 < prefix_counts env
count-of_SetsPrefix [] c m e = absurd m
count-of_SetsPrefix (d ∷ env) c m e = elim m [
  | inl same ↦
      rw ((text_eq_iff d.key wineprefix).1 (ap (λ (x : EnvironmentChange). x.key) (sym same) ∙ e))
        (omega arith)
  | inr k ↦ omega (arith, count-of_SetsPrefix env c k e)
]

structure_parts :
    (spec : ProcessSpec)
    → validate_process_spec_structure spec ≡ ok tt
    → (length spec.args ≤ max_launch_args)
      × ((m : ℕ) × (validate_changes [] 0 spec.env ≡ ok m) × (0 < m))
unfolding validate_process_spec_structure
structure_parts spec h = elim (Result-cases (validate_changes [] 0 spec.env)) [
  | inl (m, f) ↦ (ground arith, (m, f, ground arith))
  | inr (e, f) ↦ absurd (ground arith)
]

Fresh-nil : (env : List EnvironmentChange) → Fresh [] env
Fresh-nil [] = tt
Fresh-nil (c ∷ env) = (λ m. m, Fresh-nil env)

structure_ok :
    (spec : ProcessSpec) → IsWellFormed spec → validate_process_spec_structure spec ≡ ok tt
unfolding validate_process_spec_structure
structure_ok spec w =
    let (c, m, e) = w.sets_prefix in
    ground (
      arith,
      validate_changes_ok [] 0 spec.env w.changes_valid (Fresh-nil spec.env) w.keys_distinct,
      prefix_counts-le-one spec.env w.keys_distinct,
      count-of_SetsPrefix spec.env c m e,
    )

-- The check accepts exactly the well-formed specifications: at most 4096 arguments, keys that are
-- not empty, lack NUL and `=` and are pairwise distinct, values without NUL, and a change that
-- sets WINEPREFIX to a value.
pub validate_process_spec_structure_iff :
    (spec : ProcessSpec) → (validate_process_spec_structure spec ≡ ok tt) ↔ IsWellFormed spec
validate_process_spec_structure_iff spec = (
  λ h.
      let (args, (m, f, pos)) = structure_parts spec h in
      let (valid, fresh, distinct, sum) = validate_changes-eq-ok [] 0 spec.env m f in
      record {
        args_bounded = args;
        changes_valid = valid;
        keys_distinct = distinct;
        sets_prefix = SetsPrefix-of_count spec.env (omega arith);
      },
  structure_ok spec,
)

validate_change-ne-multiple :
    (keys : List Text) (n : ℕ) (c : EnvironmentChange)
    → validate_change keys n c ≢ err multiple_wine_prefix
unfolding validate_change validate_env_key count_wineprefix
validate_change-ne-multiple keys n c h = ground arith

validate_changes-ne-multiple :
    (keys : List Text) (n : ℕ) (env : List EnvironmentChange)
    → validate_changes keys n env ≢ err multiple_wine_prefix
unfolding validate_changes
validate_changes-ne-multiple keys n [] h = cc
validate_changes-ne-multiple keys n (c ∷ env) h = elim (Result-cases (validate_change keys n c)) [
  | inl ((keys', n'), f) ↦ validate_changes-ne-multiple keys' n' env (rw f at h)
  | inr (e, f) ↦
      let same : e ≡ multiple_wine_prefix = cc (rw f at h) in
      validate_change-ne-multiple keys n c (f ∙ ap err same)
]

-- The error `multiple_wine_prefix` is never reported: a second change of WINEPREFIX is refused
-- before, as a duplicate key.
pub multiple_wine_prefix-unreachable :
    (spec : ProcessSpec) → validate_process_spec_structure spec ≢ err multiple_wine_prefix
unfolding validate_process_spec_structure
multiple_wine_prefix-unreachable spec h = elim (Result-cases (validate_changes [] 0 spec.env)) [
  | inl (m, f) ↦
      let (valid, fresh, distinct, sum) = validate_changes-eq-ok [] 0 spec.env m f in
      ground (arith, prefix_counts-le-one spec.env distinct)
  | inr (e, f) ↦ ground (arith, validate_changes-ne-multiple [] 0 spec.env)
]
