-- ===== src/Sessiond/Launch/Environment.antt =====
-- The environment of a launched controller belongs to the owned prefix.
use nndsk_ro_launcher.Base.{
  ◌≡◌, refl, sym, ◌∙◌, ◌≢◌, ◌⊎◌, inl, inr, Option, none, some, List, [], ◌∷◌, arith, Text, text_eq,
  text_eq_iff, text_eq_refl, text_eq-false, All, In, Bool-cases, Option-cases, Result, ok, err,
  Result-cases, subst, All-In,
}
use nndsk_ro_launcher.Base.Dict.{Text-eq, lookup, remove, lookup-insert, lookup-remove}
use nndsk_ro_launcher.Protocol.{
  EnvironmentChange, ProcessSpec, wineprefix, Refusal, wineprefix_missing,
  validate_process_spec_structure,
}
use nndsk_ro_launcher.Protocol.WellFormed.{
  IsValidChange, HasDistinctKeys, IsWellFormed, validate_process_spec_structure_iff,
}
use nndsk_ro_launcher.Sessiond.Launch.{
  FileSystem, Environ, steam_compat_data_path, apply_change, apply_changes, merge_env, check_owned,
  check_wineprefix, check_steam, check_structure, check_program, check_cwd,
  validate_spec_for_launch,
}

abbrev change_of : Text → Option Text → EnvironmentChange
change_of k v = record { key = k; value = v }

lookup-change_of_self :
    (k : Text) (v : Option Text) (env : Environ) → lookup k (apply_change (change_of k v) env) ≡ v
unfolding apply_change
lookup-change_of_self k none env = lookup-remove k k env ∙ rw (text_eq_refl k)
lookup-change_of_self k (some v) env = lookup-insert k k v env ∙ rw (text_eq_refl k)

lookup-change_of_ne :
    (j k : Text) (v : Option Text) (env : Environ)
    → j ≢ k
    → lookup k (apply_change (change_of j v) env) ≡ lookup k env
unfolding apply_change
lookup-change_of_ne j k none env h = lookup-remove j k env ∙ rw (text_eq-false j k h)
lookup-change_of_ne j k (some v) env h = lookup-insert j k v env ∙ rw (text_eq-false j k h)

-- A key that no change names keeps its value.
lookup-apply_changes_ne :
    (cs : List EnvironmentChange) (k : Text) (env : Environ)
    → All (λ c. c.key ≢ k) cs
    → lookup k (apply_changes cs env) ≡ lookup k env
unfolding apply_changes
lookup-apply_changes_ne [] k env h = refl
lookup-apply_changes_ne (c ∷ cs) k env h =
    lookup-apply_changes_ne cs k (apply_change c env) h.1
    ∙ lookup-change_of_ne c.key k c.value env h.0

-- A key that a change names has that change's value.
lookup-apply_changes-In :
    (cs : List EnvironmentChange) (c : EnvironmentChange) (env : Environ)
    → HasDistinctKeys cs
    → In c cs
    → lookup c.key (apply_changes cs env) ≡ c.value
unfolding apply_changes
lookup-apply_changes-In [] c env d m = absurd m
lookup-apply_changes-In (x ∷ cs) c env d m = elim m [
  | inl same ↦ rw same (
      lookup-apply_changes_ne cs x.key (apply_change x env) d.0
      ∙ lookup-change_of_self x.key x.value env)
  | inr k ↦ lookup-apply_changes-In cs c (apply_change x env) d.1 k
]

-- The inherited values of the two prefix variables do not reach the merged environment.
lookup-dropped :
    (base_env : Environ) (k : Text)
    → (k ≡ wineprefix) ⊎ (k ≡ steam_compat_data_path)
    → lookup k (remove steam_compat_data_path (remove wineprefix base_env)) ≡ none
lookup-dropped base_env k h =
    lookup-remove steam_compat_data_path k (remove wineprefix base_env)
    ∙ ground (
      arith,
      lookup-remove wineprefix k base_env,
      text_eq_iff wineprefix k,
      text_eq_iff steam_compat_data_path k,
    )

lookup-kept :
    (base_env : Environ) (k : Text)
    → k ≢ wineprefix
    → k ≢ steam_compat_data_path
    → lookup k (remove steam_compat_data_path (remove wineprefix base_env)) ≡ lookup k base_env
lookup-kept base_env k h g =
    lookup-remove steam_compat_data_path k (remove wineprefix base_env)
    ∙ ground (
      arith,
      lookup-remove wineprefix k base_env,
      text_eq_iff wineprefix k,
      text_eq_iff steam_compat_data_path k,
    )

-- A key of the merged environment that is not inherited comes from a change.
find_change :
    (cs : List EnvironmentChange) (k : Text)
    → ((c : EnvironmentChange) × In c cs × (c.key ≡ k)) ⊎ All (λ c. c.key ≢ k) cs
find_change [] k = inr tt
find_change (c ∷ cs) k = elim (Bool-cases (text_eq c.key k)) [
  | inl e ↦ inl (c, inl refl, (text_eq_iff c.key k).0 e)
  | inr e ↦ elim (find_change cs k) [
    | inl (d, m, f) ↦ inl (d, inr m, f)
    | inr h ↦ inr (λ f. cc (e, (text_eq_iff c.key k).1 f), h)
  ]
]

-- What the environment of an accepted specification holds.
pub record IsOwnedEnviron (fs : FileSystem) (spec : ProcessSpec) (owned_prefix : Text)
    (base_env env : Environ) : Type 0 where
  pub well_formed : IsWellFormed spec
  pub prefix_owned :
      (v : Text) × (lookup wineprefix env ≡ some v) × (fs.canonicalize v ≡ some owned_prefix)
  pub steam_owned :
      (v : Text)
      → lookup steam_compat_data_path env ≡ some v
      → fs.canonicalize v ≡ some owned_prefix
  pub steam_requested :
      (v : Text)
      → lookup steam_compat_data_path env ≡ some v
      → In (change_of steam_compat_data_path (some v)) spec.env
  pub requested : (c : EnvironmentChange) → In c spec.env → lookup c.key env ≡ c.value
  pub inherited :
      (k : Text)
      → k ≢ wineprefix
      → k ≢ steam_compat_data_path
      → All (λ c. c.key ≢ k) spec.env
      → lookup k env ≡ lookup k base_env

module _ (fs : FileSystem) (spec : ProcessSpec) (owned_prefix : Text) (base_env env : Environ) where
  launch_parts :
      validate_spec_for_launch fs spec owned_prefix base_env ≡ ok env
      → (validate_process_spec_structure spec ≡ ok tt)
        × (env ≡ merge_env base_env spec.env)
        × (check_wineprefix fs owned_prefix env ≡ ok tt)
        × (check_steam fs owned_prefix env ≡ ok tt)
  unfolding validate_spec_for_launch check_structure
  launch_parts h = ground arith

  check_owned_ok :
      (path : Text) (e f : Refusal)
      → check_owned fs owned_prefix path e f ≡ ok tt
      → fs.canonicalize path ≡ some owned_prefix
  unfolding check_owned
  check_owned_ok path e f h = elim (Option-cases (fs.canonicalize path)) [
    | inl k ↦ absurd (ground arith)
    | inr (c, k) ↦ ground (arith, text_eq_iff c owned_prefix)
  ]

  module _ (accepted : validate_spec_for_launch fs spec owned_prefix base_env ≡ ok env) where
    parts-IsWellFormed : IsWellFormed spec
    parts-IsWellFormed = (validate_process_spec_structure_iff spec).0 (launch_parts accepted).0

    parts_prefix :
        (v : Text) × (lookup wineprefix env ≡ some v) × (fs.canonicalize v ≡ some owned_prefix)
    unfolding check_wineprefix
    parts_prefix = elim (Option-cases (lookup wineprefix env)) [
      | inl e ↦ absurd (ground (arith, launch_parts accepted))
      | inr (v, e) ↦
          (v, e, check_owned_ok v _ _ (rw (e, check_wineprefix) at (launch_parts accepted).2))
    ]

    parts_steam :
        (v : Text)
        → lookup steam_compat_data_path env ≡ some v
        → fs.canonicalize v ≡ some owned_prefix
    unfolding check_steam
    parts_steam v e = check_owned_ok v _ _ (rw (e, check_steam) at (launch_parts accepted).3)

    parts_requested : (c : EnvironmentChange) → In c spec.env → lookup c.key env ≡ c.value
    unfolding merge_env
    parts_requested c m =
        rw (launch_parts accepted).1
          (lookup-apply_changes-In spec.env c _ parts-IsWellFormed.keys_distinct m)

    parts_untouched :
        (k : Text)
        → All (λ c. c.key ≢ k) spec.env
        → lookup k env ≡ lookup k (remove steam_compat_data_path (remove wineprefix base_env))
    unfolding merge_env
    parts_untouched k h = rw (launch_parts accepted).1 (lookup-apply_changes_ne spec.env k _ h)

    parts_steam_requested :
        (v : Text)
        → lookup steam_compat_data_path env ≡ some v
        → In (change_of steam_compat_data_path (some v)) spec.env
    parts_steam_requested v e = elim (find_change spec.env steam_compat_data_path) [
      | inl (c, m, f) ↦
          let w : c.value ≡ some v = sym (parts_requested c m) ∙ (rw f e) in
          subst (λ d. In d spec.env) (λ i. record { key = f i; value = w i }) m
      | inr h ↦ cc (
        e,
        parts_untouched steam_compat_data_path h,
        lookup-dropped base_env steam_compat_data_path (inr refl),
      )
    ]

    -- An accepted specification is well formed, and the environment of the controller belongs to
    -- the owned prefix: WINEPREFIX is set, and it and STEAM_COMPAT_DATA_PATH canonicalize to that
    -- prefix; STEAM_COMPAT_DATA_PATH comes from the request alone; every change of the request is
    -- in force; any other variable is as it was inherited.
    pub validate_spec_for_launch-IsOwnedEnviron : IsOwnedEnviron fs spec owned_prefix base_env env
    validate_spec_for_launch-IsOwnedEnviron = record {
      well_formed = parts-IsWellFormed;
      prefix_owned = parts_prefix;
      steam_owned = parts_steam;
      steam_requested = parts_steam_requested;
      requested = parts_requested;
      inherited = λ k h g a. parts_untouched k a ∙ lookup-kept base_env k h g;
    }

abbrev NotMissing {ℓ} : {A : Type ℓ} → Result Refusal A → Type ℓ
NotMissing r = r ≢ err wineprefix_missing

module _ (fs : FileSystem) where
  check_program-NotMissing : (program : Text) → NotMissing (check_program fs program)
  unfolding check_program
  check_program-NotMissing program h = ground arith

  check_cwd-NotMissing : (cwd : Text) → NotMissing (check_cwd fs cwd)
  unfolding check_cwd
  check_cwd-NotMissing cwd h = ground arith

  check_steam-NotMissing :
      (owned_prefix : Text) (env : Environ) → NotMissing (check_steam fs owned_prefix env)
  unfolding check_steam check_owned
  check_steam-NotMissing owned_prefix env h = ground arith

  check_wineprefix-NotMissing :
      (owned_prefix : Text) (env : Environ)
      → lookup wineprefix env ≢ none
      → NotMissing (check_wineprefix fs owned_prefix env)
  unfolding check_wineprefix check_owned
  check_wineprefix-NotMissing owned_prefix env k h = ground arith

merge_env-has_prefix :
    (base_env : Environ) (spec : ProcessSpec)
    → IsWellFormed spec
    → lookup wineprefix (merge_env base_env spec.env) ≢ none
unfolding merge_env
merge_env-has_prefix base_env spec w =
    let (c, m, e) = w.sets_prefix in
    rw (← e, lookup-apply_changes-In spec.env c _ w.keys_distinct m)
      ((All-In IsValidChange c spec.env w.changes_valid m).wineprefix_set e)

-- For no specification is WINEPREFIX found missing after the merge: the check of the structure
-- already demands that it is set.
pub wineprefix_missing-unreachable :
    (fs : FileSystem) (spec : ProcessSpec) (owned_prefix : Text) (base_env : Environ)
    → validate_spec_for_launch fs spec owned_prefix base_env ≢ err wineprefix_missing
unfolding validate_spec_for_launch check_structure
wineprefix_missing-unreachable fs spec owned_prefix base_env h =
    elim (Result-cases (validate_process_spec_structure spec)) [
      | inr (e, f) ↦ ground arith
      | inl (u, f) ↦
          let env = merge_env base_env spec.env in
          let has =
            merge_env-has_prefix base_env spec ((validate_process_spec_structure_iff spec).0 f) in
          ground (
            arith,
            check_program-NotMissing fs spec.program,
            check_cwd-NotMissing fs spec.cwd,
            check_wineprefix-NotMissing fs owned_prefix env has,
            check_steam-NotMissing fs owned_prefix env,
          )
    ]
