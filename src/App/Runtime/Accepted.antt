-- ===== src/App/Runtime/Accepted.antt =====
-- Which inputs are resolved to a plan.
use nndsk_ro_launcher.Base.{
  ◌≡◌, ◌↔◌, refl, inl, inr, Bool, true, false, some, Text, is_empty, is_ok, text_eq_iff,
  Option-cases, Result-cases, Result, ok, err, and_then, arith,
}
use nndsk_ro_launcher.App.Runtime.{
  RunnerKind, proton, ResolvedRunner, RunnerRequest, managed, external, GraphicsProfile, dxvk,
  dg_voodoo_dxvk, ComponentProvenance, artifact_receipt, bundled_resource, external_observed,
  legacy_unpinned, RunnerProbe, DgVoodooState, DxvkProvider, RunnerPlan, RuntimeResolutionInput,
}
use nndsk_ro_launcher.App.Runtime.Resolver.{
  is_dg_voodoo_ready, same_kind, resolve_dxvk_provider, resolve_graphics, known_id, valid_stable_id,
  Paths, is_managed, has_receipt, is_external, validate_provenance, validate_runner_request,
  resolve_runtime,
}
use nndsk_ro_launcher.App.Runtime.Capabilities.{Supports, ServesBoth, validate_capabilities_iff}

-- The probe has seen the runner that was asked for: the managed one of the id, with its receipt, or
-- the one at the path, as an external one.
abbrev pub IsRequested : Paths → RunnerRequest → ResolvedRunner → RunnerProbe → Type 0
IsRequested paths (managed id) resolved probe =
    (resolved.kind ≡ proton)
    × (paths.managed_proton_id_for_path resolved.runner_path ≡ some id)
    × (probe.identity.provenance ≡ artifact_receipt id)
IsRequested paths (external hint entrypoint) resolved probe =
    (hint ≡ resolved.kind)
    × (paths.paths_match entrypoint resolved.runner_path ≡ true)
    × ((c : Bool) × (probe.identity.provenance ≡ external_observed c))

same_kind_iff : (a b : RunnerKind) → (same_kind a b ≡ true) ↔ (a ≡ b)
same_kind_iff a b = ground arith

is_managed_iff :
    (paths : Paths) (path id : Text)
    → (is_managed paths path id ≡ true) ↔ (paths.managed_proton_id_for_path path ≡ some id)
unfolding is_managed
is_managed_iff paths path id = elim (Option-cases (paths.managed_proton_id_for_path path)) [
  | inl e ↦ rw (e, is_managed) (λ h. cc h, λ h. cc h)
  | inr (a, e) ↦
      rw (e, is_managed)
        (
          λ h. let same : a ≡ id = (text_eq_iff a id).0 h in rw same refl,
          λ h. (text_eq_iff a id).1 (cc h),
        )
]

has_receipt_iff :
    (id : Text) (p : ComponentProvenance) → (has_receipt id p ≡ true) ↔ (p ≡ artifact_receipt id)
unfolding has_receipt
has_receipt_iff id (artifact_receipt a) = (
  λ h. let same : a ≡ id = (text_eq_iff a id).0 h in rw same refl,
  λ h. (text_eq_iff a id).1 (cc h),
)
has_receipt_iff id (bundled_resource r) = (λ h. cc h, λ h. cc h)
has_receipt_iff id (external_observed c) = (λ h. cc h, λ h. cc h)
has_receipt_iff id (legacy_unpinned r) = (λ h. cc h, λ h. cc h)

is_external_iff :
    (p : ComponentProvenance) → (is_external p ≡ true) ↔ ((c : Bool) × (p ≡ external_observed c))
is_external_iff (artifact_receipt a) = (λ h. cc h, λ (c, h). cc h)
is_external_iff (bundled_resource r) = (λ h. cc h, λ (c, h). cc h)
is_external_iff (external_observed c) = (λ h. (c, refl), λ h. refl)
is_external_iff (legacy_unpinned r) = (λ h. cc h, λ (c, h). cc h)

validate_provenance_iff :
    (paths : Paths) (request : RunnerRequest) (resolved : ResolvedRunner) (probe : RunnerProbe)
    → (is_ok (validate_provenance paths request resolved probe) ≡ true)
      ↔ IsRequested paths request resolved probe
unfolding validate_provenance
validate_provenance_iff paths (managed id) resolved probe =
    let (k, k') = same_kind_iff resolved.kind proton in
    let (m, m') = is_managed_iff paths resolved.runner_path id in
    let (r, r') = has_receipt_iff id probe.identity.provenance in
    (
      λ h. (k (ground arith), m (ground arith), r (ground arith)),
      λ (a, b, c). let a' = k' a in let b' = m' b in let c' = r' c in ground arith,
    )
validate_provenance_iff paths (external hint entrypoint) resolved probe =
    let (k, k') = same_kind_iff hint resolved.kind in
    let (e, e') = is_external_iff probe.identity.provenance in
    (
      λ h. (k (ground arith), ground arith, e (ground arith)),
      λ (a, b, c). let a' = k' a in let c' = e' c in ground arith,
    )

-- The wrappers of dgVoodoo are in place where the profile asks for them.
abbrev pub IsReady : GraphicsProfile → DgVoodooState → Type 0
IsReady g s = g ≡ dg_voodoo_dxvk → (s.configured ≡ true) × (s.wrappers_verified ≡ true)

resolve_graphics_iff :
    (g : GraphicsProfile) (s : DgVoodooState) (provider : DxvkProvider)
    → (is_ok (resolve_graphics g s provider) ≡ true) ↔ IsReady g s
unfolding resolve_graphics is_dg_voodoo_ready known_id valid_stable_id
resolve_graphics_iff dxvk s provider = (λ _ e. cc e, λ _. refl)
resolve_graphics_iff dg_voodoo_dxvk s provider =
    (λ h _. (ground arith, ground arith), λ h. let (a, b) = h refl in ground arith)

-- A provider of DXVK is always found: the ids of the components are valid.
resolve_dxvk_provider-ok : (runner : RunnerPlan) → is_ok (resolve_dxvk_provider runner) ≡ true
unfolding resolve_dxvk_provider known_id valid_stable_id
resolve_dxvk_provider-ok runner = ground arith

validate_runner_request_iff :
    (paths : Paths) (request : RunnerRequest) (resolved : ResolvedRunner) (probe : RunnerProbe)
    → (is_ok (validate_runner_request paths request resolved probe) ≡ true)
      ↔ (probe.identity.kind ≡ resolved.kind)
        × IsRequested paths request resolved probe
        × (is_empty probe.identity.roles ≡ false)
unfolding validate_runner_request
validate_runner_request_iff paths request resolved probe =
    let (k, k') = same_kind_iff probe.identity.kind resolved.kind in
    let (r, r') = validate_provenance_iff paths request resolved probe in
    (
      λ h. (k (ground arith), r (ground arith), ground arith),
      λ (a, b, c). let a' = k' a in let b' = r' b in ground arith,
    )

is_ok-and_then :
    {E A B : Type 0} (r : Result E A) (h : A → B) → is_ok (and_then r (λ a. ok (h a))) ≡ is_ok r
is_ok-and_then (ok a) h = refl
is_ok-and_then (err e) h = refl

-- The steps of the resolver succeed together when each one does.
chain_iff :
    {E D G P : Type 0} (a b : Result E (Unit {0})) (c : Result E D)
    → (f : D → Result E G) (h : D → G → P) (d : D) → c ≡ ok d
    → (is_ok
          (and_then a (λ _. and_then b (λ _. and_then c (λ x. and_then (f x) (λ g. ok (h x g))))))
        ≡ true)
      ↔ (is_ok a ≡ true) × (is_ok b ≡ true) × (is_ok (f d) ≡ true)
chain_iff (err x) b c f h d e = (λ k. cc k, λ (k, _, _). cc k)
chain_iff (ok _) (err x) c f h d e = (λ k. cc k, λ (_, k, _). cc k)
chain_iff (ok _) (ok _) c f h d e =
    rw (e, is_ok-and_then (f d) (h d)) (λ k. (refl, refl, k), λ (_, _, k). k)

-- Exactly these inputs are resolved to a plan: the probe saw the runner that was asked for, of its
-- kind and with some of its material; it plans the best synchronization that the runner declares; a
-- runner of the older layout serves both architectures; and the wrappers of dgVoodoo are set up and
-- verified where the profile asks for them.
pub resolve_runtime_iff :
    (paths : Paths) (input : RuntimeResolutionInput)
    → (is_ok (resolve_runtime paths input) ≡ true)
      ↔ (input.probe.identity.kind ≡ input.resolved.kind)
        × IsRequested paths input.profile.runner input.resolved input.probe
        × (is_empty input.probe.identity.roles ≡ false)
        × Supports input.resolved.kind input.probe.capabilities.sync_support input.probe.sync
        × ServesBoth input.probe.capabilities
        × IsReady input.profile.graphics input.dgvoodoo
unfolding resolve_runtime
resolve_runtime_iff paths input =
    let (r, r') =
      validate_runner_request_iff paths input.profile.runner input.resolved input.probe in
    let (c, c') = validate_capabilities_iff input.resolved.kind input.probe in
    let runner : RunnerPlan = record {
      resolved = input.resolved;
      identity = input.probe.identity;
      capabilities = input.probe.capabilities;
      sync = input.probe.sync;
    } in
    let provided = resolve_dxvk_provider-ok runner in
    elim (Result-cases (resolve_dxvk_provider runner)) [
      | inr (x, e) ↦ cc (rw e at provided)
      | inl (provider, e) ↦
          let (g, g') = resolve_graphics_iff input.profile.graphics input.dgvoodoo provider in
          let (chain, chain') = chain_iff _ _ _ _ _ provider e in
          (
            λ h.
                let (one, two, three) = chain h in
                let (kind, asked, seen) = r one in
                let (sync, both) = c two in (kind, asked, seen, sync, both, g three),
            λ (kind, asked, seen, sync, both, ready).
                chain' (r' (kind, asked, seen), c' (sync, both), g' ready),
          )
    ]
