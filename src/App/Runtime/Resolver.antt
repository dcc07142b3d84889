-- ===== src/App/Runtime/Resolver.antt =====
-- src-tauri/src/tools/runtime/resolver.rs: from a profile and what a probe saw to a plan.
use nndsk_ro_launcher.Base.{
  ℕ, Bool, true, false, not, ◌&&◌, ◌||◌, Option, none, some, Text, codes, ◌==◌, leb, all, any,
  is_empty, trim, text_eq, strip_prefix, starts_with, Result, ok, err, and_then, if◌then◌else◌, [],
  ◌∷◌,
}
use nndsk_ro_launcher.App.Runtime.{
  RunnerKind, wine, proton, ResolvedRunner, RunnerRequest, managed, external, server_override,
  global_setting, product_default, GraphicsProfile, dxvk, dg_voodoo_dxvk, RuntimeProfile,
  ComponentProvenance, artifact_receipt, external_observed, legacy_unpinned, known, unknown,
  PrefixArchitecture, x86, x86_64, old_wow64, SyncSupport, wine_sync, managed_sync, SyncPlan,
  wine_server, esync, fsync, runner_managed, RunnerCapabilities, RunnerProbe, DgVoodooState,
  RuntimeResolutionError, invalid_known_id, runner_request_mismatch, probe_kind_mismatch,
  probe_provenance_mismatch, capability_contradiction, dg_voodoo_not_verified, RunnerPlan,
  DxvkProvider, runner_owned, managed_prefix, winetricks_prefix, GraphicsPlan, RuntimePlan,
  RuntimeResolutionInput,
}

-- `valid_stable_id`: what `ComponentId::new` and `ArtifactId::new` accept.
abbrev pub is_id_start : ℕ → Bool
is_id_start c = leb b'a' c && leb c b'z' || leb b'0' c && leb c b'9'

abbrev pub is_id_char : ℕ → Bool
is_id_char c = is_id_start c || c == b'.' || c == b'_' || c == b'/' || c == b'-'

unfoldable pub valid_stable_id : Text → Bool
valid_stable_id [] = false
valid_stable_id (c ∷ s) = is_id_start c && all is_id_char s

unfoldable pub known_id : Text → Result RuntimeResolutionError Text
unfolding valid_stable_id
known_id id = if valid_stable_id id then ok id else err invalid_known_id

unfoldable pub is_dg_voodoo_ready : DgVoodooState → Bool
is_dg_voodoo_ready s = s.configured && s.wrappers_verified

-- `nonempty(..).is_some()`.
unfoldable pub is_given : Option Text → Bool
unfolding trim
is_given none = false
is_given (some value) = not (is_empty (trim value))

abbrev pub same_kind : RunnerKind → RunnerKind → Bool
same_kind wine wine = true
same_kind proton proton = true
same_kind _ _ = false

abbrev pub same_sync : SyncPlan → SyncPlan → Bool
same_sync wine_server wine_server = true
same_sync esync esync = true
same_sync fsync fsync = true
same_sync runner_managed runner_managed = true
same_sync _ _ = false

abbrev pub is_x86 : PrefixArchitecture → Bool
is_x86 x86 = true
is_x86 x86_64 = false

-- The plan for the synchronization that a runner of the kind supports, if the two agree.
unfoldable pub expected_sync : RunnerKind → SyncSupport → Option SyncPlan
expected_sync proton managed_sync = some runner_managed
expected_sync wine managed_sync = none
expected_sync wine (wine_sync _ true) = some fsync
expected_sync wine (wine_sync true false) = some esync
expected_sync wine (wine_sync false false) = some wine_server
expected_sync proton (wine_sync _ _) = none

-- A runner of the older layout serves prefixes of both architectures.
unfoldable pub layout_agrees : RunnerCapabilities → Bool
layout_agrees c = elim c.wow64_layout [
  | unknown ↦ true
  | known layout ↦ elim layout [
    | old_wow64 ↦ elim c.supported_prefix_architectures [
      | unknown ↦ false
      | known value ↦ any is_x86 value && any (λ a. not (is_x86 a)) value
    ]
    | _ ↦ true
  ]
]

unfoldable pub validate_capabilities :
    RunnerKind → RunnerProbe → Result RuntimeResolutionError (Unit {0})
unfolding expected_sync layout_agrees
validate_capabilities kind probe = elim (expected_sync kind probe.capabilities.sync_support) [
  | none ↦ err capability_contradiction
  | some sync ↦
      if same_sync sync probe.sync && layout_agrees probe.capabilities
      then ok tt
      else err capability_contradiction
]

unfoldable pub is_wine_7_16_version : Text → Bool
unfolding strip_prefix starts_with text_eq
is_wine_7_16_version version = elim (strip_prefix (codes "wine-") version) [
  | none ↦ false
  | some v ↦
      text_eq v (codes "7.16")
      || starts_with (codes "7.16 ") v
      || starts_with (codes "7.16.") v
      || starts_with (codes "7.16-") v
]

unfoldable pub reported_wine_7_16 : RunnerPlan → Bool
unfolding is_wine_7_16_version
reported_wine_7_16 runner = elim runner.capabilities.reported_version [
  | unknown ↦ false
  | known value ↦ is_wine_7_16_version value
]

unfoldable pub resolve_dxvk_provider : RunnerPlan → Result RuntimeResolutionError DxvkProvider
unfolding reported_wine_7_16 known_id
resolve_dxvk_provider runner = elim runner.resolved.kind [
  | proton ↦ and_then (known_id (codes "runner/dxvk")) (λ id. ok (runner_owned id))
  | wine ↦
      if reported_wine_7_16 runner
      then and_then (known_id (codes "dxvk-2.6.2")) (λ id. ok (managed_prefix id))
      else ok (winetricks_prefix (legacy_unpinned (codes "winetricks/dxvk-legacy-unpinned")))
]

unfoldable pub resolve_graphics :
    GraphicsProfile → DgVoodooState → DxvkProvider → Result RuntimeResolutionError GraphicsPlan
unfolding is_dg_voodoo_ready known_id
resolve_graphics dxvk s provider = ok (record { overlay = none; dxvk_provider = provider })
resolve_graphics dg_voodoo_dxvk s provider =
    if not (is_dg_voodoo_ready s)
    then err dg_voodoo_not_verified
    else and_then (known_id (codes "game-dir/dgvoodoo")) (λ id.
      ok (record { overlay = some (codes "bundled/dgvoodoo", id); dxvk_provider = provider }))

unfoldable pub has_receipt : Text → ComponentProvenance → Bool
unfolding text_eq
has_receipt id (artifact_receipt artifact_id) = text_eq artifact_id id
has_receipt id _ = false

abbrev pub is_external : ComponentProvenance → Bool
is_external (external_observed _) = true
is_external _ = false

-- What the resolver asks of paths: the id of the managed Proton at a path, and whether two paths
-- name the same file.
pub record Paths : Type 0 where
  pub managed_proton_id_for_path : Text → Option Text
  pub paths_match : Text → Text → Bool

module _ (paths : Paths) where
  unfoldable pub profile_from_legacy :
      Option Text
      → Option Text
      → ResolvedRunner
      → DgVoodooState
      → Result RuntimeResolutionError RuntimeProfile
  unfolding is_given is_dg_voodoo_ready known_id
  profile_from_legacy server_runner default_runner resolved s =
      let source =
        if is_given server_runner
        then server_override
        else if is_given default_runner
        then global_setting
        else product_default in
      let graphics = if is_dg_voodoo_ready s then dg_voodoo_dxvk else dxvk in
      let profile : RunnerRequest → RuntimeProfile =
        λ r. record { runner = r; selection_source = source; graphics = graphics } in
      let by_path : RuntimeProfile = profile (external resolved.kind resolved.runner_path) in
      elim (paths.managed_proton_id_for_path resolved.runner_path) [
        | none ↦ ok by_path
        | some id ↦
            if same_kind resolved.kind proton
            then and_then (known_id id) (λ artifact. ok (profile (managed artifact)))
            else ok by_path
      ]

  -- `managed_proton_id_for_path(..) != Some(artifact_id)`, negated.
  unfoldable pub is_managed : Text → Text → Bool
  unfolding text_eq
  is_managed path artifact_id = elim (paths.managed_proton_id_for_path path) [
    | none ↦ false
    | some id ↦ text_eq id artifact_id
  ]

  -- The `match` on the request.
  unfoldable pub validate_provenance :
      RunnerRequest → ResolvedRunner → RunnerProbe → Result RuntimeResolutionError (Unit {0})
  unfolding is_managed has_receipt
  validate_provenance (managed id) resolved probe =
      if not (same_kind resolved.kind proton) || not (is_managed resolved.runner_path id)
      then err runner_request_mismatch
      else if has_receipt id probe.identity.provenance
      then ok tt
      else err probe_provenance_mismatch
  validate_provenance (external hint entrypoint) resolved probe =
      if not (same_kind hint resolved.kind)
        || not (paths.paths_match entrypoint resolved.runner_path)
        || not (is_external probe.identity.provenance)
      then err runner_request_mismatch
      else ok tt

  unfoldable pub validate_runner_request :
      RunnerRequest → ResolvedRunner → RunnerProbe → Result RuntimeResolutionError (Unit {0})
  unfolding validate_provenance
  validate_runner_request request resolved probe =
      if not (same_kind probe.identity.kind resolved.kind)
      then err probe_kind_mismatch
      else and_then (validate_provenance request resolved probe)
          (λ _. if is_empty probe.identity.roles then err probe_provenance_mismatch else ok tt)

  unfoldable pub resolve_runtime :
      RuntimeResolutionInput → Result RuntimeResolutionError RuntimePlan
  unfolding validate_runner_request validate_capabilities resolve_dxvk_provider resolve_graphics
  resolve_runtime input =
      and_then (validate_runner_request input.profile.runner input.resolved input.probe) (λ _.
        and_then (validate_capabilities input.resolved.kind input.probe) (λ _.
          let runner : RunnerPlan = record {
            resolved = input.resolved;
            identity = input.probe.identity;
            capabilities = input.probe.capabilities;
            sync = input.probe.sync;
          } in
          and_then (resolve_dxvk_provider runner) (λ provider.
            and_then (resolve_graphics input.profile.graphics input.dgvoodoo provider) (λ graphics.
              ok (record {
                runner = runner;
                graphics = graphics;
                prefix = input.prefix;
                webview2_required = input.webview2_required;
              })))))
