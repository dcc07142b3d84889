-- ===== src/App/Runtime/Capabilities.antt =====
-- Which capabilities the resolver takes for consistent.
use nndsk_ro_launcher.Base.{
  ◌≡◌, ◌↔◌, refl, sym, ◌∙◌, inl, inr, Bool, true, false, not, some, List, [], ◌∷◌, Text, In, any,
  is_ok, Option-cases, arith,
}
use nndsk_ro_launcher.App.Runtime.{
  RunnerKind, wine, proton, CapabilityEvidence, known, unknown, PrefixArchitecture, x86, x86_64,
  Wow64Layout, old_wow64, new_wow64, wine32_only, SyncSupport, wine_sync, managed_sync, SyncPlan,
  wine_server, esync, fsync, runner_managed, RunnerCapabilities, RunnerProbe,
}
use nndsk_ro_launcher.App.Runtime.Resolver.{
  same_sync, is_x86, expected_sync, layout_agrees, validate_capabilities,
}

-- The best way to synchronize that a runner declares.
pub data Supports : RunnerKind → SyncSupport → SyncPlan → Type 0 where
  by_runner : Supports proton managed_sync runner_managed
  by_fsync : {e : Bool} → Supports wine (wine_sync e true) fsync
  by_esync : Supports wine (wine_sync true false) esync
  by_server : Supports wine (wine_sync false false) wine_server

same_sync_iff : (a b : SyncPlan) → (same_sync a b ≡ true) ↔ (a ≡ b)
same_sync_iff a b = ground arith

Supports-expected :
    (k : RunnerKind) (s : SyncSupport) (p : SyncPlan) → Supports k s p → expected_sync k s ≡ some p
unfolding expected_sync
Supports-expected k s p by_runner = refl
Supports-expected k s p by_fsync = refl
Supports-expected k s p by_esync = refl
Supports-expected k s p by_server = refl

expected_sync_iff :
    (k : RunnerKind) (s : SyncSupport) (p : SyncPlan)
    → (expected_sync k s ≡ some p) ↔ Supports k s p
unfolding expected_sync
expected_sync_iff proton managed_sync p =
    (λ h. let q : runner_managed ≡ p = cc h in rw (sym q) by_runner, λ h. Supports-expected _ _ p h)
expected_sync_iff wine managed_sync p = (λ h. cc h, λ h. Supports-expected _ _ p h)
expected_sync_iff proton (wine_sync e f) p = (λ h. cc h, λ h. Supports-expected _ _ p h)
expected_sync_iff wine (wine_sync e true) p =
    (λ h. let q : fsync ≡ p = cc h in rw (sym q) by_fsync, λ h. Supports-expected _ _ p h)
expected_sync_iff wine (wine_sync true false) p =
    (λ h. let q : esync ≡ p = cc h in rw (sym q) by_esync, λ h. Supports-expected _ _ p h)
expected_sync_iff wine (wine_sync false false) p =
    (λ h. let q : wine_server ≡ p = cc h in rw (sym q) by_server, λ h. Supports-expected _ _ p h)

-- A runner of the older layout serves both architectures.
abbrev pub ServesBoth : RunnerCapabilities → Type 0
ServesBoth c =
    c.wow64_layout ≡ known old_wow64
    → (value : List PrefixArchitecture) × (c.supported_prefix_architectures ≡ known value)
      × In x86 value
      × In x86_64 value

any_x86 : (value : List PrefixArchitecture) → (any is_x86 value ≡ true) ↔ In x86 value
any_x86 [] = (λ h. cc h, λ h. absurd h)
any_x86 (x86 ∷ value) = (λ _. inl refl, λ _. refl)
any_x86 (x86_64 ∷ value) =
    let (to, from) = any_x86 value in
    (λ h. inr (to h), λ h. elim h [ inl e ↦ cc e | inr m ↦ from m ])

any_x86_64 :
    (value : List PrefixArchitecture) → (any (λ a. not (is_x86 a)) value ≡ true) ↔ In x86_64 value
any_x86_64 [] = (λ h. cc h, λ h. absurd h)
any_x86_64 (x86_64 ∷ value) = (λ _. inl refl, λ _. refl)
any_x86_64 (x86 ∷ value) =
    let (to, from) = any_x86_64 value in
    (λ h. inr (to h), λ h. elim h [ inl e ↦ cc e | inr m ↦ from m ])

agrees_iff :
    (w : CapabilityEvidence Wow64Layout) (a : CapabilityEvidence (List PrefixArchitecture))
    → (v : CapabilityEvidence Text) (s : SyncSupport)
    → let c : RunnerCapabilities = record {
      reported_version = v;
      wow64_layout = w;
      supported_prefix_architectures = a;
      sync_support = s;
    } in
      (layout_agrees c ≡ true) ↔ ServesBoth c
unfolding layout_agrees
agrees_iff unknown a v s = (λ _ e. cc e, λ _. refl)
agrees_iff (known new_wow64) a v s = (λ _ e. cc e, λ _. refl)
agrees_iff (known wine32_only) a v s = (λ _ e. cc e, λ _. refl)
agrees_iff (known old_wow64) unknown v s = (λ h. cc h, λ h. let (_, e, _, _) = h refl in cc e)
agrees_iff (known old_wow64) (known value) v s =
    let (x, x') = any_x86 value in
    let (y, y') = any_x86_64 value in
    (
      λ h _. (value, refl, x (ground arith), y (ground arith)),
      λ h.
          let (other, e, m, n) = h refl in
          let same : value ≡ other = cc e in
          let a = x' (rw same m) in let b = y' (rw same n) in ground arith,
    )

pub validate_capabilities_iff :
    (kind : RunnerKind) (probe : RunnerProbe)
    → (is_ok (validate_capabilities kind probe) ≡ true)
      ↔ Supports kind probe.capabilities.sync_support probe.sync × ServesBoth probe.capabilities
unfolding validate_capabilities
validate_capabilities_iff kind probe =
    let c = probe.capabilities in
    let (l, l') =
      agrees_iff c.wow64_layout c.supported_prefix_architectures c.reported_version
        c.sync_support in
    let (s, s') = expected_sync_iff kind c.sync_support probe.sync in
    elim (Option-cases (expected_sync kind c.sync_support)) [
      | inl e ↦ rw (e, validate_capabilities) (λ h. cc h, λ (h, _). cc (sym e ∙ s' h))
      | inr (q, e) ↦
          let (t, t') = same_sync_iff q probe.sync in
          rw (e, validate_capabilities)
            (
              λ h. (
                s (let same : q ≡ probe.sync = t (ground arith) in rw (sym same) e),
                l (ground arith),
              ),
              λ (h, b).
                  let same : q ≡ probe.sync = cc (sym e ∙ s' h) in
                  let t'' = t' same in let l'' = l' b in ground arith,
            )
    ]
