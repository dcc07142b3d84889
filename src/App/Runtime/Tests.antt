-- ===== src/App/Runtime/Tests.antt =====
-- The resolver at concrete inputs.
use nndsk_ro_launcher.Base.{◌≡◌, ◌↔◌, true, false, none, [], ◌∷◌, Text, codes, is_ok, is_empty}
use nndsk_ro_launcher.App.Runtime.{
  wine, external, server_override, dg_voodoo_dxvk, external_observed, known, x86, x86_64, old_wow64,
  wine_sync, esync, RuntimeResolutionInput,
}
use nndsk_ro_launcher.App.Runtime.Resolver.{Paths, resolve_runtime}
use nndsk_ro_launcher.App.Runtime.Accepted.{IsRequested, IsReady, resolve_runtime_iff}
use nndsk_ro_launcher.App.Runtime.Capabilities.{Supports, ServesBoth}

abbrev runner_path : Text
runner_path = codes "/opt/wine/bin/wine"

abbrev paths : Paths
paths = record { managed_proton_id_for_path = λ _. none; paths_match = λ _ _. true }

-- A Wine of the older layout with esync, and dgVoodoo.
abbrev wine_input : RuntimeResolutionInput
wine_input = record {
  profile = record {
    runner = external wine runner_path;
    selection_source = server_override;
    graphics = dg_voodoo_dxvk;
  };
  resolved = record { kind = wine; runner_path = runner_path };
  prefix = codes "/home/p";
  probe = record {
    identity = record { kind = wine; provenance = external_observed true; roles = 0 ∷ [] };
    capabilities = record {
      reported_version = known (codes "wine-9.0");
      wow64_layout = known old_wow64;
      supported_prefix_architectures = known (x86 ∷ x86_64 ∷ []);
      sync_support = wine_sync true false;
    };
    sync = esync;
  };
  dgvoodoo = record { configured = true; wrappers_verified = true };
  webview2_required = false;
}

resolve_runtime_iff_example :
    (is_ok (resolve_runtime paths wine_input) ≡ true)
    ↔ (wine ≡ wine)
      × IsRequested paths wine_input.profile.runner wine_input.resolved wine_input.probe
      × (is_empty wine_input.probe.identity.roles ≡ false)
      × Supports wine (wine_sync true false) esync
      × ServesBoth wine_input.probe.capabilities
      × IsReady dg_voodoo_dxvk wine_input.dgvoodoo
resolve_runtime_iff_example = resolve_runtime_iff paths wine_input
