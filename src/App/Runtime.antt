-- ===== src/App/Runtime.antt =====
-- src-tauri/src/tools/runtime: resolver.rs with the types of model.rs and probe.rs that it reads.
-- A set is a list.
pub mod Resolver
pub mod Capabilities
pub mod Accepted
pub mod Tests
use nndsk_ro_launcher.Base.{ℕ, Bool, Option, List, Text}

pub data RunnerKind : Type 0 where
  wine : RunnerKind
  proton : RunnerKind

-- `ResolvedRunner`, of which the kind and the path are read.
pub record ResolvedRunner : Type 0 where
  pub kind : RunnerKind
  pub runner_path : Text

pub data RunnerRequest : Type 0 where
  managed : (artifact_id : Text) → RunnerRequest
  external : (kind_hint : RunnerKind) (entrypoint : Text) → RunnerRequest

pub data RunnerSelectionSource : Type 0 where
  server_override : RunnerSelectionSource
  global_setting : RunnerSelectionSource
  product_default : RunnerSelectionSource

pub data GraphicsProfile : Type 0 where
  dxvk : GraphicsProfile
  dg_voodoo_dxvk : GraphicsProfile

pub record RuntimeProfile : Type 0 where
  pub runner : RunnerRequest
  pub selection_source : RunnerSelectionSource
  pub graphics : GraphicsProfile

pub data ComponentProvenance : Type 0 where
  artifact_receipt : (artifact_id : Text) → ComponentProvenance
  bundled_resource : (resource_id : Text) → ComponentProvenance
  external_observed : (is_complete : Bool) → ComponentProvenance
  legacy_unpinned : (recipe_id : Text) → ComponentProvenance

-- The roles of the observed material are numbers.
pub record RunnerIdentity : Type 0 where
  pub kind : RunnerKind
  pub provenance : ComponentProvenance
  pub roles : List ℕ

pub data CapabilityEvidence (A : Type 0) : Type 0 where
  known : A → CapabilityEvidence A
  unknown : CapabilityEvidence A

pub data PrefixArchitecture : Type 0 where
  x86 : PrefixArchitecture
  x86_64 : PrefixArchitecture

pub data Wow64Layout : Type 0 where
  old_wow64 : Wow64Layout
  new_wow64 : Wow64Layout
  wine32_only : Wow64Layout

pub data SyncSupport : Type 0 where
  wine_sync : (esync_declared fsync_patch_pair_declared : Bool) → SyncSupport
  managed_sync : SyncSupport

pub data SyncPlan : Type 0 where
  wine_server : SyncPlan
  esync : SyncPlan
  fsync : SyncPlan
  runner_managed : SyncPlan

pub record RunnerCapabilities : Type 0 where
  pub reported_version : CapabilityEvidence Text
  pub wow64_layout : CapabilityEvidence Wow64Layout
  pub supported_prefix_architectures : CapabilityEvidence (List PrefixArchitecture)
  pub sync_support : SyncSupport

pub record RunnerProbe : Type 0 where
  pub identity : RunnerIdentity
  pub capabilities : RunnerCapabilities
  pub sync : SyncPlan

pub record DgVoodooState : Type 0 where
  pub configured : Bool
  pub wrappers_verified : Bool

pub data RuntimeResolutionError : Type 0 where
  invalid_known_id : RuntimeResolutionError
  runner_request_mismatch : RuntimeResolutionError
  probe_kind_mismatch : RuntimeResolutionError
  probe_provenance_mismatch : RuntimeResolutionError
  capability_contradiction : RuntimeResolutionError
  dg_voodoo_not_verified : RuntimeResolutionError

pub record RunnerPlan : Type 0 where
  pub resolved : ResolvedRunner
  pub identity : RunnerIdentity
  pub capabilities : RunnerCapabilities
  pub sync : SyncPlan

pub data DxvkProvider : Type 0 where
  runner_owned : (component : Text) → DxvkProvider
  managed_prefix : (artifact_id : Text) → DxvkProvider
  winetricks_prefix : ComponentProvenance → DxvkProvider

-- The overlay of dgVoodoo with its resource and its component, when there is one.
pub record GraphicsPlan : Type 0 where
  pub overlay : Option (Text × Text)
  pub dxvk_provider : DxvkProvider

pub record RuntimePlan : Type 0 where
  pub runner : RunnerPlan
  pub graphics : GraphicsPlan
  pub prefix : Text
  pub webview2_required : Bool

pub record RuntimeResolutionInput : Type 0 where
  pub profile : RuntimeProfile
  pub resolved : ResolvedRunner
  pub prefix : Text
  pub probe : RunnerProbe
  pub dgvoodoo : DgVoodooState
  pub webview2_required : Bool
