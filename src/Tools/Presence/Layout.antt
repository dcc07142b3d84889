-- ===== src/Tools/Presence/Layout.antt =====
-- crates/ro-tools-core/src/presence.rs: the addresses of the character, given in a profile of the
-- client, by a scan, or derived from the address of the name.
use nndsk_ro_launcher.Base.{
  ℕ, ◌+◌, ◌-◌, ◌≡◌, ◌⊎◌, refl, inl, inr, Bool, false, Option, none, some, List, [], ◌∷◌, arith,
  Text, codes, All, In, find, ltb, min, ◌==◌, if◌then◌else◌, Bool-cases, Option-cases,
}
use nndsk_ro_launcher.Tools.Profiles.{unwrap_or}
use nndsk_ro_launcher.Tools.Spammer.Config.{filter_map}

infixl 5 ◌>>=◌
abbrev ◌>>=◌ : {A B : Type 0} → Option A → (A → Option B) → Option B
some a >>= f = f a
none >>= f = none

abbrev pub module_base : ℕ
module_base = 0x00400000

abbrev pub infinity_name_minus_hp : ℕ
infinity_name_minus_hp = 0x2A4C

pub record PresenceMemoryProfile : Type 0 where
  pub id : Text
  pub exe_names : List Text
  pub executable_sha256 : Text
  pub pe_build_timestamp : Text
  pub image_size : ℕ
  pub module_base : ℕ
  pub name_address : ℕ
  pub level_address : ℕ
  pub job_level_address : ℕ
  pub map_address : ℕ

pub record PresenceLayoutFamily : Type 0 where
  pub id : Text
  pub name_minus_hp : Option ℕ
  pub name_minus_level : ℕ
  pub name_minus_job : ℕ
  pub name_minus_map : ℕ

abbrev pub rathena_2018_family : PresenceLayoutFamily
rathena_2018_family = record {
  id = codes "derived-rathena-2018";
  name_minus_hp = some 0x27C8;
  name_minus_level = 0x61D8;
  name_minus_job = 0x61D0;
  name_minus_map = 0x706C;
}

abbrev pub sakura_2025_family : PresenceLayoutFamily
sakura_2025_family = record {
  id = codes "derived-sakura-2025";
  name_minus_hp = none;
  name_minus_level = 0x6B78;
  name_minus_job = 0x6B70;
  name_minus_map = 0x6BBC;
}

abbrev pub layout_families : List PresenceLayoutFamily
layout_families = rathena_2018_family ∷ sakura_2025_family ∷ []

-- `u32::checked_sub` and `u32::saturating_add`.
unfoldable pub checked_sub : ℕ → ℕ → Option ℕ
checked_sub a b = if ltb a b then none else some (a - b)

abbrev pub saturating_add : ℕ → ℕ → ℕ
saturating_add a b = min (a + b) 0xffffffff

abbrev pub profile_at : Text → (name level job map : ℕ) → PresenceMemoryProfile
profile_at id name level job map = record {
  id = id;
  exe_names = [];
  executable_sha256 = [];
  pe_build_timestamp = [];
  image_size = 0;
  module_base = module_base;
  name_address = name;
  level_address = level;
  job_level_address = job;
  map_address = map;
}

-- `PresenceLayoutFamily::apply`.
unfoldable pub apply_family : ℕ → PresenceLayoutFamily → Option PresenceMemoryProfile
apply_family name_address family = do
  level ← checked_sub name_address family.name_minus_level
  job ← checked_sub name_address family.name_minus_job
  map ← checked_sub name_address family.name_minus_map
  some (profile_at family.id name_address level job map)

abbrev pub has_delta : ℕ → Option ℕ → Bool
has_delta delta none = false
has_delta delta (some d) = d == delta

abbrev pub to_list {ℓ} : {A : Type ℓ} → Option A → List A
to_list none = []
to_list (some a) = a ∷ []

unfoldable pub derive_by_delta : ℕ → ℕ → List PresenceMemoryProfile
derive_by_delta name_address delta =
    if delta == infinity_name_minus_hp
    then []
    else to_list (do
      family ← find (λ family. has_delta delta family.name_minus_hp) layout_families
      apply_family name_address family)

unfoldable pub derive_presence_profiles : Option ℕ → Option ℕ → List PresenceMemoryProfile
derive_presence_profiles none hp_base = []
derive_presence_profiles (some name_address) none =
    filter_map (apply_family name_address) layout_families
derive_presence_profiles (some name_address) (some hp) = elim (checked_sub name_address hp) [
  | none ↦ []
  | some delta ↦ derive_by_delta name_address delta
]

abbrev pub only : List PresenceMemoryProfile → Option PresenceMemoryProfile
only (p ∷ []) = some p
only _ = none

unfoldable pub derive_presence_profile : Option ℕ → Option ℕ → Option PresenceMemoryProfile
derive_presence_profile name_address hp_base = only (derive_presence_profiles name_address hp_base)

pub record PresenceAddressOverrides : Type 0 where
  pub name : Option ℕ
  pub hp : Option ℕ
  pub level : Option ℕ
  pub job : Option ℕ
  pub map : Option ℕ

unfoldable pub explicit_presence_profile : PresenceAddressOverrides → Option PresenceMemoryProfile
explicit_presence_profile o = do
  name ← o.name
  level ← o.level
  map ← o.map
  some (profile_at (codes "scanned") name level (unwrap_or o.job (saturating_add level 8)) map)

unfoldable pub resolve_presence_memory_profiles :
    Option PresenceMemoryProfile
    → PresenceAddressOverrides
    → Option PresenceMemoryProfile × List PresenceMemoryProfile
resolve_presence_memory_profiles (some profile) o = (some profile, [])
resolve_presence_memory_profiles none o = elim (explicit_presence_profile o) [
  | some profile ↦ (none, profile ∷ [])
  | none ↦ (none, derive_presence_profiles o.name o.hp)
]

-- A derived profile lies at the distances of one of the families, below the name and with no wrap.
pub IsDerived : (name_address : ℕ) → PresenceMemoryProfile → Type 0
IsDerived name_address p =
    (family : PresenceLayoutFamily) × In family layout_families
    × (p.name_address ≡ name_address)
    × (p.level_address + family.name_minus_level ≡ name_address)
    × (p.job_level_address + family.name_minus_job ≡ name_address)
    × (p.map_address + family.name_minus_map ≡ name_address)

checked_sub-cases :
    (a b : ℕ) → (checked_sub a b ≡ none) ⊎ ((d : ℕ) × (checked_sub a b ≡ some d) × (d + b ≡ a))
unfolding checked_sub
checked_sub-cases a b = elim (Bool-cases (ltb a b)) [
  | inl e ↦ inl (rw e refl)
  | inr e ↦ inr (a - b, rw e refl, ground arith)
]

apply_family-IsDerived :
    (name : ℕ) (family : PresenceLayoutFamily)
    → In family layout_families
    → All (IsDerived name) (to_list (apply_family name family))
unfolding apply_family IsDerived
apply_family-IsDerived name family m = elim (checked_sub-cases name family.name_minus_level) [
  | inl e ↦ rw e tt
  | inr (l, e, lq) ↦ elim (checked_sub-cases name family.name_minus_job) [
    | inl f ↦ rw (e, f) tt
    | inr (j, f, jq) ↦ elim (checked_sub-cases name family.name_minus_map) [
      | inl g ↦ rw (e, f, g) tt
      | inr (p, g, pq) ↦ rw (e, f, g) ((family, m, refl, lq, jq, pq), tt)
    ]
  ]
]

derive_by_delta-IsDerived : (name delta : ℕ) → All (IsDerived name) (derive_by_delta name delta)
unfolding derive_by_delta
derive_by_delta-IsDerived name delta = elim (Bool-cases (delta == infinity_name_minus_hp)) [
  | inl e ↦ rw e tt
  | inr e ↦ elim (Bool-cases (0x27C8 == delta)) [
    | inl f ↦ rw (e, f) (apply_family-IsDerived name rathena_2018_family (inl refl))
    | inr f ↦ rw (e, f) tt
  ]
]

All-filter_map :
    (P : PresenceMemoryProfile → Type 0) (f : PresenceLayoutFamily → Option PresenceMemoryProfile)
    (xs : List PresenceLayoutFamily)
    → All (λ x. All P (to_list (f x))) xs
    → All P (filter_map f xs)
unfolding filter_map
All-filter_map P f [] h = tt
All-filter_map P f (x ∷ xs) h = elim (Option-cases (f x)) [
  | inl e ↦ rw (e, filter_map) (All-filter_map P f xs h.1)
  | inr (y, e) ↦ rw (e, filter_map) ((rw e at h.0).0, All-filter_map P f xs h.1)
]

-- Each profile that is derived lies at the distances of one of the known families: its addresses are
-- below the one of the name, and no subtraction has wrapped.
pub derive_presence_profiles-IsDerived :
    (name : ℕ) (hp_base : Option ℕ)
    → All (IsDerived name) (derive_presence_profiles (some name) hp_base)
unfolding derive_presence_profiles
derive_presence_profiles-IsDerived name none =
    All-filter_map (IsDerived name) (apply_family name) layout_families (
      apply_family-IsDerived name rathena_2018_family (inl refl),
      (apply_family-IsDerived name sakura_2025_family (inr (inl refl)), tt),
    )
derive_presence_profiles-IsDerived name (some hp) = elim (checked_sub-cases name hp) [
  | inl e ↦ rw (e, derive_presence_profiles) tt
  | inr (delta, e, _) ↦ rw (e, derive_presence_profiles) (derive_by_delta-IsDerived name delta)
]
