-- ===== src/Tools/Profiles/Resolution.antt =====
-- Which profile a client gets.
use nndsk_ro_launcher.Base.{
  IsFirst, find-IsFirst, subst, Bool, ◌≡◌, ◌⊎◌, refl, inl, inr, false, Option, none, some, List,
  Text, All, text_eq,
}
use nndsk_ro_launcher.Tools.Autopot.Config.{AutopotConfig, ClientProfile}
use nndsk_ro_launcher.Tools.Profiles.{
  find_by_id, matches_exe, default_profile, exe_name_of, select_profile, resolve_profile,
  parsed_override, unwrap_or,
}

abbrev pub has_id : Text → ClientProfile → Bool
has_id id profile = text_eq profile.id id

-- No profile has the configured id, if one is configured.
abbrev pub NoneHasId : List ClientProfile → Option Text → Type 0
NoneHasId profiles profile_id =
    (id : Text) → profile_id ≡ some id → All (λ p. has_id id p ≡ false) profiles

-- How the profile is selected: the first with the configured id; if there is none, the first that
-- matches the name of the executable; if none matches that, the default.
pub data Selected (profiles : List ClientProfile) (exe_name : Text) (profile_id : Option Text)
    : ClientProfile → Type 0 where
  by_id :
      (p : ClientProfile) (id : Text)
      → profile_id ≡ some id
      → IsFirst (has_id id) profiles p
      → Selected profiles exe_name profile_id p
  by_exe :
      (p : ClientProfile)
      → NoneHasId profiles profile_id
      → IsFirst (λ q. matches_exe q exe_name) profiles p
      → Selected profiles exe_name profile_id p
  by_default :
      NoneHasId profiles profile_id
      → All (λ p. matches_exe p exe_name ≡ false) profiles
      → Selected profiles exe_name profile_id default_profile

find_by_id-cases :
    (profiles : List ClientProfile) (profile_id : Option Text)
    → ((p : ClientProfile) × (find_by_id profiles profile_id ≡ some p)
        × ((id : Text) × (profile_id ≡ some id) × IsFirst (has_id id) profiles p))
      ⊎ ((find_by_id profiles profile_id ≡ none) × NoneHasId profiles profile_id)
unfolding find_by_id
find_by_id-cases profiles none = inr (refl, λ id e. cc e)
find_by_id-cases profiles (some id) = elim (find-IsFirst (has_id id) profiles) [
  | inl (p, e, first) ↦ inl (p, e, (id, refl, first))
  | inr (e, all) ↦ inr (e, λ id' f. subst (λ i. All (λ p. has_id i p ≡ false) profiles) (cc f) all)
]

-- The profile is the selected one, with each address that an override gives in its place.
pub resolve_profile-Selected :
    (file_name : Text → Option Text) (profiles : List ClientProfile) (exe_path : Text)
    (config : AutopotConfig)
    → (p : ClientProfile) × Selected profiles (exe_name_of file_name exe_path) config.profile_id p
      × (resolve_profile file_name profiles exe_path config ≡ record p {
        hp_base = unwrap_or (parsed_override config.hp_base_override) p.hp_base;
        name_address = unwrap_or (parsed_override config.name_address_override) p.name_address;
      })
unfolding resolve_profile select_profile
resolve_profile-Selected file_name profiles exe_path config =
    let exe_name = exe_name_of file_name exe_path in
    elim (find_by_id-cases profiles config.profile_id) [
      | inl (p, e, (id, k, first)) ↦ (p, by_id p id k first, rw e refl)
      | inr (e, no_id) ↦ elim (find-IsFirst (λ profile. matches_exe profile exe_name) profiles) [
        | inl (p, f, first) ↦ (p, by_exe p no_id first, rw (e, f) refl)
        | inr (f, all) ↦ (default_profile, by_default no_id all, rw (e, f) refl)
      ]
    ]
