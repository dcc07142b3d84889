-- ===== src/Tools/Presence/Tests.antt =====
-- Runs of the profiles and of the presence at concrete inputs.
use nndsk_ro_launcher.Base.{
  ◌≡◌, ◌↔◌, refl, false, some, none, Option, ok, err, Result, [], Text, codes, All,
}
use nndsk_ro_launcher.Tools.Ports.{ToolsError, other, literal}
use nndsk_ro_launcher.Tools.Autopot.Config.{ClientProfile, default_config}
use nndsk_ro_launcher.Tools.Profiles.{exe_name_of, resolve_profile, parsed_override, unwrap_or}
use nndsk_ro_launcher.Tools.Profiles.Resolution.{Selected, resolve_profile-Selected}
use nndsk_ro_launcher.Tools.Presence.Layout.{
  IsDerived, derive_presence_profiles, derive_presence_profiles-IsDerived,
}
use nndsk_ro_launcher.Tools.Presence.Snapshot.{
  CharacterSnapshot, snapshot_of, field, valid_level, state_of, unknown,
}
use nndsk_ro_launcher.Base.{filter, trim, to_lower, strip_suffix, contains_char}
use nndsk_ro_launcher.Tools.Presence.Snapshot.{
  normalize_map_name, sanitize_text, is_control, strip_extension, checked_map_name, is_map_char,
}
use nndsk_ro_launcher.Tools.Presence.MapNames.{IsMapName, normalize_map_name-IsMapName}
use nndsk_ro_launcher.Tools.Presence.Reading.{IsSnapshot, snapshot_of-IsSnapshot, snapshot_of_err}

abbrev keep_path : Text → Option Text
keep_path path = some path

resolve_profile-Selected_example :
    (p : ClientProfile) × Selected [] (exe_name_of keep_path (codes "HoneyRO.exe")) none p
    × (resolve_profile keep_path [] (codes "HoneyRO.exe") default_config ≡ record p {
      hp_base = unwrap_or (parsed_override none) p.hp_base;
      name_address = unwrap_or (parsed_override none) p.name_address;
    })
resolve_profile-Selected_example =
    resolve_profile-Selected keep_path [] (codes "HoneyRO.exe") default_config

derive_presence_profiles-IsDerived_example :
    All (IsDerived 0x10DF5D8) (derive_presence_profiles (some 0x10DF5D8) (some 0x10DCE10))
derive_presence_profiles-IsDerived_example =
    derive_presence_profiles-IsDerived 0x10DF5D8 (some 0x10DCE10)

abbrev unread : {A : Type 0} → Result ToolsError A
unread = err (other (literal (codes "missing")))

abbrev seen : CharacterSnapshot
seen = record {
  character_name = none;
  level = some 99;
  job_level = none;
  map_name = none;
  state = unknown;
}

seen_snapshot : snapshot_of unread (ok 99) (ok 301) unread ≡ ok seen
unfolding snapshot_of field valid_level state_of
seen_snapshot = refl

snapshot_of-IsSnapshot_example : IsSnapshot seen
snapshot_of-IsSnapshot_example =
    snapshot_of-IsSnapshot unread (ok 99) (ok 301) unread seen seen_snapshot

snapshot_of_err_example :
    (snapshot_of unread unread unread unread ≡ err (other (literal (codes "missing"))))
    ↔ (false ≡ false)
      × (false ≡ false)
      × (false ≡ false)
      × (unread {A = Text} ≡ err (other (literal (codes "missing"))))
snapshot_of_err_example =
    snapshot_of_err unread unread unread unread (other (literal (codes "missing")))

prontera : normalize_map_name (codes "Prontera.GAT") ≡ some (codes "prontera")
unfolding normalize_map_name sanitize_text is_control filter trim to_lower strip_extension
    strip_suffix checked_map_name is_map_char contains_char
prontera = refl

normalize_map_name-IsMapName_example :
    IsMapName (codes "prontera") × (normalize_map_name (codes "prontera") ≡ some (codes "prontera"))
normalize_map_name-IsMapName_example =
    normalize_map_name-IsMapName (codes "Prontera.GAT") (codes "prontera") prontera
