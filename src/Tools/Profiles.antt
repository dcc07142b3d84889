-- ===== src/Tools/Profiles.antt =====
-- crates/ro-tools-core/src/domain.rs and profiles.rs: which memory layout a client has. Texts are
-- compared by scalar values, of which the byte offsets of the source are the lengths.
use nndsk_ro_launcher.Base.{
  ℕ, ◌-◌, Bool, true, false, not, ◌&&◌, Option, none, some, List, [], ◌∷◌, Text, codes, is_empty,
  contains_char, text_eq, any, find, drop, length, ◌==◌, to_lower, strip_prefix, starts_with,
  ends_with, after_find, if◌then◌else◌, Result, ok, err, and_then,
}
use nndsk_ro_launcher.Tools.Ports.{Message, invalid_hex}
use nndsk_ro_launcher.Tools.Hex.{parse_hex}
use nndsk_ro_launcher.Tools.Autopot.Config.{AutopotConfig, ClientProfile}
pub mod Resolution

-- `str::split('*')`.
unfoldable pub add_first : ℕ → List Text → List Text
add_first c [] = (c ∷ []) ∷ []
add_first c (part ∷ parts) = (c ∷ part) ∷ parts

unfoldable pub split_star : Text → List Text
split_star [] = [] ∷ []
split_star (c ∷ s) = elim (c == b'*') [
  | true ↦ [] ∷ split_star s
  | false ↦ add_first c (split_star s)
]

-- What follows the first occurrence of `part`, letters of either case being equal.
unfoldable pub after_find_ignoring_case : Text → Text → Option Text
after_find_ignoring_case part rest = elim (after_find (to_lower part) (to_lower rest)) [
  | some r ↦ some (drop (length rest - length r) rest)
  | none ↦ none
]

module _ (search : Text → Text → Option Text) (pattern : Text) where
  -- The loop over the parts; `is_first` holds at the first.
  unfoldable pub match_parts : Bool → List Text → Text → Bool
  match_parts is_first [] rest = true
  match_parts is_first (part ∷ parts) rest = elim (is_empty part) [
    | true ↦ match_parts false parts rest
    | false ↦ elim (is_first && not (starts_with (codes "*") pattern)) [
      | true ↦ elim (strip_prefix part rest) [ some r ↦ match_parts false parts r | none ↦ false ]
      | false ↦ elim (is_empty parts && not (ends_with (codes "*") pattern)) [
        | true ↦ ends_with part rest
        | false ↦ elim (search part rest) [ some r ↦ match_parts false parts r | none ↦ false ]
      ]
    ]
  ]

unfoldable pub glob_match : Text → Text → Bool
glob_match pattern text =
    if contains_char pattern b'*'
    then match_parts after_find_ignoring_case pattern true (split_star pattern) text
    else text_eq (to_lower pattern) (to_lower text)

unfoldable pub matches_pattern : Text → Text → Bool
matches_pattern exe_lower pattern =
    let pat = to_lower pattern in
    if contains_char pat b'*' then glob_match pat exe_lower else text_eq pat exe_lower

unfoldable pub matches_exe : ClientProfile → Text → Bool
matches_exe profile exe_name = any (matches_pattern (to_lower exe_name)) profile.exe_names

abbrev pub default_profile : ClientProfile
default_profile = record {
  id = codes "rathena-default";
  label = codes "rAthena / OSRO default";
  exe_names = codes "OsRO Midrate.exe" ∷ codes "HoneyRO.exe" ∷ codes "*RO*.exe" ∷ [];
  hp_base = 0x10DCE10;
  name_address = 0x10DF5D8;
}

-- An entry of client_profiles.json, as serde decodes it.
pub record ProfileJsonEntry : Type 0 where
  pub id : Text
  pub label : Text
  pub exe_names : List Text
  pub hp_base : Text
  pub name_address : Text

abbrev pub hex_or_err : Text → Result Message ℕ
hex_or_err value = elim (parse_hex value) [ some n ↦ ok n | none ↦ err (invalid_hex value) ]

unfoldable pub profile_of_entry : ProfileJsonEntry → Result Message ClientProfile
profile_of_entry entry = and_then (hex_or_err entry.hp_base) λ hp_base.
    and_then (hex_or_err entry.name_address) λ name_address. ok (record {
      id = entry.id;
      label = entry.label;
      exe_names = entry.exe_names;
      hp_base = hp_base;
      name_address = name_address;
    })

-- `parse_profiles_json`, from the decoded entries on: the first error ends it.
unfoldable pub profiles_of_entries : List ProfileJsonEntry → Result Message (List ClientProfile)
profiles_of_entries [] = ok []
profiles_of_entries (entry ∷ entries) =
    and_then (profile_of_entry entry)
      λ profile. and_then (profiles_of_entries entries) λ profiles. ok (profile ∷ profiles)

unfoldable pub parsed_override : Option Text → Option ℕ
parsed_override none = none
parsed_override (some address) = parse_hex address

abbrev pub or_else {ℓ} : {A : Type ℓ} → Option A → Option A → Option A
or_else (some a) _ = some a
or_else none o = o

abbrev pub unwrap_or {ℓ} : {A : Type ℓ} → Option A → A → A
unwrap_or (some a) _ = a
unwrap_or none a = a

unfoldable pub find_by_id : List ClientProfile → Option Text → Option ClientProfile
find_by_id profiles none = none
find_by_id profiles (some profile_id) = find (λ profile. text_eq profile.id profile_id) profiles

-- `Path::file_name` is the parameter.
module _ (file_name : Text → Option Text) where
  abbrev pub exe_name_of : Text → Text
  exe_name_of exe_path = unwrap_or (file_name exe_path) exe_path

  unfoldable pub select_profile : List ClientProfile → Text → AutopotConfig → ClientProfile
  select_profile profiles exe_path config =
      unwrap_or
        (or_else (find_by_id profiles config.profile_id)
          (find (λ profile. matches_exe profile (exe_name_of exe_path)) profiles))
        default_profile

  unfoldable pub resolve_profile : List ClientProfile → Text → AutopotConfig → ClientProfile
  resolve_profile profiles exe_path config =
      let selected : ClientProfile = select_profile profiles exe_path config in
      record selected {
        hp_base = unwrap_or (parsed_override config.hp_base_override) selected.hp_base;
        name_address =
            unwrap_or (parsed_override config.name_address_override) selected.name_address;
      }
