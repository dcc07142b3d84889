-- ===== src/Tools/Presence/Snapshot.antt =====
-- crates/ro-tools-core/src/presence.rs: the four reads of a character and what they must look like.
use nndsk_ro_launcher.Base.{
  false, ℕ, ◌+◌, Bool, not, ◌&&◌, ◌||◌, Option, none, some, List, [], ◌∷◌, ◌++◌, Text, codes,
  is_empty, is_some, all, filter, take, trim, leb, ◌==◌, to_lower, strip_suffix, contains_char,
  text_eq, if◌then◌else◌, Result, ok, err,
}
use nndsk_ro_launcher.Tools.Ports.{
  ToolsError, other, literal, read_u32, read_string, History, Ports,
}
use nndsk_ro_launcher.Tools.Presence.Layout.{PresenceMemoryProfile}

abbrev pub max_text_len : ℕ
max_text_len = 40

abbrev pub max_level : ℕ
max_level = 300

pub data CharacterState : Type 0 where
  unknown : CharacterState
  in_game : CharacterState

pub record CharacterSnapshot : Type 0 where
  pub character_name : Option Text
  pub level : Option ℕ
  pub job_level : Option ℕ
  pub map_name : Option Text
  pub state : CharacterState

-- `char::is_control`.
unfoldable pub is_control : ℕ → Bool
is_control c = leb c 0x1f || leb 0x7f c && leb c 0x9f

unfoldable pub valid_level : ℕ → Option ℕ
valid_level value = if leb 1 value && leb value max_level then some value else none

unfoldable pub sanitize_text : Text → Option Text
sanitize_text value =
    let trimmed = trim (take max_text_len (filter (λ c. not (is_control c)) value)) in
    if is_empty trimmed then none else some trimmed

-- A character of a map's name: `is_ascii_alphanumeric`, or one of `_@-`.
unfoldable pub is_map_char : ℕ → Bool
is_map_char c =
    leb b'0' c && leb c b'9'
    || leb b'A' c && leb c b'Z'
    || leb b'a' c && leb c b'z'
    || contains_char (codes "_@-") c

unfoldable pub strip_extension : Text → Text
strip_extension value = elim (strip_suffix (codes ".rsw") value) [
  | some s ↦ s
  | none ↦ elim (strip_suffix (codes ".gat") value) [ some s ↦ s | none ↦ value ]
]

unfoldable pub checked_map_name : Text → Option Text
checked_map_name value = if is_empty value || not (all is_map_char value) then none else some value

unfoldable pub normalize_map_name : Text → Option Text
normalize_map_name value = elim (sanitize_text value) [
  | none ↦ none
  | some s ↦ checked_map_name (strip_extension (to_lower s))
]

-- The needles are the bytes of these texts.
unfoldable pub map_scan_needles : Text → Option (List Text)
map_scan_needles raw = elim (normalize_map_name raw) [
  | none ↦ none
  | some name ↦ some ((name ++ (0 ∷ [])) ∷ (name ++ codes ".rsw" ++ (0 ∷ [])) ∷ [])
]

-- What one read gives: whether it succeeded, the value, and the error after it.
pub record Field (A : Type 0) : Type 0 where
  pub reads : ℕ
  pub value : Option A
  pub last_error : Option ToolsError

unfoldable pub field :
    {A B : Type 0} → (A → Option B) → Result ToolsError A → Option ToolsError → Field B
field f (ok a) last = record { reads = 1; value = f a; last_error = last }
field f (err e) last = record { reads = 0; value = none; last_error = some e }

unfoldable pub state_of : Option Text → Option ℕ → Option Text → CharacterState
state_of name level map_name =
    if is_some name && is_some level && is_some map_name then in_game else unknown

abbrev pub error_or_default : Option ToolsError → ToolsError
error_or_default (some e) = e
error_or_default none = other (literal (codes "no se pudo leer ningún campo del personaje"))

-- From the four answers on.
unfoldable pub snapshot_of :
    (name : Result ToolsError Text) (level job : Result ToolsError ℕ)
    (map_name : Result ToolsError Text)
    → Result ToolsError CharacterSnapshot
snapshot_of name level job map_name =
    let a : Field Text = field sanitize_text name none in
    let b : Field ℕ = field valid_level level a.last_error in
    let c : Field ℕ = field valid_level job b.last_error in
    let d : Field Text = field normalize_map_name map_name c.last_error in
    if a.reads + b.reads + c.reads + d.reads == 0
    then err (error_or_default d.last_error)
    else ok (record {
      character_name = a.value;
      level = b.value;
      job_level = c.value;
      map_name = d.value;
      state = state_of a.value b.value d.value;
    })

module _ (ports : Ports) (profile : PresenceMemoryProfile) where
  abbrev pub after_name : History → History
  after_name h = read_string profile.name_address max_text_len ∷ h

  abbrev pub after_level : History → History
  after_level h = read_u32 profile.level_address ∷ after_name h

  abbrev pub after_job : History → History
  after_job h = read_u32 profile.job_level_address ∷ after_level h

  unfoldable pub read_character_snapshot : History → Result ToolsError CharacterSnapshot × History
  read_character_snapshot h = (
    snapshot_of (ports.on_read_string h profile.name_address max_text_len)
        (ports.on_read_u32 (after_name h) profile.level_address)
        (ports.on_read_u32 (after_level h) profile.job_level_address)
        (ports.on_read_string (after_job h) profile.map_address max_text_len),
    read_string profile.map_address max_text_len ∷ after_job h,
  )

unfoldable pub map_label_matches : Text → Text → Bool
map_label_matches raw expected = elim (normalize_map_name raw) [
  | none ↦ false
  | some name ↦ text_eq name expected
]
