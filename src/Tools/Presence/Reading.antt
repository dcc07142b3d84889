-- ===== src/Tools/Presence/Reading.antt =====
-- What a snapshot of the character promises.
use nndsk_ro_launcher.Base.{
  ℕ, ◌+◌, ◌≤◌, ◌≡◌, ◌↔◌, subst, refl, inl, inr, true, false, ◌&&◌, Option, none, some, arith, Text,
  leb, ◌==◌, Result, ok, err, is_ok, is_some, Bool-cases,
}
use nndsk_ro_launcher.Tools.Ports.{ToolsError}
use nndsk_ro_launcher.Tools.Presence.Snapshot.{
  CharacterSnapshot, Field, in_game, valid_level, sanitize_text, normalize_map_name, field,
  state_of, snapshot_of,
}

-- A level that is shown is one of the game's.
pub IsLevel : Option ℕ → Type 0
IsLevel none = Unit
IsLevel (some l) = (1 ≤ l) × (l ≤ 300)

pub record IsSnapshot (s : CharacterSnapshot) : Type 0 where
  pub level : IsLevel s.level
  pub job_level : IsLevel s.job_level
  pub playing :
      (s.state ≡ in_game)
      ↔ (is_some s.character_name && is_some s.level && is_some s.map_name ≡ true)

field-IsLevel :
    (r : Result ToolsError ℕ) (last : Option ToolsError) → IsLevel (field valid_level r last).value
unfolding field valid_level IsLevel
field-IsLevel (err e) last = tt
field-IsLevel (ok v) last = elim (Bool-cases (leb 1 v && leb v 300)) [
  | inl h ↦ rw h (ground arith, ground arith)
  | inr h ↦ rw h tt
]

state_of_iff :
    (a : Option Text) (b : Option ℕ) (c : Option Text)
    → (state_of a b c ≡ in_game) ↔ (is_some a && is_some b && is_some c ≡ true)
unfolding state_of
state_of_iff a b c = elim (Bool-cases (is_some a && is_some b && is_some c)) [
  | inl h ↦ rw h (λ _. refl, λ _. refl)
  | inr h ↦ rw h (λ k. cc, λ k. cc)
]

-- A snapshot that is taken shows levels from 1 to 300 only, and the character in the game exactly if
-- name, level and map are all known.
pub snapshot_of-IsSnapshot :
    (name : Result ToolsError Text) (level job : Result ToolsError ℕ)
    (map_name : Result ToolsError Text) (s : CharacterSnapshot)
    → snapshot_of name level job map_name ≡ ok s
    → IsSnapshot s
unfolding snapshot_of
snapshot_of-IsSnapshot name level job map_name s h =
    let a : Field Text = field sanitize_text name none in
    let b : Field ℕ = field valid_level level a.last_error in
    let c : Field ℕ = field valid_level job b.last_error in
    let d : Field Text = field normalize_map_name map_name c.last_error in
    let shown : CharacterSnapshot = record {
      character_name = a.value;
      level = b.value;
      job_level = c.value;
      map_name = d.value;
      state = state_of a.value b.value d.value;
    } in
    let promised : IsSnapshot shown = record {
      level = field-IsLevel level a.last_error;
      job_level = field-IsLevel job b.last_error;
      playing = state_of_iff a.value b.value d.value;
    } in
    elim (Bool-cases (a.reads + b.reads + c.reads + d.reads == 0)) [
      | inl e ↦ cc (rw e at h)
      | inr e ↦ let same : shown ≡ s = cc (rw e at h) in subst IsSnapshot same promised
    ]

-- A snapshot fails exactly if all four reads fail, with the error of the last one.
pub snapshot_of_err :
    (name : Result ToolsError Text) (level job : Result ToolsError ℕ)
    (map_name : Result ToolsError Text) (e : ToolsError)
    → (snapshot_of name level job map_name ≡ err e)
      ↔ (is_ok name ≡ false) × (is_ok level ≡ false) × (is_ok job ≡ false) × (map_name ≡ err e)
unfolding snapshot_of field
snapshot_of_err (ok a) (ok b) (ok c) (ok d) e = (λ h. cc, λ h. cc)
snapshot_of_err (ok a) (ok b) (ok c) (err d) e = (λ h. cc, λ h. cc)
snapshot_of_err (ok a) (ok b) (err c) (ok d) e = (λ h. cc, λ h. cc)
snapshot_of_err (ok a) (ok b) (err c) (err d) e = (λ h. cc, λ h. cc)
snapshot_of_err (ok a) (err b) (ok c) (ok d) e = (λ h. cc, λ h. cc)
snapshot_of_err (ok a) (err b) (ok c) (err d) e = (λ h. cc, λ h. cc)
snapshot_of_err (ok a) (err b) (err c) (ok d) e = (λ h. cc, λ h. cc)
snapshot_of_err (ok a) (err b) (err c) (err d) e = (λ h. cc, λ h. cc)
snapshot_of_err (err a) (ok b) (ok c) (ok d) e = (λ h. cc, λ h. cc)
snapshot_of_err (err a) (ok b) (ok c) (err d) e = (λ h. cc, λ h. cc)
snapshot_of_err (err a) (ok b) (err c) (ok d) e = (λ h. cc, λ h. cc)
snapshot_of_err (err a) (ok b) (err c) (err d) e = (λ h. cc, λ h. cc)
snapshot_of_err (err a) (err b) (ok c) (ok d) e = (λ h. cc, λ h. cc)
snapshot_of_err (err a) (err b) (ok c) (err d) e = (λ h. cc, λ h. cc)
snapshot_of_err (err a) (err b) (err c) (ok d) e = (λ h. cc, λ h. cc)
snapshot_of_err (err a) (err b) (err c) (err d) e = (λ h. (refl, refl, refl, cc), λ h. cc)
