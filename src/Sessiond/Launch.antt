-- ===== src/Sessiond/Launch.antt =====
-- crates/ro-sessiond/src/process.rs: what is checked before a controller is launched, and the
-- environment that it gets. The file system is a parameter.
pub mod Environment
use Prim.Native.Nat.{bit_and}
use nndsk_ro_launcher.Base.{
  ℕ, Bool, true, false, not, ◌&&◌, Option, none, some, List, [], ◌∷◌, Text, codes, text_eq,
  starts_with, ◌==◌, if◌then◌else◌, Result, ok, err, and_then,
}
use nndsk_ro_launcher.Base.Dict.{Text-eq, lookup, insert, remove}
use nndsk_ro_launcher.Protocol.{
  EnvironmentChange, ProcessSpec, wineprefix, Refusal, invalid_structure, program_not_absolute,
  program_not_executable, cwd_not_absolute, cwd_inaccessible, cwd_not_directory, wineprefix_missing,
  wineprefix_not_canonical, wineprefix_not_owned, steam_not_canonical, steam_not_owned,
  validate_process_spec_structure,
}

pub record Metadata : Type 0 where
  pub is_file : Bool
  pub is_dir : Bool
  pub mode : ℕ

-- `fs::metadata`, and `canonicalize_prefix_path` of the file system at the time of the call.
pub record FileSystem : Type 0 where
  pub metadata : Text → Result Text Metadata
  pub canonicalize : Text → Option Text

abbrev pub Environ : Type 0
Environ = List (Text × Text)

abbrev pub steam_compat_data_path : Text
steam_compat_data_path = codes "STEAM_COMPAT_DATA_PATH"

-- `Path::is_absolute` on Unix.
unfoldable pub is_absolute : Text → Bool
is_absolute path = starts_with (codes "/") path

unfoldable pub is_executable : FileSystem → Text → Bool
is_executable fs path = elim (fs.metadata path) [
  | ok m ↦ m.is_file && not (bit_and m.mode 0o111 == 0)
  | err _ ↦ false
]

unfoldable pub check_cwd : FileSystem → Text → Result Refusal (Unit {0})
check_cwd fs cwd =
    if is_absolute cwd
    then (elim (fs.metadata cwd) [
      | ok m ↦ if m.is_dir then ok tt else err cwd_not_directory
      | err reason ↦ err (cwd_inaccessible reason)
    ])
    else err cwd_not_absolute

unfoldable pub apply_change : EnvironmentChange → Environ → Environ
apply_change change env = elim change.value [
  | some value ↦ insert change.key value env
  | none ↦ remove change.key env
]

unfoldable pub apply_changes : List EnvironmentChange → Environ → Environ
apply_changes [] env = env
apply_changes (change ∷ changes) env = apply_changes changes (apply_change change env)

-- The inherited prefix variables are dropped, and the changes of the request applied.
unfoldable pub merge_env : Environ → List EnvironmentChange → Environ
merge_env base_env changes =
    apply_changes changes (remove steam_compat_data_path (remove wineprefix base_env))

-- The value canonicalizes to the owned prefix.
unfoldable pub check_owned :
    FileSystem → Text → Text → Refusal → Refusal → Result Refusal (Unit {0})
check_owned fs owned_prefix path not_canonical not_owned = elim (fs.canonicalize path) [
  | none ↦ err not_canonical
  | some canonical ↦ if text_eq canonical owned_prefix then ok tt else err not_owned
]

unfoldable pub check_wineprefix : FileSystem → Text → Environ → Result Refusal (Unit {0})
check_wineprefix fs owned_prefix env = elim (lookup wineprefix env) [
  | none ↦ err wineprefix_missing
  | some path ↦ check_owned fs owned_prefix path wineprefix_not_canonical wineprefix_not_owned
]

unfoldable pub check_steam : FileSystem → Text → Environ → Result Refusal (Unit {0})
check_steam fs owned_prefix env = elim (lookup steam_compat_data_path env) [
  | none ↦ ok tt
  | some path ↦ check_owned fs owned_prefix path steam_not_canonical steam_not_owned
]

unfoldable pub check_structure : ProcessSpec → Result Refusal (Unit {0})
check_structure spec = elim (validate_process_spec_structure spec) [
  | ok _ ↦ ok tt
  | err e ↦ err (invalid_structure e)
]

unfoldable pub check_program : FileSystem → Text → Result Refusal (Unit {0})
check_program fs program =
    if is_absolute program
    then (if is_executable fs program then ok tt else err program_not_executable)
    else err program_not_absolute

unfoldable pub validate_spec_for_launch :
    FileSystem → ProcessSpec → Text → Environ → Result Refusal Environ
validate_spec_for_launch fs spec owned_prefix base_env = and_then (check_structure spec) λ _.
    and_then (check_program fs spec.program) λ _. and_then (check_cwd fs spec.cwd) λ _.
      let env = merge_env base_env spec.env in
      and_then (check_wineprefix fs owned_prefix env)
        λ _. and_then (check_steam fs owned_prefix env) λ _. ok env
