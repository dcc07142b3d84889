-- ===== src/Protocol.antt =====
-- crates/ro-session-protocol/src/lib.rs: the messages between the launcher and ro-sessiond, and
-- the checks of a process specification. Texts are lists of code points.
pub mod WellFormed
use nndsk_ro_launcher.Base.{
  ℕ, ◌+◌, Bool, true, false, ◌||◌, Option, none, some, List, [], ◌∷◌, Text, codes, text_eq,
  contains, contains_char, is_empty, length, ltb, ◌==◌, if◌then◌else◌, clamp, Result, ok, err,
  and_then,
}

abbrev pub protocol_version : ℕ
protocol_version = 1

abbrev pub max_message_bytes : ℕ
max_message_bytes = 1048576

abbrev pub max_launch_args : ℕ
max_launch_args = 4096

abbrev pub max_in_flight_launches : ℕ
max_in_flight_launches = 32

pub record EnvironmentChange : Type 0 where
  pub key : Text
  pub value : Option Text

pub record ProcessSpec : Type 0 where
  pub program : Text
  pub args : List Text
  pub cwd : Text
  pub env : List EnvironmentChange

pub data SessionRequest : Type 0 where
  hello : (version : ℕ) → SessionRequest
  launch : (request_id : Text) (spec : ProcessSpec) → SessionRequest
  shutdown : (request_id : Text) (shutdown_spec : ProcessSpec) (grace_ms : ℕ) → SessionRequest

pub data ValidationError : Type 0 where
  empty_env_key invalid_env_key duplicate_env_key env_value_contains_nul : ValidationError
  too_many_args missing_wine_prefix multiple_wine_prefix wine_prefix_unset : ValidationError

-- Why ro-sessiond refuses to launch a specification; the texts of `validate_spec_for_launch`.
pub data Refusal : Type 0 where
  invalid_structure : ValidationError → Refusal
  program_not_absolute program_not_executable cwd_not_absolute cwd_not_directory : Refusal
  cwd_inaccessible : (reason : Text) → Refusal
  wineprefix_missing wineprefix_not_canonical wineprefix_not_owned : Refusal
  steam_not_canonical steam_not_owned : Refusal

-- The stages of `SessionEvent::Error` (`ERROR_STAGES`).
pub data Stage : Type 0 where
  handshake validation launch reap shutdown protocol internal : Stage

-- The texts of `SessionEvent::Error`: a constructor for each literal or format of the code.
pub data ErrorMessage : Type 0 where
  second_hello_rejected launch_not_ready duplicate_request_id too_many_in_flight : ErrorMessage
  second_shutdown_rejected shutdown_rejected : ErrorMessage
  refused : Refusal → ErrorMessage
  controller_failed : (reason : Text) → ErrorMessage
  invalid_request : (reason : Text) → ErrorMessage
  hello_timeout hello_eof first_not_hello : ErrorMessage
  hello_unreadable hello_not_json : (reason : Text) → ErrorMessage
  unsupported_version : ℕ → ErrorMessage

pub data SessionEvent : Type 0 where
  ready : (version supervisor_pid : ℕ) (prefix : Text) (subreaper : Bool) → SessionEvent
  launch_accepted : (request_id : Text) (controller_pid controller_start_time : ℕ) → SessionEvent
  shutdown_accepted : (request_id : Text) → SessionEvent
  controller_exited :
      (request_id : Text) (controller_pid : ℕ) (exit_code signal : Option ℕ) → SessionEvent
  idle : SessionEvent
  error :
      (request_id : Option Text) (stage : Stage) (errno : Option ℕ) (message : ErrorMessage)
      → SessionEvent
  stopped : SessionEvent

unfoldable pub message : ValidationError → Text
message empty_env_key = codes "env key must not be empty"
message invalid_env_key = codes "env key must not contain NUL or '='"
message duplicate_env_key = codes "duplicate env keys in ProcessSpec"
message env_value_contains_nul = codes "env value must not contain NUL"
message too_many_args = codes "too many arguments in ProcessSpec"
message missing_wine_prefix = codes "ProcessSpec must include WINEPREFIX"
message multiple_wine_prefix = codes "ProcessSpec must include exactly one WINEPREFIX change"
message wine_prefix_unset = codes "WINEPREFIX must be set, not unset"

abbrev pub wineprefix : Text
wineprefix = codes "WINEPREFIX"

unfoldable pub validate_env_key : Text → Result ValidationError (Unit {0})
validate_env_key key =
    if is_empty key
    then err empty_env_key
    else if contains_char key 0 || contains_char key b'='
    then err invalid_env_key
    else ok tt

unfoldable pub value_contains_nul : Option Text → Bool
value_contains_nul none = false
value_contains_nul (some value) = contains_char value 0

-- What an accepted change adds to `wineprefix_count`.
unfoldable pub count_wineprefix : EnvironmentChange → ℕ → Result ValidationError ℕ
count_wineprefix change n =
    if text_eq change.key wineprefix
    then (elim change.value [ none ↦ err wine_prefix_unset | some _ ↦ ok (n + 1) ])
    else ok n

-- The body of the loop: the keys seen so far and `wineprefix_count`.
unfoldable pub validate_change :
    List Text → ℕ → EnvironmentChange → Result ValidationError (List Text × ℕ)
validate_change keys n change = and_then (validate_env_key change.key) λ _.
    if contains keys change.key
    then err duplicate_env_key
    else if value_contains_nul change.value
    then err env_value_contains_nul
    else and_then (count_wineprefix change n) λ n'. ok (change.key ∷ keys, n')

unfoldable pub validate_changes : List Text → ℕ → List EnvironmentChange → Result ValidationError ℕ
validate_changes keys n [] = ok n
validate_changes keys n (change ∷ env) =
    and_then (validate_change keys n change) λ (keys', n'). validate_changes keys' n' env

unfoldable pub validate_process_spec_structure : ProcessSpec → Result ValidationError (Unit {0})
validate_process_spec_structure spec =
    if ltb max_launch_args (length spec.args)
    then err too_many_args
    else and_then (validate_changes [] 0 spec.env) λ count.
      if count == 0
      then err missing_wine_prefix
      else if ltb 1 count
      then err multiple_wine_prefix
      else ok tt

unfoldable pub clamp_grace_ms : ℕ → ℕ
clamp_grace_ms = clamp 1000 10000
