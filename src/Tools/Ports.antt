-- ===== src/Tools/Ports.antt =====
-- crates/ro-tools-core/src/ports.rs and error.rs: the memory of the game and the keyboard as the
-- engines see them. An adapter is a parameter; its answer may depend on all calls made before, so
-- every change of the game between two calls is covered. The monad of an engine method keeps the
-- changes that are made before an error.
use nndsk_ro_launcher.Base.{ℕ, List, [], ◌∷◌, Text, Result, ok, err}

pub data Message : Type 0 where
  literal : Text → Message
  incomplete_hp_sp : (found : ℕ) → Message
  invalid_hex : (value : Text) → Message
  incomplete_hp : (found : ℕ) → Message
  unsupported_rule_key : (label key : Text) → Message
  repeated_status_id : ℕ → Message

pub data ToolsError : Type 0 where
  memory_read : (address : ℕ) (message : Message) → ToolsError
  input : (key : Text) (message : Message) → ToolsError
  other : (message : Message) → ToolsError

-- The calls of `MemoryReader` and `KeyPressWriter`, newest first in a history.
pub data Call : Type 0 where
  read_u32 : (address : ℕ) → Call
  read_u32_slice : (address len : ℕ) → Call
  read_string : (address max_len : ℕ) → Call
  press_key : (key : Text) → Call

abbrev pub History : Type 0
History = List Call

pub record Ports : Type 0 where
  pub on_read_u32 : History → ℕ → Result ToolsError ℕ
  pub on_read_u32_slice : History → ℕ → ℕ → Result ToolsError (List ℕ)
  pub on_read_string : History → ℕ → ℕ → Result ToolsError Text
  pub on_press_key : History → Text → Result ToolsError (Unit {0})

-- A method on `&mut self` that talks to the ports and may fail.
abbrev pub Method : Type 0 → Type 0 → Type 0
Method S A = S → History → Result ToolsError A × S × History

module _ {S A : Type 0} where
  abbrev pub pure : A → Method S A
  pure a s h = (ok a, s, h)

  abbrev pub fail : ToolsError → Method S A
  fail e s h = (err e, s, h)

  abbrev pub perform : (History → Result ToolsError A) → Call → Method S A
  perform answer call s h = (answer h, s, call ∷ h)

abbrev pub continue_with : {S A B : Type 0} → Result ToolsError A → (A → Method S B) → Method S B
continue_with (ok a) f = f a
continue_with (err e) f = fail e

infixl 5 ◌>>=◌ ◌>>◌
abbrev pub ◌>>=◌ : {S A B : Type 0} → Method S A → (A → Method S B) → Method S B
◌>>=◌ m f s h = let (r, s', h') = m s h in continue_with r f s' h'

abbrev pub ◌>>◌ : {S A B : Type 0} → Method S A → Method S B → Method S B
m >> k = m >>= λ _. k

abbrev pub get : {S : Type 0} → Method S S
get s h = (ok s, s, h)

abbrev pub modify : {S : Type 0} → (S → S) → Method S (Unit {0})
modify f s h = (ok tt, f s, h)

-- The keys of a history, newest first.
abbrev pub pressed : History → List Text
pressed [] = []
pressed (press_key k ∷ h) = k ∷ pressed h
pressed (_ ∷ h) = pressed h
