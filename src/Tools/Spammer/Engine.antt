-- ===== src/Tools/Spammer/Engine.antt =====
-- crates/ro-tools-core/src/spammer/engine.rs: one cycle of key and click for each tick. The writer
-- of ports.rs is a parameter; what it answers may depend on all calls made before.
use nndsk_ro_launcher.Base.{
  ℕ, Bool, Option, none, some, List, ◌∷◌, Text, codes, trim, if◌then◌else◌, Result, ok, err,
}
use nndsk_ro_launcher.Tools.Ports.{ToolsError, input, literal}
use nndsk_ro_launcher.Tools.Spammer.Keys.{is_valid_spammer_key}
use nndsk_ro_launcher.Tools.Spammer.Config.{SpammerConfig, clamped_spammer, uses_shift_for}

pub data SpamModifier : Type 0 where
  shift : SpamModifier

-- The calls of `SpamCycleWriter`, newest first in a history; a deadline is a time in milliseconds.
pub data SpamCall : Type 0 where
  spam_cycle : (key : Text) (modifier : Option SpamModifier) (deadline : Option ℕ) → SpamCall
  release_spam : SpamCall

pub record SpamCycleWriter : Type 0 where
  pub on_spam_cycle : List SpamCall → Text → Option SpamModifier → Option ℕ → Result ToolsError Bool
  pub on_release_spam : List SpamCall → Result ToolsError (Unit {0})

pub record SpammerTick : Type 0 where
  pub cycled : Bool

pub record SpammerEngine : Type 0 where
  pub config : SpammerConfig

unfoldable pub new_spammer : SpammerConfig → SpammerEngine
new_spammer config = record { config = clamped_spammer config }

unfoldable pub update_spammer : SpammerEngine → SpammerConfig → SpammerEngine
update_spammer e config = record e { config = clamped_spammer config }

abbrev pub ticked : Result ToolsError Bool → Result ToolsError SpammerTick
ticked (ok cycled) = ok (record { cycled = cycled })
ticked (err e) = err e

unfoldable pub modifier_for : SpammerEngine → Text → Option SpamModifier
modifier_for e key = if uses_shift_for e.config key then some shift else none

module _ (writer : SpamCycleWriter) where
  unfoldable pub tick_with_deadline :
      SpammerEngine
      → Text
      → Option ℕ
      → List SpamCall
      → Result ToolsError SpammerTick × List SpamCall
  tick_with_deadline e label deadline h =
      let key = trim label in
      if is_valid_spammer_key key
      then (
        ticked (writer.on_spam_cycle h key (modifier_for e key) deadline),
        spam_cycle key (modifier_for e key) deadline ∷ h,
      )
      else (err (input key (literal (codes "tecla spammer no soportada"))), h)

  unfoldable pub tick_spammer :
      SpammerEngine → Text → List SpamCall → Result ToolsError SpammerTick × List SpamCall
  tick_spammer e key = tick_with_deadline e key none

  unfoldable pub release : List SpamCall → Result ToolsError (Unit {0}) × List SpamCall
  release h = (writer.on_release_spam h, release_spam ∷ h)
