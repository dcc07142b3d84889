-- ===== src/App/InputWorker/Commands.antt =====
-- `execute_command`: one command of the worker's queues, and runs of them.
use nndsk_ro_launcher.Base.{
  ℕ, Bool, true, false, ◌&&◌, ◌||◌, Option, none, some, List, [], ◌∷◌, Text, leb, max, ok, err,
  if◌then◌else◌,
}
use nndsk_ro_launcher.Tools.Ports.{ToolsError}
use nndsk_ro_launcher.Tools.Spammer.Engine.{SpamModifier}
use nndsk_ro_launcher.App.InputWorker.{
  ℤ, InputDevice, SpamState, Checks, Done, release_spam_inputs, spam_cycle, press_key, key_event,
}

pub data CommandKind : Type 0 where
  press : Text → CommandKind
  cycle : Text → Option SpamModifier → CommandKind
  release_spam : CommandKind
  event : Text → ℤ → CommandKind

-- `is_late` tells whether the command is taken up after its deadline.
pub record WorkerCommand : Type 0 where
  pub kind : CommandKind
  pub sequence : ℕ
  pub is_late : Bool
  pub checks : Checks

pub data CommandOutcome : Type 0 where
  completed : CommandOutcome
  overrun : CommandOutcome
  failed : ToolsError → CommandOutcome

abbrev pub is_cycle : CommandKind → Bool
is_cycle (cycle _ _) = true
is_cycle (press _) = false
is_cycle release_spam = false
is_cycle (event _ _) = false

-- The command was enqueued no later than a release that has run.
unfoldable pub is_stale : ℕ → SpamState → Bool
is_stale sequence st = elim st.cancelled_through [
  | none ↦ false
  | some cutoff ↦ leb sequence cutoff
]

unfoldable pub is_cancelled : WorkerCommand → SpamState → Bool
unfolding is_stale
is_cancelled command st =
    is_cycle command.kind && (is_stale command.sequence st || command.checks.at_start)

-- A release marks the commands enqueued before it.
unfoldable pub cut_off : ℕ → SpamState → SpamState
cut_off sequence st = record st {
  cancelled_through = elim st.cancelled_through [
    | none ↦ some sequence
    | some cutoff ↦ some (max cutoff sequence)
  ];
}

abbrev pub Executed : Type 0 → Type 0
Executed Dev = CommandOutcome × SpamState × Dev

module _ {Dev : Type 0} where
  -- A cycle that was cancelled on its way is an overrun.
  unfoldable pub cycle_outcome : Done Dev Bool → Executed Dev
  cycle_outcome (ok true, st, d) = (completed, st, d)
  cycle_outcome (ok false, st, d) = (overrun, st, d)
  cycle_outcome (err e, st, d) = (failed e, st, d)

  unfoldable pub outcome : Done Dev (Unit {0}) → Executed Dev
  outcome (ok _, st, d) = (completed, st, d)
  outcome (err e, st, d) = (failed e, st, d)

module _ {Dev : Type 0} (device : InputDevice Dev) where
  -- The `match` on the kind.
  unfoldable pub execute_kind : CommandKind → WorkerCommand → SpamState → Dev → Executed Dev
  unfolding cycle_outcome outcome spam_cycle press_key release_spam_inputs key_event cut_off
  execute_kind (press key) command st d = outcome (press_key device key st d)
  execute_kind (cycle key modifier) command st d =
      cycle_outcome (spam_cycle device key modifier command.checks st d)
  execute_kind release_spam command st d =
      outcome (release_spam_inputs device (cut_off command.sequence st) d)
  execute_kind (event key value) command st d = outcome (key_event device key value st d)

  unfoldable pub execute_command : WorkerCommand → SpamState → Dev → Executed Dev
  unfolding is_cancelled execute_kind
  execute_command command st d =
      if is_cancelled command st
      then (overrun, st, d)
      else if command.is_late
      then (overrun, st, d)
      else execute_kind command.kind command st d

  -- The commands that the worker takes from its queues, in this order.
  unfoldable pub execute : List WorkerCommand → SpamState → Dev → SpamState × Dev
  unfolding execute_command
  execute [] st d = (st, d)
  execute (command ∷ commands) st d =
      let (_, st', d') = execute_command command st d in execute commands st' d'
