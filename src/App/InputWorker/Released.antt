-- ===== src/App/InputWorker/Released.antt =====
-- What is down after a release of the spammer.
use nndsk_ro_launcher.Base.{
  ℕ, ◌≤◌, ◌≡◌, ◌⊎◌, inl, inr, refl, sym, ap, subst, ◌∙◌, max, Bool, true, false, Option, some, List,
  [], ◌∷◌, All, leb, Bool-cases, if_cases, option_cases, ok, err, if◌then◌else◌, arith,
}
use nndsk_ro_launcher.App.InputWorker.{InputDevice, SpamState, default_state, Done}
use nndsk_ro_launcher.App.InputWorker.Commands.{
  CommandKind, press, cycle, release_spam, event, WorkerCommand, completed, overrun, is_cycle,
  is_stale, is_cancelled, cut_off, Executed, cycle_outcome, outcome, execute_kind, execute_command,
  execute,
}
use nndsk_ro_launcher.App.InputWorker.Held.{
  Input, key, shift, mouse, FailsUp, IsFollowed, InputLaws, recorded, Covers,
}
use nndsk_ro_launcher.App.InputWorker.Cycles.{
  IsClear, Leaves, release_spam_inputs-Leaves, Keeps, spam_cycle-Keeps,
}

-- The commands of the spammer.
abbrev pub IsOfSpammer : WorkerCommand → Type 0
IsOfSpammer command = (is_cycle command.kind ≡ true) ⊎ (command.kind ≡ release_spam)

-- A cycle that was enqueued no later than a command.
abbrev pub IsOlder : ℕ → WorkerCommand → Type 0
IsOlder sequence command = (is_cycle command.kind ≡ true) × (command.sequence ≤ sequence)

module _ {Dev : Type 0} (device : InputDevice Dev) (laws : InputLaws device) (with_shift : Bool)
    (steady : with_shift ≡ true → FailsUp device laws) where
  abbrev Covered : Executed Dev → Type 0
  Covered (_, st, d) = Covers device laws with_shift steady st d

  -- The mark of older commands does not bear on what is held.
  marked :
      (sequence : ℕ) (st : SpamState) (d : Dev)
      → Covers device laws with_shift steady st d
      → Covers device laws with_shift steady (cut_off sequence st) d
  unfolding cut_off recorded
  marked sequence st d h (key k) n e = h (key k) n e
  marked sequence st d h shift n e = h shift n e
  marked sequence st d h mouse n e = h mouse n e

  cycle_outcome-Covered :
      (t : Done Dev Bool) → Keeps device laws with_shift steady t → Covered (cycle_outcome t)
  unfolding cycle_outcome
  cycle_outcome-Covered (ok true, st, d) h = h
  cycle_outcome-Covered (ok false, st, d) h = h
  cycle_outcome-Covered (err e, st, d) h = h

  outcome-Covered :
      (t : Done Dev (Unit {0})) → Keeps device laws with_shift steady t → Covered (outcome t)
  unfolding outcome
  outcome-Covered (ok u, st, d) h = h
  outcome-Covered (err e, st, d) h = h

  execute_kind-Covered :
      (kind : CommandKind) (command : WorkerCommand) (st : SpamState) (d : Dev)
      → (is_cycle kind ≡ true) ⊎ (kind ≡ release_spam)
      → Covers device laws with_shift steady st d
      → Covered (execute_kind device kind command st d)
  unfolding execute_kind
  execute_kind-Covered (cycle label m) command st d k h =
      cycle_outcome-Covered _
        (spam_cycle-Keeps device laws with_shift steady label m command.checks st d h)
  execute_kind-Covered release_spam command st d k h =
      outcome-Covered _
        (release_spam_inputs-Leaves device laws with_shift steady _ d
          (marked command.sequence st d h)).0
  execute_kind-Covered (press label) command st d k h = elim k [ inl e ↦ cc e | inr e ↦ cc e ]
  execute_kind-Covered (event label v) command st d k h = elim k [ inl e ↦ cc e | inr e ↦ cc e ]

  execute_command-Covered :
      (command : WorkerCommand) (st : SpamState) (d : Dev)
      → IsOfSpammer command
      → Covers device laws with_shift steady st d
      → Covered (execute_command device command st d)
  unfolding execute_command
  execute_command-Covered command st d k h =
      if_cases Covered (is_cancelled command st) (λ _. h)
        (λ _.
          if_cases Covered command.is_late (λ _. h)
            (λ _. execute_kind-Covered command.kind command st d k h))

  execute-Covers :
      (commands : List WorkerCommand) (st : SpamState) (d : Dev)
      → All IsOfSpammer commands
      → Covers device laws with_shift steady st d
      → let t = execute device commands st d in Covers device laws with_shift steady t.0 t.1
  unfolding execute
  execute-Covers [] st d k h = h
  execute-Covers (command ∷ commands) st d (k, ks) h =
      let (_, st', d') = execute_command device command st d in
      execute-Covers commands st' d' ks (execute_command-Covered command st d k h)

  clear-recorded : (st : SpamState) → IsClear st → (i : Input) → recorded st i ≡ false
  unfolding recorded
  clear-recorded st (m, k, s) (key label) = rw k refl
  clear-recorded st (m, k, s) shift = rw s refl
  clear-recorded st (m, k, s) mouse = m

  -- Nothing is down where nothing is held.
  clear-down :
      (st : SpamState) (d : Dev)
      → Covers device laws with_shift steady st d
      → IsClear st
      → (i : Input) → IsFollowed with_shift i
      → laws.down d i ≡ false
  unfolding recorded
  clear-down st d h c i n = elim (Bool-cases (laws.down d i)) [
    | inr e ↦ e
    | inl e ↦ let at_i = h i n e in let clear = clear-recorded st c i in cc (at_i, clear)
  ]

  -- An older cycle does nothing while the mark stands.
  older-overrun :
      (command : WorkerCommand) (sequence cutoff : ℕ) (st : SpamState) (d : Dev)
      → st.cancelled_through ≡ some cutoff
      → sequence ≤ cutoff
      → IsOlder sequence command
      → execute_command device command st d ≡ (overrun, st, d)
  unfolding execute_command is_cancelled is_stale
  older-overrun command sequence cutoff st d m b (c, n) =
      let late : leb command.sequence cutoff ≡ true = ground arith in
      let stale : is_stale command.sequence st ≡ true = rw m late in
      let cancelled : is_cancelled command st ≡ true = ground arith in
      rw (cancelled, if◌then◌else◌) refl

  older-nothing :
      (commands : List WorkerCommand) (sequence cutoff : ℕ) (st : SpamState) (d : Dev)
      → st.cancelled_through ≡ some cutoff
      → sequence ≤ cutoff
      → All (IsOlder sequence) commands
      → execute device commands st d ≡ (st, d)
  unfolding execute
  older-nothing [] sequence cutoff st d m b k = refl
  older-nothing (command ∷ commands) sequence cutoff st d m b (k, ks) =
      ap (λ t. execute device commands t.1 t.2) (older-overrun command sequence cutoff st d m b k)
      ∙ older-nothing commands sequence cutoff st d m b ks

  -- What a release that is completed leaves.
  abbrev Frees : ℕ → Executed Dev → Type 0
  Frees sequence (o, st, d) =
      o ≡ completed
      → Covers device laws with_shift steady st d
        × IsClear st
        × ((cutoff : ℕ) × (st.cancelled_through ≡ some cutoff) × (sequence ≤ cutoff))

  mark-after :
      (sequence : ℕ) (st : SpamState)
      → (cutoff : ℕ) × ((cut_off sequence st).cancelled_through ≡ some cutoff) × (sequence ≤ cutoff)
  unfolding cut_off
  mark-after sequence st =
      option_cases (λ (o : Option ℕ). (cutoff : ℕ) × (o ≡ some cutoff) × (sequence ≤ cutoff))
        st.cancelled_through (λ _. (sequence, refl, omega arith))
        (λ c _. (max c sequence, refl, omega arith))

  outcome-Frees :
      (sequence : ℕ) (st : SpamState) (t : Done Dev (Unit {0}))
      → Leaves device laws with_shift steady (cut_off sequence st).cancelled_through IsClear t
      → Frees sequence (outcome t)
  unfolding outcome
  outcome-Frees sequence st (ok u, st', d) (h, m, c) done =
      let (cutoff, e, b) = mark-after sequence st in (h, c u refl, (cutoff, m ∙ e, b))
  outcome-Frees sequence st (err e, st', d) h done = cc done

  release-Frees :
      (command : WorkerCommand) (st : SpamState) (d : Dev)
      → command.kind ≡ release_spam
      → Covers device laws with_shift steady st d
      → Frees command.sequence (execute_command device command st d)
  unfolding execute_command execute_kind
  release-Frees command st d k h =
      let Q = Frees command.sequence in
      if_cases Q (is_cancelled command st) (λ _ n. cc n)
        (λ _.
          if_cases Q command.is_late (λ _ n. cc n)
            (λ _.
              subst (λ kind. Q (execute_kind device kind command st d)) (sym k)
                (outcome-Frees command.sequence st _ (
                  release_spam_inputs-Leaves device laws with_shift steady
                    (cut_off command.sequence st) d (marked command.sequence st d h)))))

  -- From a device on which nothing is down, after any cycles and releases of the spammer and no other
  -- commands, whichever events fail and whenever cycles are cancelled: when a release is completed, no
  -- key and not the mouse button is down, also where a press that failed had put it down; nor is Shift,
  -- if a press of Shift that fails does not put it down. This stays so while only cycles follow that
  -- were enqueued no later than the release.
  pub execute-lifted :
      (commands later : List WorkerCommand) (release : WorkerCommand) (d : Dev)
      → ((i : Input) → laws.down d i ≡ false)
      → All IsOfSpammer commands
      → release.kind ≡ release_spam
      → (let t = execute device commands default_state d in
          (execute_command device release t.0 t.1).0 ≡ completed)
      → All (IsOlder release.sequence) later
      → (i : Input) → IsFollowed with_shift i
      → let t = execute device commands default_state d in
        let r = execute_command device release t.0 t.1 in
        laws.down (execute device later r.1 r.2).1 i ≡ false
  execute-lifted commands later release d up spam kind done older i n =
      let t = execute device commands default_state d in
      let r = execute_command device release t.0 t.1 in
      let first : Covers device laws with_shift steady default_state d =
        λ j n e. let no = up j in cc (no, e) in
      let covered = execute-Covers commands default_state d spam first in
      let (h, clear, (cutoff, mark, b)) = release-Frees release t.0 t.1 kind covered done in
      let nothing = older-nothing later release.sequence cutoff r.1 r.2 mark b older in
      ap (λ u. laws.down u.1 i) nothing ∙ clear-down r.1 r.2 h clear i n
