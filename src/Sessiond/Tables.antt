-- ===== src/Sessiond/Tables.antt =====
-- The tables `pid_to_request` and `controllers` of a supervisor refer to each other.
use nndsk_ro_launcher.Base.{
  ℕ, ◌≡◌, ◌∙◌, ◌≢◌, inl, inr, none, some, List, arith, Text, text_eq_refl, text_eq-false, ◌==◌,
  ==_iff, Bool-cases,
}
use nndsk_ro_launcher.Base.Dict.{
  nat_eq, Text-eq, lookup, insert, remove, lookup-insert, lookup-remove,
}
use nndsk_ro_launcher.Sessiond.Supervisor.{ControllerRecord}

abbrev pub Pids : Type 0
Pids = List (ℕ × Text)

abbrev pub Controllers : Type 0
Controllers = List (Text × ControllerRecord)

-- Every pid leads to the record of its request, which holds that pid.
abbrev pub AreLinked : Pids → Controllers → Type 0
AreLinked pids table =
    (pid : ℕ) (request_id : Text)
    → lookup pid pids ≡ some request_id
    → (c : ControllerRecord) × (lookup request_id table ≡ some c) × (c.controller_pid ≡ pid)

pub insert-AreLinked :
    (pids : Pids) (table : Controllers) (c : ControllerRecord) (request_id : Text)
    → AreLinked pids table
    → lookup request_id table ≡ none
    → AreLinked (insert c.controller_pid request_id pids) (insert request_id c table)
insert-AreLinked pids table c request_id linked new pid r h =
    elim (Bool-cases (c.controller_pid == pid)) [
      | inl e ↦
          let same : r ≡ request_id =
            ground (arith, lookup-insert c.controller_pid pid request_id pids) in
          (
            c,
            lookup-insert request_id r c table ∙ rw (same, text_eq_refl request_id),
            (==_iff c.controller_pid pid).0 e,
          )
      | inr e ↦
          let old : lookup pid pids ≡ some r =
            ground (arith, lookup-insert c.controller_pid pid request_id pids) in
          let (d, f, g) = linked pid r old in
          let other : request_id ≢ r = λ k. cc (new, f, k) in
          (d, lookup-insert request_id r c table ∙ rw (text_eq-false request_id r other) f, g)
    ]

pub remove-AreLinked :
    (pids : Pids) (table : Controllers) (pid : ℕ) (request_id : Text)
    → AreLinked pids table
    → lookup pid pids ≡ some request_id
    → AreLinked (remove pid pids) (remove request_id table)
remove-AreLinked pids table pid request_id linked here p r h = elim (Bool-cases (pid == p)) [
  | inl e ↦ absurd (ground (arith, lookup-remove pid p pids))
  | inr e ↦
      let old : lookup p pids ≡ some r = ground (arith, lookup-remove pid p pids) in
      let (d, f, g) = linked p r old in
      let (d', f', g') = linked pid request_id here in
      let other : request_id ≢ r = λ k. ground arith in
      (d, lookup-remove request_id r table ∙ rw (text_eq-false request_id r other) f, g)
]
