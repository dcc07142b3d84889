-- ===== src/App/GameProcess/Launching.antt =====
-- The methods of the registry through which a client comes to run, and the closure of admission
-- before a restart of the launcher.
use nndsk_ro_launcher.Base.{
  ℕ, ◌+◌, ◌%◌, ◌^◌, Bool, true, false, not, ◌&&◌, Option, none, some, Text, ◌==◌, text_eq, any,
  is_empty, Result, ok, err, if◌then◌else◌,
}
use nndsk_ro_launcher.Base.Dict.{nat_eq, lookup, insert, remove}
use nndsk_ro_launcher.App.GameProcess.{
  ProcessIdentity, ClientRuntimeGuard, ProcessState, GameClientSnapshot, Registry, RegistryError,
  registry_blocked, relaunching, another_launching, client_id_taken, identity_taken,
  reservation_gone, cancelled_by_user, already_running, clients_open, metadata, is_launching,
  has_identity, snapshot,
}

-- Some client satisfies a test of its generation and state.
unfoldable pub any_client : (ℕ × ProcessState → Bool) → Registry → Bool
any_client p s = any p s.clients

abbrev pub put : Registry → ℕ → ProcessState → Registry
put s generation client = record s { clients = insert generation client s.clients }

unfoldable pub begin_launch : Text → Text → Text → Registry → Result RegistryError ℕ × Registry
unfolding any_client
begin_launch client_id server_id server_name s =
    if s.poisoned
    then (err registry_blocked, s)
    else if s.relaunch_admission_closed
    then (err relaunching, s)
    else if any_client (λ c. is_launching c.1) s
    then (err another_launching, s)
    else if any_client (λ c. text_eq (metadata c.1).client_id client_id) s
    then (err client_id_taken, s)
    else (
      ok s.next_generation,
      record s {
        clients =
            insert s.next_generation
              (ProcessState.launching
                (record { client_id = client_id; server_id = server_id; server_name = server_name })
                none false)
              s.clients;
        next_generation = (s.next_generation + 1) % 2 ^ 64;
      },
    )

-- The `match` on the reserved client in `mark_running`.
unfoldable pub run_client :
    ProcessIdentity
    → ClientRuntimeGuard
    → Text
    → Option Text
    → ProcessState
    → Result RegistryError ProcessState
run_client i runtime plan observation (ProcessState.launching m controller false) =
    ok (ProcessState.running m i controller plan observation runtime false)
run_client i runtime plan observation (ProcessState.launching m controller true) =
    err cancelled_by_user
run_client i runtime plan observation (ProcessState.running _ _ _ _ _ _ _) = err already_running

-- A client other than that of the generation has the identity.
unfoldable pub is_taken : ℕ → ProcessIdentity → Registry → Bool
unfolding any_client has_identity
is_taken generation i s = any_client (λ c. not (c.0 == generation) && has_identity i c.1) s

unfoldable pub mark_running :
    ℕ
    → ProcessIdentity
    → ClientRuntimeGuard
    → Text
    → Option Text
    → Registry
    → Result RegistryError GameClientSnapshot × Registry
unfolding is_taken
mark_running generation i runtime plan observation s =
    if s.poisoned
    then (err registry_blocked, s)
    else if is_taken generation i s
    then (err identity_taken, s)
    else elim (lookup generation s.clients) [
      | none ↦ (err reservation_gone, s)
      | some client ↦ elim (run_client i runtime plan observation client) [
        | ok client' ↦ (ok (snapshot client'), put s generation client')
        | err e ↦ (err e, s)
      ]
    ]

-- The `match` of `mark_controller`.
unfoldable pub control_client : ProcessIdentity → ProcessState → Result RegistryError ProcessState
control_client controller (ProcessState.launching m _ false) =
    ok (ProcessState.launching m (some controller) false)
control_client controller (ProcessState.launching _ _ true) = err cancelled_by_user
control_client controller (ProcessState.running _ _ _ _ _ _ _) = err already_running

unfoldable pub mark_controller :
    ℕ → ProcessIdentity → Registry → Result RegistryError (Unit {0}) × Registry
mark_controller generation controller s =
    if s.poisoned then (err registry_blocked, s) else elim (lookup generation s.clients) [
      | none ↦ (err reservation_gone, s)
      | some client ↦ elim (control_client controller client) [
        | ok client' ↦ (ok tt, put s generation client')
        | err e ↦ (err e, s)
      ]
    ]

abbrev pub drop_client : Registry → ℕ → Registry
drop_client s generation = record s { clients = remove generation s.clients }

-- Also what dropping a `PendingLaunchGuard` does.
unfoldable pub cancel_launch : ℕ → Registry → Registry
cancel_launch generation s = if s.poisoned then s else elim (lookup generation s.clients) [
  | none ↦ s
  | some client ↦ if is_launching client then drop_client s generation else s
]

unfoldable pub close_admission_if_idle : Registry → Result RegistryError (Unit {0}) × Registry
close_admission_if_idle s =
    if s.poisoned
    then (err registry_blocked, s)
    else if not (is_empty s.clients)
    then (err clients_open, s)
    else if s.relaunch_admission_closed
    then (err relaunching, s)
    else (ok tt, record s { relaunch_admission_closed = true })

-- Dropping a `GameLaunchAdmission`.
unfoldable pub reopen_admission : Registry → Registry
reopen_admission s = if s.poisoned then s else record s { relaunch_admission_closed = false }
