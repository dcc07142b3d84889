-- ===== src/App/GameProcess/Handoff.antt =====
-- The methods of the registry through which a running client changes its process: the patcher
-- hands over to the game.
use nndsk_ro_launcher.Base.{
  ℕ, Bool, true, false, not, ◌&&◌, ◌||◌, Option, none, some, ◌==◌, if◌then◌else◌,
}
use nndsk_ro_launcher.Base.Dict.{nat_eq, lookup}
use nndsk_ro_launcher.App.GameProcess.{
  ProcessIdentity, same_identity, MemoryAccess, ProfileMemory, ProcessState, Registry, is_launching,
  has_identity,
}
use nndsk_ro_launcher.App.GameProcess.Launching.{any_client, put}

-- Another client is being launched or has the identity.
unfoldable pub is_contested : ℕ → ProcessIdentity → Registry → Bool
unfolding any_client has_identity
is_contested generation i s =
    any_client (λ c. not (c.0 == generation) && (is_launching c.1 || has_identity i c.1)) s

abbrev pub is_running_unstopped : ProcessState → Bool
is_running_unstopped (ProcessState.launching _ _ _) = false
is_running_unstopped (ProcessState.running _ _ _ _ _ _ stop) = not stop

unfoldable pub candidate_available_for_handoff : ℕ → ProcessIdentity → Registry → Bool
unfolding is_contested
candidate_available_for_handoff generation candidate s =
    if s.poisoned then false else elim (lookup generation s.clients) [
      | none ↦ false
      | some client ↦
          if not (is_running_unstopped client)
          then false
          else if is_contested generation candidate s
          then false
          else true
    ]

-- The `match` of `replace_running`: the client with its new process, if it may be replaced.
unfoldable pub replace_client :
    ProcessIdentity
    → ProcessIdentity
    → ℕ
    → MemoryAccess
    → ProfileMemory
    → ProcessState
    → Option ProcessState
unfolding same_identity
replace_client expected replacement lease access profile (ProcessState.launching _ _ _) = none
replace_client expected replacement lease access profile
      (ProcessState.running m i controller plan observation runtime stop) =
    if not stop && same_identity i expected
    then some (
        ProcessState.running m replacement controller plan observation
          (record runtime {
            memory = some lease;
            memory_access = some access;
            profile_memory = some profile;
          })
          stop)
    else none

unfoldable pub replace_running :
    ℕ
    → ProcessIdentity
    → ProcessIdentity
    → ℕ
    → MemoryAccess
    → ProfileMemory
    → Registry
    → Bool × Registry
unfolding is_contested replace_client
replace_running generation expected replacement lease access profile s =
    if s.poisoned
    then (false, s)
    else if is_contested generation replacement s
    then (false, s)
    else elim (lookup generation s.clients) [
      | none ↦ (false, s)
      | some client ↦ elim (replace_client expected replacement lease access profile client) [
        | none ↦ (false, s)
        | some client' ↦ (true, put s generation client')
      ]
    ]
