-- ===== src/App/GameProcess/Queries.antt =====
-- The methods of the registry that only read it.
use nndsk_ro_launcher.Base.{
  ℕ, Bool, true, false, ◌||◌, Option, none, some, List, [], ◌∷◌, map, Text, text_eq, find, length,
  is_empty, Result, ok, err, and_then, if◌then◌else◌,
}
use nndsk_ro_launcher.Base.Dict.{nat_eq, lookup}
use nndsk_ro_launcher.Tools.Spammer.Keys.{sort_by_key}
use nndsk_ro_launcher.App.GameProcess.{
  ProcessIdentity, same_identity, ProcessState, GameClientSnapshot, RunningClientFacts, Registry,
  RegistryError, no_client, not_exactly_one, client_gone, client_stopping, client_launching,
  other_server, lock, metadata, stop_requested_of, snapshot,
}
use nndsk_ro_launcher.App.GameProcess.Launching.{any_client}

unfoldable pub active_count : Registry → Result RegistryError ℕ
unfolding lock
active_count s = and_then (lock s) (λ _. ok (length s.clients))

unfoldable pub snapshots : Registry → Result RegistryError (List GameClientSnapshot)
unfolding lock snapshot sort_by_key
snapshots s = and_then (lock s) (λ _. ok (
    map (λ (p : ℕ × GameClientSnapshot). p.1)
      (sort_by_key (λ p. p.0) (map (λ c. (c.0, snapshot c.1)) s.clients))))

-- The only client, or why there is none.
unfoldable pub sole_client : Registry → Result RegistryError ProcessState
sole_client s = elim s.clients [
  | [] ↦ err no_client
  | (_, client) ∷ rest ↦ if is_empty rest then ok client else err not_exactly_one
]

-- The identity of a client that runs and is not asked to stop.
unfoldable pub usable_identity : ProcessState → Result RegistryError ProcessIdentity
usable_identity (ProcessState.launching _ _ _) = err client_launching
usable_identity (ProcessState.running _ i _ _ _ _ stop) = if stop then err client_stopping else ok i

unfoldable pub check_server : Option Text → ProcessState → ℕ → Result RegistryError ℕ
check_server none client pid = ok pid
check_server (some expected) client pid =
    if text_eq expected (metadata client).server_id
    then ok pid
    else err (other_server (metadata client).server_name)

unfoldable pub sole_running_pid_for_server : Option Text → Registry → Result RegistryError ℕ
unfolding lock sole_client usable_identity check_server
sole_running_pid_for_server server_id s = and_then (lock s) (λ _.
    and_then (sole_client s)
      (λ client. and_then (usable_identity client) (λ i. check_server server_id client i.pid)))

unfoldable pub sole_running_identity : Registry → Result RegistryError ProcessIdentity
unfolding lock sole_client usable_identity
sole_running_identity s = and_then (lock s) (λ _. and_then (sole_client s) usable_identity)

unfoldable pub facts_of : ProcessState → Result RegistryError RunningClientFacts
facts_of (ProcessState.launching _ _ stop) =
    err (if stop then client_stopping else client_launching)
facts_of (ProcessState.running m i controller plan observation _ stop) =
    if stop
    then err client_stopping
    else ok (record {
      identity = i;
      controller = controller;
      server_id = m.server_id;
      server_name = m.server_name;
      runtime_plan_id = plan;
      observation_id = observation;
    })

unfoldable pub find_client : Text → Registry → Option (ℕ × ProcessState)
find_client client_id s = find (λ c. text_eq (metadata c.1).client_id client_id) s.clients

unfoldable pub running_facts_for : Text → Registry → Result RegistryError RunningClientFacts
unfolding lock find_client facts_of
running_facts_for client_id s =
    and_then (lock s)
      (λ _. elim (find_client client_id s) [ none ↦ err client_gone | some c ↦ facts_of c.1 ])

unfoldable pub is_controller : ProcessIdentity → Option ProcessIdentity → Bool
unfolding same_identity
is_controller candidate none = false
is_controller candidate (some controller) = same_identity controller candidate

unfoldable pub belongs : ProcessIdentity → ProcessState → Bool
unfolding is_controller same_identity
belongs candidate (ProcessState.launching _ controller _) = is_controller candidate controller
belongs candidate (ProcessState.running _ i controller _ _ _ _) =
    same_identity i candidate || is_controller candidate controller

unfoldable pub contains_identity : ProcessIdentity → Registry → Bool
unfolding any_client belongs
contains_identity candidate s =
    if s.poisoned then false else any_client (λ c. belongs candidate c.1) s

-- On a poisoned mutex a stop counts as requested.
unfoldable pub stop_requested : ℕ → Registry → Bool
stop_requested generation s = if s.poisoned then true else elim (lookup generation s.clients) [
  | none ↦ false
  | some client ↦ stop_requested_of client
]

unfoldable pub snapshot_for : ℕ → Registry → Option GameClientSnapshot
unfolding snapshot
snapshot_for generation s =
    if s.poisoned
    then none
    else elim (lookup generation s.clients) [ none ↦ none | some client ↦ some (snapshot client) ]
