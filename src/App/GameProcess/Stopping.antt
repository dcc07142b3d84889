-- ===== src/App/GameProcess/Stopping.antt =====
-- The methods of the registry that ask clients to stop, and the one that forgets a client that
-- has ended.
use nndsk_ro_launcher.Base.{
  ℕ, true, Option, none, some, List, [], ◌∷◌, Text, ◌==◌, any, length, Result, ok, err,
  if◌then◌else◌,
}
use nndsk_ro_launcher.Base.Dict.{nat_eq, lookup}
use nndsk_ro_launcher.App.GameProcess.{
  ProcessIdentity, same_identity, ProcessState, Registry, RegistryError, registry_blocked,
  client_gone, StopRequest, FinishedClient,
}
use nndsk_ro_launcher.App.GameProcess.Launching.{put, drop_client}
use nndsk_ro_launcher.App.GameProcess.Queries.{find_client}

unfoldable pub stop_client : ProcessState → ProcessState
stop_client (ProcessState.launching m controller _) = ProcessState.launching m controller true
stop_client (ProcessState.running m i controller plan observation runtime _) =
    ProcessState.running m i controller plan observation runtime true

abbrev pub as_list : Option ProcessIdentity → List ProcessIdentity
as_list none = []
as_list (some i) = i ∷ []

-- The processes of one client that `request_stop` names.
unfoldable pub stop_identities : ProcessState → List ProcessIdentity
unfolding same_identity
stop_identities (ProcessState.launching _ controller _) = as_list controller
stop_identities (ProcessState.running _ i controller _ _ _ _) = elim controller [
  | none ↦ i ∷ []
  | some candidate ↦ if same_identity candidate i then i ∷ [] else i ∷ candidate ∷ []
]

unfoldable pub request_stop : Text → Registry → Result RegistryError StopRequest × Registry
unfolding find_client stop_client stop_identities
request_stop client_id s =
    if s.poisoned then (err registry_blocked, s) else elim (find_client client_id s) [
      | none ↦ (err client_gone, s)
      | some (generation, client) ↦ (
        ok (record {
          identities = stop_identities client;
          was_only_client = length s.clients == 1;
        }),
        put s generation (stop_client client),
      )
    ]

-- `HashSet::insert`; the order of the elements has no meaning.
unfoldable pub add_identity : ProcessIdentity → List ProcessIdentity → List ProcessIdentity
unfolding same_identity
add_identity i set = if any (same_identity i) set then set else i ∷ set

unfoldable pub add_controller : Option ProcessIdentity → List ProcessIdentity → List ProcessIdentity
unfolding add_identity
add_controller none set = set
add_controller (some i) set = add_identity i set

unfoldable pub add_client : ProcessState → List ProcessIdentity → List ProcessIdentity
unfolding add_identity add_controller
add_client (ProcessState.launching _ controller _) set = add_controller controller set
add_client (ProcessState.running _ i controller _ _ _ _) set =
    add_controller controller (add_identity i set)

-- The loop of `request_stop_all`: the clients, stopped, and the identities collected.
unfoldable pub stop_all :
    List (ℕ × ProcessState) → List ProcessIdentity → List (ℕ × ProcessState) × List ProcessIdentity
unfolding stop_client add_client
stop_all [] set = ([], set)
stop_all ((generation, client) ∷ clients) set =
    let (stopped, all) = stop_all clients (add_client client set) in
    ((generation, stop_client client) ∷ stopped, all)

unfoldable pub request_stop_all : Registry → Result RegistryError (List ProcessIdentity) × Registry
unfolding stop_all
request_stop_all s =
    if s.poisoned
    then (err registry_blocked, s)
    else let (stopped, identities) = stop_all s.clients [] in
      (ok identities, record s { clients = stopped })

-- What is told of a client that ran, when so many remain.
unfoldable pub finished_client : ℕ → ProcessState → Option FinishedClient
finished_client remaining (ProcessState.launching _ _ _) = none
finished_client remaining (ProcessState.running m _ _ _ _ _ stop) = some (record {
  client_id = m.client_id;
  server_id = m.server_id;
  server_name = m.server_name;
  stop_requested = stop;
  remaining_clients = remaining;
})

unfoldable pub finish : ℕ → Registry → Option FinishedClient × Registry
unfolding finished_client
finish generation s = if s.poisoned then (none, s) else elim (lookup generation s.clients) [
  | none ↦ (none, s)
  | some client ↦
      let s' = drop_client s generation in
      elim (finished_client (length s'.clients) client) [
        | none ↦ (none, s)
        | some finished ↦ (some finished, s')
      ]
]
