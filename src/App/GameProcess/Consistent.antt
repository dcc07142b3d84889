-- ===== src/App/GameProcess/Consistent.antt =====
-- Clients that may stand beside each other in the registry, and what a change of one client keeps.
pub mod Launches
pub mod Stops
pub mod Runs
use mathlib.Core.Option
use nndsk_ro_launcher.Base.{
  ℕ, ◌≡◌, ◌≢◌, ◌↔◌, refl, sym, ◌∙◌, ap, inl, inr, Bool, true, false, not, ◌&&◌, ◌||◌, Option, none,
  some, List, [], ◌∷◌, Text, text_eq, text_eq_iff, ◌==◌, ==_refl, any, find-cases, In, is_empty,
  Bool-cases, Option-cases, Result, ok, err, Result-cases, if_cases, option_cases, result_cases,
  if◌then◌else◌, arith,
}
use nndsk_ro_launcher.Base.Dict.{
  nat_eq, lookup, insert, remove, IsMap, lookup-insert, lookup-remove, insert-IsMap, remove-IsMap,
}
use nndsk_ro_launcher.App.GameProcess.{
  ProcessIdentity, same_identity, MemoryAccess, ProfileMemory, ClientRuntimeGuard, ClientMetadata,
  ProcessState, Registry, new_registry, metadata, identity, is_launching, has_identity,
}
use nndsk_ro_launcher.App.GameProcess.Launching.{
  any_client, put, begin_launch, run_client, is_taken, mark_running, control_client,
  mark_controller, drop_client, cancel_launch, close_admission_if_idle, reopen_admission,
}
use nndsk_ro_launcher.App.GameProcess.Queries.{find_client}
use nndsk_ro_launcher.App.GameProcess.Stopping.{
  stop_client, request_stop, add_client, stop_all, request_stop_all, finished_client, finish,
}
use nndsk_ro_launcher.App.GameProcess.Handoff.{is_contested, replace_client, replace_running}
use nndsk_ro_launcher.App.GameProcess.Run.{Call, call, run}

-- Two clients that may stand beside each other: they are not both being launched, and they have
-- different client ids and different processes.
pub record Apart (a b : ProcessState) : Type 0 where
  pub one_launching : (is_launching a && is_launching b) ≡ false
  pub ids_differ : (metadata a).client_id ≢ (metadata b).client_id
  pub processes_differ : (i : ProcessIdentity) → identity a ≡ some i → identity b ≢ some i

pub Apart-sym : (a b : ProcessState) → Apart a b → Apart b a
Apart-sym a b h = record {
  one_launching = let e = h.one_launching in ground arith;
  ids_differ = λ e. h.ids_differ (sym e);
  processes_differ = λ i e k. h.processes_differ i k e;
}

-- What `Apart` reads of a client.
abbrev pub Alike : ProcessState → ProcessState → Type 0
Alike a b =
    (is_launching a ≡ is_launching b) × (metadata a ≡ metadata b) × (identity a ≡ identity b)

pub Apart-Alike : (a a' b : ProcessState) → Alike a' a → Apart a b → Apart a' b
Apart-Alike a a' b (l, m, i) h = record {
  one_launching = rw l h.one_launching;
  ids_differ = rw m h.ids_differ;
  processes_differ = rw i h.processes_differ;
}

abbrev pub Clients : Type 0
Clients = List (ℕ × ProcessState)

-- Any two clients of different generations are apart.
abbrev pub Spread : Clients → Type 0
Spread m =
    (i j : ℕ) (a b : ProcessState) → i ≢ j → lookup i m ≡ some a → lookup j m ≡ some b → Apart a b

pub insert-Spread :
    (g : ℕ) (c : ProcessState) (m : Clients)
    → Spread m
    → ((j : ℕ) (b : ProcessState) → g ≢ j → lookup j m ≡ some b → Apart c b)
    → Spread (insert g c m)
insert-Spread g c m h new i j a b d f k =
    let f' = sym (lookup-insert g i c m) ∙ f in
    let k' = sym (lookup-insert g j c m) ∙ k in
    elim (Bool-cases (g == i)) [
      | inl e ↦ elim (Bool-cases (g == j)) [
        | inl e' ↦ absurd (d (ground arith))
        | inr e' ↦
            let same : c ≡ a = cc (rw (e, if◌then◌else◌) at f') in
            rw (sym same) (new j b (ground arith) (rw (e', if◌then◌else◌) at k'))
      ]
      | inr e ↦ elim (Bool-cases (g == j)) [
        | inl e' ↦
            let same : c ≡ b = cc (rw (e', if◌then◌else◌) at k') in
            rw (sym same) (Apart-sym c a (new i a (ground arith) (rw (e, if◌then◌else◌) at f')))
        | inr e' ↦ h i j a b d (rw (e, if◌then◌else◌) at f') (rw (e', if◌then◌else◌) at k')
      ]
    ]

remove-Spread : (g : ℕ) (m : Clients) → Spread m → Spread (remove g m)
remove-Spread g m h i j a b d f k =
    let f' = sym (lookup-remove g i m) ∙ f in
    let k' = sym (lookup-remove g j m) ∙ k in
    elim (Bool-cases (g == i)) [
      | inl e ↦ cc (rw (e, if◌then◌else◌) at f')
      | inr e ↦ elim (Bool-cases (g == j)) [
        | inl e' ↦ cc (rw (e', if◌then◌else◌) at k')
        | inr e' ↦ h i j a b d (rw (e, if◌then◌else◌) at f') (rw (e', if◌then◌else◌) at k')
      ]
    ]

-- A test that no client passes.
pub any-false-lookup :
    (p : ℕ × ProcessState → Bool) (m : Clients) (j : ℕ) (b : ProcessState)
    → any p m ≡ false
    → lookup j m ≡ some b
    → p (j, b) ≡ false
unfolding lookup
any-false-lookup p [] j b h k = cc
any-false-lookup p ((i, c) ∷ m) j b h k = elim (Bool-cases (i == j)) [
  | inl e ↦
      let same : c ≡ b = cc (rw (e, if◌then◌else◌) at k) in
      let at_j : i ≡ j = ground arith in rw (sym same, sym at_j) (ground arith)
  | inr e ↦ any-false-lookup p m j b (ground arith) (rw (e, if◌then◌else◌) at k)
]

-- What the registry keeps: one client for each generation, the clients apart, and none while
-- admission is closed for a restart.
pub record IsConsistent (s : Registry) : Type 0 where
  pub keyed : IsMap s.clients
  pub spread : Spread s.clients
  pub closed_idle : s.relaunch_admission_closed ≡ true → s.clients ≡ []

same_identity_iff : (a b : ProcessIdentity) → (same_identity a b ≡ true) ↔ (a ≡ b)
unfolding same_identity
same_identity_iff a b = (
  λ h.
      let p : a.pid ≡ b.pid = ground arith in
      let q : a.start_time ≡ b.start_time = ground arith in
      λ i. record { pid = p i; start_time = q i },
  λ e. rw e (ground arith),
)

pub has_identity-false :
    (i : ProcessIdentity) (c : ProcessState) → has_identity i c ≡ false → identity c ≢ some i
unfolding has_identity
has_identity-false i (ProcessState.launching m c stop) h e = cc
has_identity-false i (ProcessState.running m j c p o r stop) h e =
    cc (h, (same_identity_iff j i).1 (cc e))

pub put-IsConsistent :
    (s : Registry) (g : ℕ) (old c : ProcessState)
    → IsConsistent s
    → lookup g s.clients ≡ some old
    → ((j : ℕ) (b : ProcessState) → g ≢ j → lookup j s.clients ≡ some b → Apart c b)
    → IsConsistent (put s g c)
unfolding lookup
put-IsConsistent s g old c h f new = record {
  keyed = insert-IsMap g c s.clients h.keyed;
  spread = insert-Spread g c s.clients h.spread new;
  closed_idle = λ e. cc (rw (h.closed_idle e) at f);
}

-- A client that is replaced by one alike.
pub put_kindred-IsConsistent :
    (s : Registry) (g : ℕ) (old c : ProcessState)
    → IsConsistent s
    → lookup g s.clients ≡ some old
    → Alike c old
    → IsConsistent (put s g c)
put_kindred-IsConsistent s g old c h f alike =
    put-IsConsistent s g old c h f (λ j b d k. Apart-Alike old c b alike (h.spread g j old b d f k))

pub drop-IsConsistent : (s : Registry) (g : ℕ) → IsConsistent s → IsConsistent (drop_client s g)
unfolding remove
drop-IsConsistent s g h = record {
  keyed = remove-IsMap g s.clients h.keyed;
  spread = remove-Spread g s.clients h.spread;
  closed_idle = λ e. rw (h.closed_idle e) refl;
}

-- The registry that a method leaves beside its answer is consistent.
abbrev pub Leaves : {A : Type 0} → A × Registry → Type 0
Leaves r = IsConsistent r.1
