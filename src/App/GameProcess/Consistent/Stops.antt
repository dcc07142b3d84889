-- ===== src/App/GameProcess/Consistent/Stops.antt =====
-- The methods that stop, replace and forget clients keep the registry consistent.
use mathlib.Core.Option
use nndsk_ro_launcher.Base.{
  ℕ, ◌≡◌, ◌≢◌, refl, sym, ◌∙◌, ap, inl, inr, false, not, ◌&&◌, Option, none, some, List, [], ◌∷◌,
  Text, text_eq, ◌==◌, ==_refl, find-cases, In, Bool-cases, if_cases, option_cases, if◌then◌else◌,
  arith,
}
use nndsk_ro_launcher.Base.Dict.{nat_eq, lookup, IsMap}
use nndsk_ro_launcher.App.GameProcess.{
  ProcessIdentity, same_identity, MemoryAccess, ProfileMemory, ClientRuntimeGuard, ProcessState,
  Registry, metadata, identity,
}
use nndsk_ro_launcher.App.GameProcess.Launching.{any_client}
use nndsk_ro_launcher.App.GameProcess.Queries.{find_client}
use nndsk_ro_launcher.App.GameProcess.Stopping.{
  stop_client, request_stop, add_client, stop_all, request_stop_all, finished_client, finish,
}
use nndsk_ro_launcher.App.GameProcess.Handoff.{is_contested, replace_client, replace_running}
use nndsk_ro_launcher.App.GameProcess.Consistent.{
  Apart, Apart-sym, Alike, Apart-Alike, Clients, Spread, any-false-lookup, IsConsistent,
  has_identity-false, put-IsConsistent, put_kindred-IsConsistent, drop-IsConsistent, Leaves,
}

replace_client-Apart :
    (x i : ProcessIdentity) (l : ℕ) (a : MemoryAccess) (p : ProfileMemory)
    → (old c b : ProcessState) → replace_client x i l a p old ≡ some c
    → Apart old b
    → identity b ≢ some i
    → Apart c b
unfolding replace_client
replace_client-Apart x i l a p (ProcessState.launching _ _ _) c b e h free = cc e
replace_client-Apart x i l a p (ProcessState.running m j ctl plan o r stop) c b e h free =
    elim (Bool-cases (not stop && same_identity j x)) [
      | inl t ↦
          let kept : ClientRuntimeGuard = record r {
            memory = some l;
            memory_access = some a;
            profile_memory = some p;
          } in
          let made : ProcessState.running m i ctl plan o kept stop ≡ c =
            cc (rw (t, if◌then◌else◌) at e) in
          rw (sym made) (record {
            one_launching = refl;
            ids_differ = h.ids_differ;
            processes_differ = λ j k l. free (cc (k, l));
          })
      | inr t ↦ cc (rw (t, if◌then◌else◌) at e)
    ]

-- A client of another generation is not contesting an identity.
not_contested :
    (g : ℕ) (i : ProcessIdentity) (s : Registry)
    → is_contested g i s ≡ false
    → (j : ℕ) (b : ProcessState) → g ≢ j
    → lookup j s.clients ≡ some b
    → identity b ≢ some i
unfolding is_contested any_client
not_contested g i s h j b d k =
    let free = any-false-lookup _ s.clients j b h k in has_identity-false i b (ground arith)

pub replace_running-IsConsistent :
    (g : ℕ) (x i : ProcessIdentity) (l : ℕ) (a : MemoryAccess) (p : ProfileMemory)
    → (s : Registry) → IsConsistent s
    → Leaves (replace_running g x i l a p s)
unfolding replace_running
replace_running-IsConsistent g x i l a p s h =
    if_cases Leaves s.poisoned (λ _. h)
      (λ _.
        if_cases Leaves (is_contested g i s) (λ _. h)
          (λ t.
            option_cases Leaves (lookup g s.clients) (λ _. h)
              (λ old f.
                option_cases Leaves (replace_client x i l a p old) (λ _. h)
                  (λ c k. put-IsConsistent s g old c h f (λ j b d n.
                    replace_client-Apart x i l a p old c b k (h.spread g j old b d f n)
                      (not_contested g i s t j b d n))))))

pub finish-IsConsistent : (g : ℕ) (s : Registry) → IsConsistent s → Leaves (finish g s)
unfolding finish
finish-IsConsistent g s h =
    if_cases Leaves s.poisoned (λ _. h)
      (λ _.
        option_cases Leaves (lookup g s.clients) (λ _. h)
          (λ old _.
            option_cases Leaves (finished_client _ old) (λ _. h) (λ _ _. drop-IsConsistent s g h)))

stop_client-Alike : (c : ProcessState) → Alike (stop_client c) c
unfolding stop_client
stop_client-Alike (ProcessState.launching m controller stop) = (refl, refl, refl)
stop_client-Alike (ProcessState.running m i c p o r stop) = (refl, refl, refl)

In-lookup : (g : ℕ) (c : ProcessState) (m : Clients) → IsMap m → In (g, c) m → lookup g m ≡ some c
unfolding lookup
In-lookup g c [] u k = absurd k
In-lookup g c ((j, d) ∷ m) u k = elim k [
  | inl e ↦
      let at_g : g ≡ j = ap (λ x. x.0) e in
      let same : c ≡ d = ap (λ x. x.1) e in rw (at_g, same, ==_refl j) refl
  | inr k' ↦
      let found = In-lookup g c m u.1 k' in
      elim (Bool-cases (j == g)) [
        | inl e ↦ let at_g : j ≡ g = ground arith in cc (found, rw at_g at u.0)
        | inr e ↦ rw (e, if◌then◌else◌) found
      ]
]

pub find_client-lookup :
    (c : Text) (s : Registry) (g : ℕ) (old : ProcessState)
    → IsMap s.clients
    → find_client c s ≡ some (g, old)
    → lookup g s.clients ≡ some old
unfolding find_client
find_client-lookup c s g old u e =
    elim (find-cases (λ d. text_eq (metadata d.1).client_id c) s.clients) [
      | inl (d, f, k, _) ↦
          let same : d ≡ (g, old) = cc (sym f ∙ e) in In-lookup g old s.clients u (rw same at k)
      | inr (f, _) ↦ cc (sym f ∙ e)
    ]

pub request_stop-IsConsistent :
    (c : Text) (s : Registry) → IsConsistent s → Leaves (request_stop c s)
unfolding request_stop
request_stop-IsConsistent c s h =
    if_cases Leaves s.poisoned (λ _. h)
      (λ _.
        option_cases Leaves (find_client c s) (λ _. h)
          (λ (g, old) f.
            put_kindred-IsConsistent s g old (stop_client old) h
              (find_client-lookup c s g old h.keyed f) (stop_client-Alike old)))

pub lookup-stop_all :
    (j : ℕ) (m : Clients) (set : List ProcessIdentity)
    → lookup j (stop_all m set).0 ≡ Option.map stop_client (lookup j m)
unfolding stop_all lookup
lookup-stop_all j [] set = refl
lookup-stop_all j ((i, c) ∷ m) set = elim (Bool-cases (i == j)) [
  | inl e ↦ rw (e, if◌then◌else◌) refl
  | inr e ↦ rw (e, if◌then◌else◌) (lookup-stop_all j m (add_client c set))
]

stop_all-IsMap : (m : Clients) (set : List ProcessIdentity) → IsMap m → IsMap (stop_all m set).0
unfolding stop_all
stop_all-IsMap [] set h = tt
stop_all-IsMap ((i, c) ∷ m) set h =
    (lookup-stop_all i m (add_client c set) ∙ rw h.0 refl, stop_all-IsMap m (add_client c set) h.1)

stopped-Alike :
    (o : Option ProcessState) (a : ProcessState)
    → Option.map stop_client o ≡ some a
    → (b : ProcessState) × (o ≡ some b) × Alike a b
stopped-Alike none a e = cc e
stopped-Alike (some b) a e =
    let same : stop_client b ≡ a = cc e in (b, refl, rw (sym same) (stop_client-Alike b))

stop_all-Spread : (m : Clients) (set : List ProcessIdentity) → Spread m → Spread (stop_all m set).0
stop_all-Spread m set h i j a b d f k =
    let (a', fa, la) = stopped-Alike (lookup i m) a (sym (lookup-stop_all i m set) ∙ f) in
    let (b', fb, lb) = stopped-Alike (lookup j m) b (sym (lookup-stop_all j m set) ∙ k) in
    let half : Apart a b' = Apart-Alike a' a b' la (h i j a' b' d fa fb) in
    Apart-sym b a (Apart-Alike b' b a lb (Apart-sym a b' half))

pub request_stop_all-IsConsistent : (s : Registry) → IsConsistent s → Leaves (request_stop_all s)
unfolding request_stop_all
request_stop_all-IsConsistent s h =
    if_cases Leaves s.poisoned (λ _. h)
      (λ _. record {
        keyed = stop_all-IsMap s.clients [] h.keyed;
        spread = stop_all-Spread s.clients [] h.spread;
        closed_idle = λ e. rw (h.closed_idle e, stop_all) refl;
      })
