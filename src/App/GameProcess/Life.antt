-- ===== src/App/GameProcess/Life.antt =====
-- The life of a client, as the registry shows it for one generation.
pub mod Changes
pub mod Methods
pub mod Calls
use nndsk_ro_launcher.Base.{
  ℕ, suc, ◌+◌, ◌%◌, ◌^◌, ◌≤◌, ◌<◌, ◌≡◌, refl, sym, subst, ◌∙◌, Bool, true, false, not, ◌&&◌, Option,
  none, some, List, [], ◌∷◌, Text, ltb, ◌==◌, ==_refl, inl, inr, Bool-cases, Option-cases, if_cases,
  option_cases, result_cases, if◌then◌else◌, arith,
}
use nndsk_ro_launcher.Base.Dict.{
  nat_eq, lookup, insert, remove, IsMap, lookup-insert, lookup-remove,
}
use nndsk_ro_launcher.App.GameProcess.{ProcessState, Registry}
use nndsk_ro_launcher.App.GameProcess.Launching.{put, drop_client}

-- A generation that was not given out, a client being launched or running, with whether it is
-- asked to stop, and a client that is gone.
pub data Life : Type 0 where
  unused : Life
  starting : Bool → Life
  alive : Bool → Life
  gone : Life

unfoldable pub phase : ProcessState → Life
phase (ProcessState.launching _ _ stop) = starting stop
phase (ProcessState.running _ _ _ _ _ _ stop) = alive stop

-- Of a generation with a client or none, when the next generation is known.
unfoldable pub life_at : Option ProcessState → ℕ → ℕ → Life
unfolding phase
life_at none g next = if ltb g next then gone else unused
life_at (some c) g next = phase c

unfoldable pub life : ℕ → Registry → Life
unfolding life_at
life g s = life_at (lookup g s.clients) g s.next_generation

-- How a life may go on in one call.
pub data Moves : Life → Life → Type 0 where
  stays : {l : Life} → Moves l l
  launches : Moves unused (starting false)
  runs : Moves (starting false) (alive false)
  stops_launch : {stop : Bool} → Moves (starting stop) (starting true)
  stops_client : {stop : Bool} → Moves (alive stop) (alive true)
  cancels : {stop : Bool} → Moves (starting stop) gone
  finishes : {stop : Bool} → Moves (alive stop) gone

-- No generation from the next one on is in use.
abbrev pub IsFresh : Registry → Type 0
IsFresh s = (g : ℕ) → s.next_generation ≤ g → lookup g s.clients ≡ none

-- What a call does to the lives of all generations.
pub record Follows (s t : Registry) : Type 0 where
  pub fresh : IsFresh t
  pub counted :
      (s.next_generation ≤ t.next_generation) × (t.next_generation ≤ s.next_generation + 1)
  pub moves : (g : ℕ) → Moves (life g s) (life g t)

pub Follows-refl : (s : Registry) → IsFresh s → Follows s s
Follows-refl s h = record { fresh = h; counted = (omega arith, omega arith); moves = λ g. stays }
