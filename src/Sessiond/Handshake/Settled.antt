-- ===== src/Sessiond/Handshake/Settled.antt =====
-- How every handshake of ro-sessiond ends.
use nndsk_ro_launcher.Base.{
  ℕ, ◌<◌, ◌≤◌, ◌≡◌, ◌≢◌, Bool, true, false, Option, none, some, List, [], ◌∷◌, Text, ok, err,
  if◌then◌else◌,
}
use nndsk_ro_launcher.Protocol.{hello, Stage, handshake, ErrorMessage, ready, error, hello_timeout}
use nndsk_ro_launcher.Sessiond.Handshake.{Heard, request, Moment, Greeting}

-- A round begins at the deadline or later, or finds input. A read that blocks can keep such a round
-- from coming to its end.
pub data IsDecided (deadline : ℕ) : List Moment → Type 0 where
  late : {m : Moment} {later : List Moment} → deadline ≤ m.now → IsDecided deadline (m ∷ later)
  spoken : {m : Moment} {later : List Moment} → m.has_input ≡ true → IsDecided deadline (m ∷ later)
  soon :
      {m : Moment} {later : List Moment} → IsDecided deadline later → IsDecided deadline (m ∷ later)

module _ (supervisor_pid : ℕ) (prefix : Text) where
  -- One event is written: Ready for a greeting of the version of the protocol, else an error.
  pub data IsAnswer (heard : Heard) (is_written : Bool) : Greeting → Type 0 where
    greeted :
        heard ≡ request (hello 1)
        → IsAnswer heard is_written
            (if is_written then ok tt else err 1, ready 1 supervisor_pid prefix true ∷ [])
    refused :
        (stage : Stage) (message : ErrorMessage)
        → heard ≢ request (hello 1)
        → IsAnswer heard is_written (err 1, error none stage none message ∷ [])

  -- The rounds before the answer found no input, and were before the deadline.
  pub data Settled (deadline : ℕ) : List Moment → Greeting → Type 0 where
    timed_out :
        {m : Moment} {later : List Moment}
        → deadline ≤ m.now
        → Settled deadline (m ∷ later) (err 1, error none handshake none hello_timeout ∷ [])
    answered :
        {m : Moment} {later : List Moment} {g : Greeting}
        → m.now < deadline
        → m.has_input ≡ true
        → IsAnswer m.heard m.is_written g
        → Settled deadline (m ∷ later) g
    waited :
        {m : Moment} {later : List Moment} {g : Greeting}
        → m.now < deadline
        → m.has_input ≡ false
        → Settled deadline later g
        → Settled deadline (m ∷ later) g

  abbrev Outcome : ℕ → List Moment → Option Greeting → Type 0
  Outcome deadline ms o = (g : Greeting) × (o ≡ some g) × Settled deadline ms g
