-- ===== src/Sessiond/Handshake/Tests.antt =====
-- Handshakes at concrete inputs.
use nndsk_ro_launcher.Base.{ℕ, ◌≡◌, refl, true, false, none, some, List, [], ◌∷◌, codes, ok, err}
use nndsk_ro_launcher.Protocol.{
  hello, handshake, unsupported_version, hello_timeout, SessionEvent, ready,
}
use nndsk_ro_launcher.Sessiond.Handshake.{
  closed, request, Moment, emit_error, emit_ready, answer_request, answer_line, greet,
  run_handshake,
}
use nndsk_ro_launcher.Sessiond.Handshake.Settled.{Settled}

abbrev quiet : ℕ → Moment
quiet t = record { now = t; has_input = false; heard = closed; is_written = true }

abbrev greeting : ℕ → ℕ → Moment
greeting t version = record {
  now = t;
  has_input = true;
  heard = request (hello version);
  is_written = true;
}

abbrev rounds : ℕ → List Moment
rounds version = quiet 0 ∷ greeting 100 version ∷ quiet 6000 ∷ []

is_ready :
    run_handshake 42 (codes "/p") 0 (rounds 1) ≡ some (ok tt, ready 1 42 (codes "/p") true ∷ [])
unfolding run_handshake greet answer_line answer_request emit_ready emit_error
is_ready = refl

is_of_another_version :
    run_handshake 42 (codes "/p") 0 (rounds 2)
    ≡ some (err 1, SessionEvent.error none handshake none (unsupported_version 2) ∷ [])
unfolding run_handshake greet answer_line answer_request emit_ready emit_error
is_of_another_version = refl

comes_late :
    run_handshake 42 (codes "/p") 0 (quiet 0 ∷ greeting 5000 1 ∷ [])
    ≡ some (err 1, SessionEvent.error none handshake none hello_timeout ∷ [])
unfolding run_handshake greet answer_line answer_request emit_ready emit_error
comes_late = refl
