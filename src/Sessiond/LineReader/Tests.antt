-- ===== src/Sessiond/LineReader/Tests.antt =====
-- The reader of lines at a concrete input, where texts are ASCII.
use nndsk_ro_launcher.Base.{◌≡◌, refl, some, List, [], ◌∷◌, Text, codes, ok, arith}
use nndsk_ro_launcher.Sessiond.LineReader.{
  Arrival, bytes, pause, split_line, contents, pauses, wire, receive,
}
use nndsk_ro_launcher.Sessiond.LineReader.RoundTrip.{Fits, receive-wire}

abbrev texts : List Text
texts = codes "{1}" ∷ codes "{2}" ∷ []

-- The first line comes in two parts, and the second one a moment later.
abbrev arrivals : List Arrival
arrivals =
    bytes (123 ∷ 49 ∷ []) ∷ bytes (125 ∷ 10 ∷ 123 ∷ []) ∷ pause ∷ bytes (50 ∷ 125 ∷ 10 ∷ []) ∷ []

first-Fits : Fits (λ t. t) some (codes "{1}")
unfolding split_line
first-Fits = record { decodes = refl; one_line = refl; nonempty = refl; short = omega arith }

second-Fits : Fits (λ t. t) some (codes "{2}")
unfolding split_line
second-Fits = record { decodes = refl; one_line = refl; nonempty = refl; short = omega arith }

receive-wire_example : receive some 4 [] arrivals ≡ some (ok (codes "{1}") ∷ ok (codes "{2}") ∷ [])
unfolding contents pauses wire
receive-wire_example =
    receive-wire (λ t. t) some texts arrivals (first-Fits, (second-Fits, tt))
      (refl, (refl, (refl, tt))) refl
