-- ===== src/Sessiond/LineReader.antt =====
-- crates/ro-sessiond/src/protocol.rs: the reader of lines of a bounded length, and what the writer
-- of events puts on the wire.
pub mod Lines
pub mod RoundTrip
pub mod Tests
use mathlib.Core.Option
use nndsk_ro_launcher.Base.{
  ℕ, zero, suc, ◌+◌, ◌-◌, min, Bool, true, false, not, ◌&&◌, Option, none, some, List, [], ◌∷◌,
  ◌++◌, Text, ◌==◌, ltb, leb, length, is_empty, is_some, take, drop, Result, ok, err, if◌then◌else◌,
}

unfoldable pub max_message_bytes : ℕ
max_message_bytes = 1_048_576

-- `max_buf` of `read_line`.
unfoldable pub max_buf : ℕ
unfolding max_message_bytes
max_buf = max_message_bytes + 1

-- What comes in: bytes that a call may take whole or in part, a moment without bytes, or an error.
-- At the end of the list the writer has closed its end.
pub data Arrival : Type 0 where
  bytes : List ℕ → Arrival
  pause : Arrival
  fault : ℕ → Arrival

pub data ReadAnswer : Type 0 where
  got : List ℕ → ReadAnswer
  blocked : ReadAnswer
  failed : ℕ → ReadAnswer

-- `Read::read` into a buffer of `n` bytes.
unfoldable pub read : ℕ → List Arrival → ReadAnswer × List Arrival
read n [] = (got [], [])
read n (bytes b ∷ rest) =
    if leb (length b) n then (got b, rest) else (got (take n b), bytes (drop n b) ∷ rest)
read n (pause ∷ rest) = (blocked, rest)
read n (fault e ∷ rest) = (failed e, rest)

pub data ReadError : Type 0 where
  invalid_utf8 : ReadError
  message_exceeds : ReadError
  would_block : ReadError
  other_error : ℕ → ReadError

-- The bytes before the first newline, and those after it: `position` and `drain(..=pos)`.
unfoldable pub split_line : List ℕ → Option (List ℕ × List ℕ)
split_line [] = none
split_line (b ∷ buf) =
    let rest = split_line buf in
    if b == 10
    then some ([], buf)
    else elim rest [ none ↦ none | some (line, after) ↦ some (b ∷ line, after) ]

unfoldable pub has_buffered_line : List ℕ → Bool
unfolding split_line
has_buffered_line buf = is_some (split_line buf)

-- The loop of `discard_oversized_line`, for so many rounds: the answer, the buffer and what is left.
unfoldable pub discard_oversized_line :
    ℕ → List ℕ → List Arrival → Option (Result ReadError (Unit {0}) × List ℕ × List Arrival)
unfolding split_line read
discard_oversized_line zero buf src = none
discard_oversized_line (suc fuel) buf src = elim (split_line buf) [
  | some (_, after) ↦ some (ok tt, after, src)
  | none ↦
      let (answer, src') = read 4096 src in
      elim answer [
        | blocked ↦ some (err would_block, [], src')
        | failed e ↦ some (err (other_error e), [], src')
        | got b ↦ if is_empty b then some (ok tt, [], src') else elim (split_line b) [
          | some (_, after) ↦ some (ok tt, after, src')
          | none ↦ discard_oversized_line fuel [] src'
        ]
      ]
]

abbrev pub ReadLine : Type 0
ReadLine = Result ReadError (Option Text) × List ℕ × List Arrival

-- `self.discard_oversized_line()?` and the error after it.
unfoldable pub refuse_oversized : ℕ → List ℕ → List Arrival → Option ReadLine
unfolding discard_oversized_line
refuse_oversized fuel buf src = elim (discard_oversized_line fuel buf src) [
  | none ↦ none
  | some (result, buf', src') ↦ elim result [
    | ok _ ↦ some (err message_exceeds, buf', src')
    | err e ↦ some (err e, buf', src')
  ]
]

-- `String::from_utf8` belongs to the standard library.
module _ (from_utf8 : List ℕ → Option Text) where
  -- The loop of `read_line`, for so many rounds.
  unfoldable pub read_line : ℕ → List ℕ → List Arrival → Option ReadLine
  unfolding split_line read max_buf max_message_bytes has_buffered_line refuse_oversized
  read_line zero buf src = none
  read_line (suc fuel) buf src = elim (split_line buf) [
    | some (line, after) ↦ elim (from_utf8 line) [
      | none ↦ some (err invalid_utf8, after, src)
      | some text ↦
          let skipped = read_line fuel after src in
          if is_empty line
          then skipped
          else if ltb max_message_bytes (length line)
          then some (err message_exceeds, after, src)
          else some (ok (some text), after, src)
    ]
    | none ↦
        if ltb max_buf (length buf)
        then refuse_oversized fuel buf src
        else let room = max_buf - length buf in
          if room == 0
          then refuse_oversized fuel buf src
          else let (answer, src') = read (min 4096 room) src in
            elim answer [
              | blocked ↦ some (err would_block, buf, src')
              | failed e ↦ some (err (other_error e), buf, src')
              | got b ↦
                  let longer = buf ++ b in
                  let more = read_line fuel longer src' in
                  if is_empty b
                  then some (ok none, buf, src')
                  else if ltb max_buf (length longer) && not (has_buffered_line longer)
                  then refuse_oversized fuel longer src'
                  else more
            ]
  ]

-- What `EventWriter::emit` and the other end write of texts: each with a newline after it.
unfoldable pub wire : (Text → List ℕ) → List Text → List ℕ
wire encode [] = []
wire encode (t ∷ ts) = encode t ++ 10 ∷ wire encode ts

-- All bytes that come in, and how often the reader finds none.
unfoldable pub contents : List Arrival → List ℕ
contents [] = []
contents (bytes b ∷ rest) = b ++ contents rest
contents (pause ∷ rest) = contents rest
contents (fault e ∷ rest) = contents rest

unfoldable pub pauses : List Arrival → ℕ
pauses [] = 0
pauses (bytes b ∷ rest) = pauses rest
pauses (pause ∷ rest) = suc (pauses rest)
pauses (fault e ∷ rest) = pauses rest

-- Rounds that are enough to read a line.
unfoldable pub enough : List ℕ → List Arrival → ℕ
unfolding contents
enough buf src = length buf + length (contents src) + length (contents src) + 1

-- The main loop reads lines one after the other, also after a moment without bytes and after an
-- error, which it reports, until the writer is gone: what it was told in so many readings.
module _ (from_utf8 : List ℕ → Option Text) where
  unfoldable pub receive : ℕ → List ℕ → List Arrival → Option (List (Result ReadError Text))
  unfolding read_line enough
  receive zero buf src = none
  receive (suc rounds) buf src = elim (read_line from_utf8 (enough buf src) buf src) [
    | none ↦ none
    | some (result, buf', src') ↦
        let rest = receive rounds buf' src' in
        elim result [
          | ok line ↦ elim line [
            | none ↦ some []
            | some text ↦ Option.map (λ told. ok text ∷ told) rest
          ]
          | err e ↦ elim e [
            | would_block ↦ rest
            | invalid_utf8 ↦ Option.map (λ told. err invalid_utf8 ∷ told) rest
            | message_exceeds ↦ Option.map (λ told. err message_exceeds ∷ told) rest
            | other_error n ↦ Option.map (λ told. err (other_error n) ∷ told) rest
          ]
        ]
  ]
