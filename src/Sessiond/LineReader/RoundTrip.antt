-- ===== src/Sessiond/LineReader/RoundTrip.antt =====
-- What is written in lines is read back as it was, however it arrives.
use mathlib.Core.List.{append_assoc}
use nndsk_ro_launcher.Base.{
  ℕ, zero, suc, ◌+◌, ◌-◌, ◌≤◌, ◌<◌, ◌≡◌, ◌⊎◌, inl, inr, refl, sym, ap, subst, ◌∙◌, min, false,
  Option, none, some, List, [], ◌∷◌, ◌++◌, map, Text, ◌==◌, ltb, leb, length, length-append,
  length-take-le, is_empty, take, drop, Bool-cases, Option-cases, if◌then◌else◌, ok, err, All,
  arith,
}
use nndsk_ro_launcher.Sessiond.LineReader.{
  max_message_bytes, max_buf, Arrival, bytes, pause, fault, got, read, would_block, split_line,
  ReadLine, read_line, wire, contents, pauses, enough, receive,
}
use nndsk_ro_launcher.Sessiond.LineReader.Lines.{
  split_line-after, split_line-append, shorter, IsClean, take-drop, take-nonempty, drop-nonempty,
  nonempty-length,
}

-- A text that fits on a line: it is not empty, has no newline and at most 1 MiB, and is decoded as
-- it was encoded.
pub record Fits (encode : Text → List ℕ) (from_utf8 : List ℕ → Option Text) (t : Text)
    : Type 0 where
  pub decodes : from_utf8 (encode t) ≡ some t
  pub one_line : split_line (encode t) ≡ none
  pub nonempty : is_empty (encode t) ≡ false
  pub short : length (encode t) ≤ 1_048_576

module _ (encode : Text → List ℕ) (from_utf8 : List ℕ → Option Text) where
  -- A call of `read_line` while these texts are on the way: it gives the first one, or finds no
  -- bytes; then there is one moment without bytes less to come.
  abbrev Delivers : Text → List Text → ℕ → Option ReadLine → Type 0
  Delivers t ts k o =
      (buf : List ℕ) × (src : List Arrival) × IsClean src
      × (((o ≡ some (ok (some t), buf, src))
            × (buf ++ contents src ≡ wire encode ts)
            × (pauses src ≤ k))
          ⊎ ((o ≡ some (err would_block, buf, src))
              × (buf ++ contents src ≡ wire encode (t ∷ ts))
              × (suc (pauses src) ≤ k)))

  -- A line that stands in the buffer.
  read_line-buffered :
      (fuel : ℕ) (t : Text) (ts : List Text) (buf line after : List ℕ) (src : List Arrival)
      → Fits encode from_utf8 t
      → IsClean src
      → split_line buf ≡ some (line, after)
      → buf ++ contents src ≡ wire encode (t ∷ ts)
      → Delivers t ts (pauses src) (read_line from_utf8 (suc fuel) buf src)
  unfolding read_line wire max_message_bytes
  read_line-buffered fuel t ts buf line after src f c n e =
      let whole = split_line-append buf (contents src) line after n in
      let same =
        sym whole ∙ ap split_line e ∙ split_line-after (encode t) (wire encode ts) f.one_line in
      let at_line : line ≡ encode t = cc same in
      let left : after ++ contents src ≡ wire encode ts = cc same in
      let decodes : from_utf8 line ≡ some t = rw at_line f.decodes in
      let nonempty : is_empty line ≡ false = rw at_line f.nonempty in
      let short : ltb 1_048_576 (length line) ≡ false =
        rw at_line (let s = f.short in ground arith) in
      (
        after,
        src,
        c,
        inl (
          rw (n, read_line, decodes, nonempty, max_message_bytes, short, if◌then◌else◌) refl,
          left,
          omega arith,
        ),
      )

  -- There is room in the buffer while the line is not complete.
  has_room :
      (t : Text) (ts : List Text) (buf more : List ℕ)
      → Fits encode from_utf8 t
      → split_line buf ≡ none
      → buf ++ more ≡ wire encode (t ∷ ts)
      → length buf ≤ 1_048_576
  unfolding wire
  has_room t ts buf more f n e =
      let s = f.short in omega (arith, shorter buf more (encode t) (wire encode ts) n e)

  -- And bytes are still to come.
  has_more :
      (t : Text) (ts : List Text) (buf : List ℕ)
      → Fits encode from_utf8 t
      → split_line buf ≡ none
      → ¬ (buf ++ [] ≡ wire encode (t ∷ ts))
  unfolding wire
  has_more t ts buf f n e =
      let s = shorter buf [] (encode t) (wire encode ts) n e in
      let l = ap length e in
      omega (arith, length-append buf [], length-append (encode t) (10 ∷ wire encode ts))

  -- What a read takes off some bytes.
  read-bytes :
      (n : ℕ) (b : List ℕ) (rest : List Arrival)
      → 0 < n
      → is_empty b ≡ false
      → IsClean rest
      → (c : List ℕ) × (src : List Arrival) × (read n (bytes b ∷ rest) ≡ (got c, src))
        × (is_empty c ≡ false)
        × (length c ≤ n)
        × (c ++ contents src ≡ b ++ contents rest)
        × IsClean src
        × (pauses src ≡ pauses rest)
  unfolding read contents pauses
  read-bytes n b rest m e h = elim (Bool-cases (leb (length b) n)) [
    | inl f ↦ (b, rest, rw (f, if◌then◌else◌) refl, e, ground arith, refl, h, refl)
    | inr f ↦ (
      take n b,
      bytes (drop n b) ∷ rest,
      rw (f, if◌then◌else◌) refl,
      take-nonempty n b m e,
      length-take-le n b,
      sym (append_assoc (take n b) (drop n b) (contents rest))
          ∙ ap (λ r. r ++ contents rest) (take-drop n b),
      (drop-nonempty n b (ground arith), h),
      refl,
    )
  ]

  -- A round of `read_line` that reads bytes into the buffer.
  read_line-got :
      (fuel : ℕ) (buf c : List ℕ) (src src' : List Arrival)
      → split_line buf ≡ none
      → length buf ≤ 1_048_576
      → read (min 4096 (max_buf - length buf)) src ≡ (got c, src')
      → is_empty c ≡ false
      → length c ≤ min 4096 (max_buf - length buf)
      → read_line from_utf8 (suc fuel) buf src ≡ read_line from_utf8 fuel (buf ++ c) src'
  unfolding read_line max_buf max_message_bytes
  read_line-got fuel buf c src src' n b r e m =
      let low : ltb max_buf (length buf) ≡ false = ground arith in
      let room : (max_buf - length buf == 0) ≡ false = ground arith in
      let fits : ltb max_buf (length (buf ++ c)) ≡ false = ground (arith, length-append buf c) in
      rw (n, read_line, low, room, r, e, fits, if◌then◌else◌)
        (ap (λ p. read_line from_utf8 fuel (buf ++ c) p.1) r)

  -- And one that finds none.
  read_line-blocked :
      (fuel : ℕ) (buf : List ℕ) (rest : List Arrival)
      → split_line buf ≡ none
      → length buf ≤ 1_048_576
      → read_line from_utf8 (suc fuel) buf (pause ∷ rest) ≡ some (err would_block, buf, rest)
  unfolding read_line max_buf max_message_bytes read
  read_line-blocked fuel buf rest n b =
      let low : ltb max_buf (length buf) ≡ false = ground arith in
      let room : (max_buf - length buf == 0) ≡ false = ground arith in
      rw (n, read_line, low, room, if◌then◌else◌) refl

  -- The buffer has no line yet: the arrivals go on.
  waiting :
      (fuel : ℕ) (t : Text) (ts : List Text) (buf : List ℕ) (src : List Arrival)
      → Fits encode from_utf8 t
      → ((longer : List ℕ) (src' : List Arrival)
          → IsClean src'
          → longer ++ contents src' ≡ wire encode (t ∷ ts)
          → length longer + length (contents src') + length (contents src') < fuel
          → Delivers t ts (pauses src') (read_line from_utf8 fuel longer src'))
      → split_line buf ≡ none
      → IsClean src
      → buf ++ contents src ≡ wire encode (t ∷ ts)
      → length buf + length (contents src) + length (contents src) < suc fuel
      → Delivers t ts (pauses src) (read_line from_utf8 (suc fuel) buf src)
  unfolding contents pauses max_buf max_message_bytes
  waiting fuel t ts buf [] f go n c e m = absurd (has_more t ts buf f n e)
  waiting fuel t ts buf (fault x ∷ rest) f go n c e m = absurd c
  waiting fuel t ts buf (pause ∷ rest) f go n c e m =
      let room = has_room t ts buf (contents rest) f n e in
      (buf, rest, c, inr (read_line-blocked fuel buf rest n room, e, omega arith))
  waiting fuel t ts buf (bytes b ∷ rest) f go n (ne, c) e m =
      let room = has_room t ts buf (b ++ contents rest) f n e in
      let (d, src', r, some_d, short_d, same, clean, p) =
        read-bytes (min 4096 (max_buf - length buf)) b rest (omega arith) ne c in
      let all : (buf ++ d) ++ contents src' ≡ wire encode (t ∷ ts) =
        append_assoc buf d (contents src') ∙ ap (λ x. buf ++ x) same ∙ e in
      let sizes = ap length same in
      let smaller : length (buf ++ d) + length (contents src') + length (contents src') < fuel =
        omega (
          arith,
          length-append buf d,
          length-append d (contents src'),
          length-append b (contents rest),
          nonempty-length d some_d,
        ) in
      subst (λ k. Delivers t ts k (read_line from_utf8 (suc fuel) buf (bytes b ∷ rest))) p
        (subst (Delivers t ts (pauses src'))
          (sym (read_line-got fuel buf d (bytes b ∷ rest) src' n room r some_d short_d))
          (go (buf ++ d) src' clean all smaller))

  read_line-Delivers :
      (fuel : ℕ) (t : Text) (ts : List Text) (buf : List ℕ) (src : List Arrival)
      → Fits encode from_utf8 t
      → IsClean src
      → buf ++ contents src ≡ wire encode (t ∷ ts)
      → length buf + length (contents src) + length (contents src) < fuel
      → Delivers t ts (pauses src) (read_line from_utf8 fuel buf src)
  read_line-Delivers zero t ts buf src f c e m = absurd (omega arith)
  read_line-Delivers (suc fuel) t ts buf src f c e m = elim (Option-cases (split_line buf)) [
    | inl n ↦
        waiting fuel t ts buf src f
          (λ longer src' c' e' m'. read_line-Delivers fuel t ts longer src' f c' e' m') n c e m
    | inr ((line, after), n) ↦ read_line-buffered fuel t ts buf line after src f c n e
  ]

  -- A call of `read_line` when nothing more comes.
  abbrev Finishes : ℕ → List ℕ → Option ReadLine → Type 0
  Finishes k buf o =
      (src : List Arrival) × IsClean src
      × ((o ≡ some (ok none, buf, src))
          ⊎ ((o ≡ some (err would_block, buf, src)) × (contents src ≡ []) × (suc (pauses src) ≤ k)))

  read_line-Finishes :
      (fuel : ℕ) (src : List Arrival)
      → 0 < fuel
      → IsClean src
      → contents src ≡ []
      → Finishes (pauses src) [] (read_line from_utf8 fuel [] src)
  unfolding contents pauses read_line max_buf max_message_bytes read split_line
  read_line-Finishes zero src m c e = absurd (omega arith)
  read_line-Finishes (suc fuel) [] m c e = ([], tt, inl refl)
  read_line-Finishes (suc fuel) (fault x ∷ rest) m c e = absurd c
  read_line-Finishes (suc fuel) (pause ∷ rest) m c e = (rest, c, inr (refl, e, omega arith))
  read_line-Finishes (suc fuel) (bytes [] ∷ rest) m (ne, c) e = cc ne
  read_line-Finishes (suc fuel) (bytes (x ∷ b) ∷ rest) m (ne, c) e = cc e

  receive-rest :
      (rounds : ℕ) (ts : List Text) (buf : List ℕ) (src : List Arrival)
      → All (Fits encode from_utf8) ts
      → IsClean src
      → buf ++ contents src ≡ wire encode ts
      → length ts + pauses src < rounds
      → receive from_utf8 rounds buf src ≡ some (map ok ts)
  unfolding receive enough wire
  receive-rest zero ts buf src f c e m = absurd (omega arith)
  receive-rest (suc rounds) [] [] src f c e m =
      let (src', c', h) = read_line-Finishes (enough [] src) src (omega arith) c e in
      elim h [
        | inl r ↦ rw (r, receive) refl
        | inr (r, e', less) ↦ rw (r, receive) (receive-rest rounds [] [] src' f c' e' (omega arith))
      ]
  receive-rest (suc rounds) [] (x ∷ buf) src f c e m = cc e
  receive-rest (suc rounds) (t ∷ ts) buf src (f, fs) c e m =
      let (buf', src', c', h) =
        read_line-Delivers (enough buf src) t ts buf src f c e (omega arith) in
      elim h [
        | inl (r, e', less) ↦
            rw (r, receive, receive-rest rounds ts buf' src' fs c' e' (omega arith)) refl
        | inr (r, e', less) ↦
            rw (r, receive) (receive-rest rounds (t ∷ ts) buf' src' (f, fs) c' e' (omega arith))
      ]

  -- Texts that fit on lines, written one after the other, are received as they were written and in
  -- their order, however the bytes are split when they arrive and however often there are none for
  -- a moment; one reading for each text and for each such moment, and one more, are enough.
  pub receive-wire :
      (ts : List Text) (src : List Arrival)
      → All (Fits encode from_utf8) ts
      → IsClean src
      → contents src ≡ wire encode ts
      → receive from_utf8 (length ts + pauses src + 1) [] src ≡ some (map ok ts)
  receive-wire ts src f c e =
      receive-rest (length ts + pauses src + 1) ts [] src f c e (omega arith)
