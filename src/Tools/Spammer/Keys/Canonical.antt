-- ===== src/Tools/Spammer/Keys/Canonical.antt =====
-- The normal form of a label: trimmed, in upper case. Taking it twice changes nothing.
use nndsk_ro_launcher.Base.{
  ℕ, ◌≡◌, refl, inl, inr, false, ◌&&◌, [], ◌∷◌, arith, Text, upper, to_upper, trim, trim_start,
  trim_end, is_whitespace, is_empty, Bool-cases,
}
use nndsk_ro_launcher.Tools.Spammer.Keys.{canonical}

is_whitespace-upper : (c : ℕ) → is_whitespace (upper c) ≡ is_whitespace c
unfolding is_whitespace upper
is_whitespace-upper c = ground arith

upper_idem : (c : ℕ) → upper (upper c) ≡ upper c
unfolding upper
upper_idem c = ground arith

to_upper_idem : (s : Text) → to_upper (to_upper s) ≡ to_upper s
unfolding to_upper
to_upper_idem [] = refl
to_upper_idem (c ∷ s) = rw (upper_idem c, to_upper_idem s) refl

trim_start-to_upper : (s : Text) → trim_start (to_upper s) ≡ to_upper (trim_start s)
unfolding to_upper trim_start
trim_start-to_upper [] = refl
trim_start-to_upper (c ∷ s) = elim (Bool-cases (is_whitespace c)) [
  | inl e ↦ rw (is_whitespace-upper c, e) (trim_start-to_upper s)
  | inr e ↦ rw (is_whitespace-upper c, e) refl
]

is_empty-to_upper : (s : Text) → is_empty (to_upper s) ≡ is_empty s
unfolding to_upper
is_empty-to_upper [] = refl
is_empty-to_upper (c ∷ s) = refl

trim_end-to_upper : (s : Text) → trim_end (to_upper s) ≡ to_upper (trim_end s)
unfolding to_upper trim_end
trim_end-to_upper [] = refl
trim_end-to_upper (c ∷ s) = elim (Bool-cases (is_empty (trim_end s) && is_whitespace c)) [
  | inl e ↦ rw (is_whitespace-upper c, trim_end-to_upper s, is_empty-to_upper (trim_end s), e) refl
  | inr e ↦ rw (is_whitespace-upper c, trim_end-to_upper s, is_empty-to_upper (trim_end s), e) refl
]

trim-to_upper : (s : Text) → trim (to_upper s) ≡ to_upper (trim s)
unfolding trim
trim-to_upper s = rw (trim_start-to_upper s) (trim_end-to_upper (trim_start s))

-- No white space at the start.
Starts : Text → Type 0
Starts [] = Unit
Starts (c ∷ _) = is_whitespace c ≡ false

trim_start-Starts : (s : Text) → Starts (trim_start s)
unfolding trim_start Starts
trim_start-Starts [] = tt
trim_start-Starts (c ∷ s) = elim (Bool-cases (is_whitespace c)) [
  | inl e ↦ rw e (trim_start-Starts s)
  | inr e ↦ rw e e
]

trim_start-eq : (s : Text) → Starts s → trim_start s ≡ s
unfolding trim_start Starts
trim_start-eq [] h = refl
trim_start-eq (c ∷ s) h = rw h refl

trim_end-Starts : (s : Text) → Starts s → Starts (trim_end s)
unfolding trim_end Starts
trim_end-Starts [] h = tt
trim_end-Starts (c ∷ s) h = elim (Bool-cases (is_empty (trim_end s))) [
  | inl e ↦ rw (e, h) h
  | inr e ↦ rw e h
]

trim_end_idem : (s : Text) → trim_end (trim_end s) ≡ trim_end s
unfolding trim_end
trim_end_idem [] = refl
trim_end_idem (c ∷ s) = elim (Bool-cases (is_empty (trim_end s) && is_whitespace c)) [
  | inl e ↦ rw e refl
  | inr e ↦ rw (e, trim_end_idem s, e) refl
]

trim_idem : (s : Text) → trim (trim s) ≡ trim s
unfolding trim
trim_idem s =
    rw
      (trim_start-eq (trim_end (trim_start s))
        (trim_end-Starts (trim_start s) (trim_start-Starts s)))
      (trim_end_idem (trim_start s))

pub canonical_idem : (s : Text) → canonical (canonical s) ≡ canonical s
unfolding canonical
canonical_idem s = rw (trim-to_upper (trim s), trim_idem s) (to_upper_idem (trim s))
