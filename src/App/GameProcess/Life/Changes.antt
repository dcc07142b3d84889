-- ===== src/App/GameProcess/Life/Changes.antt =====
-- What a change of one client, and a change of none, does to the lives of all generations.
use nndsk_ro_launcher.Base.{
  ℕ, ◌+◌, ◌<◌, ◌≡◌, refl, sym, subst, ◌∙◌, false, Option, none, some, ◌==◌, inl, inr, Bool-cases,
  if◌then◌else◌, arith,
}
use nndsk_ro_launcher.Base.Dict.{nat_eq, lookup, insert, remove, lookup-insert, lookup-remove}
use nndsk_ro_launcher.App.GameProcess.{ProcessState, Registry}
use nndsk_ro_launcher.App.GameProcess.Launching.{put, drop_client}
use nndsk_ro_launcher.App.GameProcess.Life.{
  unused, starting, gone, phase, life_at, life, Moves, stays, launches, IsFresh, Follows,
}

used :
    (s : Registry) (g : ℕ) (c : ProcessState)
    → IsFresh s
    → lookup g s.clients ≡ some c
    → g < s.next_generation
used s g c h f = ground (arith, h g)

life-some :
    (g : ℕ) (s : Registry) (c : ProcessState) → lookup g s.clients ≡ some c → life g s ≡ phase c
unfolding life life_at
life-some g s c f = rw f refl

life-none :
    (g : ℕ) (s : Registry) → lookup g s.clients ≡ none → g < s.next_generation → life g s ≡ gone
unfolding life life_at
life-none g s f b = rw f (ground arith)

life-same :
    (g : ℕ) (s t : Registry)
    → lookup g t.clients ≡ lookup g s.clients
    → t.next_generation ≡ s.next_generation
    → life g t ≡ life g s
unfolding life
life-same g s t f n = rw (f, n) refl

-- Only the life of the next generation hangs on the counter.
life_at-suc :
    (o : Option ProcessState) (g next : ℕ)
    → (next == g) ≡ false
    → life_at o g (next + 1) ≡ life_at o g next
unfolding life_at
life_at-suc none g next h = ground arith
life_at-suc (some c) g next h = refl

-- The life of a generation that a change leaves alone, and of the one that it changes.
pub kept : (s t : Registry) (j : ℕ) → life j t ≡ life j s → Moves (life j s) (life j t)
kept s t j e = subst (Moves (life j s)) (sym e) stays

pub put-Follows :
    (s : Registry) (g : ℕ) (old c : ProcessState)
    → IsFresh s
    → lookup g s.clients ≡ some old
    → Moves (phase old) (phase c)
    → Follows s (put s g c)
put-Follows s g old c h f m = record {
  fresh = λ j b. lookup-insert g j c s.clients ∙ ground (arith, used s g old h f, h j b);
  counted = (omega arith, omega arith);
  moves = λ j. elim (Bool-cases (g == j)) [
    | inl e ↦
        let at_g : g ≡ j = ground arith in
        let after : lookup j (insert g c s.clients) ≡ some c =
          lookup-insert g j c s.clients ∙ rw (e, if◌then◌else◌) refl in
        subst (λ l. Moves l (life j (put s g c))) (sym (life-some j s old (rw at_g at f)))
          (subst (Moves (phase old)) (sym (life-some j (put s g c) c after)) m)
    | inr e ↦ kept s (put s g c) j (
        life-same j s (put s g c) (lookup-insert g j c s.clients ∙ rw (e, if◌then◌else◌) refl) refl)
  ];
}

pub drop-Follows :
    (s : Registry) (g : ℕ) (old : ProcessState)
    → IsFresh s
    → lookup g s.clients ≡ some old
    → Moves (phase old) gone
    → Follows s (drop_client s g)
drop-Follows s g old h f m = record {
  fresh = λ j b. lookup-remove g j s.clients ∙ ground (arith, h j b);
  counted = (omega arith, omega arith);
  moves = λ j. elim (Bool-cases (g == j)) [
    | inl e ↦
        let at_g : g ≡ j = ground arith in
        let after : lookup j (remove g s.clients) ≡ none =
          lookup-remove g j s.clients ∙ rw (e, if◌then◌else◌) refl in
        let below : j < s.next_generation = rw at_g at (used s g old h f) in
        subst (λ l. Moves l (life j (drop_client s g))) (sym (life-some j s old (rw at_g at f)))
          (subst (Moves (phase old)) (sym (life-none j (drop_client s g) after below)) m)
    | inr e ↦ kept s (drop_client s g) j (
        life-same j s (drop_client s g) (lookup-remove g j s.clients ∙ rw (e, if◌then◌else◌) refl)
          refl)
  ];
}

-- A change that touches no client.
pub still-Follows :
    (s t : Registry)
    → IsFresh s
    → t.clients ≡ s.clients
    → t.next_generation ≡ s.next_generation
    → Follows s t
still-Follows s t h c n = record {
  fresh = λ j b. rw c (h j (rw n at b));
  counted = (omega arith, omega arith);
  moves = λ j. kept s t j (life-same j s t (rw c refl) n);
}

-- A new client under the next generation.
pub launch-Follows :
    (s t : Registry) (c : ProcessState)
    → IsFresh s
    → t.clients ≡ insert s.next_generation c s.clients
    → t.next_generation ≡ s.next_generation + 1
    → phase c ≡ starting false
    → Follows s t
unfolding life life_at
launch-Follows s t c h e n p =
    let found : (j : ℕ)
        → lookup j t.clients ≡ (if s.next_generation == j then some c else lookup j s.clients) =
      λ j. rw e (lookup-insert s.next_generation j c s.clients) in
    record {
      fresh = λ j b. found j ∙ ground (arith, h j);
      counted = (omega arith, omega arith);
      moves = λ j. elim (Bool-cases (s.next_generation == j)) [
        | inl e' ↦
            let before : life j s ≡ unused = rw (h j (ground arith)) (ground arith) in
            let after : life j t ≡ starting false =
              life-some j t c (found j ∙ rw (e', if◌then◌else◌) refl) ∙ p in
            subst (λ l. Moves l (life j t)) (sym before) (subst (Moves unused) (sym after) launches)
        | inr e' ↦ kept s t j (
            let same : lookup j t.clients ≡ lookup j s.clients =
              found j ∙ rw (e', if◌then◌else◌) refl in
            rw (same, n) (life_at-suc (lookup j s.clients) j s.next_generation e'))
      ];
    }
