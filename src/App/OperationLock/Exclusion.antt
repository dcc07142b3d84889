-- ===== src/App/OperationLock/Exclusion.antt =====
-- An exclusive guard excludes every other guard of its key, in all processes.
use nndsk_ro_launcher.Base.{
  ℕ, ◌<◌, ◌≡◌, ◌≢◌, ◌⊎◌, inl, inr, refl, ◌∙◌, Bool, true, false, not, Option, none, some, Text,
  arith,
}
use nndsk_ro_launcher.Base.Dict.{Text-eq, lookup}
use nndsk_ro_launcher.App.OperationLock.{
  LockState, System, no_operations, acquire_with_mode, drop_guard,
}
use nndsk_ro_launcher.App.OperationLock.World.{
  RecordLocks, World, acquire_in, drop_in, Step, acquires, drops, Reach, start, later,
}
use nndsk_ro_launcher.App.OperationLock.Sound.{Matches, IsSound, update-IsSound}
use nndsk_ro_launcher.App.OperationLock.Sound.Acquire.{acquire-After}
use nndsk_ro_launcher.App.OperationLock.Sound.Drop.{drop-AfterDrop}

module _ {Os : Type 0} (system : System Os) (locks : RecordLocks system) where
  Step-IsSound :
      (w v : World Os) → Step system w v → IsSound system locks w → IsSound system locks v
  unfolding acquire_in drop_in
  Step-IsSound w v (acquires _ weather p key shared) h =
      let (r, o, os') = acquire_with_mode system weather p key shared (w.tables p, w.os) in
      let (beside, fits) = acquire-After system locks weather w p key shared h in
      update-IsSound system locks w p o os' _ h beside fits (λ q k m d. ground arith)
  Step-IsSound w v (drops _ p key shared b) h =
      let (o, os') =
        drop_guard system p (record { key = key; shared = shared }) (w.tables p, w.os) in
      let (beside, fits) = drop-AfterDrop system locks w p key shared h b in
      update-IsSound system locks w p o os' _ h beside fits (λ q k m d. ground arith)

  Reach-IsSound : (w : World Os) → Reach system locks w → IsSound system locks w
  unfolding no_operations lookup
  Reach-IsSound w (start os free) = record {
    fits = λ p k. (refl, refl, free p (system.lock_file k));
    beside = λ p q f a b d e. cc (e, free p f);
  }
  Reach-IsSound w (later v _ r s) = Step-IsSound v w s (Reach-IsSound v r)

  -- A living guard holds the key's file, and an exclusive one is alone in its process.
  exclusive-Matches :
      (file : Text) (st : Option LockState) (shared exclusive : ℕ) (held : Option Bool)
      → Matches file st shared exclusive held
      → 0 < exclusive
      → (exclusive ≡ 1) × (shared ≡ 0) × (held ≡ some false)
  exclusive-Matches file none shared exclusive held (s, x, _) b = absurd (omega arith)
  exclusive-Matches file (some a) shared exclusive held h b =
      let s = h.covers_shared in
      let x = h.covers_exclusive in
      let k = h.one_kind in
      let w : a.writer ≡ true = ground arith in (ground arith, ground arith, h.is_held ∙ rw w refl)

  live-Matches :
      (file : Text) (st : Option LockState) (shared exclusive : ℕ) (held : Option Bool)
      → Matches file st shared exclusive held
      → ((shared ≡ 0) × (exclusive ≡ 0)) ⊎ ((m : Bool) × (held ≡ some m))
  live-Matches file none shared exclusive held (s, x, _) = inl (s, x)
  live-Matches file (some a) shared exclusive held h = inr (not a.writer, h.is_held)

  -- In whatever order processes acquire guards and drop them, while an exclusive guard of a key is
  -- alive, it is the only guard of the key: there is no other in its process, of either kind, and
  -- none in any other process.
  pub Reach-exclusive :
      (w : World Os)
      → Reach system locks w
      → (p : ℕ) (key : Text) → 0 < w.live p key false
      → (w.live p key false ≡ 1)
        × (w.live p key true ≡ 0)
        × ((q : ℕ) → p ≢ q → (w.live q key true ≡ 0) × (w.live q key false ≡ 0))
  Reach-exclusive w r p key b =
      let h = Reach-IsSound w r in
      let file = system.lock_file key in
      let (x, s, held) = exclusive-Matches file _ _ _ _ (h.fits p key) b in
      (
        x,
        s,
        λ q d. elim (live-Matches file _ _ _ _ (h.fits q key)) [
          | inl zeros ↦ zeros
          | inr (m, other) ↦ cc ((h.beside p q file false m d held other).0)
        ],
      )
