-- ===== src/Timed/Laws.antt =====
-- How a deadline loop ends.
use rayls_sovereign_tests_au.Shared.{
  ℕ, zero, suc, ◌+◌, ◌≤◌, ◌<◌, Bool, true, false, ◌≡◌, refl, arith, ltb, ltb→lt, Bool-cases, inl,
  inr, ap,
}
use rayls_sovereign_tests_au.Logging.{Host}
use rayls_sovereign_tests_au.Timed.{
  Ended, passed, timed_out, stuck, after_probe, timed_round, before_deadline, until_deadline,
}

-- What the clock does: a wait lasts at least as long as asked, and a probe takes no negative time.
pub record RunsForward {X : Type 0} (host : Host X) (probe : X → Bool × X) : Type 0 where
  pub waits : (ms : ℕ) (x : X) → host.now x + ms ≤ host.now (host.wait ms x)
  pub probes : (x : X) → host.now x ≤ host.now (probe x).1

module _ {X : Type 0} (host : Host X) (probe : X → Bool × X) (poll_ms : ℕ) where
  -- `Probed d k x y`: from `x`, `k` probes begun before the deadline `d` fail, each followed by a
  -- wait, which leads to `y`.
  pub data Probed (d : ℕ) : ℕ → X → X → Type 0 where
    start : {x : X} → Probed d zero x x
    again :
        {k : ℕ} {x y z : X}
        → host.now x < d
        → probe x ≡ (false, y)
        → Probed d k (host.wait poll_ms y) z
        → Probed d (suc k) x z

  -- What each end of the loop means.
  abbrev pub Meaning : ℕ → X → Ended × X → Type 0
  Meaning d x (passed, y) =
      (k : ℕ) × (z : X) × Probed d k x z × (host.now z < d) × (probe z ≡ (true, y))
  Meaning d x (timed_out, y) = (k : ℕ) × Probed d k x y × (d ≤ host.now y)
  Meaning d x (stuck, y) = ⊥

  Meaning-again :
      (d : ℕ) (x y : X) (r : Ended × X)
      → host.now x < d
      → probe x ≡ (false, y)
      → Meaning d (host.wait poll_ms y) r
      → Meaning d x r
  Meaning-again d x y (passed, u) early failed (k, z, run, h, p) =
      (suc k, z, again early failed run, h, p)
  Meaning-again d x y (timed_out, u) early failed (k, run, h) = (suc k, again early failed run, h)
  Meaning-again d x y (stuck, u) early failed m = m

  before_deadline-early :
      (d fuel : ℕ) (x : X)
      → ltb (host.now x) d ≡ true
      → before_deadline host probe poll_ms d (suc fuel) x
        ≡ after_probe host probe poll_ms d (before_deadline host probe poll_ms d fuel) (probe x)
  unfolding before_deadline timed_round
  before_deadline-early d fuel x early =
      ap (timed_round host probe poll_ms d (before_deadline host probe poll_ms d fuel) x) early

  before_deadline-late :
      (d fuel : ℕ) (x : X)
      → ltb (host.now x) d ≡ false
      → before_deadline host probe poll_ms d (suc fuel) x ≡ (timed_out, x)
  unfolding before_deadline timed_round
  before_deadline-late d fuel x late =
      ap (timed_round host probe poll_ms d (before_deadline host probe poll_ms d fuel) x) late

  module _ (forward : RunsForward host probe) (pos : 0 < poll_ms) where
    after_probe-Meaning :
        (d fuel : ℕ) (x y : X) (b : Bool)
        → host.now x < d
        → d ≤ host.now x + fuel
        → probe x ≡ (b, y)
        → ((z : X)
            → d < host.now z + fuel
            → Meaning d z (before_deadline host probe poll_ms d fuel z))
        → Meaning d x
            (after_probe host probe poll_ms d (before_deadline host probe poll_ms d fuel) (b, y))
    unfolding after_probe
    after_probe-Meaning d fuel x y true early enough e ih = (zero, x, start, early, e)
    after_probe-Meaning d fuel x y false early enough e ih =
        Meaning-again d x y (before_deadline host probe poll_ms d fuel (host.wait poll_ms y)) early
          e
          (ih (host.wait poll_ms y) (
            omega (
              arith,
              forward.waits poll_ms y,
              forward.probes x,
              ap (λ (p : Bool × X). host.now p.1) e,
            )))

    before_deadline-Meaning :
        (d fuel : ℕ) (x : X)
        → 0 < fuel
        → d < host.now x + fuel
        → Meaning d x (before_deadline host probe poll_ms d fuel x)
    before_deadline-Meaning d zero x some_fuel enough = absurd (omega arith)
    before_deadline-Meaning d (suc fuel) x some_fuel enough =
        elim (Bool-cases (ltb (host.now x) d)) [
          | inl early ↦ rw (before_deadline-early d fuel x early) (
              after_probe-Meaning d fuel x (probe x).1 (probe x).0 (ltb→lt (host.now x) d early)
                (omega arith) refl
                (λ z h.
                  before_deadline-Meaning d fuel z
                    (some_left fuel (host.now x) d (ltb→lt (host.now x) d early) (omega arith)) h))
          | inr late ↦
              rw (before_deadline-late d fuel x late) (zero, start, not_before (host.now x) d late)
        ]
      where
        not_before : (a b : ℕ) → ltb a b ≡ false → b ≤ a
        not_before a b h = ground arith

        some_left : (f a b : ℕ) → a < b → b < a + suc f → 0 < f
        some_left f a b h k = omega arith

    -- If waits last at least as long as asked, probes take no negative time and the pause between
    -- probes is not zero, then a deadline loop always ends: it passes by a probe that was begun before
    -- the deadline, after probes that failed, or it times out, with the deadline reached.
    pub until_deadline_ends :
        (timeout_ms : ℕ) (x : X)
        → Meaning (host.now x + timeout_ms) x (until_deadline host probe timeout_ms poll_ms x)
    unfolding until_deadline
    until_deadline_ends timeout_ms x =
        before_deadline-Meaning (host.now x + timeout_ms) (suc timeout_ms) x (omega arith)
          (omega arith)
