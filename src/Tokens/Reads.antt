-- ===== src/Tokens/Reads.antt =====
-- The waits of the token wrappers that poll one read of a chain until the value passes a test, and
-- what has been seen when such a wait returns.
use rayls_sovereign_tests_au.Shared.{
  ℕ, String, Option, none, Bool, true, false, ◌==◌, ==_iff, ◌≡◌, ◌∙◌, ap,
}
use rayls_sovereign_tests_au.Js.{ok, Exec, and_then, and_then-ok}
use rayls_sovereign_tests_au.Logging.{Host, World}
use rayls_sovereign_tests_au.Polling.{PollOptions, eventually}
use rayls_sovereign_tests_au.Polling.Loads.{Reached, eventually-Checked}
use rayls_sovereign_tests_au.Tokens.{is_true, bool_json}

module _ {X A : Type 0} (read : Exec (World X) A) (test : A → Bool) where
  abbrev tested : A → Exec (World X) Bool
  tested a v = (ok (test a), v)

  -- A check that reads and tests, with the default interval and window, or a window of its own.
  unfoldable pub read_poll : (attempts : Option ℕ) → (tolerate : Bool) → PollOptions (World X) Bool
  read_poll attempts tolerate = record {
    check = λ w. and_then (read w) tested;
    interval = none;
    attempts = attempts;
    tolerate_errors = tolerate;
  }

  abbrev done : Bool → Exec (World X) (Unit {0})
  done b v = (ok tt, v)

  module _ (host : Host X) (workers : ℕ) (message : String) where
    unfoldable pub await_read_within : Option ℕ → Bool → Exec (World X) (Unit {0})
    unfolding read_poll
    await_read_within attempts tolerate w =
        and_then (eventually host workers is_true bool_json message (read_poll attempts tolerate) w)
          done

    unfoldable pub await_read : Exec (World X) (Unit {0})
    unfolding await_read_within
    await_read = await_read_within none false

    -- In a state that the wait begun in `w` reached, the read gives a value that passes.
    abbrev pub Seen : Option ℕ → Bool → World X → Type 0
    Seen attempts tolerate w =
        (z t : World X) × (a : A) × (read z ≡ (ok a, t))
        × (test a ≡ true)
        × Reached host workers is_true message (read_poll attempts tolerate) w z

    tested-true :
        (a : A) (b : Bool) (s t : World X)
        → tested a s ≡ (ok b, t)
        → is_true b ≡ true
        → test a ≡ true
    tested-true a b s t h holds = let same : test a ≡ b = cc in same ∙ holds

    pub await_read_within-Seen :
        (attempts : Option ℕ) (tolerate : Bool) (w u : World X) (x : Unit {0})
        → await_read_within attempts tolerate w ≡ (ok x, u)
        → Seen attempts tolerate w
    unfolding await_read_within read_poll
    await_read_within-Seen attempts tolerate w u x h =
        let (b, v, waited, _) =
          and_then-ok
            (eventually host workers is_true bool_json message (read_poll attempts tolerate) w) done
            x u h in
        let (z, t, checked, holds, at) =
          eventually-Checked host workers is_true bool_json message (read_poll attempts tolerate) w
            v b waited in
        let (a, s, got, judged) = and_then-ok (read z) tested b t checked in
        (z, s, a, got, tested-true a b s t judged holds, at)

    pub await_read-Seen :
        (w u : World X) (x : Unit {0}) → await_read w ≡ (ok x, u) → Seen none false w
    unfolding await_read
    await_read-Seen w u x h = await_read_within-Seen none false w u x h

-- A wait for a read to equal a number, begun in `w`, came to a state in which the read gives that number.
abbrev pub Equalled : {X : Type 0} → Host X → ℕ → Exec (World X) ℕ → ℕ → World X → Type 0
Equalled host workers read n w =
    (message : String) × (z t : World _) × (read z ≡ (ok n, t))
    × Reached host workers is_true message (read_poll read (λ m. m == n) none false) w z

pub await_read-Equalled :
    {X : Type 0} (read : Exec (World X) ℕ) (n : ℕ) (host : Host X) (workers : ℕ) (message : String)
    (w u : World X) (x : Unit {0})
    → await_read read (λ m. m == n) host workers message w ≡ (ok x, u)
    → Equalled host workers read n w
await_read-Equalled read n host workers message w u x h =
    let (z, t, a, got, same, at) =
      await_read-Seen read (λ m. m == n) host workers message w u x h in
    (message, z, t, got ∙ ap (λ m. (ok m, t)) ((==_iff a n).0 same), at)
