-- ===== src/Polling.antt =====
-- src/utils/common.ts: `poll`, the private polling loop, and the two waits that are built on it:
-- `eventually` (until the check gives a truthy value) and `never` (it must not, within the window).
-- `truthy` says which values of the check end the poll, `json` is the text of a value in a message.
pub mod Runs
pub mod Laws
pub mod Recorded
pub mod Waits
pub mod Loads
use rayls_sovereign_tests_au.Shared.{
  ℕ, zero, suc, ◌+◌, ◌*◌, ◌/◌, String, Option, none, some, Bool, true, false, ltb, if◌then◌else◌,
}
use rayls_sovereign_tests_au.Shared.Text.{◌<>◌, show}
use rayls_sovereign_tests_au.Js.{JsError, error, Result, ok, err, Exec}
use rayls_sovereign_tests_au.Logging.{Host, World, delay, load, load_success, load_error}
use rayls_sovereign_tests_au.Retry.{or_default}
use rayls_sovereign_tests_au.Env.{default_timeout, second}

pub record PollOptions (S A : Type 0) : Type 0 where
  pub check : Exec S A
  pub interval : Option ℕ
  pub attempts : Option ℕ
  pub tolerate_errors : Bool

module _ {S A : Type 0} where
  abbrev pub poll_interval : PollOptions S A → ℕ
  poll_interval opts = or_default opts.interval second

module _ {S A : Type 0} (workers : ℕ) where
  abbrev pub poll_attempts : PollOptions S A → ℕ
  poll_attempts opts = or_default opts.attempts (default_timeout workers / second)

-- One round: a truthy value ends the poll, a falsy one or a tolerated error does not.
pub data Verdict (A : Type 0) : Type 0 where
  ready : A → Verdict A
  not_ready : Verdict A
  failed : JsError → Verdict A

abbrev pub judge : {A : Type 0} → (A → Bool) → Bool → Result A → Verdict A
judge truthy tolerate (ok v) = if truthy v then ready v else not_ready
judge truthy tolerate (err e) = if tolerate then not_ready else failed e

module _ {S A : Type 0} (wait : ℕ → S → S) (truthy : A → Bool) (check : Exec S A)
    (interval attempts : ℕ) (tolerate : Bool) where
  -- What follows the verdict of round `i`; `next` is the rest of the loop.
  unfoldable pub after_check : ℕ → Exec S (Option A) → Verdict A → Exec S (Option A)
  after_check i next (ready v) s = (ok (some v), s)
  after_check i next (failed e) s = (err e, s)
  after_check i next not_ready s = next (if ltb i attempts then wait interval s else s)

  unfoldable pub poll_from : ℕ → ℕ → Exec S (Option A)
  poll_from zero i s = (ok none, s)
  poll_from (suc left) i s =
      let (r, t) = check s in after_check i (poll_from left (suc i)) (judge truthy tolerate r) t

  unfoldable pub poll : Exec S (Option A)
  poll = poll_from attempts 1

-- A check that also writes to local variables of the code around the poll: the result of each check
-- updates them by `note`.
unfoldable pub recorded : {S A L : Type 0} → (L → Result A → L) → Exec S A → Exec (L × S) A
recorded note check (l, s) = let (r, t) = check s in (r, (note l r, t))

abbrev pub wait_beside : {S L : Type 0} → (ℕ → S → S) → ℕ → L × S → L × S
wait_beside wait ms (l, s) = (l, wait ms s)

-- The local variables of `eventually`, which its check writes: the last falsy value and the last error.
pub record Observed (A : Type 0) : Type 0 where
  pub last_value : Option A
  pub last_error : Option JsError

abbrev pub nothing_observed : {A : Type 0} → Observed A
nothing_observed = record { last_value = none; last_error = none }

module _ {X A : Type 0} (host : Host X) (workers : ℕ) (truthy : A → Bool) (json : A → String) where
  -- The check that `eventually` passes on.
  abbrev pub note : Observed A → Result A → Observed A
  note seen (ok v) = if truthy v then seen else record seen { last_value = some v }
  note seen (err e) = record seen { last_error = some e }

  abbrev observed_value : Option A → String
  observed_value none = "undefined"
  observed_value (some v) = json v

  abbrev observed_error : Option String → JsError → String
  observed_error none e = host.error_string e
  observed_error (some m) e = m

  abbrev observed_text : Observed A → Option JsError → String
  observed_text seen none = "last observed: " <> observed_value seen.last_value
  observed_text seen (some e) = "last error: " <> observed_error e.message e

  unfoldable pub exhaustion : String → PollOptions (World X) A → Observed A → JsError
  exhaustion message opts seen = error (
      message
      <> " (after "
      <> show (poll_attempts workers opts)
      <> " attempts, "
      <> show (poll_interval opts)
      <> " ms interval, "
      <> observed_text seen seen.last_error
      <> ")")

  unfoldable pub wait_over :
      String
      → PollOptions (World X) A
      → ℕ
      → Result (Option A) × (Observed A × World X)
      → Result A × World X
  wait_over message opts id (ok (some v), (seen, w)) = (ok v, load_success host id w)
  wait_over message opts id (ok none, (seen, w)) =
      (err (exhaustion message opts seen), load_error host id w)
  wait_over message opts id (err e, (seen, w)) = (err e, w)

  unfoldable pub eventually : String → PollOptions (World X) A → Exec (World X) A
  eventually message opts w =
      let (id, w₁) = load host message w in
      wait_over message opts id (
        poll (wait_beside (delay host)) truthy (recorded note opts.check) (poll_interval opts)
          (poll_attempts workers opts) opts.tolerate_errors (nothing_observed, w₁))

  unfoldable pub window_over :
      String → ℕ → Result (Option A) × (ℕ × World X) → Result (Unit {0}) × World X
  window_over message id (ok none, (n, w)) = (ok tt, load_success host id w)
  window_over message id (ok (some v), (n, w)) = (
    err (
        error (
          message <> " — condition matched at attempt " <> show n <> " (value: " <> json v <> ")")),
    load_error host id w,
  )
  window_over message id (err e, (n, w)) = (err e, w)

  -- `never` counts the checks that it makes, for its message.
  unfoldable pub never : String → PollOptions (World X) A → Exec (World X) (Unit {0})
  never message opts w =
      let (id, w₁) = load host message w in
      window_over message id (
        poll (wait_beside (delay host)) truthy (recorded (λ n _. suc n) opts.check)
          (poll_interval opts) (poll_attempts workers opts) opts.tolerate_errors (0, w₁))
