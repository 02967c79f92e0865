-- ===== src/Transactions.antt =====
-- src/utils/common.ts: sending transactions. `send_tx` retries nonce and transient RPC failures;
-- `submit_tx` also sends a transaction again whose receipt does not come or which was replaced.
-- The chain library is a parameter: a response has a hash and a `wait()`, of which the model sees what
-- it gives within a time, if anything.
pub mod Laws
pub mod Loads
use rayls_sovereign_tests_au.Shared.{
  ℕ, zero, suc, String, Option, none, some, List, [], ◌∷◌, Bool, true, false, ◌||◌, ◌&&◌, ltb, ◌==◌,
  if◌then◌else◌,
}
use rayls_sovereign_tests_au.Shared.Text.{◌<>◌, show, codes, to_lower, is_prefix}
use rayls_sovereign_tests_au.Js.{
  JsError, error, assertion, Result, ok, err, Exec, and_then, or_else, ◌>>=◌,
}
use rayls_sovereign_tests_au.Errors.{
  receipt_timeout, is_receipt_timeout, is_nonce_error, is_transient_rpc_error, has_code,
}
use rayls_sovereign_tests_au.Logging.{Host, World, log, load, load_success, delay}
use rayls_sovereign_tests_au.Retry.{RetryOptions, retry}
use text.Mathlib.Text.{◌==◌ as str_eq, starts_with}

pub record Log : Type 0 where
  pub address : Option String
  pub topics : List String
  pub payload : String

pub record Receipt : Type 0 where
  pub status : Option ℕ
  pub block_number : ℕ
  pub logs : List Log

-- `settled ms` is what `wait()` gives within `ms`; a `null` receipt is `ok none`.
pub record Response (X : Type 0) : Type 0 where
  pub hash : String
  pub settled : ℕ → X → Option (Result (Option Receipt)) × X

abbrev pub receipt_timeout_ms : ℕ
receipt_timeout_ms = 15000

abbrev within :
    {X : Type 0}
    → World X
    → Option (Result (Option Receipt)) × X
    → Option (Result (Option Receipt)) × World X
within w (r, x) = (r, record w { outside = x })

abbrev pub raced :
    {X : Type 0}
    → String
    → ℕ
    → Option (Result (Option Receipt)) × World X
    → Result (Option Receipt) × World X
raced hash timeout_ms (none, w) = (err (receipt_timeout hash timeout_ms), w)
raced hash timeout_ms (some r, w) = (r, w)

-- The race of `wait()` against the timeout.
unfoldable pub wait_for_receipt : {X : Type 0} → Response X → ℕ → Exec (World X) (Option Receipt)
wait_for_receipt response timeout_ms w =
    raced response.hash timeout_ms (within w (response.settled timeout_ms w.outside))

abbrev pub worth_retrying : JsError → Bool
worth_retrying e = is_nonce_error e || is_transient_rpc_error e

abbrev failure_word : JsError → String
failure_word e = if is_nonce_error e then "nonce" else "transient"

abbrev context_text : Option String → String
context_text none = ""
context_text (some c) = if str_eq c "" then "" else " (" <> c <> ")"

abbrev pub max_displaced_retries : ℕ
max_displaced_retries = 5

-- An error of `waitForReceipt` after which the transaction is sent again.
abbrev pub is_displaced : JsError → Bool
is_displaced e = is_receipt_timeout e.kind || has_code "TRANSACTION_REPLACED" e

displaced_line : String → String → ℕ → JsError → String
displaced_line message hash attempt e =
    (if is_receipt_timeout e.kind
      then "[DISPLACED] Receipt timeout for \"" <> message
      else "[REPLACED] Tx replaced for \"" <> message)
    <> "\" (hash="
    <> hash
    <> "), resubmitting ("
    <> show attempt
    <> "/5)..."

module _ {X : Type 0} where
  abbrev say : String → Exec (World X) (Unit {0})
  say line w = (ok tt, log line w)

  abbrev pub send_options : Option String → RetryOptions (World X)
  send_options context = record {
    attempts = some 5;
    delay_ms = some 500;
    on_retry = some (λ e i. say (
        "[TX RETRY] "
        <> failure_word e
        <> " sendTx attempt "
        <> show i
        <> "/5"
        <> context_text context));
    retry_if = some worth_retrying;
  }

  abbrev pub submit_options : String → RetryOptions (World X)
  submit_options message = record {
    attempts = some 5;
    delay_ms = some 500;
    on_retry = some (λ e i.
        say ("[TX RETRY] " <> failure_word e <> " attempt " <> show i <> "/5 for: " <> message));
    retry_if = some worth_retrying;
  }

module _ {X : Type 0} (host : Host X) where
  abbrev send_once : Exec (World X) (Response X) → Exec (World X) (Option Receipt)
  send_once tx_factory w =
      and_then (tx_factory w) (λ response. wait_for_receipt response receipt_timeout_ms)

  unfoldable pub send_tx :
      Exec (World X) (Response X) → Option String → Exec (World X) (Option Receipt)
  send_tx tx_factory context = retry (delay host) (send_options context) (send_once tx_factory)

  -- The `catch` behind `waitForReceipt`; `next` is the rest of the loop.
  unfoldable pub receipt_failed :
      String
      → String
      → ℕ
      → Exec (World X) (Option Receipt)
      → JsError
      → Exec (World X) (Option Receipt)
  unfolding displaced_line
  receipt_failed message hash attempt next e w =
      if ltb attempt max_displaced_retries && is_displaced e
      then next (log (displaced_line message hash attempt e) w)
      else (err e, w)

  abbrev pub resend : String → Exec (World X) (Response X) → Exec (World X) (Response X)
  resend message tx_factory = retry (delay host) (submit_options message) tx_factory

  unfoldable pub submit_from :
      String → Exec (World X) (Response X) → ℕ → ℕ → Exec (World X) (Option Receipt)
  submit_from message tx_factory zero attempt w = (ok none, w)
  submit_from message tx_factory (suc left) attempt w =
      and_then (resend message tx_factory w) (λ response v.
        or_else (wait_for_receipt response receipt_timeout_ms v) (
          receipt_failed message response.hash attempt
            (submit_from message tx_factory left (suc attempt))))

  -- Behind the loop: there must be a receipt, of a transaction that did not revert.
  unfoldable pub check_receipt : String → ℕ → Option Receipt → Exec (World X) Receipt
  check_receipt message id none w =
      (err (error ("No receipt after displaced retries: " <> message)), w)
  check_receipt message id (some receipt) w = elim (receipt.status) [
    | none ↦ (err (assertion "expected null to equal 1"), w)
    | some n ↦
        (if n == 1
          then (ok receipt, load_success host id w)
          else (err (assertion ("expected " <> show n <> " to equal 1")), w))
  ]

  unfoldable pub submit_tx : Exec (World X) (Response X) → String → Exec (World X) Receipt
  submit_tx tx_factory message w =
      let (id, w₁) = load host message w in
      and_then (submit_from message tx_factory max_displaced_retries 1 w₁)
        (check_receipt message id)
