-- ===== src/Errors.antt =====
-- src/exceptions-and-errors/block-chain-exceptions.ts and backend-error.ts: the classes of errors,
-- the patterns that each class looks for in a message, and which failures are worth a retry.
pub mod Laws
use rayls_sovereign_tests_au.Shared.{
  ℕ, String, Option, none, some, List, [], ◌∷◌, Bool, true, false, ◌||◌, ◌≡◌, refl, leb, any,
  find_first, if◌then◌else◌,
}
use rayls_sovereign_tests_au.Shared.Text.{codes, to_lower, includes, ◌<>◌, show}
use rayls_sovereign_tests_au.Js.{
  ErrorKind, JsError, undefined_error, nonce_error, replacement_transaction_error,
  known_transaction_error, transient_rpc_error, receipt_timeout_error, backend_error,
}
use text.Mathlib.Text.{◌==◌ as str_eq}

-- `new ReceiptTimeoutError(txHash, timeoutMs)`.
pub receipt_timeout : String → ℕ → JsError
receipt_timeout tx_hash timeout_ms = record undefined_error {
  kind = receipt_timeout_error;
  message = some ("Receipt timeout after " <> show timeout_ms <> "ms for tx " <> tx_hash);
}

-- The text that the patterns are looked for in: the message, else the reason, else nothing. An empty
-- text counts as missing.
abbrev or_text : Option String → String → String
or_text none t = t
or_text (some s) t = if str_eq s "" then t else s

unfoldable pub error_text : JsError → List ℕ
error_text e = to_lower (codes (or_text e.message (or_text e.reason "")))

-- `static matches`, shared by the classes, over a class's patterns.
unfoldable pub matches : List String → JsError → Bool
matches patterns e = any (λ p. includes (codes p) (error_text e)) patterns

abbrev pub nonce_patterns : List String
nonce_patterns = "nonce" ∷ []

abbrev pub replacement_patterns : List String
replacement_patterns =
    "replacement transaction" ∷ "replacement fee too low" ∷ "transaction was replaced" ∷ "repriced"
    ∷ []

abbrev pub known_patterns : List String
known_patterns = "known transaction" ∷ "already known" ∷ []

abbrev pub transient_patterns : List String
transient_patterns = "invalid bytelike" ∷ "value=null" ∷ "missing trie node" ∷ []

-- `NONCE_ERROR_CLASSES`, by the patterns of each class.
abbrev pub nonce_error_classes : List (List String)
nonce_error_classes = replacement_patterns ∷ known_patterns ∷ nonce_patterns ∷ []

-- `err instanceof NonceError`: the class and its two subclasses.
abbrev pub is_nonce_instance : ErrorKind → Bool
is_nonce_instance nonce_error = true
is_nonce_instance replacement_transaction_error = true
is_nonce_instance known_transaction_error = true
is_nonce_instance _ = false

abbrev pub is_transient_instance : ErrorKind → Bool
is_transient_instance transient_rpc_error = true
is_transient_instance _ = false

abbrev pub is_receipt_timeout : ErrorKind → Bool
is_receipt_timeout receipt_timeout_error = true
is_receipt_timeout _ = false

-- `err?.code === code`.
abbrev pub has_code : String → JsError → Bool
has_code wanted e = elim (e.code) [ none ↦ false | some c ↦ str_eq c wanted ]

unfoldable pub is_nonce_error : JsError → Bool
is_nonce_error e =
    if is_nonce_instance e.kind
    then true
    else if has_code "TRANSACTION_REPLACED" e
    then true
    else any (λ patterns. matches patterns e) nonce_error_classes

unfoldable pub is_transient_rpc_error : JsError → Bool
is_transient_rpc_error e =
    if is_transient_instance e.kind
    then true
    else if has_code "BAD_DATA" e
    then true
    else matches transient_patterns e

-- `new BackendError(message, status, code)`.
pub backend_failure : String → ℕ → Option String → JsError
backend_failure text status code = record undefined_error {
  kind = backend_error;
  message = some text;
  code = code;
  status = some status;
}

pub record RetryableCondition : Type 0 where
  pub name : String
  pub condition_matches : JsError → Bool

abbrev server_failure : JsError → Bool
server_failure e = elim (e.status) [ none ↦ false | some n ↦ leb 500 n ]

-- This condition looks at the message alone.
abbrev not_mapped : JsError → Bool
not_mapped e = elim (e.message) [
  | none ↦ false
  | some m ↦ includes (codes "public address not mapped to user") (to_lower (codes m))
]

-- `TransientBackendError.RETRYABLE`.
abbrev pub retryable : List RetryableCondition
retryable =
    record { name = "http-5xx"; condition_matches = server_failure }
    ∷ record { name = "nonce-collision"; condition_matches = is_nonce_error }
    ∷ record { name = "addr-pair-not-mapped"; condition_matches = not_mapped }
    ∷ []

unfoldable pub is_transient : JsError → Bool
is_transient e = any (λ c. c.condition_matches e) retryable

abbrev condition_name : Option RetryableCondition → Option String
condition_name none = none
condition_name (some c) = some c.name

-- The name of the first condition that holds, or `null`.
unfoldable pub transient_reason : JsError → Option String
transient_reason e = condition_name (find_first (λ c. c.condition_matches e) retryable)
