-- ===== src/Messages.antt =====
-- src/utils/common.ts: `getMessageId`, which reads the message id from the logs of a
-- receipt. The parser of the contract interface is a parameter.
pub mod Laws
pub mod Reading
use rayls_sovereign_tests_au.Shared.{
  ℕ, zero, suc, ◌+◌, String, Option, none, some, List, [], ◌∷◌, ◌++◌, Bool, true, false, ◌≡◌, refl,
  if◌then◌else◌, arith,
}
use rayls_sovereign_tests_au.Shared.Text.{◌<>◌, codes, to_lower, is_prefix, list_eq}
use rayls_sovereign_tests_au.Js.{JsError, error, Result, ok, err}
use rayls_sovereign_tests_au.Transactions.{Log}
use text.Mathlib.Text.{◌==◌ as str_eq}

pub record ParsedLog : Type 0 where
  pub name : String
  pub message_id : Option String

abbrev not_found : Result String
not_found = err (error "MessageDispatched.messageId not found in receipt logs")

-- The id as the source returns it: with the prefix 0x. An empty id counts as missing.
abbrev pub with_prefix : String → String
with_prefix s = if is_prefix (codes "0x") (codes s) then s else "0x" <> s

unfoldable pub message_id_text : Option String → Result String
message_id_text none = not_found
message_id_text (some s) = if str_eq s "" then not_found else ok (with_prefix s)

abbrev pub from_endpoint : String → Log → Bool
from_endpoint endpoint l = elim (l.address) [
  | none ↦ list_eq [] (to_lower (codes endpoint))
  | some a ↦ list_eq (to_lower (codes a)) (to_lower (codes endpoint))
]

abbrev pub dispatched : Option ParsedLog → Bool
dispatched none = false
dispatched (some p) = str_eq p.name "MessageDispatched"

abbrev pub id_of : Option ParsedLog → Option String
id_of none = none
id_of (some p) = p.message_id

module _ (parse_log : Log → Option ParsedLog) where
  -- The loop: the first log of the endpoint that is a `MessageDispatched` decides.
  unfoldable pub find_message_id : String → List Log → Result String
  find_message_id endpoint [] = not_found
  find_message_id endpoint (l ∷ logs) =
      let rest = find_message_id endpoint logs in
      if from_endpoint endpoint l
      then (let parsed = parse_log l in
          if dispatched parsed then message_id_text (id_of parsed) else rest)
      else rest

  -- The logs are those of the receipt; `none` if there is no receipt or if its logs are no array.
  unfoldable pub get_message_id : String → Option (List Log) → Result String
  unfolding find_message_id
  get_message_id endpoint none = err (error "receipt has no logs")
  get_message_id endpoint (some logs) = find_message_id endpoint logs
