-- ===== src/Backend/Onboarding.antt =====
-- src/flows/backend/user-onboarding.ts: onboarding of a user's pair of addresses.
use rayls_sovereign_tests_au.Shared.{
  ℕ, String, Option, none, some, List, Bool, true, false, not, ◌&&◌, ◌==◌, any, find_first,
  if◌then◌else◌,
}
use rayls_sovereign_tests_au.Shared.Text.{◌<>◌, show, short_hex}
use rayls_sovereign_tests_au.Js.{ok, Exec, and_then}
use rayls_sovereign_tests_au.Errors.{is_transient, transient_reason}
use rayls_sovereign_tests_au.Logging.{Host, World, log, delay}
use rayls_sovereign_tests_au.Retry.{RetryOptions, retry, or_default}
use rayls_sovereign_tests_au.Polling.{PollOptions, eventually}
use rayls_sovereign_tests_au.Backend.{
  OnboardingStatus, approved, onboarding_status_number, AddressPair, PendingGroup, StatusRequest,
  UserController, OperatorController, same_text,
}
use text.Mathlib.Text.{◌==◌ as str_eq}

abbrev pub same_pair : AddressPair → AddressPair → Bool
same_pair target p =
    same_text p.public_chain_address target.public_chain_address
    && same_text p.private_chain_address target.private_chain_address

unfoldable pub find_address_pair : List AddressPair → AddressPair → Option AddressPair
find_address_pair pairs target = find_first (same_pair target) pairs

abbrev optional_text : Option String → String
optional_text none = "undefined"
optional_text (some s) = s

abbrev reason_text : Option String → String
reason_text none = "null"
reason_text (some s) = s

abbrev status_text : Option ℕ → String
status_text none = "undefined"
status_text (some n) = show n

pub record OnboardingOptions (X : Type 0) : Type 0 where
  pub operator_approval_attempts : Option ℕ
  pub operator_approval_delay_ms : Option ℕ
  pub user_id : Option String
  pub on_user_id : Option (String → Exec (World X) (Unit {0}))

-- An optional value is falsy if it is missing, and an optional text if it is empty as well.
abbrev pub truthy_pair : Option AddressPair → Bool
truthy_pair none = false
truthy_pair (some p) = true

abbrev pub truthy_text : Option String → Bool
truthy_text none = false
truthy_text (some s) = not (str_eq s "")

-- The user of the first group of pending pairs that holds the pair.
abbrev group_user : Option PendingGroup → Option String
group_user none = none
group_user (some g) = some g.user_id

unfoldable pub pending_user : AddressPair → List PendingGroup → Option String
pending_user pair groups =
    group_user (find_first (λ g. any (same_pair pair) g.address_pairs) groups)

abbrev request_of : AddressPair → OnboardingStatus → StatusRequest
request_of pair new_status = record {
  public_address = pair.public_chain_address;
  private_address = pair.private_chain_address;
  status = new_status;
}

abbrev pub approved_only : Option AddressPair → Option AddressPair
approved_only none = none
approved_only (some p) = if p.status == 1 then some p else none

module _ {X : Type 0} where
  abbrev plain_options : RetryOptions (World X)
  plain_options = record { attempts = none; delay_ms = none; on_retry = none; retry_if = none }

  abbrev pub discovery : OperatorController X → AddressPair → PollOptions (World X) (Option String)
  discovery operator pair = record {
    check = λ w.
        and_then (operator.list_all_pending_address_pairs w)
          (λ groups v. (ok (pending_user pair groups), v));
    interval = some 1000;
    attempts = some 30;
    tolerate_errors = true;
  }

  -- The value of an optional that a wait has found.
  abbrev found_text : Option String → Exec (World X) String
  found_text none w = (ok "", w)
  found_text (some s) w = (ok s, w)

  abbrev pub found_pair : AddressPair → Option AddressPair → Exec (World X) AddressPair
  found_pair default none w = (ok default, w)
  found_pair default (some p) w = (ok p, w)

  -- The payload's text is left out of the logged line.
  abbrev pub approval_options : OnboardingOptions X → RetryOptions (World X)
  approval_options opts =
      let attempts = or_default opts.operator_approval_attempts 10 in
      record {
        attempts = some attempts;
        delay_ms = some (or_default opts.operator_approval_delay_ms 3000);
        retry_if = some is_transient;
        on_retry = some (λ e i w. (
          ok tt,
          log
              ("[RETRY "
                <> show i
                <> "/"
                <> show attempts
                <> "] operator approval failed: "
                <> optional_text e.message
                <> " (status="
                <> status_text e.status
                <> ", reason="
                <> reason_text (transient_reason e)
                <> ")")
              w,
        ));
      }

  abbrev pub surface :
      Option (String → Exec (World X) (Unit {0})) → String → Exec (World X) (Unit {0})
  surface none id w = (ok tt, w)
  surface (some callback) id w = callback id w

  abbrev pub visibility :
      UserController X → AddressPair → PollOptions (World X) (Option AddressPair)
  visibility user pair = record {
    check = λ w.
        and_then (user.list_my_address_pairs w)
          (λ mine v. (ok (approved_only (find_address_pair mine pair)), v));
    interval = none;
    attempts = none;
    tolerate_errors = true;
  }

module _ {X : Type 0} (host : Host X) (workers : ℕ) where
  unfoldable pub onboard_user : UserController X → Exec (World X) AddressPair
  onboard_user user w =
      retry (delay host) plain_options user.add_address_pair
        (log "Onboarding user — adding a fresh HSM address pair" w)

  unfoldable pub discover_user_id : OperatorController X → AddressPair → Exec (World X) String
  discover_user_id operator pair w =
      and_then
        (eventually host workers truthy_text optional_text
          ("Waiting for pending pair "
            <> short_hex pair.public_chain_address
            <> " → discoverable userId")
          (discovery operator pair) w)
        found_text

  abbrev known_user : OperatorController X → AddressPair → Option String → Exec (World X) String
  known_user operator pair (some id) w = (ok id, w)
  known_user operator pair none w = discover_user_id operator pair w

  unfoldable pub update_onboarding_status :
      OperatorController X
      → AddressPair
      → OnboardingStatus
      → OnboardingOptions X
      → Exec (World X) String
  update_onboarding_status operator pair new_status opts w =
      and_then (known_user operator pair opts.user_id w) (λ id v.
        and_then
          (retry (delay host) (approval_options opts)
            (operator.approve_address_pair id (request_of pair new_status))
            (log
              ("Setting address-pair status → "
                <> show (onboarding_status_number new_status)
                <> " for userId "
                <> short_hex id)
              v))
          (λ done u. (ok id, u)))

  -- Only an approval is confirmed by the caller's own list.
  unfoldable pub confirmed :
      UserController X → OnboardingStatus → AddressPair → Exec (World X) AddressPair
  confirmed user approved pair w =
      and_then
        (eventually host workers truthy_pair (λ _. "undefined")
          ("Waiting for pair "
            <> short_hex pair.private_chain_address
            <> " → APPROVED & visible to caller")
          (visibility user pair) w)
        (found_pair pair)
  confirmed user _ pair w = (ok pair, w)

  unfoldable pub onboard_user_and_update_status :
      UserController X
      → OperatorController X
      → OnboardingStatus
      → OnboardingOptions X
      → Exec (World X) AddressPair
  onboard_user_and_update_status user operator new_status opts w =
      and_then (onboard_user user w) (λ pair v.
        and_then (update_onboarding_status operator pair new_status opts v)
          (λ id u. and_then (surface opts.on_user_id id u) (λ _. confirmed user new_status pair)))
