-- ===== src/Backend/TokenRegistry.antt =====
-- src/flows/backend/token-operations.ts: registration of a token and the operator's transitions, and
-- the poll for a token's status of src/api/UserController.ts. Texts of payloads are left out of the
-- logged lines.
use rayls_sovereign_tests_au.Shared.{
  ℕ, String, Option, none, some, Bool, true, false, ◌&&◌, ◌==◌, find_first, if◌then◌else◌,
}
use rayls_sovereign_tests_au.Shared.Text.{◌<>◌, show, short_hex}
use rayls_sovereign_tests_au.Js.{JsError, error, assertion, ok, err, Exec, and_then}
use rayls_sovereign_tests_au.Errors.{is_transient, transient_reason}
use rayls_sovereign_tests_au.Logging.{Host, World, log, delay}
use rayls_sovereign_tests_au.Retry.{RetryOptions, retry, or_default}
use rayls_sovereign_tests_au.Polling.{PollOptions, eventually}
use rayls_sovereign_tests_au.Backend.{
  TokenStatus, token_status_number, FreezeLayer, privacy_node, public_chain, AddressPair,
  RegisteredToken, TeleportRequest, UserController, OperatorController, same_text,
}
use rayls_sovereign_tests_au.Backend.Onboarding.{truthy_text}

abbrev text_or_undefined : Option String → String
text_or_undefined none = "undefined"
text_or_undefined (some s) = s

abbrev text_or_null : Option String → String
text_or_null none = "null"
text_or_null (some s) = s

abbrev number_or : String → Option ℕ → String
number_or d none = d
number_or d (some n) = show n

pub record RetryChoice : Type 0 where
  pub attempts : Option ℕ
  pub delay_ms : Option ℕ

abbrev pub default_choice : RetryChoice
default_choice = record { attempts = none; delay_ms = none }

abbrev pub truthy_token : Option RegisteredToken → Bool
truthy_token none = false
truthy_token (some t) = true

abbrev pub has_status : String → ℕ → RegisteredToken → Bool
has_status address status t = same_text t.address address && t.status == status

abbrev layer_text : FreezeLayer → String
layer_text privacy_node = "privacy_node"
layer_text public_chain = "public_chain"

abbrev found_token : {X : Type 0} → Option RegisteredToken → Exec (World X) RegisteredToken
found_token none w = (ok (record { address = ""; status = 0 }), w)
found_token (some t) w = (ok t, w)

module _ {X : Type 0} where
  abbrev pub status_poll :
      UserController X → String → ℕ → PollOptions (World X) (Option RegisteredToken)
  status_poll user address status = record {
    check = λ w.
        and_then (user.list_registry w)
          (λ tokens v. (ok (find_first (has_status address status) tokens), v));
    interval = some 5000;
    attempts = some 10;
    tolerate_errors = false;
  }

  -- The options that every operation of the backend is retried with.
  abbrev pub backend_options :
      (attempts delay_ms : ℕ) → (JsError → ℕ → String) → RetryOptions (World X)
  backend_options attempts delay_ms line = record {
    attempts = some attempts;
    delay_ms = some delay_ms;
    retry_if = some is_transient;
    on_retry = some (λ e i w. (ok tt, log (line e i) w));
  }

  abbrev then_log : String → Exec (World X) (Unit {0}) → Exec (World X) (Unit {0})
  then_log line m w = and_then (m w) (λ done v. (ok tt, log line v))

  -- `expect(a.toLowerCase()).to.be.equal(b.toLowerCase())`.
  abbrev pub expect_same_text : String → String → Exec (World X) (Unit {0})
  expect_same_text a b w =
      if same_text a b
      then (ok tt, w)
      else (err (assertion ("expected '" <> a <> "' to equal '" <> b <> "'")), w)

module _ {X : Type 0} (host : Host X) (workers : ℕ) where
  unfoldable pub poll_until_token_status_is_updated :
      UserController X → String → ℕ → Exec (World X) RegisteredToken
  poll_until_token_status_is_updated user address status w =
      and_then
        (eventually host workers truthy_token (λ _. "undefined")
          ("Waiting for token " <> short_hex address <> " status → " <> show status)
          (status_poll user address status) w)
        found_token

  abbrev pub registration : UserController X → String → Exec (World X) RegisteredToken
  registration user address w =
      retry (delay host)
        (backend_options 10 3000 (λ e i.
          "Retrying token registration ("
          <> show i
          <> "/10): "
          <> text_or_null (transient_reason e)
          <> " — "
          <> text_or_undefined e.message))
        (user.register_token address)
        (log ("Registering token in ops-api with address: " <> address) w)

  abbrev pub then_listed :
      UserController X → String → RegisteredToken → Exec (World X) RegisteredToken
  then_listed user address token u =
      and_then
        (poll_until_token_status_is_updated user token.address token.status
          (log ("Successful registration of token with address: " <> address) u))
        (λ listed t. (ok token, t))

  unfoldable pub register_token : UserController X → String → Exec (World X) RegisteredToken
  register_token user address w = and_then (registration user address w) (λ token v.
      and_then (expect_same_text token.address address v)
        (λ same u. then_listed user address token u))

  unfoldable pub update_token_status :
      OperatorController X → String → TokenStatus → RetryChoice → Exec (World X) (Unit {0})
  update_token_status operator address status opts w =
      let attempts = or_default opts.attempts 20 in
      and_then
        (retry (delay host)
          (backend_options attempts (or_default opts.delay_ms 3000) (λ e i.
            "[RETRY "
            <> show i
            <> "/"
            <> show attempts
            <> "] updateTokenStatus failed: "
            <> text_or_undefined e.message
            <> " (status="
            <> number_or "undefined" e.status
            <> ", reason="
            <> text_or_null (transient_reason e)
            <> ")\n  "
            <> short_hex address
            <> " → "
            <> show (token_status_number status)))
          (then_log "Token update status request succeeded"
            (operator.update_token_status address status))
          w)
        (λ done v. (ok tt, v))

  unfoldable pub freeze_token :
      OperatorController X → String → FreezeLayer → RetryChoice → Exec (World X) (Unit {0})
  freeze_token operator address layer opts w =
      and_then
        (retry (delay host)
          (backend_options (or_default opts.attempts 20) (or_default opts.delay_ms 3000) (λ e i.
            "[RETRY "
            <> show i
            <> "] freezeToken failed: "
            <> text_or_undefined e.message
            <> "\n  "
            <> short_hex address
            <> " layer="
            <> layer_text layer))
          (then_log ("Token freeze request succeeded (" <> layer_text layer <> ")")
            (operator.freeze_token address layer))
          w)
        (λ done v. (ok tt, v))

  unfoldable pub unfreeze_token :
      OperatorController X → String → FreezeLayer → RetryChoice → Exec (World X) (Unit {0})
  unfreeze_token operator address layer opts w =
      and_then
        (retry (delay host)
          (backend_options (or_default opts.attempts 20) (or_default opts.delay_ms 3000) (λ e i.
            "[RETRY "
            <> show i
            <> "] unfreezeToken failed: "
            <> text_or_undefined e.message
            <> "\n  "
            <> short_hex address
            <> " layer="
            <> layer_text layer))
          (then_log ("Token unfreeze request succeeded (" <> layer_text layer <> ")")
            (operator.unfreeze_token address layer))
          w)
        (λ done v. (ok tt, v))

  unfoldable pub submit_token_to_public_chain :
      OperatorController X → String → RetryChoice → Exec (World X) (Unit {0})
  submit_token_to_public_chain operator address opts w =
      and_then
        (retry (delay host)
          (backend_options (or_default opts.attempts 20) (or_default opts.delay_ms 3000) (λ e i.
            "[RETRY "
            <> show i
            <> "] submitTokenToPublicChain failed: "
            <> text_or_undefined e.message
            <> "\n  "
            <> short_hex address))
          (then_log "Token submit-to-public-chain request succeeded"
            (operator.submit_token address))
          w)
        (λ done v. (ok tt, v))

  unfoldable pub register_token_and_update_status :
      UserController X
      → OperatorController X
      → String
      → TokenStatus
      → Exec (World X) RegisteredToken
  register_token_and_update_status user operator address new_status w =
      and_then (register_token user address w) (λ token v.
        and_then (update_token_status operator token.address new_status default_choice v) (λ done u.
          and_then
            (poll_until_token_status_is_updated user token.address (token_status_number new_status)
              u)
            (λ listed t. (ok token, t))))

  -- A missing or empty hash is an error, which is retried like any other.
  abbrev hash_of : Option String → Exec (World X) String
  hash_of none w = (err (error "Transaction hash not found in teleport response"), w)
  hash_of (some h) w =
      if truthy_text (some h)
      then (ok h, log "Token teleport request succeeded" w)
      else (err (error "Transaction hash not found in teleport response"), w)

  unfoldable pub teleport_once : UserController X → String → TeleportRequest → Exec (World X) String
  teleport_once user address request w = and_then (user.teleport address request w) hash_of

  abbrev pub teleport_options : String → RetryChoice → RetryOptions (World X)
  teleport_options address opts =
      let attempts = or_default opts.attempts 5 in
      record {
        attempts = some attempts;
        delay_ms = some (or_default opts.delay_ms 5000);
        retry_if = none;
        on_retry = some (λ e i w. (
          ok tt,
          log
              ("[RETRY "
                <> show i
                <> "/"
                <> show attempts
                <> "] teleport failed: "
                <> text_or_undefined e.message
                <> " (status="
                <> number_or "?" e.status
                <> ")\n  "
                <> short_hex address)
              w,
        ));
      }

  unfoldable pub teleport_token_and_send :
      UserController X → String → TeleportRequest → RetryChoice → Exec (World X) String
  teleport_token_and_send user address request opts =
      retry (delay host) (teleport_options address opts) (teleport_once user address request)

  unfoldable pub teleport_erc20 :
      UserController X → AddressPair → String → (amount : ℕ) → RetryChoice → Exec (World X) String
  teleport_erc20 user pair token amount = teleport_token_and_send user token (record {
    from_address = pair.private_chain_address;
    to_address = pair.public_chain_address;
    standard = 1;
    token_id = none;
    amount = some (show amount);
  })

  unfoldable pub teleport_erc721 :
      UserController X → AddressPair → String → (token_id : ℕ) → RetryChoice → Exec (World X) String
  teleport_erc721 user pair token token_id = teleport_token_and_send user token (record {
    from_address = pair.private_chain_address;
    to_address = pair.public_chain_address;
    standard = 2;
    token_id = some (show token_id);
    amount = none;
  })

  unfoldable pub teleport_erc1155 :
      UserController X
      → AddressPair
      → String
      → (token_id amount : ℕ) → RetryChoice
      → Exec (World X) String
  teleport_erc1155 user pair token token_id amount = teleport_token_and_send user token (record {
    from_address = pair.private_chain_address;
    to_address = pair.public_chain_address;
    standard = 3;
    token_id = some (show token_id);
    amount = some (show amount);
  })
