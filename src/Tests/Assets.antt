-- ===== src/Tests/Assets.antt =====
-- Runs of the code that mints, activates and registers tokens, and onboards users.
use rayls_sovereign_tests_au.Shared.{
  ℕ, suc, ◌+◌, ◌≤◌, String, Option, none, some, List, [], ◌∷◌, Bool, true, false, ◌≡◌, ◌↔◌, refl,
  arith,
}
use rayls_sovereign_tests_au.Shared.Text.{◌<>◌, show, short_hex}
use rayls_sovereign_tests_au.Js.{ok, Exec}
use rayls_sovereign_tests_au.Logging.{World, log}
use rayls_sovereign_tests_au.Transactions.{Receipt, Response, submit_tx}
use rayls_sovereign_tests_au.Tokens.{
  Registry, RegistryOf, get_public_address, has_text, public_address_poll, is_true,
}
use rayls_sovereign_tests_au.Tokens.Erc721.{Erc721, TokenIds, new_ids, mint_token, mint_and_await}
use rayls_sovereign_tests_au.Tokens.Laws.{
  IsCounted, mint_and_await-IsCounted, default_mint-repeats, Deployed, get_public_address-Deployed,
}
use rayls_sovereign_tests_au.Backend.{
  approved, authorized, AddressPair, PendingGroup, RegisteredToken, UserController,
  OperatorController,
}
use rayls_sovereign_tests_au.Backend.Onboarding.{OnboardingOptions, onboard_user_and_update_status}
use rayls_sovereign_tests_au.Backend.TokenRegistry.{
  update_token_status, register_token_and_update_status,
}
use rayls_sovereign_tests_au.Polling.Loads.{Reached}
use rayls_sovereign_tests_au.Tests.{still_host, new_world}

abbrev pub receipt : Receipt
receipt = record { status = some 1; block_number = 1; logs = [] }

abbrev pub sent : Exec (World ℕ) (Response ℕ)
sent w = (
  ok (record { hash = "0x1"; settled = λ ms x. (some (ok (some receipt)), x) }),
  record w { outside = suc w.outside },
)

-- A contract whose balances are the number of its mints.
abbrev contract : Erc721 ℕ
contract = record {
  balance_of = λ address w. (ok w.outside, w);
  mint = λ to id. sent;
  approve = λ to id. sent;
  transfer_from = λ from to id. sent;
  owner_of = λ id w. (ok "0xb", w);
}

mint_and_await-IsCounted_example :
    IsCounted new_ids 1 (mint_and_await still_host 1 "NFT" contract "0xb" none (new_ids, new_world))
mint_and_await-IsCounted_example =
    mint_and_await-IsCounted still_host 1 "NFT" contract new_ids "0xb" none new_world refl

-- The first mint asks for the id 2, the second takes the wrapper's own, which is 2 as well.
abbrev after_first : TokenIds × World ℕ
after_first = (mint_and_await still_host 1 "NFT" contract "0xb" (some 2) (new_ids, new_world)).1

abbrev after_second : TokenIds × World ℕ
after_second = (mint_and_await still_host 1 "NFT" contract "0xb" none after_first).1

first_minted :
    mint_and_await still_host 1 "NFT" contract "0xb" (some 2) (new_ids, new_world)
    ≡ (ok 2, after_first)
unfolding mint_and_await mint_token rayls_sovereign_tests_au.Tokens.Erc721.increment_token_id
    rayls_sovereign_tests_au.Transactions.submit_tx
    rayls_sovereign_tests_au.Transactions.submit_from rayls_sovereign_tests_au.Retry.retry
    rayls_sovereign_tests_au.Retry.retry_from rayls_sovereign_tests_au.Transactions.wait_for_receipt
    rayls_sovereign_tests_au.Transactions.check_receipt
    rayls_sovereign_tests_au.Tokens.Erc721.wait_for_balance
    rayls_sovereign_tests_au.Polling.eventually rayls_sovereign_tests_au.Polling.wait_over
    rayls_sovereign_tests_au.Polling.poll rayls_sovereign_tests_au.Polling.poll_from
    rayls_sovereign_tests_au.Polling.after_check rayls_sovereign_tests_au.Polling.recorded
    rayls_sovereign_tests_au.Logging.load rayls_sovereign_tests_au.Logging.log
    rayls_sovereign_tests_au.Logging.load_success rayls_sovereign_tests_au.Logging.finish_load
first_minted = refl

second_minted :
    mint_and_await still_host 1 "NFT" contract "0xb" none after_first ≡ (ok 2, after_second)
unfolding mint_and_await mint_token rayls_sovereign_tests_au.Tokens.Erc721.increment_token_id
    rayls_sovereign_tests_au.Transactions.submit_tx
    rayls_sovereign_tests_au.Transactions.submit_from rayls_sovereign_tests_au.Retry.retry
    rayls_sovereign_tests_au.Retry.retry_from rayls_sovereign_tests_au.Transactions.wait_for_receipt
    rayls_sovereign_tests_au.Transactions.check_receipt
    rayls_sovereign_tests_au.Tokens.Erc721.wait_for_balance
    rayls_sovereign_tests_au.Polling.eventually rayls_sovereign_tests_au.Polling.wait_over
    rayls_sovereign_tests_au.Polling.poll rayls_sovereign_tests_au.Polling.poll_from
    rayls_sovereign_tests_au.Polling.after_check rayls_sovereign_tests_au.Polling.recorded
    rayls_sovereign_tests_au.Logging.load rayls_sovereign_tests_au.Logging.log
    rayls_sovereign_tests_au.Logging.load_success rayls_sovereign_tests_au.Logging.finish_load
second_minted = refl

default_mint-repeats_example : ◌≡◌ {A = ℕ} 2 2 ↔ ◌≡◌ {A = Option ℕ} (some 2) (some (1 + 1))
default_mint-repeats_example =
    default_mint-repeats still_host 1 "NFT" contract new_ids after_first.0 after_second.0 "0xb"
      (some 2) new_world after_first.1 after_second.1 2 2 refl first_minted second_minted

abbrev pub registry : Registry ℕ
registry = record {
  register_token = λ a. sent;
  update_privacy_node_status = λ a n. sent;
  submit_to_hub = λ a. sent;
  submit_to_public_chain = λ a. sent;
  get_public_chain_status = λ a w. (ok 2, w);
  public_token_address = λ a w. (ok "0xc", w);
  token_exists = λ a w. (ok true, w);
}

abbrev pub get_registry : RegistryOf ℕ
get_registry w = (ok registry, w)

abbrev resolved : World ℕ
resolved = (get_public_address still_host 1 "NFT" "0xa" get_registry (λ o. "") new_world).1

address_resolved :
    get_public_address still_host 1 "NFT" "0xa" get_registry (λ o. "") new_world
    ≡ (ok "0xc", resolved)
unfolding get_public_address rayls_sovereign_tests_au.Polling.eventually
    rayls_sovereign_tests_au.Polling.wait_over rayls_sovereign_tests_au.Polling.poll
    rayls_sovereign_tests_au.Polling.poll_from rayls_sovereign_tests_au.Polling.after_check
    rayls_sovereign_tests_au.Polling.recorded rayls_sovereign_tests_au.Tokens.probe_public_address
address_resolved = refl

get_public_address-Deployed_example :
    (r : Registry ℕ) × (v z : World ℕ) × (get_registry new_world ≡ (ok r, v))
    × Reached still_host 1 has_text
        ("Waiting for " <> "NFT" <> " public token DEPLOYED (" <> short_hex "0xa" <> ")")
        (public_address_poll r "0xa")
        v
        z
    × Deployed r "0xa" "0xc" z
get_public_address-Deployed_example =
    get_public_address-Deployed still_host 1 "NFT" "0xa" get_registry (λ o. "") new_world resolved
      "0xc" address_resolved

-- The number of the newest block is the clock.
abbrev block_number : Exec (World ℕ) ℕ
block_number w = (ok w.outside, w)

abbrev pair : AddressPair
pair = record { public_chain_address = "0xB"; private_chain_address = "0xA"; status = 0 }

abbrev approved_pair : AddressPair
approved_pair = record { public_chain_address = "0xb"; private_chain_address = "0xa"; status = 1 }

abbrev token : RegisteredToken
token = record { address = "0xabc"; status = 2 }

abbrev user : UserController ℕ
user = record {
  add_address_pair = λ w. (ok pair, w);
  list_my_address_pairs = λ w. (ok (approved_pair ∷ []), w);
  list_registry = λ w. (ok (token ∷ []), w);
  register_token = λ a w. (ok token, w);
  teleport = λ a request w. (ok (some "0x1"), w);
}

abbrev operator : OperatorController ℕ
operator = record {
  list_all_pending_address_pairs =
      λ w. (ok (record { user_id = "u1"; address_pairs = pair ∷ [] } ∷ []), w);
  approve_address_pair = λ id request w. (ok tt, w);
  update_token_status = λ a status w. (ok tt, w);
  freeze_token = λ a layer w. (ok tt, w);
  unfreeze_token = λ a layer w. (ok tt, w);
  submit_token = λ a w. (ok tt, w);
}

abbrev onboarding : OnboardingOptions ℕ
onboarding = record {
  operator_approval_attempts = none;
  operator_approval_delay_ms = none;
  user_id = none;
  on_user_id = none;
}

abbrev onboarded : World ℕ
onboarded =
    (onboard_user_and_update_status still_host 1 user operator approved onboarding new_world).1

abbrev registered : World ℕ
registered =
    (register_token_and_update_status still_host 1 user operator "0xABC" authorized new_world).1
