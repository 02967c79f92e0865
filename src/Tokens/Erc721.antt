-- ===== src/Tokens/Erc721.antt =====
-- src/entities/tokens/ERC721Wrapper.ts: the counter of token ids, minting with its wait for the
-- balance (`getBalanceOf`, `waitForBalance` and `_callContractMint` of BaseTokenWrapper.ts), the
-- waits for an owner, and `transfer`.
use rayls_sovereign_tests_au.Shared.{
  ℕ, ◌+◌, String, Option, none, some, Bool, false, ◌==◌, leb, if◌then◌else◌,
}
use rayls_sovereign_tests_au.Shared.Text.{◌<>◌, show, short_hex}
use rayls_sovereign_tests_au.Js.{error, assertion, Result, ok, err, Exec, and_then}
use rayls_sovereign_tests_au.Logging.{Host, World, log}
use rayls_sovereign_tests_au.Polling.{PollOptions, eventually}
use rayls_sovereign_tests_au.Retry.{or_default}
use rayls_sovereign_tests_au.Transactions.{Response, submit_tx, send_tx}
use rayls_sovereign_tests_au.Tokens.{is_true, bool_json}
use text.Mathlib.Text.{◌==◌ as str_eq}

-- The token's contract as the wrapper calls it; the mint has the wrapper's own argument list.
pub record Erc721 (X : Type 0) : Type 0 where
  pub balance_of : String → Exec (World X) ℕ
  pub mint : String → ℕ → Exec (World X) (Response X)
  pub approve : String → ℕ → Exec (World X) (Response X)
  pub transfer_from : String → String → ℕ → Exec (World X) (Response X)
  pub owner_of : ℕ → Exec (World X) String

pub record TokenIds : Type 0 where
  pub current : ℕ
  pub next : ℕ

abbrev pub new_ids : TokenIds
new_ids = record { current = 0; next = 1 }

-- The private method: the id that is given out, or an error, and the counter after it.
unfoldable pub increment_token_id : TokenIds → Result ℕ × TokenIds
increment_token_id ids =
    if leb ids.next ids.current
    then (
      err (
          error (
            "Current token id "
            <> show ids.current
            <> " is greater than next token id "
            <> show ids.next)),
      ids,
    )
    else (ok ids.next, record { current = ids.next; next = ids.next + 1 })

-- The wrapper's state next to the world that its calls are made in.
abbrev pub Wrapped : Type 0 → Type 0
Wrapped X = TokenIds × World X

abbrev pub beside : {X A : Type 0} → TokenIds → Result A × World X → Result A × (TokenIds × World X)
beside ids (r, w) = (r, (ids, w))

-- `this.incrementTokenId(); return tokenId`.
abbrev pub count_mint :
    {X : Type 0} → ℕ → World X → Result ℕ × TokenIds → Result ℕ × (TokenIds × World X)
count_mint token_id w (ok given, ids) = (ok token_id, (ids, w))
count_mint token_id w (err e, ids) = (err e, (ids, w))

module _ {X : Type 0} (host : Host X) (workers : ℕ) (symbol : String) (contract : Erc721 X) where
  abbrev pub balance_poll : ℕ → String → PollOptions (World X) Bool
  balance_poll expected address = record {
    check =
        λ w. and_then (contract.balance_of address w) (λ balance v. (ok (balance == expected), v));
    interval = none;
    attempts = none;
    tolerate_errors = false;
  }

  unfoldable pub wait_for_balance : ℕ → String → Exec (World X) (Unit {0})
  wait_for_balance expected address w =
      and_then
        (eventually host workers is_true bool_json
          ("Waiting for "
            <> symbol
            <> " PL balance → "
            <> show expected
            <> " for "
            <> short_hex address)
          (balance_poll expected address)
          (log ("Waiting for balance " <> show expected <> " and args " <> address) w))
        (λ reached v. (ok tt, v))

  -- The part of a mint that leaves the wrapper alone.
  unfoldable pub mint_token : String → ℕ → Exec (World X) (Unit {0})
  mint_token to_address token_id w =
      and_then (contract.balance_of to_address w) (λ balance_before v.
        and_then (submit_tx host (contract.mint to_address token_id) ("Minting " <> symbol) v)
          (λ receipt. wait_for_balance (balance_before + 1) to_address))

  abbrev pub after_mint :
      TokenIds → ℕ → Result (Unit {0}) × World X → Result ℕ × (TokenIds × World X)
  after_mint ids token_id (ok done, w) = count_mint token_id w (increment_token_id ids)
  after_mint ids token_id (err e, w) = (err e, (ids, w))

  unfoldable pub mint_and_await : String → Option ℕ → Exec (TokenIds × World X) ℕ
  mint_and_await to_address token_id (ids, w) =
      let id = or_default token_id ids.next in after_mint ids id (mint_token to_address id w)

  unfoldable pub approve : String → ℕ → Exec (World X) (Unit {0})
  approve to_address token_id w =
      and_then (send_tx host (contract.approve to_address token_id) (some ("approve " <> symbol)) w)
        (λ receipt v. (ok tt, v))

  abbrev expect_owner : String → String → Exec (World X) (Unit {0})
  expect_owner owner to_address w =
      if str_eq owner to_address
      then (ok tt, w)
      else (err (assertion ("expected '" <> owner <> "' to equal '" <> to_address <> "'")), w)

  unfoldable pub transfer : (user_wallet to_address : String) → ℕ → Exec (World X) (Unit {0})
  transfer user_wallet to_address token_id w =
      and_then (approve to_address token_id w) (λ approved v.
        and_then
          (send_tx host (contract.transfer_from user_wallet to_address token_id)
            (some ("transferFrom " <> symbol)) v)
          (λ receipt u.
            and_then (contract.owner_of token_id u) (λ owner. expect_owner owner to_address)))
