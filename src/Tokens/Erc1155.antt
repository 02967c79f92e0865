-- ===== src/Tokens/Erc1155.antt =====
-- src/entities/tokens/ERC1155Wrapper.ts: the choice by the contract's factory, minting, and transfers.
pub mod Dvp
pub mod Laws
pub mod DvpLaws
use rayls_sovereign_tests_au.Shared.{
  ℕ, ◌+◌, ◌-◌, String, Option, none, some, Bool, true, false, ◌&&◌, not, ◌==◌, leb, if◌then◌else◌,
  List, [], ◌∷◌, any,
}
use rayls_sovereign_tests_au.Shared.Text.{◌<>◌, show, ParsedInt, nan, int, show_int, short_hex}
use rayls_sovereign_tests_au.Js.{error, assertion, ok, err, Exec, and_then}
use rayls_sovereign_tests_au.Logging.{Host, World, log}
use rayls_sovereign_tests_au.Transactions.{Receipt, Response, submit_tx, send_tx}
use rayls_sovereign_tests_au.Tokens.{bool_json}
use rayls_sovereign_tests_au.Tokens.Reads.{await_read}
use text.Mathlib.Text.{◌==◌ as str_eq}
use rayls_sovereign_tests_au.Tokens.Relay.{HubToken, wait_for_pnh_mint_relay}

-- The generated factories that the wrapper tells apart, and any other.
pub data Factory : Type 0 where
  production_erc1155_token : Factory
  rayls_erc1155_example : Factory
  production_erc1155_dvp : Factory
  erc1155_dvp_example : Factory
  other_factory : String → Factory

abbrev pub is_plain_erc1155 : Factory → Bool
is_plain_erc1155 production_erc1155_token = true
is_plain_erc1155 rayls_erc1155_example = true
is_plain_erc1155 _ = false

abbrev pub is_dvp : Factory → Bool
is_dvp production_erc1155_dvp = true
is_dvp erc1155_dvp_example = true
is_dvp _ = false

pub data TokenStandard : Type 0 where
  erc1155 : TokenStandard
  dvp_erc1155 : TokenStandard

unfoldable pub standard_of : Factory → TokenStandard
standard_of factory = if is_dvp factory then dvp_erc1155 else erc1155

-- What the wrapper reads of itself and of its node.
pub record Deployment : Type 0 where
  pub uri : String
  pub name : String
  pub endpoint_address : String
  pub rayls_node_endpoint_address : String
  pub rayls_node_user_governance : String

-- The arguments that `deploy` gives to the constructor.
unfoldable pub constructor_args : Factory → Deployment → List String
constructor_args factory d =
    if is_dvp factory
    then d.uri ∷ d.name ∷ d.endpoint_address ∷ []
    else (d.uri ∷ d.name ∷ d.endpoint_address ∷ d.rayls_node_endpoint_address
        ∷ d.rayls_node_user_governance ∷ [])

-- The token's contract on the privacy node. The two mints are the two argument lists of `mint`.
pub record Erc1155 (X : Type 0) : Type 0 where
  pub balance_of : String → ℕ → Exec (World X) ℕ
  pub mint : String → ℕ → ℕ → Exec (World X) (Response X)
  pub mint_dvp : String → ℕ → ℕ → Exec (World X) (Response X)
  pub locked_for_dvp : String → ℕ → Exec (World X) ℕ
  pub deposit_into_dvp : ℕ → ℕ → Exec (World X) (Response X)
  pub withdraw_from_dvp : ℕ → ℕ → Exec (World X) (Response X)
  pub set_approval_for_all : String → Bool → Exec (World X) (Response X)
  pub safe_transfer_from : String → String → ℕ → ℕ → Exec (World X) (Response X)

-- A difference of two amounts, which may be below zero, and its comparison with a balance.
abbrev pub difference : ℕ → ℕ → ParsedInt
difference a b = if leb b a then int false (a - b) else int true (b - a)

abbrev pub is_amount : ParsedInt → ℕ → Bool
is_amount nan n = false
is_amount (int true m) n = false
is_amount (int false m) n = n == m

-- `message || text`.
abbrev pub or_text : Option String → String → String
or_text none text = text
or_text (some message) text = if str_eq message "" then text else message

module _ {X : Type 0} (host : Host X) (workers : ℕ) (symbol : String) (contract : Erc1155 X) where
  unfoldable pub wait_for_balance : ℕ → String → ℕ → Exec (World X) (Unit {0})
  wait_for_balance expected address token_id w =
      await_read (contract.balance_of address token_id) (λ n. n == expected) host workers
        ("Waiting for "
          <> symbol
          <> " PL balance → "
          <> show expected
          <> " for "
          <> short_hex address)
        (log
          ("Waiting for balance "
            <> show expected
            <> " and args "
            <> address
            <> ","
            <> show token_id)
          w)

  -- `_callContractMint`, on the branch of the factory.
  unfoldable pub call_mint :
      Factory → (factory_name to_address : String) → (token_id amount : ℕ) → Exec (World X) Receipt
  call_mint factory factory_name to_address token_id amount w =
      if is_plain_erc1155 factory
      then submit_tx host (contract.mint to_address token_id amount) ("Minting " <> symbol) w
      else if is_dvp factory
      then submit_tx host (contract.mint_dvp to_address token_id amount) ("Minting " <> symbol) w
      else (
        err (
            error (
              "mintAndAwait: " <> factory_name <> " is neither a plain nor a DvP ERC1155 factory")),
        w,
      )

  abbrev pub then_balance : (expected : ℕ) → String → ℕ → Receipt → Exec (World X) (Unit {0})
  then_balance expected to_address token_id receipt = wait_for_balance expected to_address token_id

  abbrev pub then_mint :
      Factory
      → (factory_name to_address : String) → (token_id amount : ℕ) → ℕ
      → Exec (World X) (Unit {0})
  then_mint factory factory_name to_address token_id amount before v =
      and_then (call_mint factory factory_name to_address token_id amount v)
        (then_balance (before + amount) to_address token_id)

  unfoldable pub mint_and_await :
      Factory
      → (factory_name to_address : String) → (token_id amount : ℕ) → Exec (World X) (Unit {0})
  mint_and_await factory factory_name to_address token_id amount w =
      and_then (contract.balance_of to_address token_id w)
        (then_mint factory factory_name to_address token_id amount)

  unfoldable pub approve_for_all : String → Bool → Exec (World X) (Unit {0})
  approve_for_all to_address approved w =
      and_then
        (send_tx host (contract.set_approval_for_all to_address approved)
          (some ("approveForAll " <> symbol))
          (log ("[DEBUG] Approving all for " <> to_address <> " to " <> bool_json approved) w))
        (λ receipt v. (ok tt, v))

  abbrev expect_amount : ℕ → ℕ → Exec (World X) (Unit {0})
  expect_amount amount balance w =
      if balance == amount
      then (ok tt, w)
      else (err (assertion ("expected " <> show balance <> "n to equal " <> show amount <> "n")), w)

  unfoldable pub transfer : (from to : String) → (token_id amount : ℕ) → Exec (World X) (Unit {0})
  transfer from to token_id amount w = and_then (approve_for_all to true w) (λ approved v.
      and_then
        (send_tx host (contract.safe_transfer_from from to token_id amount)
          (some ("safeTransferFrom " <> symbol))
          (log
            ("[DEBUG] Transferring "
              <> show amount
              <> " of token "
              <> show token_id
              <> " from "
              <> from
              <> " to "
              <> to)
            v))
        (λ receipt u. and_then (contract.balance_of to token_id u) (expect_amount amount)))
