-- ===== src/Tokens/Erc1155/Laws.antt =====
-- What has been seen when a mint of an ERC1155 token returns.
use rayls_sovereign_tests_au.Shared.{ℕ, ◌+◌, String, some, true, ◌≡◌, refl, ◌⊎◌, inl, inr}
use rayls_sovereign_tests_au.Shared.Text.{◌<>◌}
use rayls_sovereign_tests_au.Js.{ok, and_then-ok}
use rayls_sovereign_tests_au.Logging.{Host, World, log}
use rayls_sovereign_tests_au.Transactions.{Receipt}
use rayls_sovereign_tests_au.Transactions.Laws.{submit_tx-status}
use rayls_sovereign_tests_au.Tokens.Reads.{Equalled, await_read-Equalled}
use rayls_sovereign_tests_au.Tokens.Erc1155.{
  Factory, production_erc1155_token, rayls_erc1155_example, production_erc1155_dvp,
  erc1155_dvp_example, other_factory, is_plain_erc1155, is_dvp, Erc1155, wait_for_balance,
  call_mint, then_balance, then_mint, mint_and_await,
}

module _ {X : Type 0} (host : Host X) (workers : ℕ) (symbol : String) (contract : Erc1155 X) where
  call_mint-minted :
      (factory : Factory) (factory_name to_address : String) (token_id amount : ℕ) (w u : World X)
      (receipt : Receipt)
      → call_mint host workers symbol contract factory factory_name to_address token_id amount w
        ≡ (ok receipt, u)
      → (receipt.status ≡ some 1) × ((is_plain_erc1155 factory ≡ true) ⊎ (is_dvp factory ≡ true))
  unfolding call_mint
  call_mint-minted production_erc1155_token factory_name to_address token_id amount w u receipt h =
      (
        submit_tx-status host ("Minting " <> symbol) (contract.mint to_address token_id amount) w u
            receipt h,
        inl refl,
      )
  call_mint-minted rayls_erc1155_example factory_name to_address token_id amount w u receipt h = (
    submit_tx-status host ("Minting " <> symbol) (contract.mint to_address token_id amount) w u
        receipt h,
    inl refl,
  )
  call_mint-minted production_erc1155_dvp factory_name to_address token_id amount w u receipt h = (
    submit_tx-status host ("Minting " <> symbol) (contract.mint_dvp to_address token_id amount) w u
        receipt h,
    inr refl,
  )
  call_mint-minted erc1155_dvp_example factory_name to_address token_id amount w u receipt h = (
    submit_tx-status host ("Minting " <> symbol) (contract.mint_dvp to_address token_id amount) w u
        receipt h,
    inr refl,
  )
  call_mint-minted (other_factory name) factory_name to_address token_id amount w u receipt h =
      absurd (cc)

  -- A mint that returns was made with a plain or a DvP factory. It read a balance, got a receipt of
  -- status 1, and the wait behind it then read that balance plus the amount.
  pub mint_and_await-minted :
      (factory : Factory) (factory_name to_address : String) (token_id amount : ℕ) (w u : World X)
      (done : Unit {0})
      → mint_and_await host workers symbol contract factory factory_name to_address token_id amount
          w
        ≡ (ok done, u)
      → ((is_plain_erc1155 factory ≡ true) ⊎ (is_dvp factory ≡ true))
        × (before : ℕ) × (v x : World X) × (receipt : Receipt) × (line : String)
        × (contract.balance_of to_address token_id w ≡ (ok before, v))
        × (call_mint host workers symbol contract factory factory_name to_address token_id amount v
            ≡ (ok receipt, x))
        × (receipt.status ≡ some 1)
        × Equalled host workers
            (contract.balance_of to_address token_id)
            (before + amount)
            (log line x)
  unfolding mint_and_await wait_for_balance
  mint_and_await-minted factory factory_name to_address token_id amount w u done h =
      let (before, v, read, rest) =
        and_then-ok (contract.balance_of to_address token_id w)
          (then_mint host workers symbol contract factory factory_name to_address token_id amount)
          done u h in
      let (receipt, x, minted, waited) =
        and_then-ok
          (call_mint host workers symbol contract factory factory_name to_address token_id amount v)
          (then_balance host workers symbol contract (before + amount) to_address token_id) done u
          rest in
      let (status, kind) =
        call_mint-minted factory factory_name to_address token_id amount v x receipt minted in
      (
        kind,
        before,
        v,
        x,
        receipt,
        _,
        read,
        minted,
        status,
        await_read-Equalled (contract.balance_of to_address token_id) (before + amount) host workers
            _ _ u done waited,
      )
