-- ===== src/Tokens/Erc1155/DvpLaws.antt =====
-- What has been seen when a deposit or a withdrawal of an ERC1155 token returns.
use rayls_sovereign_tests_au.Shared.{
  ℕ, ◌+◌, ◌-◌, String, none, some, true, false, leb, ◌≡◌, ap, ◌∙◌, arith,
}
use rayls_sovereign_tests_au.Shared.Text.{◌<>◌}
use rayls_sovereign_tests_au.Js.{Result, ok, Exec, and_then-ok}
use rayls_sovereign_tests_au.Logging.{Host, World}
use rayls_sovereign_tests_au.Transactions.{Receipt, submit_tx}
use rayls_sovereign_tests_au.Transactions.Laws.{submit_tx-status}
use rayls_sovereign_tests_au.Polling.Loads.{Reached}
use rayls_sovereign_tests_au.Tokens.{is_true}
use rayls_sovereign_tests_au.Tokens.Reads.{
  await_read, Seen, await_read-Seen, Equalled, await_read-Equalled, read_poll,
}
use rayls_sovereign_tests_au.Tokens.Relay.{HubToken, wait_for_pnh_mint_relay, lower, lookback}
use rayls_sovereign_tests_au.Tokens.Relay.Laws.{Located, wait_for_pnh_mint_relay-Located}
use rayls_sovereign_tests_au.Tokens.Erc1155.{Erc1155, difference, is_amount}
use rayls_sovereign_tests_au.Tokens.Erc1155.Dvp.{
  await_owner_again, submit_withdrawal, locked_message, await_locked, withdraw_nft_from_dvp,
  vault_gains, owner_loses, submit_deposit, read_vault, read_owner, find_holder, find_vault,
  deposit_nft_to_dvp,
}

-- A balance that equals a difference of two amounts.
is_amount-difference :
    (before amount n : ℕ) → is_amount (difference before amount) n ≡ true → n + amount ≡ before
is_amount-difference before amount n h = ground arith

receipt-same :
    {X : Type 0} (a b : Receipt) (s t : World X)
    → ◌≡◌ {A = Result Receipt × World X} (ok a, s) (ok b, t)
    → a ≡ b
receipt-same a b s t h = cc

module _ {X : Type 0} (host : Host X) (workers : ℕ) (symbol : String) (contract : Erc1155 X) where
  withdrawn_at :
      (owner : String) (token_id before : ℕ) (receipt given : Receipt) (w u : World X)
      → await_owner_again host workers symbol contract owner token_id before given w
        ≡ (ok receipt, u)
      → (given ≡ receipt) × Equalled host workers (contract.balance_of owner token_id) before w
  withdrawn_at owner token_id before receipt given w u h =
      let (x, v, waited, rest) = and_then-ok _ (λ done v. (ok given, v)) receipt u h in
      (
        receipt-same given receipt v u rest,
        await_read-Equalled (contract.balance_of owner token_id) before host workers _ w v x waited,
      )

  -- A withdrawal that returns read the owner's balance, then saw at least the amount locked for the
  -- user's wallet, got a receipt of status 1 and then read for the owner the same balance as before.
  pub withdraw_nft_from_dvp-unchanged :
      (user_wallet owner : String) (token_id amount : ℕ) (w u : World X) (receipt : Receipt)
      → withdraw_nft_from_dvp host workers symbol contract user_wallet owner token_id amount w
        ≡ (ok receipt, u)
      → (before : ℕ) × (v x y : World X) × (contract.balance_of owner token_id w ≡ (ok before, v))
        × Seen
            (contract.locked_for_dvp user_wallet token_id)
            (leb amount)
            host
            workers
            (locked_message host workers symbol contract token_id)
            none
            false
            v
        × (await_read
              (contract.locked_for_dvp user_wallet token_id)
              (leb amount)
              host
              workers
              (locked_message host workers symbol contract token_id)
              v
            ≡ (ok tt, x))
        × (submit_tx host (contract.withdraw_from_dvp token_id amount) "Withdrawing NFT from Dvp" x
            ≡ (ok receipt, y))
        × (receipt.status ≡ some 1)
        × Equalled host workers (contract.balance_of owner token_id) before y
  unfolding withdraw_nft_from_dvp
  withdraw_nft_from_dvp-unchanged user_wallet owner token_id amount w u receipt h =
      let (before, v, read, rest) =
        and_then-ok (contract.balance_of owner token_id w)
          (await_locked host workers symbol contract user_wallet owner token_id amount) receipt u
          h in
      let (done, x, waited, rest₁) =
        and_then-ok
          (await_read (contract.locked_for_dvp user_wallet token_id) (leb amount) host workers
            (locked_message host workers symbol contract token_id) v)
          (submit_withdrawal host workers symbol contract owner token_id amount before) receipt u
          rest in
      let (given, y, submitted, rest₂) =
        and_then-ok
          (submit_tx host (contract.withdraw_from_dvp token_id amount) "Withdrawing NFT from Dvp" x)
          (await_owner_again host workers symbol contract owner token_id before) receipt u rest₁ in
      let (same, seen) = withdrawn_at owner token_id before receipt given y u rest₂ in
      let sent : submit_tx host (contract.withdraw_from_dvp token_id amount)
            "Withdrawing NFT from Dvp" x
          ≡ (ok receipt, y) =
        submitted ∙ ap (λ r. (ok r, y)) same in
      (
        before,
        v,
        x,
        y,
        read,
        await_read-Seen (contract.locked_for_dvp user_wallet token_id) (leb amount) host workers
            (locked_message host workers symbol contract token_id) v x done waited,
        waited,
        sent,
        submit_tx-status host "Withdrawing NFT from Dvp"
            (contract.withdraw_from_dvp token_id amount) x y receipt sent,
        seen,
      )

  module _ (get_token : Exec (World X) (HubToken X)) (get_block_number : Exec (World X) ℕ) where
    -- The receipt of a deposit, and the waits behind its call: the owner's balance then read the amount
    -- less, and the vault's the amount more, than before.
    abbrev pub Moved :
        HubToken X → (vault owner : String) → (token_id amount : ℕ) → Receipt → World X → Type 0
    Moved token vault owner token_id amount receipt w =
        (owner_before vault_before owner_after : ℕ) × (message : String) × (v x y z t s : World X)
        × (token.hub_balance_of owner token_id w ≡ (ok owner_before, v))
        × (token.hub_balance_of vault token_id v ≡ (ok vault_before, x))
        × (submit_tx host (contract.deposit_into_dvp token_id amount)
              ("Depositing NFT " <> symbol <> " to Dvp") x
            ≡ (ok receipt, y))
        × (receipt.status ≡ some 1)
        × (await_read (token.hub_balance_of owner token_id)
              (is_amount (difference owner_before amount)) host workers message y
            ≡ (ok tt, s))
        × Reached host workers is_true message
            (read_poll (token.hub_balance_of owner token_id)
              (is_amount (difference owner_before amount)) none false)
            y z
        × (token.hub_balance_of owner token_id z ≡ (ok owner_after, t))
        × (owner_after + amount ≡ owner_before)
        × Equalled host workers (token.hub_balance_of vault token_id) (vault_before + amount) s

    deposited-Moved :
        (token : HubToken X) (vault owner : String) (token_id amount : ℕ) (w u : World X)
        (receipt : Receipt)
        → read_owner host workers symbol contract get_token get_block_number token vault token_id
            amount owner w
          ≡ (ok receipt, u)
        → Moved token vault owner token_id amount receipt w
    deposited-Moved token vault owner token_id amount w u receipt h =
        let (before, v, read, rest) =
          and_then-ok (token.hub_balance_of owner token_id w)
            (read_vault host workers symbol contract get_token get_block_number token vault owner
              token_id amount)
            receipt u h in
        let (vault_before, x, read₁, rest₁) =
          and_then-ok (token.hub_balance_of vault token_id v)
            (submit_deposit host workers symbol contract get_token get_block_number token vault
              owner token_id amount before)
            receipt u rest in
        let (given, y, submitted, rest₂) =
          and_then-ok
            (submit_tx host (contract.deposit_into_dvp token_id amount)
              ("Depositing NFT " <> symbol <> " to Dvp") x)
            (owner_loses host workers symbol contract get_token get_block_number token vault owner
              token_id amount before vault_before)
            receipt u rest₁ in
        let (_, s, waited, rest₃) =
          and_then-ok _
            (vault_gains host workers symbol contract get_token get_block_number token vault
              token_id (vault_before + amount) given)
            receipt u rest₂ in
        let (_, r, waited₁, rest₄) = and_then-ok _ (λ done v. (ok given, v)) receipt u rest₃ in
        let (z, t, after, got, judged, at) =
          await_read-Seen (token.hub_balance_of owner token_id)
            (is_amount (difference before amount)) host workers _ y s _ waited in
        let same = receipt-same given receipt r u rest₄ in
        let sent : submit_tx host (contract.deposit_into_dvp token_id amount)
              ("Depositing NFT " <> symbol <> " to Dvp") x
            ≡ (ok receipt, y) =
          submitted ∙ ap (λ r. (ok r, y)) same in
        (
          before,
          vault_before,
          after,
          _,
          v,
          x,
          y,
          z,
          t,
          s,
          read,
          read₁,
          sent,
          submit_tx-status host ("Depositing NFT " <> symbol <> " to Dvp")
              (contract.deposit_into_dvp token_id amount) x y receipt sent,
          waited,
          at,
          got,
          is_amount-difference before amount after judged,
          await_read-Equalled (token.hub_balance_of vault token_id) (vault_before + amount) host
              workers _ s r _ waited₁,
        )

    -- A deposit that returns found an account on the hub with a balance that covers the amount; around
    -- its transaction, whose receipt has status 1, the balance read for that account fell by exactly the
    -- amount and the balance read for the vault rose by it.
    pub deposit_nft_to_dvp-Moved :
        (token_id amount : ℕ) (w u : World X) (receipt : Receipt)
        → deposit_nft_to_dvp host workers symbol contract get_token get_block_number token_id amount
            w
          ≡ (ok receipt, u)
        → (token located : HubToken X) × (v x y : World X) × (tip : ℕ) × (vault named
            owner : String)
          × (get_token w ≡ (ok token, v))
          × (token.vault_address v ≡ (ok vault, x))
          × (wait_for_pnh_mint_relay host workers symbol get_token get_block_number token_id amount
                x
              ≡ (ok owner, y))
          × Located located token_id amount (lower named) (tip - lookback) owner
          × Moved token vault owner token_id amount receipt y
    unfolding deposit_nft_to_dvp
    deposit_nft_to_dvp-Moved token_id amount w u receipt h =
        let (token, v, given, rest) =
          and_then-ok (get_token w)
            (find_vault host workers symbol contract get_token get_block_number token_id amount)
            receipt u h in
        let (vault, x, at, rest₁) =
          and_then-ok (token.vault_address v)
            (find_holder host workers symbol contract get_token get_block_number token token_id
              amount)
            receipt u rest in
        let (owner, y, found, rest₂) =
          and_then-ok
            (wait_for_pnh_mint_relay host workers symbol get_token get_block_number token_id amount
              x)
            (read_owner host workers symbol contract get_token get_block_number token vault token_id
              amount)
            receipt u rest₁ in
        let (located, _, _, _, tip, named, _, _, _, is_located) =
          wait_for_pnh_mint_relay-Located host workers symbol get_token get_block_number token_id
            amount owner x y found in
        (
          token,
          located,
          v,
          x,
          y,
          tip,
          vault,
          named,
          owner,
          given,
          at,
          found,
          is_located,
          deposited-Moved token vault owner token_id amount y u receipt rest₂,
        )
