-- ===== src/Tokens/Erc1155/Dvp.antt =====
-- src/entities/tokens/ERC1155Wrapper.ts: the deposit in and the withdrawal from the vault of the hub, and
-- the waits for balances in the DvP. The deposit's own call is `depositNftToDvp` of BaseTokenWrapper.ts.
use rayls_sovereign_tests_au.Shared.{ℕ, ◌+◌, String, Option, Bool, ◌&&◌, ◌==◌, leb}
use rayls_sovereign_tests_au.Shared.Text.{◌<>◌, show, show_int}
use rayls_sovereign_tests_au.Js.{ok, Exec, and_then}
use rayls_sovereign_tests_au.Logging.{Host, World, log}
use rayls_sovereign_tests_au.Transactions.{Receipt, submit_tx}
use rayls_sovereign_tests_au.Tokens.Reads.{await_read}
use rayls_sovereign_tests_au.Tokens.Relay.{HubToken, wait_for_pnh_mint_relay}
use rayls_sovereign_tests_au.Tokens.Erc1155.{Erc1155, difference, is_amount, or_text}

module _ {X : Type 0} (host : Host X) (workers : ℕ) (symbol : String) (contract : Erc1155 X) where
  -- The last wait of a withdrawal: the source waits for the balance that the owner had before it.
  abbrev pub await_owner_again :
      (owner : String) → (token_id before : ℕ) → Receipt → Exec (World X) Receipt
  await_owner_again owner token_id before receipt w =
      and_then
        (await_read (contract.balance_of owner token_id) (λ n. n == before) host workers
          ("Checking " <> symbol <> "#" <> show token_id <> " owner balance post-withdraw") w)
        (λ done v. (ok receipt, v))

  abbrev pub submit_withdrawal :
      (owner : String) → (token_id amount before : ℕ) → Unit {0} → Exec (World X) Receipt
  submit_withdrawal owner token_id amount before locked w =
      and_then
        (submit_tx host (contract.withdraw_from_dvp token_id amount) "Withdrawing NFT from Dvp" w)
        (await_owner_again owner token_id before)

  abbrev pub locked_message : ℕ → String
  locked_message token_id =
      "Checking " <> symbol <> "#" <> show token_id <> " locked balance pre-withdraw"

  abbrev pub await_locked :
      (user_wallet owner : String) → (token_id amount before : ℕ) → Exec (World X) Receipt
  await_locked user_wallet owner token_id amount before w =
      and_then
        (await_read (contract.locked_for_dvp user_wallet token_id) (leb amount) host workers
          (locked_message token_id) w)
        (submit_withdrawal owner token_id amount before)

  unfoldable pub withdraw_nft_from_dvp :
      (user_wallet owner : String) → (token_id amount : ℕ) → Exec (World X) Receipt
  withdraw_nft_from_dvp user_wallet owner token_id amount w =
      and_then (contract.balance_of owner token_id w)
        (await_locked user_wallet owner token_id amount)

  -- A deposit: the holder on the hub must lose, and the vault gain, the amount.
  module _ (get_token : Exec (World X) (HubToken X)) (get_block_number : Exec (World X) ℕ) where
    abbrev pub vault_gains :
        HubToken X
        → (vault : String) → (token_id final_balance : ℕ) → Receipt
        → Unit {0}
        → Exec (World X) Receipt
    vault_gains token vault token_id final_balance receipt moved w =
        and_then
          (await_read (token.hub_balance_of vault token_id) (λ n. n == final_balance) host workers
            ("Waiting for CoinVault "
              <> symbol
              <> "#"
              <> show token_id
              <> " balance → "
              <> show final_balance)
            w)
          (λ done v. (ok receipt, v))

    abbrev pub owner_loses :
        HubToken X
        → (vault owner : String) → (token_id amount owner_before vault_before : ℕ) → Receipt
        → Exec (World X) Receipt
    owner_loses token vault owner token_id amount owner_before vault_before receipt w =
        and_then
          (await_read (token.hub_balance_of owner token_id)
            (is_amount (difference owner_before amount)) host workers
            ("Waiting for relayer "
              <> symbol
              <> "#"
              <> show token_id
              <> " balance → "
              <> show_int (difference owner_before amount))
            w)
          (vault_gains token vault token_id (vault_before + amount) receipt)

    abbrev pub submit_deposit :
        HubToken X
        → (vault owner : String) → (token_id amount owner_before vault_before : ℕ)
        → Exec (World X) Receipt
    submit_deposit token vault owner token_id amount owner_before vault_before w =
        and_then
          (submit_tx host (contract.deposit_into_dvp token_id amount)
            ("Depositing NFT " <> symbol <> " to Dvp") w)
          (owner_loses token vault owner token_id amount owner_before vault_before)

    abbrev pub read_vault :
        HubToken X
        → (vault owner : String) → (token_id amount owner_before : ℕ) → Exec (World X) Receipt
    read_vault token vault owner token_id amount owner_before w =
        and_then (token.hub_balance_of vault token_id w)
          (submit_deposit token vault owner token_id amount owner_before)

    abbrev pub read_owner :
        HubToken X
        → (vault : String) → (token_id amount : ℕ) → (owner : String) → Exec (World X) Receipt
    read_owner token vault token_id amount owner w =
        and_then (token.hub_balance_of owner token_id w)
          (read_vault token vault owner token_id amount)

    abbrev pub find_holder :
        HubToken X → (token_id amount : ℕ) → (vault : String) → Exec (World X) Receipt
    find_holder token token_id amount vault w =
        and_then
          (wait_for_pnh_mint_relay host workers symbol get_token get_block_number token_id amount w)
          (read_owner token vault token_id amount)

    abbrev pub find_vault : (token_id amount : ℕ) → HubToken X → Exec (World X) Receipt
    find_vault token_id amount token w =
        and_then (token.vault_address w) (find_holder token token_id amount)

    unfoldable pub deposit_nft_to_dvp : (token_id amount : ℕ) → Exec (World X) Receipt
    deposit_nft_to_dvp token_id amount w = and_then (get_token w) (find_vault token_id amount)

    unfoldable pub wait_for_deposit :
        (dvp_address : String) → (token_id amount : ℕ) → Exec (World X) (Unit {0})
    wait_for_deposit dvp_address token_id amount w = and_then (get_token w) (λ token.
        await_read (token.hub_balance_of dvp_address token_id) (λ n. n == amount) host workers
          ("Waiting for Dvp " <> symbol <> "#" <> show token_id <> " balance → " <> show amount))

  -- The check reads both balances and compares both; `message` of the caller counts if it is not empty.
  abbrev pub read_both :
      HubToken X → (owner dvp_address : String) → (token_id locked dvp : ℕ) → Exec (World X) (ℕ × ℕ)
  read_both token owner dvp_address token_id locked dvp w =
      and_then (contract.locked_for_dvp owner token_id w) (λ l v.
        and_then (token.hub_balance_of dvp_address token_id v) (λ d u. (
          ok (l, d),
          log
              ("[DEBUG] Invariant polling tokenId="
                <> show token_id
                <> ": locked="
                <> show l
                <> " (exp="
                <> show locked
                <> "), dvp="
                <> show d
                <> " (exp="
                <> show dvp
                <> ")")
              u,
        )))

  abbrev pub are_both : ℕ → ℕ → ℕ × ℕ → Bool
  are_both locked dvp (l, d) = l == locked && d == dvp

  -- `hub_token` resolves the token's contract on the hub by its resource id.
  unfoldable pub wait_for_locked_and_dvp_balance :
      (hub_token : Exec (World X) (HubToken X))
      → (owner dvp_address : String) → (token_id locked dvp : ℕ) → Option String
      → Exec (World X) (Unit {0})
  wait_for_locked_and_dvp_balance hub_token owner dvp_address token_id locked dvp message w =
      and_then (hub_token w) (λ token.
        await_read (read_both token owner dvp_address token_id locked dvp) (are_both locked dvp)
          host workers
          (or_text message (
            "Waiting for "
            <> symbol
            <> "#"
            <> show token_id
            <> " locked → "
            <> show locked
            <> ", dvp → "
            <> show dvp)))
