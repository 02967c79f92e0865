-- ===== src/Tokens/Enygma.antt =====
-- src/entities/tokens/EnygmaWrapper.ts: minting, and the deposit in and withdrawal from the DvP vault
-- with the waits for the Merkle tree of the hub. The contracts are parameters.
pub mod Db
pub mod Laws
use rayls_sovereign_tests_au.Shared.{
  ℕ, ◌+◌, ◌-◌, ◌*◌, ◌/◌, String, Option, none, some, Bool, true, false, not, ◌&&◌, ◌==◌, List,
  length, if◌then◌else◌,
}
use rayls_sovereign_tests_au.Shared.Text.{◌<>◌, show, short_hex}
use rayls_sovereign_tests_au.Js.{JsError, ok, Exec, and_then, or_else}
use rayls_sovereign_tests_au.Logging.{Host, World, log}
use rayls_sovereign_tests_au.Env.{default_timeout, second}
use rayls_sovereign_tests_au.Transactions.{Receipt, Response, submit_tx}
use rayls_sovereign_tests_au.Tokens.{zero_address}
use rayls_sovereign_tests_au.Tokens.Reads.{await_read, await_read_within}
use rayls_sovereign_tests_au.Tokens.Enygma.Db.{EnygmaDb, to_number, check_db_balance}
use text.Mathlib.Text.{◌==◌ as str_eq}

-- The token's contract on the privacy node.
pub record Enygma (X : Type 0) : Type 0 where
  pub balance_of : String → Exec (World X) ℕ
  pub mint : String → ℕ → Exec (World X) (Response X)
  pub deposit_to_dvp : ℕ → Exec (World X) (Response X)
  pub call_withdraw_from_dvp : ℕ → Exec (World X) (Response X)

pub record Integration (X : Type 0) : Type 0 where
  pub get_dvp_address : Exec (World X) String
  pub get_vault_id : Exec (World X) ℕ

pub record Merkle (X : Type 0) : Type 0 where
  pub current_root : Exec (World X) String
  pub tree_number : Exec (World X) ℕ
  pub is_valid_root : ℕ → String → Exec (World X) Bool

-- The hub, with contracts connected at an address or taken from the store. `commitments` finds the
-- teleport contract and the token's address, and gives the query for the token's Commitments events.
pub record DvpHub (X : Type 0) : Type 0 where
  pub get_block_number : Exec (World X) ℕ
  pub dvp_integration_address : Exec (World X) String
  pub integration_at : String → Exec (World X) (Integration X)
  pub stored_integration : Exec (World X) (Integration X)
  pub vault_by_id : (dvp_address : String) → ℕ → Exec (World X) String
  pub merkle_at : String → Exec (World X) (Merkle X)
  pub commitments : Exec (World X) ((from_block to_block : ℕ) → Exec (World X) (List String))

module _ {X : Type 0} (hub : DvpHub X) where
  unfoldable pub read_dvp_address : Exec (World X) String
  read_dvp_address w = and_then (hub.dvp_integration_address w) (λ address v.
      and_then (hub.integration_at address v) (λ integration. integration.get_dvp_address))

  unfoldable pub resolve_merkle_contract : Exec (World X) (Merkle X)
  resolve_merkle_contract w = and_then (hub.stored_integration w) (λ integration v₁.
      and_then (integration.get_dvp_address v₁) (λ dvp_address v₂.
        and_then (integration.get_vault_id v₂)
          (λ vault_id v₃. and_then (hub.vault_by_id dvp_address vault_id v₃) hub.merkle_at)))

  abbrev pub query_logs :
      (from_block : ℕ)
      → ((from_block to_block : ℕ) → Exec (World X) (List String))
      → Exec (World X) (List String)
  query_logs from_block query w =
      and_then (hub.get_block_number w) (λ to_block. query from_block to_block)

  abbrev pub read_logs : (from_block : ℕ) → Exec (World X) (List String)
  read_logs from_block w = and_then (hub.commitments w) (query_logs from_block)

  abbrev pub count_logs : List String → Exec (World X) ℕ
  count_logs logs w = (ok (length logs), w)

  -- Any error counts as no event.
  unfoldable pub get_commitments_event_count : (from_block : ℕ) → Exec (World X) ℕ
  get_commitments_event_count from_block w =
      or_else (and_then (read_logs from_block w) count_logs) (λ e v. (ok 0, v))

  -- One round of the wait: whether the tree's root is valid, and the events so far.
  abbrev pub with_validity :
      (query : (from_block to_block : ℕ) → Exec (World X) (List String))
      → (from_block : ℕ) → Bool
      → Exec (World X) (Bool × List String)
  with_validity query from_block valid w =
      and_then (query_logs from_block query w) (λ logs v. (ok (valid, logs), v))

  abbrev pub read_tree :
      Merkle X
      → (query : (from_block to_block : ℕ) → Exec (World X) (List String)) → (from_block : ℕ)
      → Exec (World X) (Bool × List String)
  read_tree merkle query from_block w = and_then (merkle.current_root w) (λ root v₁.
      and_then (merkle.tree_number v₁) (λ number v₂.
        and_then (merkle.is_valid_root number root v₂) (with_validity query from_block)))

abbrev pub is_complete : ℕ → Bool × List String → Bool
is_complete deposits (valid, logs) = valid && length logs == deposits

module _ {X : Type 0} (host : Host X) (workers : ℕ) (symbol : String) (hub : DvpHub X) where
  unfoldable pub wait_for_dvp_address_ready : Exec (World X) (Unit {0})
  wait_for_dvp_address_ready =
      await_read (read_dvp_address hub) (λ address. not (str_eq address zero_address)) host workers
        ("Resolving " <> symbol <> " DvpAddress")

  abbrev pub merkle_message : ℕ → String
  merkle_message deposits =
      "Waiting for " <> show deposits <> " " <> symbol <> " deposits on Merkle Tree"

  abbrev pub merkle_attempts : Option ℕ
  merkle_attempts = some (default_timeout workers * 2 / second)

  abbrev pub await_tree :
      Merkle X
      → (deposits from_block : ℕ) → ((from_block to_block : ℕ) → Exec (World X) (List String))
      → Exec (World X) (Unit {0})
  await_tree merkle deposits from_block query =
      await_read_within (read_tree hub merkle query from_block) (is_complete deposits) host workers
        (merkle_message deposits) merkle_attempts false

  abbrev pub wait_for_merkle_commitments :
      (deposits from_block : ℕ) → Merkle X → Exec (World X) (Unit {0})
  wait_for_merkle_commitments deposits from_block merkle w =
      and_then (hub.commitments w) (await_tree merkle deposits from_block)

  abbrev pub await_merkle : (deposits from_block : ℕ) → Unit {0} → Exec (World X) (Unit {0})
  await_merkle deposits from_block done w =
      and_then (resolve_merkle_contract hub w) (wait_for_merkle_commitments deposits from_block)

  unfoldable pub wait_for_deposits_to_complete :
      (deposits from_block : ℕ) → Exec (World X) (Unit {0})
  wait_for_deposits_to_complete deposits from_block w =
      and_then (wait_for_dvp_address_ready w) (await_merkle deposits from_block)

  module _ (token : Enygma X) (db : EnygmaDb X) where
    abbrev pub db_check : ℕ → Receipt → Unit {0} → Exec (World X) Receipt
    db_check expected receipt done w =
        and_then (check_db_balance host workers symbol db (to_number expected) w)
          (λ checked v. (ok receipt, v))

    abbrev pub await_deposit : (expected from_block count : ℕ) → Receipt → Exec (World X) Receipt
    await_deposit expected from_block count receipt w =
        and_then (wait_for_deposits_to_complete (count + 1) from_block w)
          (db_check expected receipt)

    abbrev pub submit_counted : (amount expected from_block count : ℕ) → Exec (World X) Receipt
    submit_counted amount expected from_block count w =
        and_then
          (submit_tx host (token.deposit_to_dvp amount)
            ("Depositing " <> show amount <> " tokens to Dvp") w)
          (await_deposit expected from_block count)

    abbrev pub count_from : (amount expected current_block : ℕ) → Exec (World X) Receipt
    count_from amount expected current_block w =
        and_then (get_commitments_event_count hub (current_block - 10) w)
          (submit_counted amount expected (current_block - 10))

    unfoldable pub deposit_enygma_to_dvp : (amount expected : ℕ) → Exec (World X) Receipt
    deposit_enygma_to_dvp amount expected w =
        and_then (hub.get_block_number w) (count_from amount expected)

    abbrev pub await_withdrawn :
        (user_wallet : String) → (expected : ℕ) → Receipt → Exec (World X) Receipt
    await_withdrawn user_wallet expected receipt w =
        and_then
          (await_read (token.balance_of user_wallet) (λ n. n == expected) host workers
            ("Checking " <> symbol <> " balance post-withdraw") w)
          (db_check expected receipt)

    abbrev pub submit_withdrawn :
        (user_wallet : String) → (amount before : ℕ) → Exec (World X) Receipt
    submit_withdrawn user_wallet amount before w =
        and_then
          (submit_tx host (token.call_withdraw_from_dvp amount)
            ("Withdrawing " <> show amount <> " tokens from Dvp") w)
          (await_withdrawn user_wallet (before + amount))

    unfoldable pub withdraw_enygma_from_dvp :
        (user_wallet : String) → (amount : ℕ) → Exec (World X) Receipt
    withdraw_enygma_from_dvp user_wallet amount w =
        and_then (token.balance_of user_wallet w) (submit_withdrawn user_wallet amount)

    -- The database is asked only for a hub, and only where its checks are on.
    unfoldable pub mint_and_await :
        (with_hub : Bool) → (to_address : String) → (amount : ℕ) → Exec (World X) (Unit {0})
    mint_and_await with_hub to_address amount w =
        and_then (token.balance_of to_address w) (λ before v.
          and_then (submit_tx host (token.mint to_address amount) ("Minting " <> symbol) v)
            (λ receipt u.
              and_then
                (await_read (token.balance_of to_address) (λ n. n == before + amount) host workers
                  ("Waiting for "
                    <> symbol
                    <> " PL balance → "
                    <> show (before + amount)
                    <> " for "
                    <> short_hex to_address)
                  (log
                    ("Waiting for balance " <> show (before + amount) <> " and args " <> to_address)
                    u))
                (λ done t.
                  if with_hub && db.use_db_checks
                  then check_db_balance host workers symbol db (to_number amount) t
                  else (ok tt, t))))
