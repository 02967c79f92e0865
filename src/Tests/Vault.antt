-- ===== src/Tests/Vault.antt =====
-- Runs of the code that deposits ERC1155 and Enygma tokens in the vault of the hub and takes them back.
use rayls_sovereign_tests_au.Shared.{
  ℕ, ◌-◌, String, Option, none, some, Bool, true, false, ◌==◌, leb, List, [], ◌∷◌, ◌≡◌, ◌↔◌, refl,
  inl, AnyOf, if◌then◌else◌,
}
use rayls_sovereign_tests_au.Js.{ok, Exec}
use rayls_sovereign_tests_au.Logging.{World}
use rayls_sovereign_tests_au.Transactions.{Receipt, submit_tx}
use rayls_sovereign_tests_au.Tokens.Reads.{Seen, Equalled, await_read}
use rayls_sovereign_tests_au.Tokens.Relay.{
  Transfer, TransferEvent, HubToken, lower, candidates, lookback, wait_for_pnh_mint_relay,
}
use rayls_sovereign_tests_au.Tokens.Relay.Scan.{MovesTo, AreDistinct}
use rayls_sovereign_tests_au.Tokens.Relay.Holders.{IsOutside, candidates-exact}
use rayls_sovereign_tests_au.Tokens.Relay.Laws.{Located}
use rayls_sovereign_tests_au.Tokens.Erc1155.{Erc1155}
use rayls_sovereign_tests_au.Tokens.Erc1155.Dvp.{
  locked_message, deposit_nft_to_dvp, withdraw_nft_from_dvp,
}
use rayls_sovereign_tests_au.Tokens.Erc1155.DvpLaws.{
  Moved, deposit_nft_to_dvp-Moved, withdraw_nft_from_dvp-unchanged,
}
use rayls_sovereign_tests_au.Tokens.Enygma.{
  Enygma, Integration, Merkle, DvpHub, deposit_enygma_to_dvp,
}
use rayls_sovereign_tests_au.Tokens.Enygma.Db.{EnygmaDb}
use rayls_sovereign_tests_au.Tests.{still_host, new_world}
use rayls_sovereign_tests_au.Tests.Assets.{receipt, sent}
use text.Mathlib.Text.{◌==◌ as str_eq}

abbrev moved : ℕ → String → TransferEvent
moved id to = record { transfer = some (record { id = id; to = to }) }

-- One account in two spellings, the vault, another token, and a log that could not be decoded.
abbrev events : List TransferEvent
events =
    moved 7 "0xaa"
    ∷ moved 7 "0xEE"
    ∷ moved 8 "0xbb"
    ∷ record { transfer = none }
    ∷ moved 7 "0xAA"
    ∷ []

candidates_of_events : candidates 7 (lower "0xee") events ≡ "0xAA" ∷ []
unfolding candidates rayls_sovereign_tests_au.Shared.Text.to_lower
candidates_of_events = refl

candidates-exact_example :
    AreDistinct (candidates 7 (lower "0xee") events)
    × ((s : List ℕ)
        → AnyOf (λ c. lower c ≡ s) (candidates 7 (lower "0xee") events)
          ↔ (IsOutside (lower "0xee") s × AnyOf (MovesTo 7 s) events))
candidates-exact_example = candidates-exact 7 (lower "0xee") events

-- The relayer holds five of the token, and the deposit takes two of them to the vault.
abbrev hub_token : HubToken ℕ
hub_token = record {
  vault_address = λ w. (ok "0xee", w);
  hub_balance_of = λ account id w. (
    ok (
        if str_eq account "0xee"
        then (if w.outside == 0 then 0 else 2)
        else if w.outside == 0
        then 5
        else 3),
    w,
  );
  transfer_events = λ from_block to_block w. (ok events, w);
}

abbrev token : Erc1155 ℕ
token = record {
  balance_of = λ account id w. (ok 4, w);
  mint = λ to id amount. sent;
  mint_dvp = λ to id amount. sent;
  locked_for_dvp = λ account id w. (ok 2, w);
  deposit_into_dvp = λ id amount. sent;
  withdraw_from_dvp = λ id amount. sent;
  set_approval_for_all = λ to approved. sent;
  safe_transfer_from = λ from to id amount. sent;
}

abbrev get_token : Exec (World ℕ) (HubToken ℕ)
get_token w = (ok hub_token, w)

abbrev tip : Exec (World ℕ) ℕ
tip w = (ok 10, w)

abbrev deposited : World ℕ
deposited = (deposit_nft_to_dvp still_host 1 "NFT" token get_token tip 7 2 new_world).1

deposit_returns :
    deposit_nft_to_dvp still_host 1 "NFT" token get_token tip 7 2 new_world
    ≡ (ok receipt, deposited)
unfolding deposit_nft_to_dvp rayls_sovereign_tests_au.Tokens.Relay.wait_for_pnh_mint_relay
    rayls_sovereign_tests_au.Tokens.Relay.find_owner
    rayls_sovereign_tests_au.Tokens.Relay.candidates rayls_sovereign_tests_au.Tokens.Relay.scan
    rayls_sovereign_tests_au.Tokens.Relay.first_covering
    rayls_sovereign_tests_au.Shared.Text.to_lower rayls_sovereign_tests_au.Transactions.submit_tx
    rayls_sovereign_tests_au.Transactions.submit_from rayls_sovereign_tests_au.Retry.retry
    rayls_sovereign_tests_au.Retry.retry_from rayls_sovereign_tests_au.Transactions.wait_for_receipt
    rayls_sovereign_tests_au.Transactions.check_receipt rayls_sovereign_tests_au.Polling.eventually
    rayls_sovereign_tests_au.Polling.wait_over rayls_sovereign_tests_au.Polling.poll
    rayls_sovereign_tests_au.Polling.poll_from rayls_sovereign_tests_au.Polling.after_check
    rayls_sovereign_tests_au.Polling.recorded rayls_sovereign_tests_au.Logging.load
    rayls_sovereign_tests_au.Logging.log rayls_sovereign_tests_au.Logging.load_success
    rayls_sovereign_tests_au.Logging.finish_load rayls_sovereign_tests_au.Tokens.Reads.await_read
    rayls_sovereign_tests_au.Tokens.Reads.await_read_within
    rayls_sovereign_tests_au.Tokens.Reads.read_poll
deposit_returns = refl

deposit_nft_to_dvp-Moved_example :
    (t located : HubToken ℕ) × (v x y : World ℕ) × (n : ℕ) × (vault named owner : String)
    × (get_token new_world ≡ (ok t, v))
    × (t.vault_address v ≡ (ok vault, x))
    × (wait_for_pnh_mint_relay still_host 1 "NFT" get_token tip 7 2 x ≡ (ok owner, y))
    × Located located 7 2 (lower named) (n - lookback) owner
    × Moved still_host 1 "NFT" token get_token tip t vault owner 7 2 receipt y
deposit_nft_to_dvp-Moved_example =
    deposit_nft_to_dvp-Moved still_host 1 "NFT" token get_token tip 7 2 new_world deposited receipt
      deposit_returns

abbrev withdrawn : World ℕ
withdrawn = (withdraw_nft_from_dvp still_host 1 "NFT" token "0xcc" "0xdd" 7 2 new_world).1

withdrawal_returns :
    withdraw_nft_from_dvp still_host 1 "NFT" token "0xcc" "0xdd" 7 2 new_world
    ≡ (ok receipt, withdrawn)
unfolding withdraw_nft_from_dvp rayls_sovereign_tests_au.Tokens.Reads.await_read
    rayls_sovereign_tests_au.Polling.eventually rayls_sovereign_tests_au.Polling.wait_over
    rayls_sovereign_tests_au.Polling.poll rayls_sovereign_tests_au.Polling.poll_from
    rayls_sovereign_tests_au.Polling.after_check rayls_sovereign_tests_au.Polling.recorded submit_tx
    rayls_sovereign_tests_au.Transactions.submit_from rayls_sovereign_tests_au.Retry.retry
    rayls_sovereign_tests_au.Retry.retry_from rayls_sovereign_tests_au.Transactions.wait_for_receipt
    rayls_sovereign_tests_au.Transactions.check_receipt
withdrawal_returns = refl

withdraw_nft_from_dvp-unchanged_example :
    (before : ℕ) × (v x y : World ℕ) × (token.balance_of "0xdd" 7 new_world ≡ (ok before, v))
    × Seen
        (token.locked_for_dvp "0xcc" 7)
        (leb 2)
        still_host
        1
        (locked_message still_host 1 "NFT" token 7)
        none
        false
        v
    × (await_read
          (token.locked_for_dvp "0xcc" 7)
          (leb 2)
          still_host
          1
          (locked_message still_host 1 "NFT" token 7)
          v
        ≡ (ok tt, x))
    × (submit_tx still_host (token.withdraw_from_dvp 7 2) "Withdrawing NFT from Dvp" x
        ≡ (ok receipt, y))
    × (receipt.status ≡ some 1)
    × Equalled still_host 1 (token.balance_of "0xdd" 7) before y
withdraw_nft_from_dvp-unchanged_example =
    withdraw_nft_from_dvp-unchanged still_host 1 "NFT" token "0xcc" "0xdd" 7 2 new_world withdrawn
      receipt withdrawal_returns

abbrev enygma : Enygma ℕ
enygma = record {
  balance_of = λ account w. (ok 0, w);
  mint = λ to amount. sent;
  deposit_to_dvp = λ amount. sent;
  call_withdraw_from_dvp = λ amount. sent;
}

abbrev integration : Integration ℕ
integration = record { get_dvp_address = λ w. (ok "0xd1", w); get_vault_id = λ w. (ok 1, w) }

abbrev merkle : Merkle ℕ
merkle = record {
  current_root = λ w. (ok "root", w);
  tree_number = λ w. (ok 0, w);
  is_valid_root = λ n root w. (ok true, w);
}

-- The deposit makes one event.
abbrev dvp_hub : DvpHub ℕ
dvp_hub = record {
  get_block_number = tip;
  dvp_integration_address = λ w. (ok "0xd2", w);
  integration_at = λ address w. (ok integration, w);
  stored_integration = λ w. (ok integration, w);
  vault_by_id = λ address id w. (ok "0xd3", w);
  merkle_at = λ address w. (ok merkle, w);
  commitments =
      λ w. (ok (λ from_block to_block v. (ok (if v.outside == 0 then [] else "log" ∷ []), v)), w);
}

abbrev no_db : EnygmaDb ℕ
no_db = record {
  use_db_checks = false;
  chain_id = "1";
  get_enygma = λ w. (ok none, w);
  get_balance_finalised = λ w. (ok (0, 0), w);
  ped_com = λ v r w. (ok (0, 0), w);
}

abbrev enygma_deposited : World ℕ
enygma_deposited = (deposit_enygma_to_dvp still_host 1 "ENY" dvp_hub enygma no_db 5 5 new_world).1
