-- ===== src/Tests/Chain.antt =====
-- Runs of the code that talks to the chains: transactions, receipts, tokens, blocks and contracts.
use rayls_sovereign_tests_au.Shared.{
  ℕ, suc, ◌+◌, ◌<◌, ◌≤◌, String, Option, none, some, List, [], ◌∷◌, Bool, true, false, ◌≡◌, ◌≢◌,
  ◌↔◌, ◌⊎◌, inr, sym, ap, ◌∙◌, refl, arith, subst,
}
use rayls_sovereign_tests_au.Js.{error, ok, err, Exec}
use rayls_sovereign_tests_au.Errors.{
  receipt_timeout, is_nonce_error, is_transient_rpc_error, is_transient, transient_reason, has_code,
  is_transient_instance, transient_patterns, error_text,
}
use rayls_sovereign_tests_au.Logging.{World, Load}
use rayls_sovereign_tests_au.Retry.{retry, retry_from, attempt_failed}
use rayls_sovereign_tests_au.Transactions.{
  Log, Receipt, Response, receipt_timeout_ms, wait_for_receipt, submit_from, check_receipt,
  submit_tx,
}
use rayls_sovereign_tests_au.Transactions.Laws.{submit_tx-status, submit_tx_calls}
use rayls_sovereign_tests_au.Transactions.Loads.{
  active_loads-submit_tx, active_loads-submit_tx_threw,
}
use rayls_sovereign_tests_au.Shared.Text.{◌<>◌, codes, to_lower}
use rayls_sovereign_tests_au.Shared.Text.Search.{no_Prefix}
use text.Mathlib.Text.{◌==◌ as str_eq}
use rayls_sovereign_tests_au.Messages.{ParsedLog, get_message_id}
use rayls_sovereign_tests_au.Messages.Laws.{FirstDispatch, get_message_id_iff}
use rayls_sovereign_tests_au.Messages.Reading.{IdRead}
use rayls_sovereign_tests_au.Tests.{still_host, new_world}

abbrev mined : Receipt
mined = record { status = some 1; block_number = 1; logs = [] }

abbrev response : Response ℕ
response = record { hash = "0x1"; settled = λ ms x. (some (ok (some mined)), x) }

-- A factory that counts its runs.
abbrev factory : Exec (World ℕ) (Response ℕ)
factory w = (ok response, record w { outside = suc w.outside })

abbrev refused : Exec (World ℕ) (Response ℕ)
refused w = (err (error "execution reverted"), w)

receipt_still :
    (v u : World ℕ) (r : Response ℕ)
    → factory v ≡ (ok r, u)
    → (w : World ℕ) → (wait_for_receipt r receipt_timeout_ms w).1.outside ≡ w.outside
unfolding wait_for_receipt
receipt_still v u r h w =
    let same : response ≡ r = cc in
    subst (λ q. (wait_for_receipt q receipt_timeout_ms w).1.outside ≡ w.outside) same refl

submit_tx_calls_example :
    (0 < (submit_tx still_host factory "Minting" new_world).1.outside)
    × ((submit_tx still_host factory "Minting" new_world).1.outside ≤ 0 + 25)
submit_tx_calls_example =
    submit_tx_calls still_host "Minting" factory (λ x. x) (λ w. refl) (λ ms x. refl) receipt_still
      new_world

submitted :
    submit_tx still_host factory "Minting" new_world
    ≡ (ok mined, (submit_tx still_host factory "Minting" new_world).1)
unfolding submit_tx submit_from retry retry_from wait_for_receipt check_receipt
submitted = refl

submit_tx-status_example : mined.status ≡ some 1
submit_tx-status_example =
    submit_tx-status still_host "Minting" factory new_world
      (submit_tx still_host factory "Minting" new_world).1 mined submitted

active_loads-submit_tx_example :
    (submit_tx still_host factory "Minting" new_world).1.logger.active_loads ≡ []
active_loads-submit_tx_example =
    active_loads-submit_tx still_host "Minting" factory (λ w. refl) new_world
      (submit_tx still_host factory "Minting" new_world).1 mined tt submitted

not_submitted :
    submit_tx still_host refused "Minting" new_world
    ≡ (err (error "execution reverted"), (submit_tx still_host refused "Minting" new_world).1)
unfolding submit_tx submit_from retry retry_from attempt_failed is_nonce_error
    rayls_sovereign_tests_au.Errors.matches rayls_sovereign_tests_au.Shared.Text.includes error_text
    rayls_sovereign_tests_au.Shared.Text.to_lower is_transient_rpc_error
not_submitted = refl

active_loads-submit_tx_threw_example :
    (entry : Load) × ((submit_tx still_host refused "Minting" new_world).1.logger.active_loads
      ≡ (0, entry) ∷ [])
    × (entry.message ≡ "Minting")
active_loads-submit_tx_threw_example =
    active_loads-submit_tx_threw still_host "Minting" refused (λ w. refl) new_world
      (submit_tx still_host refused "Minting" new_world).1 (error "execution reverted")
      not_submitted

-- Every log parses as a dispatch of the message ab.
abbrev parse_log : Log → Option ParsedLog
parse_log l = some (record { name = "MessageDispatched"; message_id = some "ab" })

abbrev dispatch : Log
dispatch = record { address = some "0xAB"; topics = []; payload = "" }

-- A log without an address, which is not one of the endpoint.
abbrev nameless : Log
nameless = record { address = none; topics = []; payload = "" }

ab_filled : (m : String) → m ≡ "ab" → m ≢ ""
ab_filled m is_ab e = absurd (let h = ap (λ t. str_eq t "") (sym is_ab ∙ e) in go h)
  where
    go : false ≡ true → ⊥
    go h = absurd (cc)

ab_read : IdRead (some "ab") "0xab"
unfolding ◌<>◌
ab_read = ("ab", refl, ab_filled "ab" refl, inr (no_Prefix (codes "0x") (codes "ab") refl, refl))

second_dispatches : FirstDispatch parse_log "0xab" (nameless ∷ dispatch ∷ []) "0xab"
unfolding to_lower
second_dispatches = (
  nameless ∷ [],
  dispatch,
  [],
  record { name = "MessageDispatched"; message_id = some "ab" },
  refl,
  ((λ h. absurd (let e = h.1.0 in cc)), tt),
  (refl, (refl, refl)),
  ab_read,
)

get_message_id_iff_example :
    get_message_id parse_log "0xab" (some (nameless ∷ dispatch ∷ [])) ≡ ok "0xab"
get_message_id_iff_example =
    (get_message_id_iff parse_log "0xab" (some (nameless ∷ dispatch ∷ [])) "0xab").0.1
      (nameless ∷ dispatch ∷ [], refl, second_dispatches)
