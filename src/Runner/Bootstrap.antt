-- ===== src/Runner/Bootstrap.antt =====
-- scripts/runners/bootstrap-worker-wallets.ts: the administrators of the workers get their role and their
-- ether on every chain. The calls of a chain are parameters, with balances in wei; what is logged about
-- each wallet is left out.
pub mod Funding
use rayls_sovereign_tests_au.Shared.{
  ℕ, suc, ◌+◌, ◌-◌, ◌*◌, ◌^◌, String, Bool, true, false, List, [], ◌∷◌, leb, ltb, length,
  if◌then◌else◌,
}
use rayls_sovereign_tests_au.Shared.Text.{◌<>◌, ParsedInt, nan, int, parse_int}
use rayls_sovereign_tests_au.Js.{JsError, error, Result, ok, err, Exec, and_then}
use rayls_sovereign_tests_au.PrivacyNode.{is_unset}

-- The registry's look-up of the access manager, the manager's functions, `getBalance`, and a transfer
-- of ether or a grant up to its receipt.
pub record ChainCalls (S : Type 0) : Type 0 where
  pub get_manager : (registry : String) → Exec S String
  pub has_admin : (manager wallet : String) → Exec S Bool
  pub grant_admin : (manager wallet : String) → Exec S (Unit {0})
  pub get_balance : (wallet : String) → Exec S ℕ
  pub send_value : (wallet : String) (value : ℕ) → Exec S (Unit {0})

abbrev pub ether : ℕ
ether = 10 ^ 18

abbrev pub fund_target_wei : ℕ
fund_target_wei = 5 * ether

abbrev pub fund_min_wei : ℕ
fund_min_wei = 1 * ether

pub record Tally : Type 0 where
  pub issued : ℕ
  pub skipped : ℕ

-- `parseWorkerCount`, of a setting that is empty if it is not set.
abbrev pub positive_count : String → ParsedInt → Result ℕ
positive_count raw (int false (suc n)) = ok (suc n)
positive_count raw _ = err (error ("PARALLEL_WORKERS must be a positive integer, got: " <> raw))

unfoldable pub parse_worker_count : String → Result ℕ
parse_worker_count raw =
    if is_unset raw then positive_count "<unset>" nan else positive_count raw (parse_int raw)

module _ {S : Type 0} (calls : ChainCalls S) where
  abbrev pub count_skipped : Tally → Tally
  count_skipped t = record t { skipped = suc t.skipped }

  abbrev pub count_issued : Tally → Tally
  count_issued t = record t { issued = suc t.issued }

  -- One wallet: what is in place is skipped, and the rest is sent.
  abbrev pub grant_one : (manager wallet : String) (has_role : Bool) → Tally → Exec S Tally
  grant_one manager wallet true t s = (ok (count_skipped t), s)
  grant_one manager wallet false t s =
      and_then (calls.grant_admin manager wallet s) (λ done u. (ok (count_issued t), u))

  unfoldable pub grant_wallets : (manager : String) → List String → Tally → Exec S Tally
  grant_wallets manager [] t s = (ok t, s)
  grant_wallets manager (a ∷ as') t s =
      and_then (calls.has_admin manager a s)
        (λ has u. and_then (grant_one manager a has t u) (grant_wallets manager as'))

  -- `bootstrapNode`.
  unfoldable pub bootstrap_node : (registry : String) → List String → Exec S Tally
  unfolding grant_wallets
  bootstrap_node registry wallets s =
      if is_unset registry
      then (ok (record { issued = 0; skipped = length wallets }), s)
      else and_then (calls.get_manager registry s)
          (λ manager. grant_wallets manager wallets (record { issued = 0; skipped = 0 }))

  abbrev pub fund_one : (wallet : String) (balance : ℕ) → Tally → Exec S Tally
  fund_one wallet balance t s =
      if leb fund_min_wei balance
      then (ok (count_skipped t), s)
      else and_then (calls.send_value wallet (fund_target_wei - balance) s)
          (λ done u. (ok (count_issued t), u))

  unfoldable pub fund_wallets : List String → Tally → Exec S Tally
  fund_wallets [] t s = (ok t, s)
  fund_wallets (a ∷ as') t s =
      and_then (calls.get_balance a s)
        (λ balance u. and_then (fund_one a balance t u) (fund_wallets as'))

  -- `fundNode`.
  unfoldable pub fund_node : List String → Exec S Tally
  unfolding fund_wallets
  fund_node wallets = fund_wallets wallets (record { issued = 0; skipped = 0 })
