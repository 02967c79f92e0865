-- ===== src/Tests/Funding.antt =====
-- Runs of the funding of the workers' wallets.
use rayls_sovereign_tests_au.Shared.{
  ℕ, ◌+◌, ◌≤◌, String, true, false, List, [], ◌∷◌, AllOf, ◌≡◌, refl, arith,
}
use rayls_sovereign_tests_au.Js.{ok}
use rayls_sovereign_tests_au.Shared.{ap, sym, subst, ◌∙◌, ◌≢◌, ◌-◌, if◌then◌else◌}
use rayls_sovereign_tests_au.Runner.Bootstrap.{ChainCalls, fund_min_wei, fund_target_wei, fund_node}
use rayls_sovereign_tests_au.Runner.Bootstrap.Funding.{same_state, same_value, fund_node-funded}
use text.Mathlib.Text.{◌==◌ as str_eq}
use text.Mathlib.TextEquality.{eq_iff}

-- Balances by wallet; a transfer adds to its receiver.
abbrev Balances : Type 0
Balances = String → ℕ

abbrev transfer : String → ℕ → Balances → Balances
transfer a n s b = if str_eq b a then s b + n else s b

abbrev chain_calls : ChainCalls Balances
chain_calls = record {
  get_manager = λ registry s. (ok "0xaa", s);
  has_admin = λ manager wallet s. (ok true, s);
  grant_admin = λ manager wallet s. (ok tt, s);
  get_balance = λ wallet s. (ok (s wallet), s);
  send_value = λ wallet n s. (ok tt, transfer wallet n s);
}

abbrev balance_of : String → Balances → ℕ
balance_of a s = s a

chain_reads :
    (a b : String) (n : ℕ) (s t : Balances)
    → chain_calls.get_balance a s ≡ (ok n, t)
    → (balance_of a s ≡ n) × (balance_of b t ≡ balance_of b s)
chain_reads a b n s t h =
    (same_value (s a) n s t h, ap (balance_of b) (sym (same_state (s a) n s t h)))

transfer-same : (a : String) (n : ℕ) (s : Balances) → transfer a n s a ≡ s a + n
transfer-same a n s = rw ((eq_iff a a).1 refl) refl

transfer_rises : (a b : String) (n : ℕ) (s : Balances) → s b ≤ transfer a n s b
transfer_rises a b n s = ground arith

chain_adds :
    (a b : String) (n : ℕ) (s t : Balances)
    → a ≢ "seed"
    → b ≢ "seed"
    → chain_calls.send_value a n s ≡ (ok tt, t)
    → (balance_of a t ≡ balance_of a s + n) × (balance_of b s ≤ balance_of b t)
chain_adds a b n s t a_apart b_apart h =
    let ended = same_state tt tt (transfer a n s) t h in
    (
      ap (balance_of a) (sym ended) ∙ transfer-same a n s,
      subst (λ (r : Balances). balance_of b s ≤ balance_of b r) ended (transfer_rises a b n s),
    )

abbrev two_wallets : List String
two_wallets = "0xa" ∷ "0xb" ∷ []

abbrev funded_once : Balances
funded_once =
    transfer "0xa" (fund_target_wei - 3) (λ b. if str_eq b "0xa" then 3 else fund_target_wei)

not_seed : (a : String) → str_eq a "seed" ≡ false → a ≢ "seed"
not_seed a h e = let same = (eq_iff a "seed").1 e in absurd (cc)

fund_node-funded_example :
    AllOf (λ a. fund_min_wei ≤ balance_of a funded_once) two_wallets × (1 + 1 ≡ 2)
unfolding fund_node
fund_node-funded_example =
    fund_node-funded chain_calls balance_of "seed" chain_reads chain_adds two_wallets
      (record { issued = 1; skipped = 1 }) (λ b. if str_eq b "0xa" then 3 else fund_target_wei)
      funded_once (not_seed "0xa" refl, (not_seed "0xb" refl, tt)) refl
