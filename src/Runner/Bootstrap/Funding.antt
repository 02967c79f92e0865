-- ===== src/Runner/Bootstrap/Funding.antt =====
-- What scripts/runners/bootstrap-worker-wallets.ts has established when the funding of a chain returns.
use rayls_sovereign_tests_au.Shared.{
  ℕ, suc, ◌+◌, ◌-◌, ◌≤◌, ◌<◌, String, false, List, [], ◌∷◌, AllOf, length, leb, leb→le, ◌≡◌, ◌≢◌,
  ap, inl, inr, arith, Bool-cases,
}
use rayls_sovereign_tests_au.Js.{Result, ok, and_then, and_then-ok}
use rayls_sovereign_tests_au.Runner.Bootstrap.{
  ChainCalls, Tally, fund_target_wei, fund_min_wei, fund_one, fund_wallets, fund_node, count_issued,
  count_skipped,
}

pub same_state :
    {S A : Type 0} (a b : A) (s t : S) → ◌≡◌ {A = Result A × S} (ok a, s) (ok b, t) → s ≡ t
same_state a b s t h = cc

pub same_value :
    {S A : Type 0} (a b : A) (s t : S) → ◌≡◌ {A = Result A × S} (ok a, s) (ok b, t) → a ≡ b
same_value a b s t h = cc

below_min : (b : ℕ) → leb fund_min_wei b ≡ false → b < fund_target_wei
below_min b h = ground arith

module _ {S : Type 0} (calls : ChainCalls S) (balance_of : String → S → ℕ) (seed : String)
    (reads : (a b : String) (n : ℕ) (s t : S)
      → calls.get_balance a s ≡ (ok n, t)
      → (balance_of a s ≡ n) × (balance_of b t ≡ balance_of b s))
    (adds : (a b : String) (n : ℕ) (s t : S)
      → a ≢ seed
      → b ≢ seed
      → calls.send_value a n s ≡ (ok tt, t)
      → (balance_of a t ≡ balance_of a s + n) × (balance_of b s ≤ balance_of b t)) where
  -- One round.
  fund_one-funded :
      (a b : String) (n : ℕ) (c d : Tally) (s u t : S)
      → a ≢ seed
      → b ≢ seed
      → calls.get_balance a s ≡ (ok n, u)
      → fund_one calls a n c u ≡ (ok d, t)
      → (fund_min_wei ≤ balance_of a t)
        × (balance_of b s ≤ balance_of b t)
        × (d.issued + d.skipped ≡ suc (c.issued + c.skipped))
  fund_one-funded a b n c d s u t a_apart b_apart read h = elim (Bool-cases (leb fund_min_wei n)) [
    | inl enough ↦
        (let h' : ◌≡◌ {A = Result Tally × S} (ok (count_skipped calls c), u) (ok d, t) =
            rw enough at h in
          let at_a = reads a a n s u read in
          let at_b = reads a b n s u read in
          let ended = same_state (count_skipped calls c) d u t h' in
          let tally =
            ap (λ (x : Tally). x.issued + x.skipped)
              (same_value (count_skipped calls c) d u t h') in
          let there = ap (balance_of a) ended in
          let other = ap (balance_of b) ended in
          let le = leb→le fund_min_wei n enough in (omega arith, omega arith, omega arith))
    | inr short ↦
        (let h' : and_then (calls.send_value a (fund_target_wei - n) u)
                (λ done v. (ok (count_issued calls c), v))
              ≡ (ok d, t) =
            rw short at h in
          let (done, v, sent, rest) =
            and_then-ok (calls.send_value a (fund_target_wei - n) u)
              (λ done v. (ok (count_issued calls c), v)) d t h' in
          let at_a = reads a a n s u read in
          let at_b = reads a b n s u read in
          let gives = adds a b (fund_target_wei - n) u v a_apart b_apart sent in
          let ended = same_state (count_issued calls c) d v t rest in
          let tally =
            ap (λ (x : Tally). x.issued + x.skipped)
              (same_value (count_issued calls c) d v t rest) in
          let there = ap (balance_of a) ended in
          let other = ap (balance_of b) ended in
          let small = below_min n short in (omega arith, omega arith, omega arith))
  ]

  fund_wallets-round :
      (a : String) (as' : List String) (c d : Tally) (s t : S)
      → fund_wallets calls (a ∷ as') c s ≡ (ok d, t)
      → (n : ℕ) × (u : S) × (e : Tally) × (v : S) × (calls.get_balance a s ≡ (ok n, u))
        × (fund_one calls a n c u ≡ (ok e, v))
        × (fund_wallets calls as' e v ≡ (ok d, t))
  unfolding fund_wallets
  fund_wallets-round a as' c d s t h =
      let (n, u, read, rest) =
        and_then-ok (calls.get_balance a s)
          (λ balance u. and_then (fund_one calls a balance c u) (fund_wallets calls as')) d t h in
      let (e, v, funded, others) =
        and_then-ok (fund_one calls a n c u) (fund_wallets calls as') d t rest in
      (n, u, e, v, read, funded, others)

  fund_wallets-rises :
      (b : String) (as' : List String) (c d : Tally) (s t : S)
      → b ≢ seed
      → AllOf (λ a. a ≢ seed) as'
      → fund_wallets calls as' c s ≡ (ok d, t)
      → balance_of b s ≤ balance_of b t
  unfolding fund_wallets
  fund_wallets-rises b [] c d s t apart all h =
      let other = ap (balance_of b) (same_state c d s t h) in omega arith
  fund_wallets-rises b (a ∷ as') c d s t apart all h =
      let (n, u, e, v, read, funded, others) = fund_wallets-round a as' c d s t h in
      let one = fund_one-funded a b n c e s u v all.0 apart read funded in
      let rest = fund_wallets-rises b as' e d v t apart all.1 others in omega arith

  fund_wallets-funded :
      (as' : List String) (c d : Tally) (s t : S)
      → AllOf (λ a. a ≢ seed) as'
      → fund_wallets calls as' c s ≡ (ok d, t)
      → AllOf (λ a. fund_min_wei ≤ balance_of a t) as'
        × (d.issued + d.skipped ≡ (c.issued + c.skipped) + length as')
  unfolding fund_wallets
  fund_wallets-funded [] c d s t all h =
      let tally = ap (λ (x : Tally). x.issued + x.skipped) (same_value c d s t h) in
      (tt, omega arith)
  fund_wallets-funded (a ∷ as') c d s t all h =
      let (n, u, e, v, read, funded, others) = fund_wallets-round a as' c d s t h in
      let one = fund_one-funded a a n c e s u v all.0 all.0 read funded in
      let rises = fund_wallets-rises a as' e d v t all.0 all.1 others in
      let rest = fund_wallets-funded as' e d v t all.1 others in
      ((omega arith, rest.0), omega arith)

  -- If reading a balance tells it and changes none, and a transfer from the seed wallet adds its value
  -- to its receiver and takes from no other wallet but the seed's, then after a `fundNode` that returned
  -- each of the wallets, the seed's not among them, has at least 1 ether, and each of them is counted
  -- once, as funded or as skipped.
  pub fund_node-funded :
      (wallets : List String) (d : Tally) (s t : S)
      → AllOf (λ a. a ≢ seed) wallets
      → fund_node calls wallets s ≡ (ok d, t)
      → AllOf (λ a. fund_min_wei ≤ balance_of a t) wallets × (d.issued + d.skipped ≡ length wallets)
  unfolding fund_node
  fund_node-funded wallets d s t all h =
      let funded = fund_wallets-funded wallets (record { issued = 0; skipped = 0 }) d s t all h in
      (funded.0, omega arith)
