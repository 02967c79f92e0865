-- ===== src/Tokens/Laws.antt =====
-- What a mint does to the counter of ids, and what has been seen when a mint or a wait for the public
-- address returns.
use rayls_sovereign_tests_au.Shared.{
  ℕ, ◌+◌, String, Option, none, some, Bool, true, false, ◌==◌, ==_iff, leb, not, inl, inr, ◌⊎◌, ◌↔◌,
  ◌≡◌, refl, arith, ap, subst, if◌then◌else◌, ◌∙◌,
}
use rayls_sovereign_tests_au.Shared.Text.{◌<>◌, short_hex, show}
use rayls_sovereign_tests_au.Js.{JsError, Result, ok, err, and_then, and_then-ok}
use rayls_sovereign_tests_au.Logging.{Host, World, log}
use rayls_sovereign_tests_au.Polling.{eventually}
use rayls_sovereign_tests_au.Polling.Loads.{Reached, eventually-Checked}
use rayls_sovereign_tests_au.Transactions.{Receipt, submit_tx}
use rayls_sovereign_tests_au.Transactions.Laws.{submit_tx-status}
use rayls_sovereign_tests_au.Retry.{or_default}
use text.Mathlib.Text.{◌==◌ as str_eq}
use rayls_sovereign_tests_au.Tokens.{
  Registry, RegistryOf, text_of, has_text, deployed_address, public_address_poll,
  probe_public_address, get_public_address, zero_address, is_true, bool_json,
}
use rayls_sovereign_tests_au.Tokens.Erc721.{
  Erc721, TokenIds, increment_token_id, mint_token, mint_and_await, after_mint, wait_for_balance,
  balance_poll,
}

equal-judged :
    {S : Type 0} (x n : ℕ) (b : Bool) (s t : S)
    → ◌≡◌ {A = Result Bool × S} (ok (x == n), s) (ok b, t)
    → b ≡ true
    → x ≡ n
equal-judged x n b s t h holds = let same : (x == n) ≡ b = cc in (==_iff x n).0 (same ∙ holds)

text-same :
    {X : Type 0} (s a : String) (x u : World X)
    → ◌≡◌ {A = Result String × World X} (ok s, x) (ok a, u)
    → s ≡ a
text-same s a x u h = cc

-- What a mint of `id` does to the counter.
abbrev pub IsCounted : {X : Type 0} → TokenIds → ℕ → Result ℕ × (TokenIds × World X) → Type 0
IsCounted ids id (r, (after, w)) =
    ((e : JsError) × (r ≡ err e) × (after ≡ ids))
    ⊎ ((r ≡ ok id) × (after.current ≡ ids.next) × (after.next ≡ after.current + 1))

module _ {X : Type 0} (host : Host X) (workers : ℕ) (symbol : String) (contract : Erc721 X) where
  after_mint-IsCounted :
      (ids : TokenIds) (id : ℕ) (p : Result (Unit {0}) × World X)
      → ids.next ≡ ids.current + 1
      → IsCounted ids id (after_mint host workers symbol contract ids id p)
  unfolding increment_token_id
  after_mint-IsCounted ids id (ok done, w) h = rw (low) (inr (refl, refl, refl))
    where
      low : leb ids.next ids.current ≡ false
      low = ground arith
  after_mint-IsCounted ids id (err e, w) h = inl (e, refl, refl)

  -- Where the next id is the current one plus one, as in a new wrapper, a mint keeps it so. A mint that
  -- fails leaves the counter alone; one that returns gives the id asked for, or else the next id, and
  -- takes the counter one step further.
  pub mint_and_await-IsCounted :
      (ids : TokenIds) (to_address : String) (token_id : Option ℕ) (w : World X)
      → ids.next ≡ ids.current + 1
      → IsCounted ids
          (or_default token_id ids.next)
          (mint_and_await host workers symbol contract to_address token_id (ids, w))
  unfolding mint_and_await
  mint_and_await-IsCounted ids to_address token_id w h = after_mint-IsCounted ids _ _ h

  returned-IsCounted :
      (ids after : TokenIds) (id a : ℕ) (u : World X)
      → IsCounted ids id (ok a, (after, u))
      → (a ≡ id) × (after.current ≡ ids.next) × (after.next ≡ after.current + 1)
  returned-IsCounted ids after id a u (inl (e, r, same)) = absurd (cc)
  returned-IsCounted ids after id a u (inr (r, current, step)) = (cc, current, step)

  repeated :
      (o : Option ℕ) (n a b : ℕ) → a ≡ or_default o n → b ≡ n + 1 → (a ≡ b) ↔ (o ≡ some (n + 1))
  repeated none n a b h k = ((λ e. absurd (omega arith)), (λ e. absurd (cc)))
  repeated (some i) n a b h k = ((λ e. ap some (omega arith)), (λ e. ground arith))

  -- Where the next id is the current one plus one: after a mint that returned, a mint with the
  -- wrapper's own id that returns gives the id of the first once more exactly if the first was
  -- asked for the number after the wrapper's next id.
  pub default_mint-repeats :
      (ids after last : TokenIds) (to_address : String) (token_id : Option ℕ) (w u v : World X)
      (a b : ℕ)
      → ids.next ≡ ids.current + 1
      → mint_and_await host workers symbol contract to_address token_id (ids, w)
        ≡ (ok a, (after, u))
      → mint_and_await host workers symbol contract to_address none (after, u) ≡ (ok b, (last, v))
      → (a ≡ b) ↔ (token_id ≡ some (ids.next + 1))
  default_mint-repeats ids after last to_address token_id w u v a b h first second =
      let (given, current, step) = returned-IsCounted ids after _ a u (
        subst (IsCounted ids (or_default token_id ids.next)) first
          (mint_and_await-IsCounted ids to_address token_id w h)) in
      let (given₁, _, _) = returned-IsCounted after last _ b v (
        subst (IsCounted after after.next) second
          (mint_and_await-IsCounted after to_address none u step)) in
      repeated token_id ids.next a b given (omega arith)

  -- A wait for a balance that is begun in `w` comes to `z` before one of its rounds.
  abbrev pub Awaited : ℕ → String → World X → World X → Type 0
  Awaited expected address w z =
      Reached host workers is_true
        ("Waiting for "
          <> symbol
          <> " PL balance → "
          <> show expected
          <> " for "
          <> short_hex address)
        (balance_poll host workers symbol contract expected address)
        (log ("Waiting for balance " <> show expected <> " and args " <> address) w) z

  -- A wait for a balance that returns has seen the contract give that balance.
  balance-seen :
      (expected : ℕ) (address : String) (w u : World X) (done : Unit {0})
      → wait_for_balance host workers symbol contract expected address w ≡ (ok done, u)
      → (z t : World X) × (contract.balance_of address z ≡ (ok expected, t))
        × Awaited expected address w z
  unfolding wait_for_balance
  balance-seen expected address w u done h =
      let (b, v, waited, _) = and_then-ok _ _ done u h in
      let (z, t, checked, holds, at) =
        eventually-Checked host workers is_true bool_json _ _ _ v b waited in
      let (balance, s, read, judged) = and_then-ok (contract.balance_of address z) _ b t checked in
      (z, s, read ∙ ap (λ n. (ok n, s)) (equal-judged balance expected b s t judged holds), at)

  -- A mint of a token that returns has read a balance before it and got a receipt of status 1 for
  -- its transaction, and in a state that the wait behind it reached the balance reads one more.
  pub mint_token-minted :
      (to_address : String) (id : ℕ) (w u : World X) (done : Unit {0})
      → mint_token host workers symbol contract to_address id w ≡ (ok done, u)
      → (before : ℕ) × (v x z t : World X) × (receipt : Receipt) × (contract.balance_of to_address w
          ≡ (ok before, v))
        × (submit_tx host (contract.mint to_address id) ("Minting " <> symbol) v ≡ (ok receipt, x))
        × (receipt.status ≡ some 1)
        × (contract.balance_of to_address z ≡ (ok (before + 1), t))
        × Awaited (before + 1) to_address x z
  unfolding mint_token
  mint_token-minted to_address id w u done h =
      let (before, v, read, rest) =
        and_then-ok (contract.balance_of to_address w)
          (λ before v.
            and_then (submit_tx host (contract.mint to_address id) ("Minting " <> symbol) v)
              (λ receipt. wait_for_balance host workers symbol contract (before + 1) to_address))
          done u h in
      let (receipt, x, submitted, waited) =
        and_then-ok (submit_tx host (contract.mint to_address id) ("Minting " <> symbol) v)
          (λ receipt. wait_for_balance host workers symbol contract (before + 1) to_address) done u
          rest in
      let (z, t, seen, at) = balance-seen (before + 1) to_address x u done waited in
      (
        before,
        v,
        x,
        z,
        t,
        receipt,
        read,
        submitted,
        submit_tx-status host ("Minting " <> symbol) (contract.mint to_address id) v x receipt
            submitted,
        seen,
        at,
      )

nonzero-some :
    (s a : String) → deployed_address s ≡ some a → (s ≡ a) × (str_eq a zero_address ≡ false)
nonzero-some s a h = ground arith

module _ {X : Type 0} where
  -- The registry reports, from `z` on, the status DEPLOYED and then the address, which is not the zero address.
  abbrev pub Deployed : Registry X → String → String → World X → Type 0
  Deployed registry addr a z =
      (x t : World X) × (registry.get_public_chain_status addr z ≡ (ok 2, x))
      × (registry.public_token_address addr x ≡ (ok a, t))
      × (str_eq a zero_address ≡ false)

  probed-Deployed :
      (registry : Registry X) (addr a : String) (z t : World X)
      → probe_public_address registry addr z ≡ (ok (some a), t)
      → Deployed registry addr a z
  unfolding probe_public_address
  probed-Deployed registry addr a z t h =
      let (status, x, read, rest) =
        and_then-ok (registry.get_public_chain_status addr z)
          (λ status v.
            if not (status == 2)
            then (ok none, v)
            else and_then (registry.public_token_address addr v)
                (λ s u. (ok (deployed_address s), u)))
          (some a) t h in
      deployed status x read (status == 2) refl rest
    where
      address_read :
          (x : World X) (p : Result String × World X)
          → and_then p (λ s u. (ok (deployed_address s), u)) ≡ (ok (some a), t)
          → (p ≡ (ok a, t)) × (str_eq a zero_address ≡ false)
      address_read x p rest =
          let (s, y, found, judged) =
            and_then-ok p (λ s u. (ok (deployed_address s), u)) (some a) t rest in
          let (same, apart) = nonzero-some s a (cc) in (cc, apart)

      deployed :
          (status : ℕ) (x : World X)
          → registry.get_public_chain_status addr z ≡ (ok status, x)
          → (b : Bool) → (status == 2) ≡ b
          → ◌≡◌ {A = Result (Option String) × World X}
              (if not b
                then (ok none, x)
                else and_then
                    (registry.public_token_address addr x)
                    (λ s u. (ok (deployed_address s), u)))
              (ok (some a), t)
          → Deployed registry addr a z
      deployed status x read true h rest =
          let (found, apart) = address_read x (registry.public_token_address addr x) rest in
          (x, t, read ∙ ap (λ n. (ok n, x)) ((==_iff status 2).0 h), found, apart)
      deployed status x read false h rest = absurd (cc)

module _ {X : Type 0} (host : Host X) (workers : ℕ) (symbol addr : String) where
  -- An address of the public chain that the wrapper returns is one that a registry of the node
  -- reports, after the status DEPLOYED, in a state that the wait reached; it is not the zero address.
  pub get_public_address-Deployed :
      (get_registry : RegistryOf X) (json : Option String → String) (w u : World X) (a : String)
      → get_public_address host workers symbol addr get_registry json w ≡ (ok a, u)
      → (registry : Registry X) × (v z : World X) × (get_registry w ≡ (ok registry, v))
        × Reached host workers has_text
            ("Waiting for " <> symbol <> " public token DEPLOYED (" <> short_hex addr <> ")")
            (public_address_poll registry addr)
            v
            z
        × Deployed registry addr a z
  unfolding get_public_address
  get_public_address-Deployed get_registry json w u a h =
      let (registry, v, given, rest) =
        and_then-ok (get_registry w)
          (λ registry v.
            and_then
              (eventually host workers has_text json
                ("Waiting for " <> symbol <> " public token DEPLOYED (" <> short_hex addr <> ")")
                (public_address_poll registry addr) v)
              text_of)
          a u h in
      let (o, x, waited, taken) = and_then-ok _ _ a u rest in
      let (z, t, checked, holds, at) =
        eventually-Checked host workers has_text json _ _ v x o waited in
      (registry, v, z, given, at, found registry o x z t checked holds taken)
    where
      found :
          (registry : Registry X) (o : Option String) (x z t : World X)
          → probe_public_address registry addr z ≡ (ok o, t)
          → has_text o ≡ true
          → text_of o x ≡ (ok a, u)
          → Deployed registry addr a z
      found registry none x z t checked holds taken = absurd (cc)
      found registry (some s) x z t checked holds taken =
          probed-Deployed registry addr a z t
            (checked ∙ ap (λ s. (ok (some s), t)) (text-same s a x u taken))
