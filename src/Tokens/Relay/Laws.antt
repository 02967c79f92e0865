-- ===== src/Tokens/Relay/Laws.antt =====
-- What has been seen when the wait for the holder of a token on the hub returns.
use rayls_sovereign_tests_au.Shared.{
  ℕ, ◌-◌, ◌≤◌, String, Option, none, some, Bool, true, false, leb, leb→le, List, [], ◌∷◌, ◌≡◌, refl,
  ap, inl, inr, AnyOf, subst,
}
use rayls_sovereign_tests_au.Js.{Result, ok, Exec, and_then, and_then-ok}
use rayls_sovereign_tests_au.Logging.{Host, World}
use rayls_sovereign_tests_au.Polling.{eventually}
use rayls_sovereign_tests_au.Polling.Loads.{eventually-Checked}
use rayls_sovereign_tests_au.Tokens.Relay.{
  TransferEvent, HubToken, lower, candidates, first_covering, find_owner, is_found, found_json,
  lookback, owner_poll, relay_message, owner_text, await_owner, with_tip, with_token,
  wait_for_pnh_mint_relay,
}
use rayls_sovereign_tests_au.Tokens.Relay.Scan.{MovesTo}
use rayls_sovereign_tests_au.Tokens.Relay.Holders.{IsOutside, candidates-exact}

module _ {X : Type 0} (token : HubToken X) (nft_id expected : ℕ) where
  -- The contract gives a balance of the account that is enough.
  abbrev pub Covers : String → Type 0
  Covers c =
      (z t : World X) × (n : ℕ) × (token.hub_balance_of c nft_id z ≡ (ok n, t)) × (expected ≤ n)

  abbrev next_if : String → List String → ℕ → Exec (World X) (Option String)
  unfolding first_covering
  next_if c cs balance v = elim (leb expected balance) [
    | true ↦ (ok (some c), v)
    | false ↦ first_covering token nft_id expected cs v
  ]

  abbrev CoveredBy : List String → Option String → Type 0
  CoveredBy cs none = Unit
  CoveredBy cs (some c) = AnyOf (λ d. d ≡ c) cs × Covers c

  CoveredBy-behind :
      (d : String) (cs : List String) (o : Option String) → CoveredBy cs o → CoveredBy (d ∷ cs) o
  CoveredBy-behind d cs none h = tt
  CoveredBy-behind d cs (some c) h = (inr h.0, h.1)

  next_if-CoveredBy :
      (c : String) (cs : List String) (n : ℕ) (w v u : World X) (o : Option String)
      → token.hub_balance_of c nft_id w ≡ (ok n, v)
      → (first_covering token nft_id expected cs v ≡ (ok o, u) → CoveredBy cs o)
      → (b : Bool) → leb expected n ≡ b
      → ◌≡◌ {A = Result (Option String) × World X}
          (elim b [ true ↦ (ok (some c), v) | false ↦ first_covering token nft_id expected cs v ])
          (ok o, u)
      → CoveredBy (c ∷ cs) o
  next_if-CoveredBy c cs n w v u none got rest true enough h = tt
  next_if-CoveredBy c cs n w v u (some d) got rest true enough h =
      let same : c ≡ d = cc in
      (inl same, subst Covers same (w, v, n, got, leb→le expected n enough))
  next_if-CoveredBy c cs n w v u o got rest false enough h = CoveredBy-behind c cs o (rest h)

  first_covering-CoveredBy :
      (cs : List String) (w u : World X) (o : Option String)
      → first_covering token nft_id expected cs w ≡ (ok o, u)
      → CoveredBy cs o
  unfolding first_covering
  first_covering-CoveredBy [] w u none h = tt
  first_covering-CoveredBy [] w u (some c) h = absurd (cc)
  first_covering-CoveredBy (c ∷ cs) w u o h =
      let (n, v, got, rest) = and_then-ok (token.hub_balance_of c nft_id w) (next_if c cs) o u h in
      next_if-CoveredBy c cs n w v u o got (first_covering-CoveredBy cs v u o) (leb expected n) refl
        rest

  -- What a check that found `owner` has read: a list of transfer events from the given block on, one of
  -- which moves the token to the owner, and a balance of the owner that is enough.
  abbrev pub Located : (vault : List ℕ) (from_block : ℕ) → String → Type 0
  Located vault from_block owner =
      (x y : World X) × (tip : ℕ) × (events : List TransferEvent) × (token.transfer_events
          from_block tip x
        ≡ (ok events, y))
      × AnyOf (MovesTo nft_id (lower owner)) events
      × IsOutside vault (lower owner)
      × Covers owner

  candidate-moved :
      (vault : List ℕ) (events : List TransferEvent) (owner : String)
      → AnyOf (λ d. d ≡ owner) (candidates nft_id vault events)
      → IsOutside vault (lower owner) × AnyOf (MovesTo nft_id (lower owner)) events
  candidate-moved vault events owner h =
      ((candidates-exact nft_id vault events).1 (lower owner)).0
        (spelled (candidates nft_id vault events) h)
    where
      spelled :
          (cs : List String) → AnyOf (λ d. d ≡ owner) cs → AnyOf (λ d. lower d ≡ lower owner) cs
      spelled [] h = absurd h
      spelled (c ∷ cs) (inl h) = inl (ap lower h)
      spelled (c ∷ cs) (inr h) = inr (spelled cs h)

  find_owner-Located :
      (get_block_number : Exec (World X) ℕ) (vault : List ℕ) (from_block : ℕ) (w u : World X)
      (owner : String)
      → find_owner token nft_id expected get_block_number vault from_block w ≡ (ok (some owner), u)
      → Located vault from_block owner
  unfolding find_owner
  find_owner-Located get_block_number vault from_block w u owner h =
      let (tip, x, _, rest) =
        and_then-ok (get_block_number w)
          (λ tip v.
            and_then (token.transfer_events from_block tip v)
              (λ events. first_covering token nft_id expected (candidates nft_id vault events)))
          (some owner) u h in
      let (events, y, read, found) =
        and_then-ok (token.transfer_events from_block tip x)
          (λ events. first_covering token nft_id expected (candidates nft_id vault events))
          (some owner) u rest in
      let (listed, covers) =
        first_covering-CoveredBy (candidates nft_id vault events) y u (some owner) found in
      let (outside, moves) = candidate-moved vault events owner listed in
      (x, y, tip, events, read, moves, outside, covers)

module _ {X : Type 0} (host : Host X) (workers : ℕ) (symbol : String)
    (get_token : Exec (World X) (HubToken X)) (get_block_number : Exec (World X) ℕ) where
  await_owner-Located :
      (token : HubToken X) (nft_id expected tip : ℕ) (vault owner : String) (w u : World X)
      → await_owner host workers symbol get_token get_block_number token nft_id expected tip vault w
        ≡ (ok owner, u)
      → Located token nft_id expected (lower vault) (tip - lookback) owner
  await_owner-Located token nft_id expected tip vault owner w u h =
      let (o, v, waited, given) =
        and_then-ok
          (eventually host workers is_found found_json
            (relay_message host workers symbol get_token get_block_number nft_id)
            (owner_poll host workers symbol get_token get_block_number token nft_id expected
              (lower vault) (tip - lookback))
            w)
          (owner_text host workers symbol get_token get_block_number) owner u h in
      let (z, t, checked, holds, _) =
        eventually-Checked host workers is_found found_json
          (relay_message host workers symbol get_token get_block_number nft_id)
          (owner_poll host workers symbol get_token get_block_number token nft_id expected
            (lower vault) (tip - lookback))
          w v o waited in
      located o v z t given checked holds
    where
      located :
          (o : Option String) (v z t : World X)
          → owner_text host workers symbol get_token get_block_number o v ≡ (ok owner, u)
          → find_owner token nft_id expected get_block_number (lower vault) (tip - lookback) z
            ≡ (ok o, t)
          → is_found o ≡ true
          → Located token nft_id expected (lower vault) (tip - lookback) owner
      located none v z t given checked holds = absurd (cc)
      located (some found) v z t given checked holds =
          let same : found ≡ owner = cc in
          subst (Located token nft_id expected (lower vault) (tip - lookback)) same (
            find_owner-Located token nft_id expected get_block_number (lower vault) (tip - lookback)
              z t found checked)

  -- An account that `waitForPNHMintRelay` returns is the receiver of a transfer of the token's id that
  -- the contract on the hub reported from 4000 blocks before the first tip on; it is neither the zero
  -- address nor the vault that the contract named, and a balance of it was read that is enough.
  pub wait_for_pnh_mint_relay-Located :
      (nft_id expected : ℕ) (owner : String) (w u : World X)
      → wait_for_pnh_mint_relay host workers symbol get_token get_block_number nft_id expected w
        ≡ (ok owner, u)
      → (token : HubToken X) × (v x y : World X) × (tip : ℕ) × (vault : String) × (get_token w
          ≡ (ok token, v))
        × (get_block_number v ≡ (ok tip, x))
        × (token.vault_address x ≡ (ok vault, y))
        × Located token nft_id expected (lower vault) (tip - lookback) owner
  unfolding wait_for_pnh_mint_relay
  wait_for_pnh_mint_relay-Located nft_id expected owner w u h =
      let (token, v, given, rest) =
        and_then-ok (get_token w)
          (with_token host workers symbol get_token get_block_number nft_id expected) owner u h in
      let (tip, x, at, rest₁) =
        and_then-ok (get_block_number v)
          (with_tip host workers symbol get_token get_block_number token nft_id expected) owner u
          rest in
      let (vault, y, named, rest₂) =
        and_then-ok (token.vault_address x)
          (await_owner host workers symbol get_token get_block_number token nft_id expected tip)
          owner u rest₁ in
      (
        token,
        v,
        x,
        y,
        tip,
        vault,
        given,
        at,
        named,
        await_owner-Located token nft_id expected tip vault owner y u rest₂,
      )
