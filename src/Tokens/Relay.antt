-- ===== src/Tokens/Relay.antt =====
-- src/entities/tokens/ERC1155Wrapper.ts: `waitForPNHMintRelay`, which looks for the account on the hub
-- that holds enough of a token. The token's contract on the hub and the hub's provider are parameters.
pub mod Scan
pub mod Holders
pub mod Laws
use rayls_sovereign_tests_au.Shared.{
  ℕ, ◌-◌, String, Option, none, some, Bool, true, false, ◌||◌, not, ◌==◌, leb, if◌then◌else◌, List,
  [], ◌∷◌, ◌++◌, any,
}
use rayls_sovereign_tests_au.Shared.Text.{◌<>◌, show, codes, to_lower, list_eq}
use rayls_sovereign_tests_au.Js.{error, Result, ok, err, Exec, and_then}
use rayls_sovereign_tests_au.Logging.{Host, World}
use rayls_sovereign_tests_au.Polling.{PollOptions, eventually}
use rayls_sovereign_tests_au.Tokens.{zero_address, bool_json}

-- The arguments of a `TransferSingle` that the wrapper reads; a log that could not be decoded has none.
pub record Transfer : Type 0 where
  pub id : ℕ
  pub to : String

pub record TransferEvent : Type 0 where
  pub transfer : Option Transfer

-- The token's contract on the hub.
pub record HubToken (X : Type 0) : Type 0 where
  pub vault_address : Exec (World X) String
  pub hub_balance_of : String → ℕ → Exec (World X) ℕ
  pub transfer_events : (from_block to_block : ℕ) → Exec (World X) (List TransferEvent)

abbrev pub lower : String → List ℕ
lower s = to_lower (codes s)

-- `seen.has(to)`.
abbrev pub among : List ℕ → List (List ℕ) → Bool
among l seen = any (list_eq l) seen

-- `events` read from its last entry to its first.
abbrev pub newest_first {ℓ} : {A : Type ℓ} → List A → List A
newest_first [] = []
newest_first (e ∷ es) = newest_first es ++ e ∷ []

abbrev pub unseen : List (List ℕ) → Option String → Option String
unseen seen none = none
unseen seen (some to) = if among (lower to) seen then none else some to

module _ (nft_id : ℕ) (vault : List ℕ) where
  -- The account that an event names, if it is one that may hold the token.
  abbrev pub holder_of : Option Transfer → Option String
  holder_of none = none
  holder_of (some t) =
      if not (t.id == nft_id)
      then none
      else if list_eq (lower t.to) (lower zero_address) || list_eq (lower t.to) vault
      then none
      else some t.to

  unfoldable pub scan : List (List ℕ) → List TransferEvent → List String
  scan seen [] = []
  scan seen (e ∷ es) = elim (unseen seen (holder_of e.transfer)) [
    | none ↦ scan seen es
    | some to ↦ to ∷ scan (lower to ∷ seen) es
  ]

  unfoldable pub candidates : List TransferEvent → List String
  unfolding scan
  candidates events = scan [] (newest_first events)

module _ {X : Type 0} (token : HubToken X) (nft_id expected : ℕ) where
  -- The first candidate whose balance is enough; those behind it are not asked.
  unfoldable pub first_covering : List String → Exec (World X) (Option String)
  first_covering [] w = (ok none, w)
  first_covering (c ∷ cs) w = and_then (token.hub_balance_of c nft_id w) (λ balance v.
      elim (leb expected balance) [ true ↦ (ok (some c), v) | false ↦ first_covering cs v ])

  -- The check. It sets `owner` exactly where it returns `true`: here it returns that owner.
  unfoldable pub find_owner :
      (get_block_number : Exec (World X) ℕ)
      → (vault : List ℕ) (from_block : ℕ) → Exec (World X) (Option String)
  unfolding candidates first_covering
  find_owner get_block_number vault from_block w = and_then (get_block_number w) (λ tip v.
      and_then (token.transfer_events from_block tip v)
        (λ events. first_covering (candidates nft_id vault events)))

abbrev pub is_found : Option String → Bool
is_found none = false
is_found (some owner) = true

abbrev pub found_json : Option String → String
found_json o = bool_json (is_found o)

-- The number of blocks that the events are looked for in.
abbrev pub lookback : ℕ
lookback = 4000

module _ {X : Type 0} (host : Host X) (workers : ℕ) (symbol : String)
    (get_token : Exec (World X) (HubToken X)) (get_block_number : Exec (World X) ℕ) where
  abbrev pub owner_poll :
      HubToken X
      → (nft_id expected : ℕ) → (vault : List ℕ) (from_block : ℕ)
      → PollOptions (World X) (Option String)
  owner_poll token nft_id expected vault from_block = record {
    check = find_owner token nft_id expected get_block_number vault from_block;
    interval = none;
    attempts = none;
    tolerate_errors = false;
  }

  abbrev pub relay_message : ℕ → String
  relay_message nft_id = "Waiting for CC " <> symbol <> " mint relay #" <> show nft_id

  -- The wait hands on a found owner; `owner` is still empty otherwise.
  abbrev pub owner_text : Option String → Exec (World X) String
  owner_text none w = (ok "", w)
  owner_text (some owner) w = (ok owner, w)

  abbrev pub await_owner : HubToken X → (nft_id expected tip : ℕ) → String → Exec (World X) String
  await_owner token nft_id expected tip vault w =
      and_then
        (eventually host workers is_found found_json (relay_message nft_id)
          (owner_poll token nft_id expected (lower vault) (tip - lookback)) w)
        owner_text

  abbrev pub with_tip : HubToken X → (nft_id expected tip : ℕ) → Exec (World X) String
  with_tip token nft_id expected tip v =
      and_then (token.vault_address v) (await_owner token nft_id expected tip)

  abbrev pub with_token : (nft_id expected : ℕ) → HubToken X → Exec (World X) String
  with_token nft_id expected token v =
      and_then (get_block_number v) (with_tip token nft_id expected)

  unfoldable pub wait_for_pnh_mint_relay : (nft_id expected : ℕ) → Exec (World X) String
  wait_for_pnh_mint_relay nft_id expected w = and_then (get_token w) (with_token nft_id expected)
