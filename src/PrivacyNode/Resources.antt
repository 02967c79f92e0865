-- ===== src/PrivacyNode/Resources.antt =====
-- `setContractByResourceId` of src/entities/PrivacyNode.ts and of src/entities/PrivateHub.ts: the wait
-- until the endpoint knows a resource, whose contract is then connected and stored. The node's store
-- is a part of the outside.
use rayls_sovereign_tests_au.Shared.{
  ℕ, String, some, none, Bool, true, false, ◌≡◌, if◌then◌else◌, Bool-cases, inl, inr, subst, ap,
}
use rayls_sovereign_tests_au.Shared.Text.{◌<>◌, short_hex}
use rayls_sovereign_tests_au.Js.{Result, ok, Exec, and_then, and_then-ok}
use rayls_sovereign_tests_au.Logging.{Host, World}
use rayls_sovereign_tests_au.Polling.{PollOptions, eventually}
use rayls_sovereign_tests_au.Polling.Loads.{Reached, eventually-Checked}
use rayls_sovereign_tests_au.Tokens.{is_true, bool_json}
use rayls_sovereign_tests_au.Contracts.{Contract, Cache, connect_at, get}
use rayls_sovereign_tests_au.PrivacyNode.{zero_address, get_contract_at}
use text.Mathlib.Text.{◌==◌ as str_eq}

-- Where the store of the node stands in the outside.
pub record StorePlace (X : Type 0) : Type 0 where
  pub cache_of : X → Cache
  pub put_cache : Cache → X → X

abbrev pub zero_hash : String
zero_hash = "0x0000000000000000000000000000000000000000000000000000000000000000"

module _ {X : Type 0} (place : StorePlace X) where
  abbrev pub put_back : {A : Type 0} → Result A × (Cache × World X) → Result A × World X
  put_back (r, (cache, w)) = (r, record w { outside = place.put_cache cache w.outside })

  -- Code on the store and the world, run in the world.
  abbrev pub in_store : {A : Type 0} → Exec (Cache × World X) A → Exec (World X) A
  in_store m w = put_back (m (place.cache_of w.outside, w))

  abbrev pub connected_true : Result Contract × World X → Result Bool × World X
  connected_true r = and_then r (λ c w. (ok true, w))

  module _ (connect : String → String → ℕ → Exec (World X) Contract)
      (get_address_by_resource_id : (resource_id : String) → Exec (World X) String) where
    abbrev pub connect_unless_zero :
        (factory_name key : String) (signer : ℕ) (address : String) → Exec (World X) Bool
    connect_unless_zero factory_name key signer address w =
        if str_eq address zero_address
        then (ok false, w)
        else connected_true (in_store (connect_at connect factory_name address key signer) w)

    unfoldable pub node_check :
        (factory_name resource_id key : String) (signer : ℕ) → Exec (World X) Bool
    node_check factory_name resource_id key signer w =
        and_then (get_address_by_resource_id resource_id w)
          (connect_unless_zero factory_name key signer)

    unfoldable pub node_poll :
        (factory_name resource_id key : String) (signer : ℕ) → PollOptions (World X) Bool
    unfolding node_check
    node_poll factory_name resource_id key signer = record {
      check = node_check factory_name resource_id key signer;
      interval = some 1000;
      attempts = some 300;
      tolerate_errors = false;
    }

    abbrev pub node_message : (factory_name resource_id chain_id : String) → String
    node_message factory_name resource_id chain_id =
        "Resolving rid="
        <> short_hex resource_id
        <> " (factory="
        <> factory_name
        <> ", chain="
        <> chain_id
        <> ")"

    -- The contract that the store gives under the key.
    abbrev pub stored_at : (key : String) → Exec (World X) Contract
    stored_at key w = (get key (place.cache_of w.outside), w)

    unfoldable pub set_contract_by_resource_id :
        Host X
        → (workers : ℕ) (chain_id factory_name resource_id key : String) (signer : ℕ)
        → Exec (World X) Contract
    unfolding node_poll
    set_contract_by_resource_id host workers chain_id factory_name resource_id key signer w =
        and_then
          (eventually host workers is_true bool_json
            (node_message factory_name resource_id chain_id)
            (node_poll factory_name resource_id key signer) w)
          (λ connected. stored_at key)

    -- The hub connects whatever address it is given, as the user's wallet under the plain key.
    unfoldable pub hub_check :
        (factory_name resource_id key : String) (user_wallet : ℕ) → Exec (World X) Bool
    unfolding get_contract_at
    hub_check factory_name resource_id key user_wallet w =
        if str_eq resource_id zero_hash
        then (ok false, w)
        else and_then (get_address_by_resource_id resource_id w) (λ address v. connected_true (
            in_store (get_contract_at connect user_wallet factory_name address (key <> "PNH") none)
              v))

    unfoldable pub hub_poll :
        (factory_name resource_id key : String) (user_wallet : ℕ) → PollOptions (World X) Bool
    unfolding hub_check
    hub_poll factory_name resource_id key user_wallet = record {
      check = hub_check factory_name resource_id key user_wallet;
      interval = none;
      attempts = none;
      tolerate_errors = false;
    }

    unfoldable pub hub_set_contract_by_resource_id :
        Host X
        → (workers : ℕ) (factory_name resource_id key : String) (user_wallet : ℕ)
        → Exec (World X) Contract
    unfolding hub_poll
    hub_set_contract_by_resource_id host workers factory_name resource_id key user_wallet w =
        and_then
          (eventually host workers is_true bool_json
            ("Resolving token rid=" <> short_hex resource_id <> " via Endpoint on PNH")
            (hub_poll factory_name resource_id key user_wallet) w)
          (λ connected. stored_at (key <> "PNH"))

    unless_zero-true :
        (factory_name key : String) (signer : ℕ) (address : String) (b : Bool) (v u : World X)
        → connect_unless_zero factory_name key signer address v ≡ (ok b, u)
        → is_true b ≡ true
        → (str_eq address zero_address ≡ false)
          × (c : Contract) × (z : World X) × (in_store
                (connect_at connect factory_name address key signer)
                v
              ≡ (ok c, z))
    unless_zero-true factory_name key signer address b v u h holds =
        elim (Bool-cases (str_eq address zero_address)) [
          | inl at_zero ↦
              (let h' : ◌≡◌ {A = Result Bool × World X} (ok false, v) (ok b, u) = rw at_zero at h in
                let same : false ≡ b = same_value false b v u h' in absurd (not_ready b same holds))
          | inr there ↦
              (let h' : connected_true
                      (in_store (connect_at connect factory_name address key signer) v)
                    ≡ (ok b, u) =
                  rw there at h in
                let (c, z, e, rest) =
                  and_then-ok (in_store (connect_at connect factory_name address key signer) v)
                    (λ c w. (ok true, w)) b u h' in
                (there, c, z, e))
        ]
      where
        same_value :
            (a b : Bool) (s t : World X)
            → ◌≡◌ {A = Result Bool × World X} (ok a, s) (ok b, t)
            → a ≡ b
        same_value a b s t h = cc

        not_ready : (b : Bool) → false ≡ b → is_true b ≡ true → ⊥
        not_ready false e h = absurd (cc)
        not_ready true e h = absurd (cc)

    -- A contract that `setContractByResourceId` of a privacy node returns is the one that the store has
    -- under the key; and in a state that its wait reached, the endpoint gave an address for the resource
    -- other than the zero address, and connecting the contract there returned.
    pub set_contract_by_resource_id-connected :
        (host : Host X) (workers : ℕ) (chain_id factory_name resource_id key : String) (signer : ℕ)
        (w t : World X) (c : Contract)
        → set_contract_by_resource_id host workers chain_id factory_name resource_id key signer w
          ≡ (ok c, t)
        → (get key (place.cache_of t.outside) ≡ ok c)
          × (z v u : World X) × (address : String) × (d : Contract) × Reached host workers is_true
              (node_message factory_name resource_id chain_id)
              (node_poll factory_name resource_id key signer)
              w
              z
          × (get_address_by_resource_id resource_id z ≡ (ok address, v))
          × (str_eq address zero_address ≡ false)
          × (in_store (connect_at connect factory_name address key signer) v ≡ (ok d, u))
    unfolding set_contract_by_resource_id node_poll node_check
    set_contract_by_resource_id-connected host workers chain_id factory_name resource_id key signer
          w t c h =
        let (b, s, waited, got) =
          and_then-ok
            (eventually host workers is_true bool_json
              (node_message factory_name resource_id chain_id)
              (node_poll factory_name resource_id key signer) w)
            (λ connected. stored_at key) c t h in
        let (z, y, checked, holds, at) =
          eventually-Checked host workers is_true bool_json
            (node_message factory_name resource_id chain_id)
            (node_poll factory_name resource_id key signer) w s b waited in
        let (address, v, asked, rest) =
          and_then-ok (get_address_by_resource_id resource_id z)
            (connect_unless_zero factory_name key signer) b y checked in
        let (there, d, u, connected) =
          unless_zero-true factory_name key signer address b v y rest holds in
        (stored c s t got, z, v, u, address, d, at, asked, there, connected)
      where
        stored :
            (c : Contract) (s t : World X)
            → stored_at key s ≡ (ok c, t)
            → get key (place.cache_of t.outside) ≡ ok c
        stored c s t e =
            subst (λ (x : World X). get key (place.cache_of x.outside) ≡ ok c)
              (ap (λ (r : Result Contract × World X). r.1) e)
              (ap (λ (r : Result Contract × World X). r.0) e)
