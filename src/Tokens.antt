-- ===== src/Tokens.antt =====
-- src/entities/tokens/BaseTokenWrapper.ts: the operations of a token's wrapper that every standard
-- shares. The token's contract and the registry of its privacy node are parameters. The methods that
-- only connect contracts, and `verifyPublicBalance`, are left out.
pub mod Erc721
pub mod Laws
pub mod Reads
pub mod Relay
pub mod Erc1155
pub mod Enygma
pub mod Factory
use rayls_sovereign_tests_au.Shared.{
  ℕ, String, Option, none, some, Bool, true, false, not, ◌&&◌, ◌==◌, leb, if◌then◌else◌,
}
use rayls_sovereign_tests_au.Shared.Text.{◌<>◌, show, short_hex}
use rayls_sovereign_tests_au.Js.{error, ok, err, Exec, and_then}
use rayls_sovereign_tests_au.Logging.{Host, World, log}
use rayls_sovereign_tests_au.Polling.{PollOptions, eventually}
use rayls_sovereign_tests_au.Transactions.{Receipt, Response, submit_tx}
use text.Mathlib.Text.{◌==◌ as str_eq}

abbrev pub zero_address : String
zero_address = "0x0000000000000000000000000000000000000000"

abbrev pub zero_hash : String
zero_hash = "0x0000000000000000000000000000000000000000000000000000000000000000"

-- The registry of a privacy node (PNTokenRegistryV1) as the wrapper calls it; `X` holds the chains.
pub record Registry (X : Type 0) : Type 0 where
  pub register_token : String → Exec (World X) (Response X)
  pub update_privacy_node_status : String → ℕ → Exec (World X) (Response X)
  pub submit_to_hub : String → Exec (World X) (Response X)
  pub submit_to_public_chain : String → Exec (World X) (Response X)
  pub get_public_chain_status : String → Exec (World X) ℕ
  pub public_token_address : String → Exec (World X) String
  pub token_exists : String → Exec (World X) Bool

-- A call that gives access to the registry may itself fail.
abbrev pub RegistryOf : Type 0 → Type 0
RegistryOf X = Exec (World X) (Registry X)

-- The hub as the activation uses it: the resource id of the token of a symbol, and its approval.
pub record Hub (X : Type 0) : Type 0 where
  pub get_token_from_registry : String → Exec (World X) (Option String)
  pub update_token_status : String → Exec (World X) (Unit {0})

abbrev pub is_true : Bool → Bool
is_true b = b

abbrev pub bool_json : Bool → String
bool_json true = "true"
bool_json false = "false"

-- The truth of an optional text: neither `undefined` nor empty.
abbrev pub has_text : Option String → Bool
has_text none = false
has_text (some s) = not (str_eq s "")

-- `pub && pub !== ZERO_ADDRESS ? pub : undefined`.
abbrev pub deployed_address : String → Option String
deployed_address s = if not (str_eq s "") && not (str_eq s zero_address) then some s else none

abbrev pub text_of : {X : Type 0} → Option String → Exec (World X) String
text_of none w = (ok "", w)
text_of (some s) w = (ok s, w)

module _ {X : Type 0} where
  -- One look at the registry for the public address.
  unfoldable pub probe_public_address : Registry X → String → Exec (World X) (Option String)
  probe_public_address registry addr w =
      and_then (registry.get_public_chain_status addr w) (λ status v.
        if not (status == 2)
        then (ok none, v)
        else and_then (registry.public_token_address addr v) (λ s u. (ok (deployed_address s), u)))

  abbrev pub public_address_poll : Registry X → String → PollOptions (World X) (Option String)
  public_address_poll registry addr = record {
    check = probe_public_address registry addr;
    interval = some 3000;
    attempts = some 40;
    tolerate_errors = true;
  }

module _ {X : Type 0} (host : Host X) (workers : ℕ) (symbol addr : String) where
  -- Registers the token and authorizes it on the node.
  unfoldable pub activate_on_pn : RegistryOf X → Exec (World X) (Unit {0})
  activate_on_pn get_registry w = and_then (get_registry w) (λ registry v.
      and_then
        (submit_tx host (registry.register_token addr)
          ("Registering " <> symbol <> " on PN registry (" <> short_hex addr <> ")...") v)
        (λ registered u.
          and_then
            (submit_tx host (registry.update_privacy_node_status addr 2)
              ("Approving " <> symbol <> " on PN → AUTHORIZED...") u)
            (λ approved t. (ok tt, t))))

  -- No transaction is sent for a token that is on its way to the public chain, or there.
  abbrev pub submit_unless : Registry X → Bool → Exec (World X) (Unit {0})
  submit_unless registry true w = (ok tt, w)
  submit_unless registry false w =
      and_then
        (submit_tx host (registry.submit_to_public_chain addr)
          ("Submitting " <> symbol <> " to public chain (" <> short_hex addr <> ")...") w)
        (λ receipt v. (ok tt, v))

  unfoldable pub submit_to_public_chain : RegistryOf X → Exec (World X) (Unit {0})
  submit_to_public_chain get_registry w = and_then (get_registry w) (λ registry v.
      and_then (registry.get_public_chain_status addr v)
        (λ status. submit_unless registry (leb 1 status)))

  unfoldable pub get_public_address :
      RegistryOf X → (Option String → String) → Exec (World X) String
  get_public_address get_registry json w = and_then (get_registry w) (λ registry v.
      and_then
        (eventually host workers has_text json
          ("Waiting for " <> symbol <> " public token DEPLOYED (" <> short_hex addr <> ")")
          (public_address_poll registry addr) v)
        text_of)

  -- `can_call` asks the public endpoint's access manager about the token at an address.
  unfoldable pub wait_for_public_token_authorized :
      (can_call : String → Exec (World X) Bool) → String → Exec (World X) (Unit {0})
  wait_for_public_token_authorized can_call token_addr w =
      and_then
        (eventually host workers is_true bool_json
          ("Waiting for public token "
            <> short_hex token_addr
            <> " to become AUTHORIZED_SENDER on the public endpoint")
          (record {
            check = can_call token_addr;
            interval = some 2000;
            attempts = some 45;
            tolerate_errors = true;
          })
          w)
        (λ allowed v. (ok tt, v))

  unfoldable pub activate_on_public_chain :
      RegistryOf X
      → (Option String → String)
      → (can_call : String → Exec (World X) Bool) → Exec (World X) String
  activate_on_public_chain get_registry json can_call w =
      and_then (submit_to_public_chain get_registry w) (λ done v.
        and_then (get_public_address get_registry json v) (λ public_address u.
          and_then (wait_for_public_token_authorized can_call public_address u)
            (λ allowed t. (ok public_address, t))))

  -- The hub gives the token its resource id, which the wrapper takes over.
  abbrev pub on_registry : Option String → Exec (World X) String
  on_registry none w =
      (err (error ("Hub activation: " <> symbol <> " not on PNH registry after submitToHub")), w)
  on_registry (some resource_id) w = (ok resource_id, w)

  abbrev pub resource_poll : Exec (World X) String → PollOptions (World X) Bool
  resource_poll resource_id_of = record {
    check = λ w. and_then (resource_id_of w) (λ id v. (ok (not (str_eq id zero_hash)), v));
    interval = none;
    attempts = none;
    tolerate_errors = true;
  }

  abbrev pub hub_message : String
  hub_message =
      "Waiting for " <> symbol <> " hub activation (resourceId on PN, " <> short_hex addr <> ")"

  abbrev pub await_resource :
      (resource_id_of : Exec (World X) String)
      → (resource_id : String) → Unit {0}
      → Exec (World X) String
  await_resource resource_id_of resource_id approved w =
      and_then
        (eventually host workers is_true bool_json hub_message (resource_poll resource_id_of) w)
        (λ active t. (ok resource_id, t))

  abbrev pub approve_listed :
      Hub X
      → (resource_id_of : Exec (World X) String) → (resource_id : String) → Exec (World X) String
  approve_listed hub resource_id_of resource_id w =
      and_then (hub.update_token_status resource_id w) (await_resource resource_id_of resource_id)

  abbrev pub take_listed :
      Hub X → (resource_id_of : Exec (World X) String) → Option String → Exec (World X) String
  take_listed hub resource_id_of listed w =
      and_then (on_registry listed w) (approve_listed hub resource_id_of)

  abbrev pub look_up_listed :
      Hub X → (resource_id_of : Exec (World X) String) → Receipt → Exec (World X) String
  look_up_listed hub resource_id_of receipt w =
      and_then (hub.get_token_from_registry symbol w) (take_listed hub resource_id_of)

  abbrev pub submit_listed :
      Hub X → (resource_id_of : Exec (World X) String) → Registry X → Exec (World X) String
  submit_listed hub resource_id_of registry w =
      and_then
        (submit_tx host (registry.submit_to_hub addr)
          ("Submitting " <> symbol <> " to hub (" <> short_hex addr <> ")...") w)
        (look_up_listed hub resource_id_of)

  -- Returns the resource id that the wrapper holds from here on.
  unfoldable pub activate_on_hub :
      RegistryOf X → Hub X → (resource_id_of : Exec (World X) String) → Exec (World X) String
  activate_on_hub get_registry hub resource_id_of w =
      and_then (get_registry w) (submit_listed hub resource_id_of)

  unfoldable pub verify_token_exists_in_governance :
      RegistryOf X → (chain_id token_address : String) → Exec (World X) (Unit {0})
  verify_token_exists_in_governance get_registry chain_id token_address w =
      and_then (get_registry w) (λ registry v.
        and_then
          (eventually host workers is_true bool_json
            ("Waiting for token "
              <> short_hex token_address
              <> " registered on PN registry (chain="
              <> chain_id
              <> ")")
            (record {
              check = registry.token_exists token_address;
              interval = some 15000;
              attempts = some 2000;
              tolerate_errors = false;
            })
            v)
          (λ found u. (ok tt, log ("[DEBUG] Token exists on PN registry: " <> bool_json found) u)))
