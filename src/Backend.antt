-- ===== src/Backend.antt =====
-- src/api: the backend controllers as the flows use them, with the data that the backend returns.
-- The HTTP requests behind a controller's methods are parameters; what the controllers compute from
-- the replies (the poll for a token's status) is modelled.
pub mod Onboarding
pub mod OnboardingLaws
pub mod TokenRegistry
pub mod TokenRegistryLaws
use rayls_sovereign_tests_au.Shared.{
  ℕ, String, Option, none, some, List, [], ◌∷◌, Bool, true, false, ◌&&◌, ltb, leb, if◌then◌else◌,
  ◌<◌, length, ◌+◌, ◌-◌, take, drop,
}
use rayls_sovereign_tests_au.Shared.Text.{codes, to_lower, list_eq, short_hex}
use rayls_sovereign_tests_au.Js.{JsError, Exec, Result, ok, err}
use rayls_sovereign_tests_au.Logging.{World}

-- src/enums/OnboardingStatus.ts.
pub data OnboardingStatus : Type 0 where
  pending : OnboardingStatus
  approved : OnboardingStatus
  rejected : OnboardingStatus

-- src/enums/TokenStatus.ts.
pub data TokenStatus : Type 0 where
  undefined : TokenStatus
  waiting_approval : TokenStatus
  authorized : TokenStatus
  unauthorized : TokenStatus
  frozen : TokenStatus

abbrev pub token_status_number : TokenStatus → ℕ
token_status_number undefined = 0
token_status_number waiting_approval = 1
token_status_number authorized = 2
token_status_number unauthorized = 3
token_status_number frozen = 4

abbrev pub onboarding_status_number : OnboardingStatus → ℕ
onboarding_status_number pending = 0
onboarding_status_number approved = 1
onboarding_status_number rejected = 2

-- src/enums/FreezeLayer.ts and src/enums/SubmitTarget.ts.
pub data FreezeLayer : Type 0 where
  privacy_node : FreezeLayer
  public_chain : FreezeLayer

-- A pair of addresses of a user, with its status where the backend lists it.
pub record AddressPair : Type 0 where
  pub public_chain_address : String
  pub private_chain_address : String
  pub status : ℕ

pub record PendingGroup : Type 0 where
  pub user_id : String
  pub address_pairs : List AddressPair

pub record RegisteredToken : Type 0 where
  pub address : String
  pub status : ℕ

pub record StatusRequest : Type 0 where
  pub public_address : String
  pub private_address : String
  pub status : OnboardingStatus

-- `a.toLowerCase() === b.toLowerCase()`.
abbrev pub same_text : String → String → Bool
same_text a b = list_eq (to_lower (codes a)) (to_lower (codes b))

pub record TeleportRequest : Type 0 where
  pub from_address : String
  pub to_address : String
  pub standard : ℕ
  pub token_id : Option String
  pub amount : Option String

pub record UserController (X : Type 0) : Type 0 where
  pub add_address_pair : Exec (World X) AddressPair
  pub list_my_address_pairs : Exec (World X) (List AddressPair)
  pub list_registry : Exec (World X) (List RegisteredToken)
  pub register_token : String → Exec (World X) RegisteredToken
  pub teleport : String → TeleportRequest → Exec (World X) (Option String)

pub record OperatorController (X : Type 0) : Type 0 where
  pub list_all_pending_address_pairs : Exec (World X) (List PendingGroup)
  pub approve_address_pair : String → StatusRequest → Exec (World X) (Unit {0})
  pub update_token_status : String → TokenStatus → Exec (World X) (Unit {0})
  pub freeze_token : String → FreezeLayer → Exec (World X) (Unit {0})
  pub unfreeze_token : String → FreezeLayer → Exec (World X) (Unit {0})
  pub submit_token : String → Exec (World X) (Unit {0})
