-- ===== src/Faults.antt =====
-- src/utils/fault-injector.ts: the client of the relayer's fault-injection API. Its children hold the
-- table of services, the injector and the session.
-- The HTTP library is a parameter. It throws on a failed request and on any status but 2xx.
pub mod Services
pub mod Points
pub mod PointsLaws
pub mod Injector
pub mod Session
pub mod Laws
pub mod Liveness
use rayls_sovereign_tests_au.Shared.{ℕ, String, Option, none, some, List, [], Bool}
use rayls_sovereign_tests_au.Shared.Text.{show}
use rayls_sovereign_tests_au.Js.{JsError, Result}

pub data FaultAction : Type 0 where
  crash : FaultAction
  sleep : FaultAction
  panic : FaultAction
  fail : FaultAction

pub record FaultRule : Type 0 where
  pub point : String
  pub action : FaultAction
  pub duration_ms : Option ℕ
  pub message : Option String
  pub error_code : Option String
  pub one_shot : Option Bool
  pub max_count : Option ℕ
  pub triggered : Option ℕ

pub record TriggerEvent : Type 0 where
  pub point : String
  pub action : FaultAction
  pub code : Option String
  pub message : Option String
  pub timestamp : String

-- The log of a snapshot may be missing.
pub record SessionSnapshot : Type 0 where
  pub id : String
  pub created_at : String
  pub last_activity : String
  pub rules : List (String × FaultRule)
  pub log : Option (List TriggerEvent)

pub record SessionSummary : Type 0 where
  pub id : String
  pub created_at : String
  pub last_activity : String
  pub rule_count : ℕ
  pub log_count : ℕ

pub record SessionsListing : Type 0 where
  pub enabled : Bool
  pub sessions : List SessionSummary

pub data Method : Type 0 where
  get : Method
  post : Method
  delete : Method

-- A reply, with its body in each of the shapes that the client reads it in, and its text.
pub record Reply : Type 0 where
  pub status : ℕ
  pub session_id : Option String
  pub snapshot : SessionSnapshot
  pub listing : SessionsListing
  pub body_text : String

pub record Http (X : Type 0) : Type 0 where
  pub send : Method → String → Option FaultRule → (timeout_ms : ℕ) → X → Result Reply × X

abbrev pub control_plane_timeout_ms : ℕ
control_plane_timeout_ms = 5000

-- `err.response?.status ?? 'N/A'`.
abbrev status_or_na : Option ℕ → String
status_or_na none = "N/A"
status_or_na (some n) = show n

abbrev pub status_text : JsError → String
status_text e = status_or_na e.response_status

abbrev text_or_undefined : Option String → String
text_or_undefined none = "undefined"
text_or_undefined (some s) = s

abbrev text_or : Option String → Option String → String
text_or (some s) m = s
text_or none m = text_or_undefined m

-- `err.response?.data ?? err.message`.
abbrev pub body_or_message : JsError → String
body_or_message e = text_or e.response_data e.message
