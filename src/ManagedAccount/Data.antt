-- ===== src/ManagedAccount/Data.antt =====
-- src/managed-account.ts: the types of the controller. A provider's payload is a value of unknown
-- type.
use agentmixer.Prelude.{ℕ, String, Bool, ◌&&◌, Option, none, some, List, ◌==◌, nat_eq, false}
use agentmixer.Validation.Data.{Value, Number, Provider, provider_eq}

-- `ManagedAccountState`
pub data AccountState : Type 0 where
  unchecked signed_out signing_in signed_in unavailable recovery_required closed : AccountState

-- `ManagedAccountBinding`, and `BrowserSessionBinding`, which has the same fields
pub record Binding : Type 0 where
  pub provider : Provider
  pub account_id : String
  pub owner : String
  pub lease_generation : ℕ
  pub process_generation : ℕ

-- `sameBinding` of two bindings
abbrev pub binding_eq : Binding → Binding → Bool
binding_eq a b =
    provider_eq a.provider b.provider
    && a.account_id == b.account_id
    && a.owner == b.owner
    && nat_eq a.lease_generation b.lease_generation
    && nat_eq a.process_generation b.process_generation

-- `sameBinding` where the first may be undefined, or anything that is no binding
abbrev pub same_binding : Option Binding → Binding → Bool
same_binding none b = false
same_binding (some a) b = binding_eq a b

-- `ManagedAccountLoginMethod`
pub data Method : Type 0 where
  provider_native : (method : String) → Method
  browser_session : Binding → Method

-- `ManagedAccountLoginChallenge`
pub data Challenge : Type 0 where
  native_challenge : (method login_id : String) (fields : List (String × String)) → Challenge
  browser_challenge : (login_id : String) (session : Binding) (navigation_url : String) → Challenge

abbrev pub login_id_of : Challenge → String
login_id_of (native_challenge method login_id fields) = login_id
login_id_of (browser_challenge login_id session navigation_url) = login_id

-- `ManagedAccountSnapshot`; the provider, the account and the process are the controller's
pub record Snapshot : Type 0 where
  pub state : AccountState
  pub account_generation : ℕ
  pub pending_login_id : Option String
  pub plan_label : Option String
  pub detail : Option String

-- `ManagedAccountResponse`
pub record Response : Type 0 where
  pub binding : Option Binding
  pub account_generation : ℕ
  pub value : Value

-- `ManagedAccountEvent`
pub data Event : Type 0 where
  account_updated disconnected : Option Binding → Event
  login_completed : Option Binding → (login_id : Option String) (success : Option Bool) → Event

abbrev pub event_binding : Event → Option Binding
event_binding (account_updated b) = b
event_binding (disconnected b) = b
event_binding (login_completed b login_id success) = b

-- `ManagedAccountCloseReceipt`
pub record Receipt : Type 0 where
  pub binding : Option Binding
  pub process_exited : Bool
  pub process_group_stopped : Bool
  pub stdout_ended : Bool
  pub stderr_ended : Bool
  pub writes_settled : Bool
  pub requests_settled : Bool
  pub notifications_settled : Bool

-- `ManagedAccountUsageWindow`
pub record UsageWindow : Type 0 where
  pub label : String
  pub used_percent : Option Number
  pub resets_at : Option ℕ

-- `ManagedAccountUsage`
pub record Usage : Type 0 where
  pub binding : Binding
  pub observed_at : ℕ
  pub plan_label : Option String
  pub windows : List UsageWindow
  pub raw_sha256 : String

-- what the controller is made with, once it is checked
pub record Settings : Type 0 where
  pub provider : Provider
  pub account_id : String
  pub owner : String
  pub process_generation : ℕ
  pub operation_timeout : ℕ
  pub close_timeout : ℕ
