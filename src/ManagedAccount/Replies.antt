-- ===== src/ManagedAccount/Replies.antt =====
-- src/managed-account.ts: the checks of the settings, and those on what an operation awaits, each of
-- them behind the fence `assertCurrent`. They read the controller's variables and change none.
use agentmixer.Prelude.{
  ℕ, String, ◌==◌, Bool, true, false, not, ◌&&◌, ◌||◌, Option, none, some, length, nat_eq,
  if◌then◌else◌,
}
use agentmixer.Prelude.Result.{Result, ok, err, require, ◌>>=◌, ◌>>◌}
use agentmixer.Validation.Data.{Value, undefined, string, array, object, nat, Fields, get, keys}
use agentmixer.Validation.{identifier, provider, safe_integer, max_safe_integer}
use agentmixer.ToolBroker.Paths.{Url}
use agentmixer.ManagedAccount.Data.{
  AccountState, signed_out, signing_in, Binding, Method, Challenge, Response, Usage, Settings,
}
use agentmixer.ManagedAccount.Parsing.{record_of, projected_state, optional_text}
use agentmixer.ManagedAccount.Usages.{parse_usage}
use agentmixer.ManagedAccount.Challenges.{parse_challenge}
use agentmixer.ManagedAccount.Controls.{Operation, Account, is_bound}

-- a setting that may be left out
abbrev or_default : Value → ℕ → Value
or_default undefined n = nat n
or_default v n = v

-- the checks of `createManagedAccountController`
unfoldable pub check_settings :
    (provider_value account owner process_generation : Value)
    → (operation_timeout close_timeout : Value) (has_semantics : Bool) → Result Settings
check_settings provider_value account owner process_generation operation_timeout close_timeout
      has_semantics =
    do
      p ← provider provider_value
      account_id ← identifier account
      o ← identifier owner
      generation ← safe_integer process_generation 1 max_safe_integer
      operations ← safe_integer (or_default operation_timeout 40_000) 1 120_000
      closes ← safe_integer (or_default close_timeout 10_000) 1 120_000
      require has_semantics "MANAGED_ACCOUNT_SEMANTICS_INVALID"
      ok (record {
        provider = p;
        account_id = account_id;
        owner = o;
        process_generation = generation;
        operation_timeout = operations;
        close_timeout = closes;
      })

-- the test of `assertCurrent`
abbrev pub is_current : Operation → Account → Bool
is_current op a =
    not a.closing
    && not op.aborted
    && nat_eq op.generation a.generation
    && is_bound op.binding a.binding

-- `assertCurrent`
abbrev pub assert_current : Operation → Account → Result (Unit {0})
assert_current op a = require (is_current op a) "MANAGED_ACCOUNT_STALE"

abbrev pub matches_request : Operation → Response → Bool
matches_request op r = is_bound r.binding op.binding && nat_eq r.account_generation op.generation

abbrev answered : Operation → Option Response → Result Value
answered op none = err "MANAGED_ACCOUNT_STALE"
answered op (some r) = if matches_request op r then ok r.value else err "MANAGED_ACCOUNT_STALE"

-- `response`
unfoldable pub response : Operation → Account → Option Response → Result Value
response op a r = do assert_current op a; answered op r

-- `record(response(…))`
unfoldable pub response_fields : Operation → Account → Option Response → Result Fields
unfolding response record_of
response_fields op a r = do value ← response op a r; record_of value

-- what a projection publishes
pub record Projection : Type 0 where
  pub state : AccountState
  pub plan_label : Option String
  pub detail : Option String

-- A sign-in is in progress only while a login is pending.
abbrev pub settled_state : AccountState → Option String → AccountState
settled_state signing_in none = signed_out
settled_state state pending = state

-- `status` of a cancellation
abbrev pub cancel_status : Value → Result String
cancel_status (string s) =
    if s == "canceled" || s == "notFound" then ok s else err "INVALID_LOGIN_CANCEL"
cancel_status _ = err "INVALID_LOGIN_CANCEL"

-- the status of the response to a cancellation
unfoldable pub cancel_reply : Operation → Account → Option Response → Result String
unfolding response_fields
cancel_reply op a r = do fields ← response_fields op a r; cancel_status (get fields "status")

-- the response to a logout, which has no key
unfoldable pub logout_reply : Operation → Account → Option Response → Result (Unit {0})
unfolding response_fields
logout_reply op a r = do
  fields ← response_fields op a r
  require (nat_eq (length (keys fields)) 0) "INVALID_LOGOUT_RESULT"

-- the reply of the usage reader: its binding, and the whole of it
pub record UsageReply : Type 0 where
  pub binding : Option Binding
  pub value : Value

abbrev is_object : Value → Bool
is_object (object proto fields) = true
is_object (array proto items) = true
is_object _ = false

abbrev usage_of : (is_control : ℕ → Bool) → Option Binding → Fields → ℕ → Result Usage
usage_of is_control none raw deadline = err "MANAGED_USAGE_STALE"
usage_of is_control (some binding) raw deadline = parse_usage is_control raw binding deadline

module _ (is_control : ℕ → Bool) where
  -- the projection of an account, parsed
  unfoldable pub projection_of : Operation → Account → Value → Result Projection
  unfolding record_of projected_state
  projection_of op a value = do
    fields ← record_of value
    assert_current op a
    state ← projected_state (get fields "state")
    plan_label ← optional_text is_control (get fields "planLabel") 128
    detail ← optional_text is_control (get fields "detail") 256
    ok (record {
      state = settled_state state a.pending_login;
      plan_label = plan_label;
      detail = detail;
    })

  unfoldable pub usage_reply_of : Operation → Account → UsageReply → Result Usage
  unfolding parse_usage record_of
  usage_reply_of op a r = do
    assert_current op a
    require (is_object r.value && is_bound r.binding op.binding) "MANAGED_USAGE_STALE"
    raw ← record_of r.value
    usage_of is_control op.binding raw op.deadline

  -- the challenge of a login
  unfoldable pub login_reply :
      (parse_url : String → Option Url)
      → Method
      → Operation
      → Account
      → Option Response
      → Result Challenge
  unfolding response parse_challenge
  login_reply parse_url method op a r = do
    value ← response op a r
    parse_challenge is_control parse_url value method
