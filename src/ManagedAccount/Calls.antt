-- ===== src/ManagedAccount/Calls.antt =====
-- src/managed-account.ts: the calls of the controller's operations, up to where `run` awaits the
-- task: the guards, the lease, the transport.
use agentmixer.Prelude.{
  ℕ, ◌+◌, String, Bool, true, false, not, ◌||◌, none, some, is_text, is_some, if◌then◌else◌,
}
use agentmixer.Prelude.Result.{Result, ok, err}
use agentmixer.Prelude.Exec.{Exec, ◌>>=◌, ◌>>◌, pure, throw, lift, assert, modify, get_state}
use agentmixer.Validation.Data.{Value, string, nat}
use agentmixer.Validation.Laws.{provider_name}
use agentmixer.Accounts.Rows.{Table, Lease}
use agentmixer.Accounts.{AcquireInput, acquire}
use agentmixer.ManagedAccount.Data.{unchecked, recovery_required, Binding, Settings}
use agentmixer.ManagedAccount.Parsing.{clean_text, method_of}
use agentmixer.ManagedAccount.Controls.{
  Kind, check, logout, read_usage, start_login, cancel_login, queued, Operation, Account, publish,
  invalidate, is_recovery, is_closed, thrown_message, mark_unavailable,
}

-- what the clock and the factory of the transport do when an operation is started
pub record Opening : Type 0 where
  pub acquired_at : Value
  pub started_at : ℕ
  pub factory_works : Bool

abbrev pub lease_input : Settings → Value → AcquireInput
lease_input settings now = record {
  provider = string (provider_name settings.provider);
  account_id = string settings.account_id;
  owner = string settings.owner;
  now = now;
  ttl_ms = nat 120_000;
}

abbrev pub binding_of : Settings → Lease → Binding
binding_of settings lease = record {
  provider = settings.provider;
  account_id = settings.account_id;
  owner = settings.owner;
  lease_generation = lease.generation;
  process_generation = settings.process_generation;
}

-- a call of the lease store
abbrev pub on_leases : {A : Type 0} → Exec Table A → Exec Account A
on_leases m a = let (result, rows) = m a.leases in (result, record a { leases = rows })

abbrev pub make_transport : (works : Bool) → Exec Account (Unit {0})
make_transport true = modify (λ a. record a { has_transport = true })
make_transport false = do
  modify (publish recovery_required none (some "MANAGED_ACCOUNT_FACTORY_FAILED"))
  throw "MANAGED_ACCOUNT_FACTORY_FAILED"

unfoldable pub open_transport : Settings → Opening → Exec Account (Unit {0})
open_transport settings opening = do
  lease ← on_leases (acquire (lease_input settings opening.acquired_at))
  modify (λ a. record a { lease = some lease; binding = some (binding_of settings lease) })
  make_transport opening.factory_works

-- `ensureTransport`
unfoldable pub ensure_transport : Settings → Opening → Exec Account (Unit {0})
unfolding open_transport
ensure_transport settings opening = do
  a ← get_state
  if a.has_transport
      then pure tt
      else if is_some a.lease
      then throw "MANAGED_ACCOUNT_RECOVERY_REQUIRED"
      else open_transport settings opening

abbrev operation_of : Settings → Kind → Opening → Account → Operation
operation_of settings kind opening a = record {
  kind = kind;
  stage = queued;
  binding = a.binding;
  generation = a.generation;
  deadline = opening.started_at + settings.operation_timeout;
  aborted = false;
  awaited = true;
}

-- the `try` of `run`, where no task is made if the transport fails
abbrev pub opened :
    Settings
    → Kind
    → Opening
    → (generation : ℕ) → Result (Unit {0}) × Account
    → Result (Unit {0}) × Account
opened settings kind opening generation (ok u, a) =
    (ok u, record a { operation = some (operation_of settings kind opening a) })
opened settings kind opening generation (err message, a) =
    (err (thrown_message message), mark_unavailable message generation a)

abbrev pub make_task : Settings → Kind → Opening → Exec Account (Unit {0})
make_task settings kind opening a =
    opened settings kind opening a.generation (ensure_transport settings opening a)

-- `run`, up to the await
unfoldable pub run_operation :
    Settings → Kind → Opening → (aborted : Bool) → Exec Account (Unit {0})
unfolding ensure_transport
run_operation settings kind opening aborted = do
  a ← get_state
  assert (not (a.closing || is_closed a.snapshot.state || is_recovery a.snapshot.state))
      "MANAGED_ACCOUNT_UNAVAILABLE"
  assert (not aborted) "MANAGED_ACCOUNT_ABORTED"
  assert (not (is_some a.operation || a.login_dispatch)) "MANAGED_ACCOUNT_BUSY"
  modify (invalidate unchecked none)
  make_task settings kind opening

-- what the caller asks for
pub data Request : Type 0 where
  ask_check ask_logout : Request
  ask_usage : (has_reader : Bool) → Request
  ask_login : (method : Value) → Request
  ask_cancel : (login_id : Value) → Request

-- an error of a text that is no login's
abbrev pub clean_login_id : (is_control : ℕ → Bool) → Value → Result String
clean_login_id is_control value = elim (clean_text is_control value 160) [
  | ok id ↦ ok id
  | err e ↦ err "INVALID_LOGIN_ID"
]

-- the calls of the controller, up to the await; the usage of a provider with no reader is null
unfoldable pub start :
    (is_control : ℕ → Bool)
    → Settings
    → Request
    → Opening
    → (aborted : Bool) → Exec Account (Unit {0})
unfolding run_operation
start is_control settings ask_check opening aborted = run_operation settings check opening aborted
start is_control settings ask_logout opening aborted = run_operation settings logout opening aborted
start is_control settings (ask_usage true) opening aborted =
    run_operation settings read_usage opening aborted
start is_control settings (ask_usage false) opening aborted = pure tt
start is_control settings (ask_login value) opening aborted = do
  method ← lift (method_of is_control settings value)
  a ← get_state
  assert (not (is_some a.pending_login)) "MANAGED_LOGIN_PENDING"
  run_operation settings (start_login method) opening aborted
start is_control settings (ask_cancel value) opening aborted = do
  id ← lift (clean_login_id is_control value)
  a ← get_state
  assert (is_text a.pending_login id) "MANAGED_LOGIN_STALE"
  run_operation settings (cancel_login id) opening aborted
