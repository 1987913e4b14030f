-- ===== src/ManagedAccount/Controls.antt =====
-- src/managed-account.ts: the variables of `createManagedAccountController`, what `publish`,
-- `invalidate` and `onEvent` do to them, and how the promise of an operation settles. `now` and the
-- settling of promises are in the operations that use them; the generation is a number without a
-- bound.
use agentmixer.Prelude.{
  ℕ, suc, ◌+◌, String, ◌==◌, Bool, true, false, not, ◌&&◌, ◌||◌, Option, none, some, List, [], ◌∷◌,
  ◌++◌, includes, length, leb, ltb, nat_eq, is_text, is_some, if◌then◌else◌,
}
use Prim.Native.Char.{code}
use agentmixer.Prelude.Result.{Result, ok, err}
use agentmixer.Accounts.Rows.{Table, Lease}
use agentmixer.ManagedAccount.Data.{
  AccountState, unchecked, unavailable, recovery_required, closed, Binding, same_binding, Method,
  Challenge, Snapshot, Event, account_updated, disconnected, login_completed, event_binding, Usage,
}

-- the operations that go through `run`
pub data Kind : Type 0 where
  check logout read_usage : Kind
  start_login : Method → Kind
  cancel_login : (login_id : String) → Kind

-- where the task of an operation is: before its first turn, or at one of its awaits
pub data Stage : Type 0 where
  queued calling reading projecting : Stage

-- `active`, with its task: `aborted` is its signal, `awaited` says that the caller still waits
pub record Operation : Type 0 where
  pub kind : Kind
  pub stage : Stage
  pub binding : Option Binding
  pub generation : ℕ
  pub deadline : ℕ
  pub aborted : Bool
  pub awaited : Bool

-- what an operation answers with
pub data Answer : Type 0 where
  snapshot_answer : Snapshot → Answer
  challenge_answer : Challenge → Answer
  status_answer : (status : String) → Answer
  usage_answer : Usage → Answer

-- a call of the transport or of the usage reader
pub data Call : Type 0 where
  account_read log_out usage_read close_transport : Call
  login_start : Method → Call
  login_cancel : (login_id : String) → Call

-- `closeTask`: none, before its first turn, at its two awaits, and settled with a release
pub data Closing : Type 0 where
  idle scheduled stopping joining released : Closing

pub record Account : Type 0 where
  pub generation : ℕ
  pub pending_login : Option String
  pub snapshot : Snapshot
  pub lease : Option Lease
  pub binding : Option Binding
  pub has_transport : Bool
  pub login_dispatch : Bool
  pub unresolved_login : Bool
  pub early : List (String × Bool)
  pub operation : Option Operation
  pub closing : Bool
  pub close_task : Closing
  pub unsettled_closes : ℕ
  pub leases : Table
  pub calls : List Call
  pub answers : List (Result Answer)

abbrev snapshot_of :
    AccountState → (plan_label detail : Option String) → ℕ → Option String → Snapshot
snapshot_of state plan_label detail generation pending = record {
  state = state;
  account_generation = generation;
  pending_login_id = pending;
  plan_label = plan_label;
  detail = detail;
}

-- the controller as it is made
abbrev pub new_account : Table → Account
new_account leases = record {
  generation = 1;
  pending_login = none;
  snapshot = snapshot_of unchecked none none 1 none;
  lease = none;
  binding = none;
  has_transport = false;
  login_dispatch = false;
  unresolved_login = false;
  early = [];
  operation = none;
  closing = false;
  close_task = idle;
  unsettled_closes = 0;
  leases = leases;
  calls = [];
  answers = [];
}

abbrev pub publish : AccountState → (plan_label detail : Option String) → Account → Account
publish state plan_label detail a = record a {
  snapshot = snapshot_of state plan_label detail a.generation a.pending_login;
}

abbrev pub invalidate : AccountState → (detail : Option String) → Account → Account
invalidate state detail a = publish state none detail (record a { generation = suc a.generation })

abbrev pub is_recovery : AccountState → Bool
is_recovery recovery_required = true
is_recovery _ = false

abbrev pub is_closed : AccountState → Bool
is_closed closed = true
is_closed _ = false

-- the messages that `run` throws as they are
abbrev pub known_messages : List String
known_messages =
    "MANAGED_ACCOUNT_BUSY" ∷ "MANAGED_ACCOUNT_TIMEOUT" ∷ "MANAGED_ACCOUNT_ABORTED"
    ∷ "MANAGED_ACCOUNT_STALE" ∷ "MANAGED_ACCOUNT_FACTORY_FAILED" ∷ []

abbrev pub thrown_message : String → String
thrown_message message =
    if includes known_messages message then message else "MANAGED_ACCOUNT_OPERATION_FAILED"

-- the `catch` of `run`
abbrev pub mark_unavailable : (message : String) (generation : ℕ) → Account → Account
mark_unavailable message generation a =
    if nat_eq generation a.generation && not a.closing && not (is_recovery a.snapshot.state)
    then publish unavailable none
        (some (
          if message == "MANAGED_ACCOUNT_TIMEOUT"
          then "MANAGED_ACCOUNT_TIMEOUT"
          else "MANAGED_ACCOUNT_OPERATION_FAILED"))
        a
    else a

-- the `finally` of `startLogin`
abbrev pub end_login : Account → Account
end_login a = record a { login_dispatch = false; early = [] }

-- the `catch` of `startLogin`: a response that is lost leaves the login unresolved
abbrev pub leave_unresolved : (completed : Bool) → Account → Account
leave_unresolved completed a =
    if not completed && not a.closing
    then invalidate recovery_required (some "MANAGED_LOGIN_OUTCOME_UNRESOLVED")
        (record a { unresolved_login = true; pending_login = none; early = [] })
    else a

abbrev pub is_queued : Stage → Bool
is_queued queued = true
is_queued _ = false

-- what follows `run` in each operation when it throws; a login is dispatched by its task's first turn
abbrev pub after_throw : Kind → Stage → (completed : Bool) → Account → Account
after_throw (start_login method) queued completed a = a
after_throw (start_login method) _ completed a = end_login (leave_unresolved completed a)
after_throw _ stage completed a = a

abbrev pub after_return : Kind → Account → Account
after_return (start_login method) a = end_login a
after_return _ a = a

abbrev pub add_answer : Result Answer → Account → Account
add_answer result a = record a { answers = a.answers ++ result ∷ [] }

-- the promise that `run` awaits rejects, and the caller's with it
abbrev pub reject : (completed : Bool) (message : String) → Operation → Account → Account
reject completed message op a =
    add_answer (err (thrown_message message))
      (after_throw op.kind op.stage completed (mark_unavailable message op.generation a))

-- the abort of the operation's signal: a caller that waits has its promise rejected
abbrev pub abort_operation : Option Operation → Account → Account
abort_operation none a = a
abort_operation (some op) a =
    let rest = record a { operation = some (record op { aborted = true; awaited = false }) } in
    if op.awaited then reject false "MANAGED_ACCOUNT_ABORTED" op rest else rest

-- the timer of `bounded`, which is cleared when the promise settles
abbrev pub time_out : Option Operation → Account → Account
time_out none a = a
time_out (some op) a =
    if op.awaited
    then reject false "MANAGED_ACCOUNT_TIMEOUT" op
        (record a { operation = some (record op { aborted = true; awaited = false }) })
    else a

-- the task of the operation settles: nothing else happens if the caller's promise has settled before
abbrev pub settle_task : (completed : Bool) → Result Answer → Operation → Account → Account
settle_task completed result op a =
    let rest = record a { operation = none } in
    if op.awaited
    then elim result [
      | ok answer ↦ add_answer (ok answer) (after_return op.kind rest)
      | err message ↦ reject completed message op rest
    ]
    else rest

-- `length` of a text, in UTF-16 units
unfoldable pub utf16_length : String → ℕ
utf16_length String.[] = 0
utf16_length (String.◌∷◌ c s) = (if ltb (code c) 0x10000 then 1 else 2) + utf16_length s

-- `Map.set`
unfoldable pub set_early : String → Bool → List (String × Bool) → List (String × Bool)
set_early id success [] = (id, success) ∷ []
set_early id success ((key, value) ∷ rest) =
    if key == id then (id, success) ∷ rest else (key, value) ∷ set_early id success rest

-- `Map.get`
unfoldable pub find_early : String → List (String × Bool) → Option Bool
find_early id [] = none
find_early id ((key, value) ∷ rest) = if key == id then some value else find_early id rest

unfoldable pub record_early : String → Bool → Account → Account
unfolding utf16_length set_early
record_early id success a =
    if leb (utf16_length id) 160 && ltb (length a.early) 8
    then record a { early = set_early id success a.early }
    else a

-- the end of `onEvent`, for an event that counts
abbrev pub close_admission : AccountState → (detail : Option String) → Account → Account
close_admission state detail a =
    abort_operation a.operation (invalidate state detail (record a { pending_login = none }))

abbrev pub failed_login : Bool → Option String
failed_login true = none
failed_login false = some "MANAGED_LOGIN_FAILED"

abbrev pub complete_login : String → Bool → Account → Account
complete_login id success a =
    if not (is_some a.pending_login) && a.login_dispatch
    then record_early id success a
    else if is_text a.pending_login id
    then close_admission unchecked (failed_login success) a
    else a

abbrev pub receive_event : Event → Account → Account
receive_event (account_updated b) a = close_admission unchecked none a
receive_event (disconnected b) a =
    close_admission unavailable (some "MANAGED_ACCOUNT_DISCONNECTED") a
receive_event (login_completed b (some id) (some success)) a = complete_login id success a
receive_event (login_completed b _ _) a = a

abbrev pub is_bound : Option Binding → Option Binding → Bool
is_bound given none = false
is_bound given (some binding) = same_binding given binding

-- `onEvent`
unfoldable pub on_event : Event → Account → Account
unfolding record_early
on_event event a =
    if a.closing || a.unresolved_login || not (is_bound (event_binding event) a.binding)
    then a
    else receive_event event a
