-- ===== src/ManagedAccount/Tests.antt =====
-- A controller of one account, what is done with it, and the theorems about controllers at it.
use agentmixer.Prelude.{
  ℕ, ◌≤◌, ◌<◌, String, ◌≡◌, refl, Bool, true, false, Option, none, some, List, [], ◌∷◌, ◌++◌,
}
use agentmixer.Validation.{checks}
use agentmixer.Validation.Data.{
  Value, string, object, plain, enumerable, end, field, nat, codex, Fields,
}
use agentmixer.ToolBroker.Paths.{Url}
use agentmixer.Accounts.{acquire, release, freed}
use agentmixer.Accounts.Rows.{
  Lease, find_row, upsert, claimed, claim_row, update_rows, holds, has_key,
}
use agentmixer.Accounts.Checks.{expiry, lease_from, validate_lease}
use agentmixer.Accounts.Custody.{row_of}
use agentmixer.ManagedAccount.Data.{
  signed_in, closed, recovery_required, Binding, Receipt, Settings, disconnected,
}
use agentmixer.ManagedAccount.Parsing.{
  record_of, projected_state, clean_text, has_control, method_of, session_binding,
}
use agentmixer.ManagedAccount.Controls.{Account, new_account, on_event, joining, check}
use agentmixer.ManagedAccount.Controls
use agentmixer.ManagedAccount.Replies.{response, response_fields, projection_of, login_reply}
use agentmixer.ManagedAccount.Fences.{fenced, is_signed_in}
use agentmixer.ManagedAccount.Starting.{Refuses, start_refused}
use agentmixer.ManagedAccount.Trace.{
  Action, starting, beginning, expiring, replying, asking_close, beginning_close, receiving_receipt,
  failing_close, step, run, run-IsFenced,
}
use agentmixer.ManagedAccount.Voids.{Leaves}
use agentmixer.ManagedAccount.Signing.{new-IsFenced, SignedBy, run_fenced, signed_in_read}
use agentmixer.ManagedAccount.Barrier.{news_barrier}
use agentmixer.ManagedAccount.Unresolved.{unresolved_stuck}
use agentmixer.ManagedAccount.Custody.{KeepsLease, is_proved, lease_kept, join_releases}
use agentmixer.ManagedAccount.Sessions.{IsOwn, method_of-IsOwn}
use agentmixer.ManagedAccount.Calls.{
  Opening, ask_check, ask_login, start, run_operation, ensure_transport, open_transport,
}
use agentmixer.ManagedAccount.Tasks.{responded, projected, begin_task, receive_reply}
use agentmixer.ManagedAccount.Shutdown.{
  close_account, begin_close, receive_receipt, fail_close, join_close,
}

managed : Unit {0}
unfolding checks acquire release find_row upsert claimed claim_row update_rows holds has_key expiry
    lease_from validate_lease record_of projected_state clean_text has_control method_of
    session_binding response response_fields projection_of login_reply step run start run_operation
    ensure_transport open_transport begin_task receive_reply close_account begin_close
    receive_receipt fail_close join_close on_event is_proved
managed = tt

abbrev is_control : ℕ → Bool
is_control c = false

abbrev no_url : String → Option Url
no_url s = none

abbrev settings : Settings
settings = record {
  provider = codex;
  account_id = "work";
  owner = "host";
  process_generation = 7;
  operation_timeout = 40_000;
  close_timeout = 10_000;
}

abbrev opening : Opening
opening = record { acquired_at = nat 1000; started_at = 1000; factory_works = true }

abbrev binding : Binding
binding = record {
  provider = codex;
  account_id = "work";
  owner = "host";
  lease_generation = 1;
  process_generation = 7;
}

abbrev lease : Lease
lease = record {
  provider = codex;
  account_id = "work";
  owner = "host";
  generation = 1;
  expires_at = 121_000;
}

abbrev account_read : Action
account_read = replying (
    responded
      (some (record { binding = some binding; account_generation = 2; value = object plain end })))

abbrev signed_in_projection : Action
signed_in_projection =
    replying (projected (object plain (field "state" enumerable (string "signed-in") end)))

-- a check that finds the account signed in
abbrev checking : List Action
checking = starting ask_check opening false ∷ beginning ∷ account_read ∷ signed_in_projection ∷ []

abbrev after : List Action → Account
after actions = run is_control no_url settings actions (new_account [])

checked_snapshot : (after checking).snapshot ≡ record {
  state = signed_in;
  account_generation = 2;
  pending_login_id = none;
  plan_label = none;
  detail = none;
}
unfolding managed
checked_snapshot = refl

run_fenced_example :
    let a = after checking in
    (a.snapshot.account_generation ≡ a.generation)
    × (a.generation ≤ (run is_control no_url settings (beginning ∷ []) a).generation)
    × (fenced a.operation a.generation a.closing ≡ true)
run_fenced_example = run_fenced is_control no_url settings checking (beginning ∷ []) []

signed_in_read_example : SignedBy is_control no_url settings checking (new_account [])
signed_in_read_example =
    signed_in_read is_control no_url settings checking [] (unfold managed in refl)

-- a second check, in flight
abbrev in_flight : List Action
in_flight = checking ++ starting ask_check opening false ∷ beginning ∷ []

news_barrier_example :
    let a = after in_flight in
    let b = on_event (disconnected (some binding)) a in
    (a.generation < b.generation)
    × (is_signed_in b.snapshot.state ≡ false)
    × (b.pending_login ≡ none)
    × Leaves b (receive_reply is_control no_url (responded none) b)
news_barrier_example =
    news_barrier is_control no_url (disconnected (some binding)) (responded none) (after in_flight)
      (run-IsFenced is_control no_url settings in_flight (new_account []) (new-IsFenced []))
      (unfold managed in refl)

start_refused_example :
    Refuses (after in_flight) (start is_control settings ask_check opening false (after in_flight))
start_refused_example =
    start_refused is_control settings opening false ask_check (after in_flight)
      (unfold managed in refl) refl

abbrev native : Value
native = object plain (
    field "type" enumerable (string "provider-native")
      (field "method" enumerable (string "web") end))

-- a login whose response does not come in time
abbrev lost_login : List Action
lost_login = starting (ask_login native) opening false ∷ beginning ∷ expiring ∷ []

lost_state : (after lost_login).snapshot.state ≡ recovery_required
unfolding managed
lost_state = refl

abbrev attempts : List Action
attempts = starting ask_check opening false ∷ account_read ∷ beginning ∷ []

unresolved_stuck_example :
    Leaves (after lost_login) (run is_control no_url settings attempts (after lost_login))
unresolved_stuck_example =
    unresolved_stuck is_control no_url settings attempts (after lost_login)
      (run-IsFenced is_control no_url settings lost_login (new_account []) (new-IsFenced []))
      (unfold managed in refl) (unfold managed in refl) refl

abbrev unproved_close : List Action
unproved_close = asking_close ∷ beginning_close ∷ failing_close false ∷ []

lease_kept_example :
    KeepsLease (after checking) (run is_control no_url settings unproved_close (after checking))
lease_kept_example =
    lease_kept is_control no_url settings unproved_close (after checking)
      (run-IsFenced is_control no_url settings checking (new_account []) (new-IsFenced []))
      (unfold managed in refl) (unfold managed in refl)

abbrev receipt : Receipt
receipt = record {
  binding = some binding;
  process_exited = true;
  process_group_stopped = true;
  stdout_ended = true;
  stderr_ended = true;
  writes_settled = true;
  requests_settled = true;
  notifications_settled = true;
}

abbrev to_the_join : List Action
to_the_join = checking ++ asking_close ∷ beginning_close ∷ receiving_receipt ∷ []

join_releases_example :
    let b = join_close receipt (after to_the_join) in
    (find_row codex "work" b.leases ≡ some (freed (row_of lease)))
    × (b.snapshot.state ≡ closed)
    × (b.close_task ≡ Controls.released)
join_releases_example =
    join_releases receipt lease (after to_the_join) (unfold managed in (refl, tt))
      (unfold managed in refl) (unfold managed in refl) (unfold managed in refl)
      (unfold managed in refl) (unfold managed in refl)

abbrev session : Fields
session = field "provider" enumerable (string "codex") (
    field "accountId" enumerable (string "work") (
      field "owner" enumerable (string "host") (
        field "leaseGeneration" enumerable (nat 1)
          (field "processGeneration" enumerable (nat 7) end))))

abbrev browser : Value
browser = object plain (
    field "type" enumerable (string "browser-session")
      (field "session" enumerable (object plain session) end))

method_of-IsOwn_example : IsOwn settings binding
method_of-IsOwn_example =
    method_of-IsOwn is_control settings browser binding (unfold managed in refl)
