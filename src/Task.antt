-- ===== src/Task.antt =====
-- src/task-runtime.ts: `runAgentTask`, which runs one task of an application on its qualified
-- adapter under a lease of the account.
pub mod Records
pub mod Same
pub mod Read
pub mod Receipts
pub mod Guards
pub mod Events
pub mod Proofs
pub mod Leases
pub mod Custody
pub mod Results
pub mod Cancels
pub mod Tests
use agentmixer.Prelude.{
  ℕ, ltb, leb, String, ◌==◌, Bool, true, false, not, ◌&&◌, ◌||◌, Option, none, some, List, [], ◌∷◌,
  is_some, if◌then◌else◌,
}
use agentmixer.Prelude.Result.{Result, ok, err}
use agentmixer.Prelude.Exec.{Exec, ◌>>=◌, ◌>>◌, pure, throw, lift, assert, modify}
use agentmixer.Validation.Data.{Value, string, nat, provider_eq}
use agentmixer.Validation.{safe_integer, max_safe_integer}
use agentmixer.Validation.Laws.{provider_name}
use agentmixer.Accounts.Rows.{Table, Lease}
use agentmixer.Accounts.Checks.{validate_lease}
use agentmixer.Accounts.{AcquireInput, acquire, release}
use agentmixer.Accounts.Return.{give_back}
use agentmixer.Task.Records.{Binding}
use agentmixer.Task.Receipts.{
  TaskOutcome, Completion, StopEvidence, unknown_usage, completion, stop_evidence,
}
use agentmixer.Task.Guards.{
  Adapter, Broker, Arrival, Admission, admit, execution_deadline, cleanup_deadline,
}
use agentmixer.Task.Events.{
  Reason, cancelled, deadline_exceeded, Settled, fulfilled, stopped_error, rejected, Course, early,
  stop_once, when_settled, final_reason,
}

pub record Timing : Type 0 where
  pub admitted_at : ℕ
  pub execution_deadline : ℕ
  pub cleanup_deadline : ℕ
  pub outer_deadline : ℕ
  pub joined_at : ℕ
  pub cleanup_deadline_exceeded : Bool

-- `AgentTaskResult`
pub record TaskResult : Type 0 where
  pub completion : Completion
  pub stop : StopEvidence
  pub timing : Timing

abbrev pub lease_input : Admission → AcquireInput
lease_input a = record {
  provider = string (provider_name a.request.route.provider);
  account_id = string a.request.account_id;
  owner = string a.request.run_id;
  now = nat a.began;
  ttl_ms = nat a.total;
}

-- Is the lease one of this task, to its outer deadline?
abbrev pub is_asked_lease : Admission → Lease → Bool
is_asked_lease a lease =
    provider_eq lease.provider a.request.route.provider
    && lease.account_id == a.request.account_id
    && lease.owner == a.request.run_id
    && leb (cleanup_deadline a) lease.expires_at

-- the binding of the execution, whose fields have passed the checks of `binding`
abbrev pub expected_binding : Admission → Lease → Binding
expected_binding a lease = record {
  route = a.request.route;
  account_id = a.request.account_id;
  workspace_id = a.request.workspace_id;
  run_id = a.request.run_id;
  profile = a.request.profile;
  model = a.request.model;
  runtime = a.proof;
  account_lease = lease;
  authority = a.request.authority;
}

-- `await broker.close()`
abbrev pub await_close : Bool → Exec Table (Unit {0})
await_close closed = assert closed "BROKER_CLOSE_FAILED"

-- the way out before the adapter is invoked
unfoldable pub leave : Lease → Course → String → Exec Table TaskResult
leave lease course code = do
  modify course.elsewhere
  await_close course.closed
  give_back lease
  throw code

abbrev pub early_code : Reason → String
early_code cancelled = "TASK_CANCELLED_BEFORE_ADAPTER"
early_code deadline_exceeded = "TASK_ADMISSION_DEADLINE"

abbrev pub failure : String → TaskOutcome
failure code = record { status = string "failed"; code = some code }

-- the completion of an adapter that failed and has stopped
abbrev pub stopped_completion : Binding → Completion
stopped_completion expected = record {
  binding = expected;
  output = none;
  usage = unknown_usage;
  outcome = failure "TASK_ADAPTER_STOPPED";
}

unfoldable pub settled_completion :
    Admission → Binding → Option Reason → Settled → Result Completion
settled_completion a expected reason (fulfilled value) =
    completion value expected a.request.limits.max_output_bytes
settled_completion a expected reason stopped_error = ok (stopped_completion expected)
settled_completion a expected reason rejected =
    if is_some reason
    then ok (stopped_completion expected)
    else err "TASK_ADAPTER_FAILED_CUSTODY_RETAINED"

abbrev pub reason_outcome : Reason → TaskOutcome
reason_outcome cancelled = record { status = string "cancelled"; code = some "TASK_CANCELLED" }
reason_outcome deadline_exceeded = record {
  status = string "deadline-exceeded";
  code = some "TASK_EXECUTION_DEADLINE";
}

-- the completion without its output, under another outcome
abbrev pub override : TaskOutcome → Completion → Completion
override outcome c = record c { output = none; outcome = outcome }

unfoldable pub final_completion : (exceeded : Bool) → Option Reason → Completion → Completion
final_completion true reason c = override (failure "TASK_CLEANUP_DEADLINE_EXCEEDED") c
final_completion false (some reason) c = override (reason_outcome reason) c
final_completion false none c = c

abbrev pub timing_of : Admission → (cleanup joined_at : ℕ) → Timing
timing_of a cleanup joined_at = record {
  admitted_at = a.began;
  execution_deadline = execution_deadline a;
  cleanup_deadline = cleanup;
  outer_deadline = cleanup_deadline a;
  joined_at = joined_at;
  cleanup_deadline_exceeded = ltb cleanup joined_at;
}

abbrev pub evidence_or_unproven : Option Value → Bool → Result Value
evidence_or_unproven (some value) true = ok value
evidence_or_unproven _ _ = err "TASK_CUSTODY_UNPROVEN"

-- from the call of the adapter's `run` to the end of the `try` block
unfoldable pub execute : Admission → Lease → Course → Exec Table TaskResult
unfolding settled_completion final_completion
execute a lease course =
    let expected = expected_binding a lease in
    let reason = final_reason a course in
    do
      cleanup ← lift (stop_once a course.stop_reading (when_settled a course).cleanup)
      modify course.elsewhere
      joined_at ← lift (safe_integer course.joined_at a.began max_safe_integer)
      value ← lift (evidence_or_unproven course.evidence course.closed)
      stop ← lift (stop_evidence value expected a.began joined_at)
      c ← lift (settled_completion a expected reason course.settled)
      give_back lease
      pure (record {
        completion = final_completion (ltb cleanup joined_at) reason c;
        stop = stop;
        timing = timing_of a cleanup joined_at;
      })

-- what follows the checks before the adapter, by what `cancelled` is after them
unfoldable pub start : Admission → Lease → Course → Option Reason → Exec Table TaskResult
unfolding leave execute
start a lease course (some reason) = leave lease course (early_code reason)
start a lease course none =
    if course.active
    then execute a lease course
    else leave lease course "TASK_BROKER_REVOKED_BEFORE_ADAPTER"

-- from the acquired lease on
abbrev pub hold : Admission → Lease → Course → Exec Table TaskResult
hold a lease course = start a lease course (early a course)

-- the outer `try` block
unfoldable pub run_admitted :
    List Adapter → Arrival → Course → Value → Broker → Exec Table TaskResult
unfolding start
run_admitted adapters arrival course input broker = do
  a ← lift (admit adapters arrival input broker)
  lease ← acquire (lease_input a)
  lift (validate_lease lease)
  assert (is_asked_lease a lease) "TASK_ACQUIRED_LEASE_MISMATCH"
  hold a lease course

-- `finally`: the broker is closed once more, and an error of that is thrown instead
unfoldable pub run_agent_task :
    List Adapter → Arrival → Course → Value → Broker → Exec Table TaskResult
unfolding run_admitted
run_agent_task adapters arrival course input broker table =
    let (result, after) = run_admitted adapters arrival course input broker table in
    if course.closed_last then (result, after) else (err "BROKER_CLOSE_FAILED", after)
