-- ===== src/Task/Tests.antt =====
-- A task on a concrete adapter, its runs, and the theorems about tasks at them.
use agentmixer.Prelude.{◌⊎◌, String, ◌≡◌, refl, true, false, none, some, [], ◌∷◌}
use agentmixer.Prelude.Result.{ok}
use agentmixer.Validation.{checks}
use agentmixer.Validation.Data.{
  Value, null, boolean, string, object, plain, enumerable, Fields, end, field, nat, finite, codex,
}
use agentmixer.Validation.Digest.{matches_digest}
use agentmixer.Accounts.Rows.{Table, Lease, find_row, holds, upsert, update_rows}
use agentmixer.Accounts.Checks.{expiry, lease_from, validate_lease}
use agentmixer.Accounts.Slots.{IsKeyed}
use agentmixer.Accounts.Custody.{row_of}
use agentmixer.Accounts.{acquire, release, freed}
use agentmixer.Task.Records.{subscription, same_binding, same_text, authentication_eq}
use agentmixer.Task.Read.{
  closed_record, digest, route, model, profile, runtime, lease_snapshot, authority, limits, binding,
}
use agentmixer.Task.Receipts.{StopEvidence, Completion, completion, stop_evidence}
use agentmixer.Task.Guards.{
  Adapter, Broker, Arrival, Admission, admit, routes, has_duplicate_id, find_route,
}
use agentmixer.Task.Events.{
  cancelled, deadline_exceeded, fulfilled, Course, is_at_least, cancel_all, cleanup_from,
  final_reason,
}
use agentmixer.Task.Leases.{IsReady, admit-IsReady}
use agentmixer.Task.Custody.{IsKept, IsUninvoked, IsStopped, task_custody}
use agentmixer.Task.Results.{
  IsResult, execute-IsResult, execute_finishes, IsEvidence, stop_evidence_lem,
}
use agentmixer.Task.Cancels.{first_reason}
use agentmixer.Task.{
  TaskResult, lease_input, expected_binding, run_agent_task, execute, start, timing_of,
  final_completion,
}

task : Unit {0}
unfolding checks matches_digest acquire release find_row holds upsert update_rows expiry lease_from
    validate_lease same_binding same_text authentication_eq closed_record digest route model profile
    runtime lease_snapshot authority limits binding completion stop_evidence admit routes
    has_duplicate_id find_route is_at_least cancel_all cleanup_from execute start run_agent_task
task = tt

abbrev hash : String
hash = "0123456789abcdef0123456789abcdef0123456789abcdef0123456789abcdef"

-- an object with enumerable fields
abbrev with_field : String → Value → Fields → Fields
with_field k v fs = field k enumerable v fs

abbrev route_value : Value
route_value = object plain (
    with_field "id" (string "codex-main") (
      with_field "provider" (string "codex")
        (with_field "authentication" (string "subscription") end)))

abbrev profile_value : Value
profile_value = object plain (
    with_field "id" (string "editor")
      (with_field "version" (nat 2) (with_field "digest" (string hash) end)))

abbrev model_value : Value
model_value = object plain (
    with_field "id" (string "best")
      (with_field "reasoningEffort" null (with_field "serviceTier" null end)))

abbrev limits_value : Value
limits_value = object plain (
    with_field "maxRunMs" (nat 5000)
      (with_field "maxCleanupMs" (nat 1000) (with_field "maxOutputBytes" (nat 64) end)))

abbrev input : Value
input = object plain (
    with_field "route" route_value (
      with_field "accountId" (string "work") (
        with_field "workspaceId" (string "contact") (
          with_field "runId" (string "run-1") (
            with_field "profile" profile_value (
              with_field "model" model_value (
                with_field "purpose" (string "edit") (
                  with_field "prompt" (string "hello") (
                    with_field "limits" limits_value
                      (with_field "signal" (object plain end) end))))))))))

abbrev controls_value : Value
controls_value = object plain (
    with_field "noCommandTools" (boolean true) (
      with_field "exactToolInventory" (boolean true) (
        with_field "workspaceReadIsolation" (boolean true) (
          with_field "workspaceWriteIsolation" (boolean true) (
            with_field "isolatedConfiguration" (boolean true) (
              with_field "authOutsideWorkspace" (boolean true)
                (with_field "hostBrokerOnly" (boolean true) end)))))))

abbrev qualification : Value
qualification = object plain (
    with_field "status" (string "qualified") (
      with_field "route" route_value (
        with_field "profile" profile_value (
          with_field "runtimeVersion" (string "0.153.4") (
            with_field "runtimeDigest" (string hash) (
              with_field "evidenceDigest" (string hash) (
                with_field "expiresAt" (nat 900000)
                  (with_field "controls" controls_value end))))))))

abbrev adapter : Adapter
adapter = record {
  route = route_value;
  runtime =
      object plain
        (with_field "version" (string "0.153.4") (with_field "digest" (string hash) end));
  qualification = qualification;
  callable = true;
}

abbrev broker : Broker
broker = record {
  profile = record { id = "editor"; version = 2; digest = hash };
  registered = true;
  workspace_id = "contact";
  run_id = "run-1";
}

abbrev arrival : Arrival
arrival = record {
  began = nat 1000;
  admitted = nat 1001;
  is_signal = true;
  aborted = false;
  active = true;
}

abbrev admission : Admission
admission = record {
  began = 1000;
  total = 6000;
  request = record {
    route = record { id = "codex-main"; provider = codex; authentication = subscription };
    account_id = "work";
    workspace_id = "contact";
    run_id = "run-1";
    profile = record { id = "editor"; version = 2; digest = hash };
    model = record { id = "best"; reasoning_effort = none; service_tier = none };
    purpose = "edit";
    prompt = "hello";
    limits = record { max_run_ms = 5000; max_cleanup_ms = 1000; max_output_bytes = 64 };
    authority = none;
  };
  adapter = adapter;
  proof = record {
    runtime_version = "0.153.4";
    runtime_digest = hash;
    evidence_digest = hash;
    qualification_expires_at = 900000;
  };
}

abbrev lease : Lease
lease = record {
  provider = codex;
  account_id = "work";
  owner = "run-1";
  generation = 1;
  expires_at = 7000;
}

abbrev held : Table
held = row_of lease ∷ []

admitted : admit (adapter ∷ []) arrival input broker ≡ ok admission
unfolding task
admitted = refl

acquired : acquire (lease_input admission) [] ≡ (ok lease, held)
unfolding task
acquired = refl

abbrev lease_value : Value
lease_value = object plain (
    with_field "provider" (string "codex") (
      with_field "accountId" (string "work") (
        with_field "owner" (string "run-1")
          (with_field "generation" (nat 1) (with_field "expiresAt" (nat 7000) end)))))

abbrev runtime_value : Value
runtime_value = object plain (
    with_field "runtimeVersion" (string "0.153.4") (
      with_field "runtimeDigest" (string hash) (
        with_field "evidenceDigest" (string hash)
          (with_field "qualificationExpiresAt" (nat 900000) end))))

-- the fields of a receipt that bind it to the task, before the rest
abbrev bound : Fields → Value
bound rest = object plain (
    with_field "route" route_value (
      with_field "accountId" (string "work") (
        with_field "workspaceId" (string "contact") (
          with_field "runId" (string "run-1") (
            with_field "profile" profile_value (
              with_field "model" model_value (
                with_field "runtime" runtime_value
                  (with_field "accountLease" lease_value rest))))))))

abbrev evidence_value : Value
evidence_value = bound (
    with_field "processStopped" (boolean true) (
      with_field "controllersStopped" (boolean true) (
        with_field "joined" (boolean true)
          (with_field "stoppedAtUnixMs" (nat 3000) (with_field "proofDigest" (string hash) end)))))

abbrev usage_value : Value
usage_value = object plain (
    with_field "inputTokens" (nat 10) (
      with_field "outputTokens" null
        (with_field "totalTokens" null (with_field "costUsd" null end))))

abbrev completion_value : Value
completion_value = bound (
    with_field "output" (string "done") (
      with_field "usage" usage_value (
        with_field "outcome"
          (object plain (with_field "status" (string "completed") (with_field "code" null end)))
          end)))

abbrev course : Course
course = record {
  aborted = false;
  checked_at = finite false 1002 0;
  active = true;
  running = [];
  settled = fulfilled completion_value;
  settled_at = finite false 2500 0;
  stop_reading = nat 2500;
  late_abort = false;
  evidence = some evidence_value;
  closed = true;
  joined_at = nat 3100;
  elsewhere = λ t. t;
  closed_last = true;
}

abbrev evidence : StopEvidence
evidence = record {
  binding = expected_binding admission lease;
  stopped_at = 3000;
  proof_digest = hash;
}

abbrev done : Completion
done = record {
  binding = expected_binding admission lease;
  output = some "done";
  usage = record {
    input_tokens = some 10;
    output_tokens = none;
    total_tokens = none;
    cost_usd = none;
  };
  outcome = record { status = string "completed"; code = none };
}

accepted : stop_evidence evidence_value (expected_binding admission lease) 1000 3100 ≡ ok evidence
unfolding task
accepted = refl

stop_evidence_lem_example :
    IsEvidence evidence_value (expected_binding admission lease) 1000 3100 evidence
stop_evidence_lem_example =
    stop_evidence_lem evidence_value (expected_binding admission lease) 1000 3100 evidence accepted

abbrev finished : TaskResult
finished = record { completion = done; stop = evidence; timing = timing_of admission 3500 3100 }

abbrev freed_table : Table
freed_table = freed (row_of lease) ∷ []

executed : execute admission lease course held ≡ (ok finished, freed_table)
unfolding task
executed = refl

execute-IsResult_example : IsResult admission lease course finished
execute-IsResult_example =
    execute-IsResult admission lease course held freed_table finished executed

held-IsKeyed : IsKeyed held
unfolding task
held-IsKeyed = (refl, tt)

execute_finishes_example :
    let (result, after) = execute admission lease course held in
    (result
      ≡ ok (record {
        completion = final_completion false none done;
        stop = evidence;
        timing = timing_of admission 3500 3100;
      }))
    × (find_row codex "work" after ≡ some (freed (row_of lease)))
unfolding is_at_least cancel_all
execute_finishes_example =
    execute_finishes admission lease course held 3500 3100 evidence_value evidence done
      (unfold task in refl) (unfold task in refl) refl refl accepted (unfold task in refl)
      held-IsKeyed (unfold task in refl) (unfold task in refl)

-- an adapter that cannot show that it stopped
abbrev lost : Course
lost = record course { evidence = none }

task_custody_example :
    IsKept
      (IsUninvoked admission lost ⊎ IsStopped admission lease lost)
      lease
      (run_agent_task (adapter ∷ []) arrival lost input broker []).1
task_custody_example =
    task_custody (adapter ∷ []) arrival lost input broker [] held admission lease admitted acquired
      held-IsKeyed (unfold task in refl)

abbrev late_arrival : Arrival
late_arrival = record arrival { aborted = true }

admit-IsReady_example : IsReady (adapter ∷ []) arrival broker admission
admit-IsReady_example = admit-IsReady (adapter ∷ []) arrival input broker admission admitted

-- the user cancels, then the timer fires
abbrev stormy : Course
stormy = record course {
  running =
      record { reason = cancelled; reading = nat 2000 }
      ∷ record { reason = deadline_exceeded; reading = nat 6000 }
      ∷ [];
}

first_reason_example : final_reason admission stormy ≡ some cancelled
first_reason_example =
    first_reason admission stormy (record { reason = cancelled; reading = nat 2000 })
      (record { reason = deadline_exceeded; reading = nat 6000 } ∷ []) refl
