-- ===== src/Runtime/Tests.antt =====
-- Runs of the runtime on concrete adapters, and the theorems about it at them.
use agentmixer.Prelude.{◌≡◌, refl, String, true, false, some, List, [], ◌∷◌}
use agentmixer.Prelude.Result.{ok, err}
use agentmixer.Validation.{checks}
use agentmixer.Validation.Data.{string, nat, finite, codex, claude}
use agentmixer.Validation.Digest.{matches_digest}
use agentmixer.Accounts.Rows.{Table, Lease, find_row, holds, upsert, update_rows}
use agentmixer.Accounts.Checks.{expiry, lease_from, validate_lease}
use agentmixer.Accounts.Custody.{row_of}
use agentmixer.Accounts.{acquire, release}
use agentmixer.Runtime.Adapters.{
  Evidence, qualified, returned, stopped, failed, Adapter, Request, Broker, Options,
}
use agentmixer.Runtime.Admission.{
  Plan, admit, assert_qualified, check_evidence, find_adapter, lease_input,
}
use agentmixer.Runtime.Custody.{Reaches, run_custody, run_stale}
use agentmixer.Runtime.Qualified.{IsAnswered, run_authorized, all_controls}
use agentmixer.Runtime.{World, run, run_admitted, settle}

runtime : Unit {0}
unfolding checks matches_digest acquire release find_row holds upsert update_rows expiry lease_from
    validate_lease admit assert_qualified check_evidence find_adapter run run_admitted settle
runtime = tt

abbrev digest : String
digest = "0123456789abcdef0123456789abcdef0123456789abcdef0123456789abcdef"

abbrev evidence : Evidence
evidence = record {
  profile = "xcb.scoped-tools.v1";
  runtime_version = "0.153.4";
  runtime_digest = digest;
  evidence_digest = digest;
  expires_at = finite false 5000 0;
  controls = all_controls;
}

-- an adapter that stops with an output, whatever is asked
abbrev finishing : Adapter
finishing = record {
  provider = codex;
  qualification = qualified evidence;
  run = λ request broker table. (returned true (string "done"), table);
}

-- an adapter whose error proves nothing
abbrev crashing : Adapter
crashing = record finishing { run = λ request broker table. (failed "EPIPE", table) }

-- an adapter under which the account is lost to another owner
abbrev losing : Adapter
losing = record finishing { run = λ request broker table. (stopped "EPIPE", []) }

abbrev options_of : Adapter → Options
options_of adapter = record {
  adapters = adapter ∷ [];
  qualified_at = nat 1000;
  acquired_at = nat 1001;
}

abbrev request : Request
request = record {
  run_id = string "run-1";
  provider = string "codex";
  account_id = string "work";
  workspace_id = string "contact";
  prompt = string "hello";
  model = string "best";
  purpose = "respond";
  aborted = false;
}

abbrev broker : Broker
broker = record { workspace_id = "contact"; run_id = "run-1"; tools = "read" ∷ [] }

abbrev start : World
start = record { leases = []; revoked = false }

abbrev lease : Lease
lease = record {
  provider = codex;
  account_id = "work";
  owner = "run-1";
  generation = 1;
  expires_at = 301001;
}

abbrev plan_of : Adapter → Plan
plan_of adapter = record { adapter = adapter; input = lease_input (options_of adapter) request }

abbrev held : Table
held = row_of lease ∷ []

crashing-Reaches :
    Reaches
      (options_of crashing)
      request
      broker
      start
      (plan_of crashing)
      lease
      (failed "EPIPE")
      held
unfolding runtime
crashing-Reaches = record { table = held; admitted = refl; acquired = refl; settled = refl }

losing-Reaches :
    Reaches (options_of losing) request broker start (plan_of losing) lease (stopped "EPIPE") []
unfolding runtime
losing-Reaches = record { table = held; admitted = refl; acquired = refl; settled = refl }

run_custody_example :
    let (result, after) = run (options_of crashing) request broker start in
    (result ≡ err "EPIPE")
    × (find_row codex "work" after.leases ≡ some (row_of lease))
    × (after.revoked ≡ true)
run_custody_example =
    run_custody (options_of crashing) request broker start (plan_of crashing) lease (failed "EPIPE")
      held crashing-Reaches (unfold runtime in (refl, tt)) (unfold runtime in refl)

run_stale_example :
    run (options_of losing) request broker start
    ≡ (err "STALE_ACCOUNT_LEASE", record { leases = []; revoked = true })
run_stale_example =
    run_stale (options_of losing) request broker start (plan_of losing) lease (stopped "EPIPE") []
      losing-Reaches tt (unfold runtime in refl)

abbrev aborted : Request
aborted = record request { aborted = true }

abbrev finished : World
finished = record {
  leases = (run (options_of finishing) request broker start).1.leases;
  revoked = true;
}

finishing_run : run (options_of finishing) request broker start ≡ (ok (string "done"), finished)
unfolding runtime
finishing_run = refl

run_authorized_example : IsAnswered (options_of finishing) request broker start (string "done")
run_authorized_example =
    run_authorized (options_of finishing) request broker start finished (string "done")
      finishing_run

abbrev two_adapters : List Adapter
two_adapters = finishing ∷ record finishing { provider = claude } ∷ []
