-- ===== src/Runtime.antt =====
-- src/runtime.ts: the class `Xcb`, which runs one admitted request on a qualified adapter under a
-- lease of the account.
pub mod Adapters
pub mod Admission
pub mod Custody
pub mod Providers
pub mod Qualified
pub mod Tests
use agentmixer.Prelude.{
  ℕ, suc, ◌*◌, String, ◌==◌, Bool, true, false, not, ◌&&◌, ◌||◌, Option, none, some, List, [], ◌∷◌,
  any, all, length, is_some, nat_eq, leb, if◌then◌else◌,
}
use agentmixer.Prelude.Result.{Result, ok, err}
use agentmixer.Prelude.Exec.{Exec, ◌>>=◌, ◌>>◌, pure, throw, lift, assert}
use agentmixer.Validation.Data.{Value, string, number, nat, Number, Provider, provider_eq}
use agentmixer.Validation.{identifier, bounded_text, provider, safe_integer, max_safe_integer}
use agentmixer.Validation.Digest.{matches_digest}
use agentmixer.Accounts.Rows.{Table, Lease}
use agentmixer.Accounts.{AcquireInput, acquire, release}
use agentmixer.Accounts.Return.{give_back}
use agentmixer.Runtime.Adapters.{
  Controls, Evidence, Qualification, unqualified, qualified, Outcome, returned, stopped, failed,
  Adapter, Request, Broker, Options,
}
use agentmixer.Runtime.Admission.{Plan, admit}

pub record World : Type 0 where
  pub leases : Table
  pub revoked : Bool

-- what `runAdmitted` does once the adapter has settled
unfoldable pub settle : Lease → Outcome → Exec Table Value
settle lease (returned process_stopped output) =
    if process_stopped
    then (do give_back lease; pure output)
    else throw "PROVIDER_PROCESS_STOP_UNPROVEN"
settle lease (stopped message) = do give_back lease; throw message
settle lease (failed message) = throw message

-- `await adapter.run(…)`
abbrev pub await_adapter : Adapter → Request → Broker → Exec Table Outcome
await_adapter adapter request broker table =
    let (outcome, rows) = adapter.run request broker table in pure outcome rows

unfoldable pub run_admitted : Options → Request → Broker → Exec Table Value
unfolding admit settle
run_admitted options request broker = do
  plan ← lift (admit options request broker)
  lease ← acquire plan.input
  outcome ← await_adapter plan.adapter request broker
  settle lease outcome

-- `finally { broker.revoke(); }`
unfoldable pub run : Options → Request → Broker → Exec World Value
unfolding run_admitted
run options request broker world =
    let (result, table) = run_admitted options request broker world.leases in
    (result, record { leases = table; revoked = true })
