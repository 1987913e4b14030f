-- ===== src/Runtime/Adapters.antt =====
-- src/runtime.ts: the types of requests and adapters. An adapter is a function on the lease table:
-- what it answers, and what other calls have made of the table meanwhile.
use agentmixer.Prelude.{String, Bool, List}
use agentmixer.Validation.Data.{Value, Number, Provider}
use agentmixer.Accounts.Rows.{Table}

-- the controls that a qualification attests
pub record Controls : Type 0 where
  pub no_command_tools : Bool
  pub exact_tool_inventory : Bool
  pub contact_read_isolation : Bool
  pub contact_write_isolation : Bool
  pub isolated_configuration : Bool
  pub auth_outside_workspace : Bool
  pub host_broker_only : Bool

pub record Evidence : Type 0 where
  pub profile : String
  pub runtime_version : String
  pub runtime_digest : String
  pub evidence_digest : String
  pub expires_at : Number
  pub controls : Controls

pub data Qualification : Type 0 where
  unqualified : (reason : String) → Qualification
  qualified : Evidence → Qualification

-- what a run of an adapter comes to: a result, an `AgentStoppedError`, or another error
pub data Outcome : Type 0 where
  returned : (process_stopped : Bool) (output : Value) → Outcome
  stopped : (message : String) → Outcome
  failed : (message : String) → Outcome

pub record Request : Type 0 where
  pub run_id : Value
  pub provider : Value
  pub account_id : Value
  pub workspace_id : Value
  pub prompt : Value
  pub model : Value
  pub purpose : String
  pub aborted : Bool

-- the parts of a `ToolBroker` that the runtime reads
pub record Broker : Type 0 where
  pub workspace_id : String
  pub run_id : String
  pub tools : List String

pub record Adapter : Type 0 where
  pub provider : Provider
  pub qualification : Qualification
  pub run : Request → Broker → Table → Outcome × Table

-- What a run is given besides its request: the adapters, and the two readings of the clock.
pub record Options : Type 0 where
  pub adapters : List Adapter
  pub qualified_at : Value
  pub acquired_at : Value
