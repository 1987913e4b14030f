-- ===== src/Task/Guards.antt =====
-- src/task-runtime.ts: what a task is asked with, and the checks that `runAgentTask` makes before it
-- acquires a lease.
use agentmixer.Prelude.{
  ℕ, ◌+◌, ◌-◌, ◌*◌, String, ◌==◌, Bool, true, false, not, ◌&&◌, ◌||◌, Option, none, some, List, [],
  ◌∷◌, ltb, leb, all, any, if◌then◌else◌,
}
use agentmixer.Prelude.Result.{Result, ok, err, require, ◌>>=◌, ◌>>◌}
use agentmixer.Validation.Data.{Value, null, object, Fields, get, nat, is_string, is_boolean}
use agentmixer.Validation.{identifier, bounded_text, safe_integer, max_safe_integer}
use agentmixer.Task.Records.{
  Route, Model, Profile, RuntimeProof, Authority, Limits, same_route, same_profile,
}
use agentmixer.Task.Read.{closed_record, route, model, profile, runtime_of, authority, limits}

-- `AgentTaskRequest` once its fields are checked
pub record Request : Type 0 where
  pub route : Route
  pub account_id : String
  pub workspace_id : String
  pub run_id : String
  pub profile : Profile
  pub model : Model
  pub purpose : String
  pub prompt : String
  pub limits : Limits
  pub authority : Option Authority

-- the data of an `AgentTaskAdapter`; whether its `run` and `stop` are functions is one flag
pub record Adapter : Type 0 where
  pub route : Value
  pub runtime : Value
  pub qualification : Value
  pub callable : Bool

-- the parts of a `CapabilityBroker` that admission reads; `registered` says whether the profile was
-- made by `createCapabilityProfile`
pub record Broker : Type 0 where
  pub profile : Profile
  pub registered : Bool
  pub workspace_id : String
  pub run_id : String

-- What `runAgentTask` finds before it acquires the lease: two readings of the clock, whether the
-- signal is an `AbortSignal` that has fired, and whether the broker is active.
pub record Arrival : Type 0 where
  pub began : Value
  pub admitted : Value
  pub is_signal : Bool
  pub aborted : Bool
  pub active : Bool

-- what admission establishes
pub record Admission : Type 0 where
  pub began : ℕ
  pub total : ℕ
  pub request : Request
  pub adapter : Adapter
  pub proof : RuntimeProof

abbrev pub execution_deadline : Admission → ℕ
execution_deadline a = a.began + a.request.limits.max_run_ms

abbrev pub cleanup_deadline : Admission → ℕ
cleanup_deadline a = a.began + a.total

abbrev pub task_controls : List String
task_controls =
    "noCommandTools" ∷ "exactToolInventory" ∷ "workspaceReadIsolation" ∷ "workspaceWriteIsolation"
    ∷ "isolatedConfiguration" ∷ "authOutsideWorkspace" ∷ "hostBrokerOnly" ∷ []

-- `!q || q.status !== "qualified"`
abbrev pub status_field : Value → Value
status_field (object p fields) = get fields "status"
status_field _ = null

unfoldable pub qualified : Adapter → Request → (cleanup_deadline : ℕ) → Result RuntimeProof
qualified adapter request deadline = do
  require (is_string (status_field adapter.qualification) "qualified") "TASK_ADAPTER_UNQUALIFIED"
  q ← closed_record adapter.qualification (
      "status" ∷ "route" ∷ "profile" ∷ "runtimeVersion" ∷ "runtimeDigest" ∷ "evidenceDigest"
      ∷ "expiresAt" ∷ "controls" ∷ [])
  controls ← closed_record (get q "controls") task_controls
  require (all (λ control. is_boolean (get controls control) true) task_controls)
      "TASK_QUALIFICATION_INCOMPLETE"
  identity ←
      runtime_of (get q "runtimeVersion") (get q "runtimeDigest") (get q "evidenceDigest")
        (get q "expiresAt")
  installed ← closed_record adapter.runtime ("version" ∷ "digest" ∷ [])
  r ← route (get q "route")
  require (same_route r request.route) "TASK_QUALIFICATION_MISMATCH"
  p ← profile (get q "profile")
  require
      (same_profile p request.profile
        && is_string (get installed "version") identity.runtime_version
        && is_string (get installed "digest") identity.runtime_digest
        && leb deadline identity.qualification_expires_at)
      "TASK_QUALIFICATION_MISMATCH"
  require adapter.callable "TASK_ADAPTER_INVALID"
  ok identity

-- the request that is copied from the input
unfoldable pub read_request : Limits → Fields → Result Request
read_request l input = do
  r ← route (get input "route")
  account_id ← identifier (get input "accountId")
  workspace_id ← identifier (get input "workspaceId")
  run_id ← identifier (get input "runId")
  p ← profile (get input "profile")
  m ← model (get input "model")
  purpose ← bounded_text (get input "purpose") 160 false
  prompt ← bounded_text (get input "prompt") (512 * 1024) false
  a ← authority (get input "authority")
  ok (record {
    route = r;
    account_id = account_id;
    workspace_id = workspace_id;
    run_id = run_id;
    profile = p;
    model = m;
    purpose = purpose;
    prompt = prompt;
    limits = l;
    authority = a;
  })

-- `options.adapters.map(adapter => route(adapter.route))`
unfoldable pub routes : List Adapter → Result (List Route)
routes [] = ok []
routes (a ∷ adapters) = do r ← route a.route; rest ← routes adapters; ok (r ∷ rest)

-- Do two routes have one id?
unfoldable pub has_duplicate_id : List Route → Bool
has_duplicate_id [] = false
has_duplicate_id (r ∷ rs) = any (λ s. r.id == s.id) rs || has_duplicate_id rs

-- `options.adapters[routes.findIndex(r => same(r, request.route))]`
unfoldable pub find_route : Route → List Route → List Adapter → Option Adapter
find_route wanted [] adapters = none
find_route wanted (r ∷ rs) [] = none
find_route wanted (r ∷ rs) (a ∷ adapters) =
    if same_route r wanted then some a else find_route wanted rs adapters

abbrev pub available : Option Adapter → Result Adapter
available none = err "TASK_ROUTE_UNAVAILABLE"
available (some a) = ok a

-- `assertCapabilityProfile` of src/capabilities.ts
unfoldable pub assert_capability_profile : Broker → Profile → Result (Unit {0})
assert_capability_profile broker expected =
    require (broker.registered && same_profile expected broker.profile)
      "CAPABILITY_PROFILE_MISMATCH"

abbrev pub input_keys : List String
input_keys =
    "route" ∷ "accountId" ∷ "workspaceId" ∷ "runId" ∷ "profile" ∷ "model" ∷ "purpose" ∷ "prompt"
    ∷ "limits" ∷ "signal" ∷ "authority" ∷ []

unfoldable pub admit : List Adapter → Arrival → Value → Broker → Result Admission
unfolding qualified read_request assert_capability_profile
admit adapters arrival value broker = do
  began ← safe_integer arrival.began 0 (max_safe_integer - 3_600_000)
  input ← closed_record value input_keys
  l ← limits (get input "limits")
  total ← safe_integer (nat (l.max_run_ms + l.max_cleanup_ms)) 1_000 3_600_000
  require arrival.is_signal "TASK_SIGNAL_INVALID"
  request ← read_request l input
  assert_capability_profile broker request.profile
  require (request.run_id == broker.run_id && request.workspace_id == broker.workspace_id)
      "TASK_BROKER_BINDING_MISMATCH"
  require (not arrival.aborted) "TASK_CANCELLED_BEFORE_ADAPTER"
  require arrival.active "CAPABILITY_REVOKED"
  rs ← routes adapters
  require (not (has_duplicate_id rs)) "TASK_DUPLICATE_ROUTE"
  adapter ← available (find_route request.route rs adapters)
  proof ← qualified adapter request (began + total)
  now ← safe_integer arrival.admitted began max_safe_integer
  require (ltb now (began + l.max_run_ms)) "TASK_ADMISSION_DEADLINE"
  ok (record { began = began; total = total; request = request; adapter = adapter; proof = proof })
