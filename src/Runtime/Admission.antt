-- ===== src/Runtime/Admission.antt =====
-- src/runtime.ts: the constructor of `Xcb`, `assertQualified`, and the guards of `runAdmitted`.
use agentmixer.Prelude.{
  ℕ, suc, ◌*◌, String, ◌==◌, Bool, true, false, not, ◌&&◌, ◌||◌, Option, none, some, List, [], ◌∷◌,
  any, length, nat_eq, if◌then◌else◌,
}
use agentmixer.Prelude.Result.{Result, ok, err, require, ◌>>=◌, ◌>>◌}
use agentmixer.Validation.Data.{Value, number, nat, Number, Provider, provider_eq}
use agentmixer.Validation.{identifier, bounded_text, provider, safe_integer, max_safe_integer}
use agentmixer.Validation.Digest.{matches_digest}
use agentmixer.Accounts.{AcquireInput}
use agentmixer.Runtime.Adapters.{
  Controls, Evidence, Qualification, unqualified, qualified, Adapter, Request, Broker, Options,
}

-- Has the list two equal providers?
unfoldable pub has_duplicate : List Provider → Bool
has_duplicate [] = false
has_duplicate (p ∷ ps) = any (provider_eq p) ps || has_duplicate ps

abbrev pub providers : List Adapter → List Provider
providers [] = []
providers (a ∷ adapters) = a.provider ∷ providers adapters

-- the constructor
unfoldable pub new_runtime : List Adapter → Result (List Adapter)
unfolding has_duplicate
new_runtime adapters =
    if has_duplicate (providers adapters) then err "DUPLICATE_PROVIDER" else ok adapters

abbrev pub contact_tool_profile : String
contact_tool_profile = "xcb.scoped-tools.v1"

abbrev pub has_all_controls : Controls → Bool
has_all_controls c =
    c.no_command_tools && c.exact_tool_inventory && c.contact_read_isolation
    && c.contact_write_isolation && c.isolated_configuration && c.auth_outside_workspace
    && c.host_broker_only

abbrev pub is_ok {ℓ} : {A : Type ℓ} → Result A → Bool
is_ok (ok _) = true
is_ok (err _) = false

-- `expiresAt > now` for a safe integer; the time has been checked to be one
abbrev pub expires_after : Number → ℕ → Bool
expires_after expires_at now = is_ok (safe_integer (number expires_at) (suc now) max_safe_integer)

abbrev pub evidence_holds : Evidence → ℕ → Bool
evidence_holds e now =
    e.profile == contact_tool_profile
    && expires_after e.expires_at now
    && matches_digest e.runtime_digest
    && matches_digest e.evidence_digest
    && not (e.runtime_version == "")

unfoldable pub check_evidence : Qualification → ℕ → Result (Unit {0})
check_evidence (unqualified reason) now = err "PROVIDER_UNQUALIFIED"
check_evidence (qualified e) now =
    if not (evidence_holds e now)
    then err "PROVIDER_QUALIFICATION_INVALID"
    else if has_all_controls e.controls
    then ok tt
    else err "PROVIDER_QUALIFICATION_INCOMPLETE"

unfoldable pub assert_qualified : Qualification → Value → Result (Unit {0})
unfolding check_evidence
assert_qualified qualification now = elim (safe_integer now 0 max_safe_integer) [
  | ok t ↦ check_evidence qualification t
  | err e ↦ err e
]

-- `this.options.adapters.find(…)`
unfoldable pub find_adapter : Provider → List Adapter → Option Adapter
find_adapter p [] = none
find_adapter p (a ∷ adapters) = if provider_eq a.provider p then some a else find_adapter p adapters

abbrev pub admits_purpose : String → Bool
admits_purpose purpose = purpose == "classify" || purpose == "respond"

abbrev pub offers_no_tools : Request → Broker → Bool
offers_no_tools request broker =
    not (request.purpose == "classify") || nat_eq (length broker.tools) 0

-- The adapter and the account that `runAdmitted` acquires a lease of, once its guards have passed.
pub record Plan : Type 0 where
  pub adapter : Adapter
  pub input : AcquireInput

-- the lease that `runAdmitted` asks for
abbrev pub lease_input : Options → Request → AcquireInput
lease_input options request = record {
  provider = request.provider;
  account_id = request.account_id;
  owner = request.run_id;
  now = options.acquired_at;
  ttl_ms = nat 300_000;
}

abbrev pub found_or_unsupported : Option Adapter → Result Adapter
found_or_unsupported none = err "UNSUPPORTED_PROVIDER"
found_or_unsupported (some adapter) = ok adapter

-- the guards of `runAdmitted`
unfoldable pub admit : Options → Request → Broker → Result Plan
unfolding assert_qualified find_adapter
admit options request broker = do
  p ← provider request.provider
  run_id ← identifier request.run_id
  account_id ← identifier request.account_id
  workspace_id ← identifier request.workspace_id
  prompt ← bounded_text request.prompt (512 * 1024) false
  model ← bounded_text request.model 160 false
  require (admits_purpose request.purpose) "INVALID_RUN_PURPOSE"
  require (workspace_id == broker.workspace_id && run_id == broker.run_id) "BROKER_BINDING_MISMATCH"
  require (not request.aborted) "AbortError"
  adapter ← found_or_unsupported (find_adapter p options.adapters)
  assert_qualified adapter.qualification options.qualified_at
  require (offers_no_tools request broker) "CLASSIFIER_MUST_HAVE_NO_TOOLS"
  ok (record { adapter = adapter; input = lease_input options request })
