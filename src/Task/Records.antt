-- ===== src/Task/Records.antt =====
-- src/task-runtime.ts: the closed records that identify a task, as their checks return them.
use agentmixer.Prelude.{ℕ, String, ◌==◌, Bool, true, false, ◌&&◌, Option, none, some, nat_eq}
use agentmixer.Validation.Data.{Provider, provider_eq}
use agentmixer.Accounts.Rows.{Lease}

pub data Authentication : Type 0 where
  subscription api : Authentication

unfoldable pub authentication_eq : Authentication → Authentication → Bool
authentication_eq subscription subscription = true
authentication_eq api api = true
authentication_eq _ _ = false

-- `AgentTaskRoute`
pub record Route : Type 0 where
  pub id : String
  pub provider : Provider
  pub authentication : Authentication

-- `AgentTaskModel`
pub record Model : Type 0 where
  pub id : String
  pub reasoning_effort : Option String
  pub service_tier : Option String

-- `CapabilityProfileIdentity`
pub record Profile : Type 0 where
  pub id : String
  pub version : ℕ
  pub digest : String

-- `AgentTaskRuntimeProof`
pub record RuntimeProof : Type 0 where
  pub runtime_version : String
  pub runtime_digest : String
  pub evidence_digest : String
  pub qualification_expires_at : ℕ

-- `AgentTaskAuthority`, of the one kind there is
pub record Authority : Type 0 where
  pub account_generation : ℕ
  pub model_catalog_digest : String

-- `AgentTaskLimits`
pub record Limits : Type 0 where
  pub max_run_ms : ℕ
  pub max_cleanup_ms : ℕ
  pub max_output_bytes : ℕ

-- `AgentTaskBinding`
pub record Binding : Type 0 where
  pub route : Route
  pub account_id : String
  pub workspace_id : String
  pub run_id : String
  pub profile : Profile
  pub model : Model
  pub runtime : RuntimeProof
  pub account_lease : Lease
  pub authority : Option Authority

-- `same`: two of these records have one JSON text if and only if their fields are equal
unfoldable pub same_text : Option String → Option String → Bool
same_text none none = true
same_text (some a) (some b) = a == b
same_text _ _ = false

unfoldable pub same_route : Route → Route → Bool
same_route a b =
    a.id == b.id
    && provider_eq a.provider b.provider
    && authentication_eq a.authentication b.authentication

unfoldable pub same_model : Model → Model → Bool
same_model a b =
    a.id == b.id
    && same_text a.reasoning_effort b.reasoning_effort
    && same_text a.service_tier b.service_tier

unfoldable pub same_profile : Profile → Profile → Bool
same_profile a b = a.id == b.id && nat_eq a.version b.version && a.digest == b.digest

unfoldable pub same_runtime : RuntimeProof → RuntimeProof → Bool
same_runtime a b =
    a.runtime_version == b.runtime_version
    && a.runtime_digest == b.runtime_digest
    && a.evidence_digest == b.evidence_digest
    && nat_eq a.qualification_expires_at b.qualification_expires_at

unfoldable pub same_lease : Lease → Lease → Bool
same_lease a b =
    provider_eq a.provider b.provider
    && a.account_id == b.account_id
    && a.owner == b.owner
    && nat_eq a.generation b.generation
    && nat_eq a.expires_at b.expires_at

unfoldable pub same_authority : Option Authority → Option Authority → Bool
same_authority none none = true
same_authority (some a) (some b) =
    nat_eq a.account_generation b.account_generation
    && a.model_catalog_digest == b.model_catalog_digest
same_authority _ _ = false

unfoldable pub same_binding : Binding → Binding → Bool
unfolding same_route same_model same_profile same_runtime same_lease same_authority
same_binding a b =
    same_route a.route b.route
    && a.account_id == b.account_id
    && a.workspace_id == b.workspace_id
    && a.run_id == b.run_id
    && same_profile a.profile b.profile
    && same_model a.model b.model
    && same_runtime a.runtime b.runtime
    && same_lease a.account_lease b.account_lease
    && same_authority a.authority b.authority
