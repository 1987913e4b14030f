-- ===== src/Task/Same.antt =====
-- The comparison of the records of src/task-runtime.ts is equality.
use agentmixer.Prelude.{String, true, Option, none, some, ◌≡◌, ◌↔◌, arith, eq_iff}
use agentmixer.Validation.Data.{provider_eq_iff}
use agentmixer.Accounts.Rows.{Lease}
use agentmixer.Task.Records.{
  Authentication, authentication_eq, Route, Model, Profile, RuntimeProof, Authority, Binding,
  same_text, same_route, same_model, same_profile, same_runtime, same_lease, same_authority,
  same_binding,
}

authentication_eq_iff : (a b : Authentication) → (authentication_eq a b ≡ true) ↔ (a ≡ b)
unfolding authentication_eq
authentication_eq_iff a b = ground arith

same_text_iff : (a b : Option String) → (same_text a b ≡ true) ↔ (a ≡ b)
unfolding same_text
same_text_iff none none = ground arith
same_text_iff none (some b) = ground arith
same_text_iff (some a) none = ground arith
same_text_iff (some a) (some b) = ground (arith, eq_iff a b)

pub same_route_iff : (a b : Route) → (same_route a b ≡ true) ↔ (a ≡ b)
unfolding same_route
same_route_iff a b = ground (
  arith,
  eq_iff a.id b.id,
  provider_eq_iff a.provider b.provider,
  authentication_eq_iff a.authentication b.authentication,
)

same_model_iff : (a b : Model) → (same_model a b ≡ true) ↔ (a ≡ b)
unfolding same_model
same_model_iff a b = ground (
  arith,
  eq_iff a.id b.id,
  same_text_iff a.reasoning_effort b.reasoning_effort,
  same_text_iff a.service_tier b.service_tier,
)

pub same_profile_iff : (a b : Profile) → (same_profile a b ≡ true) ↔ (a ≡ b)
unfolding same_profile
same_profile_iff a b = ground (arith, eq_iff a.id b.id, eq_iff a.digest b.digest)

same_runtime_iff : (a b : RuntimeProof) → (same_runtime a b ≡ true) ↔ (a ≡ b)
unfolding same_runtime
same_runtime_iff a b = ground (
  arith,
  eq_iff a.runtime_version b.runtime_version,
  eq_iff a.runtime_digest b.runtime_digest,
  eq_iff a.evidence_digest b.evidence_digest,
)

same_lease_iff : (a b : Lease) → (same_lease a b ≡ true) ↔ (a ≡ b)
unfolding same_lease
same_lease_iff a b = ground (
  arith,
  provider_eq_iff a.provider b.provider,
  eq_iff a.account_id b.account_id,
  eq_iff a.owner b.owner,
)

same_authority_iff : (a b : Option Authority) → (same_authority a b ≡ true) ↔ (a ≡ b)
unfolding same_authority
same_authority_iff none none = ground arith
same_authority_iff none (some b) = ground arith
same_authority_iff (some a) none = ground arith
same_authority_iff (some a) (some b) =
    ground (arith, eq_iff a.model_catalog_digest b.model_catalog_digest)

-- Two bindings are the same if and only if they are equal in every field.
pub same_binding_iff : (a b : Binding) → (same_binding a b ≡ true) ↔ (a ≡ b)
unfolding same_binding
same_binding_iff a b = ground (
  arith,
  same_route_iff a.route b.route,
  eq_iff a.account_id b.account_id,
  eq_iff a.workspace_id b.workspace_id,
  eq_iff a.run_id b.run_id,
  same_profile_iff a.profile b.profile,
  same_model_iff a.model b.model,
  same_runtime_iff a.runtime b.runtime,
  same_lease_iff a.account_lease b.account_lease,
  same_authority_iff a.authority b.authority,
)
