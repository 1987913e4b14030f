-- ===== src/Task/Read.antt =====
-- src/task-runtime.ts: the checks that read a closed record from a value of unknown type.
use agentmixer.Prelude.{
  ℕ, suc, ◌-◌, String, Bool, true, false, not, ◌&&◌, ◌||◌, Option, none, some, List, [], ◌∷◌,
  length, ltb, includes, if◌then◌else◌,
}
use agentmixer.Prelude.Result.{Result, ok, err, require, ◌>>=◌, ◌>>◌}
use agentmixer.Validation.Data.{
  Value, undefined, null, string, object, plain, Attr, enumerable, Fields, end, field, get,
  is_string,
}
use agentmixer.Validation.{identifier, bounded_text, provider, safe_integer, max_safe_integer}
use agentmixer.Validation.Digest.{matches_digest}
use agentmixer.Accounts.Rows.{Lease}
use agentmixer.Task.Records.{
  Authentication, subscription, api, Route, Model, Profile, RuntimeProof, Authority, Limits,
  Binding,
}

-- `Reflect.ownKeys(value).length`
unfoldable pub own_length : Fields → ℕ
own_length end = 0
own_length (field k attr v fs) = suc (own_length fs)

abbrev is_enumerable : Attr → Bool
is_enumerable enumerable = true
is_enumerable _ = false

-- Is every own property an enumerable data property with one of the keys?
unfoldable pub is_closed : Fields → List String → Bool
is_closed end allowed = true
is_closed (field k attr v fs) allowed =
    is_enumerable attr && includes allowed k && is_closed fs allowed

abbrev optional_keys : List String → ℕ
optional_keys allowed = if includes allowed "authority" then 1 else 0

-- `record`
unfoldable pub closed_record : Value → List String → Result Fields
unfolding own_length is_closed
closed_record (object plain fields) allowed =
    if ltb (own_length fields) (length allowed - optional_keys allowed)
      || ltb (length allowed) (own_length fields)
      || not (is_closed fields allowed)
    then err "TASK_RECORD_INVALID"
    else ok fields
closed_record _ allowed = err "TASK_RECORD_INVALID"

unfoldable pub digest : Value → Result String
digest (string s) = if matches_digest s then ok s else err "TASK_DIGEST_INVALID"
digest _ = err "TASK_DIGEST_INVALID"

abbrev authentication : Value → Result Authentication
authentication v =
    if is_string v "subscription"
    then ok subscription
    else if is_string v "api"
    then ok api
    else err "TASK_AUTHENTICATION_INVALID"

unfoldable pub route : Value → Result Route
route value = do
  r ← closed_record value ("id" ∷ "provider" ∷ "authentication" ∷ [])
  a ← authentication (get r "authentication")
  id ← identifier (get r "id")
  p ← provider (get r "provider")
  ok (record { id = id; provider = p; authentication = a })

-- `value === null ? null : …`
abbrev pub nullable {ℓ} : {A : Type ℓ} → (Value → Result A) → Value → Result (Option A)
nullable read null = ok none
nullable read v = do a ← read v; ok (some a)

abbrev bounded_label : Value → Result String
bounded_label v = bounded_text v 160 false

unfoldable pub model : Value → Result Model
model value = do
  m ← closed_record value ("id" ∷ "reasoningEffort" ∷ "serviceTier" ∷ [])
  id ← bounded_label (get m "id")
  effort ← nullable bounded_label (get m "reasoningEffort")
  tier ← nullable bounded_label (get m "serviceTier")
  ok (record { id = id; reasoning_effort = effort; service_tier = tier })

unfoldable pub profile : Value → Result Profile
unfolding digest
profile value = do
  p ← closed_record value ("id" ∷ "version" ∷ "digest" ∷ [])
  id ← identifier (get p "id")
  version ← safe_integer (get p "version") 1 max_safe_integer
  d ← digest (get p "digest")
  ok (record { id = id; version = version; digest = d })

-- the fields of a runtime proof, as `runtime` reads them
unfoldable pub runtime_of :
    (version runtime_digest evidence_digest expires_at : Value) → Result RuntimeProof
unfolding digest
runtime_of version runtime_digest evidence_digest expires_at = do
  v ← bounded_label version
  r ← digest runtime_digest
  e ← digest evidence_digest
  n ← safe_integer expires_at 0 max_safe_integer
  ok (record {
    runtime_version = v;
    runtime_digest = r;
    evidence_digest = e;
    qualification_expires_at = n;
  })

unfoldable pub runtime : Value → Result RuntimeProof
unfolding runtime_of
runtime value = do
  r ←
      closed_record value
        ("runtimeVersion" ∷ "runtimeDigest" ∷ "evidenceDigest" ∷ "qualificationExpiresAt" ∷ [])
  runtime_of (get r "runtimeVersion") (get r "runtimeDigest") (get r "evidenceDigest")
      (get r "qualificationExpiresAt")

unfoldable pub lease_snapshot : Value → Result Lease
lease_snapshot value = do
  lease ← closed_record value ("provider" ∷ "accountId" ∷ "owner" ∷ "generation" ∷ "expiresAt" ∷ [])
  p ← provider (get lease "provider")
  id ← identifier (get lease "accountId")
  owner ← identifier (get lease "owner")
  generation ← safe_integer (get lease "generation") 1 max_safe_integer
  expires_at ← safe_integer (get lease "expiresAt") 0 max_safe_integer
  ok (record {
    provider = p;
    account_id = id;
    owner = owner;
    generation = generation;
    expires_at = expires_at;
  })

authority_of : Value → Result Authority
unfolding digest
authority_of value = do
  a ← closed_record value ("kind" ∷ "accountGeneration" ∷ "modelCatalogDigest" ∷ [])
  require (is_string (get a "kind") "codex-managed") "TASK_AUTHORITY_INVALID"
  generation ← safe_integer (get a "accountGeneration") 1 max_safe_integer
  d ← digest (get a "modelCatalogDigest")
  ok (record { account_generation = generation; model_catalog_digest = d })

unfoldable pub authority : Value → Result (Option Authority)
unfolding authority_of
authority undefined = ok none
authority value = do a ← authority_of value; ok (some a)

unfoldable pub limits : Value → Result Limits
limits value = do
  l ← closed_record value ("maxRunMs" ∷ "maxCleanupMs" ∷ "maxOutputBytes" ∷ [])
  max_run_ms ← safe_integer (get l "maxRunMs") 1 3_599_999
  max_cleanup_ms ← safe_integer (get l "maxCleanupMs") 1 3_599_999
  max_output_bytes ← safe_integer (get l "maxOutputBytes") 1 67_108_864
  ok (record {
    max_run_ms = max_run_ms;
    max_cleanup_ms = max_cleanup_ms;
    max_output_bytes = max_output_bytes;
  })

abbrev pub binding_keys : List String
binding_keys =
    "route" ∷ "accountId" ∷ "workspaceId" ∷ "runId" ∷ "profile" ∷ "model" ∷ "runtime"
    ∷ "accountLease" ∷ "authority" ∷ []

unfoldable pub binding : Fields → Result Binding
unfolding route profile model runtime lease_snapshot authority
binding value = do
  r ← route (get value "route")
  account_id ← identifier (get value "accountId")
  workspace_id ← identifier (get value "workspaceId")
  run_id ← identifier (get value "runId")
  p ← profile (get value "profile")
  m ← model (get value "model")
  proof ← runtime (get value "runtime")
  lease ← lease_snapshot (get value "accountLease")
  a ← authority (get value "authority")
  ok (record {
    route = r;
    account_id = account_id;
    workspace_id = workspace_id;
    run_id = run_id;
    profile = p;
    model = m;
    runtime = proof;
    account_lease = lease;
    authority = a;
  })
