-- ===== src/Task/Proofs.antt =====
-- What the qualification of an adapter that `qualified` of src/task-runtime.ts accepts says.
use agentmixer.Prelude.{
  ℕ, ◌≤◌, String, ◌≡◌, ap, ◌∙◌, arith, Bool, true, ◌&&◌, leb, List, [], ◌∷◌, All, all, &&-true_iff,
}
use agentmixer.Prelude.Result.{ok, require, require-eq-ok, after_ok, ok_injective}
use mathlib.Core.Path.{subst}
use agentmixer.Validation.Data.{boolean, string, Fields, get, is_string, is_boolean}
use agentmixer.Validation.Laws.{is_string_lem, is_boolean_lem}
use agentmixer.Task.Records.{Profile, RuntimeProof, same_route, same_profile}
use agentmixer.Task.Same.{same_route_iff, same_profile_iff}
use agentmixer.Task.Read.{closed_record, route, profile, runtime_of}
use agentmixer.Task.Guards.{Request, Adapter, qualified, status_field, task_controls}

-- Are all controls attested?
abbrev pub AreAttested : Fields → Type 0
AreAttested controls =
    All (λ control. get controls control ≡ boolean true)
      ("noCommandTools" ∷ "exactToolInventory" ∷ "workspaceReadIsolation"
        ∷ "workspaceWriteIsolation" ∷ "isolatedConfiguration" ∷ "authOutsideWorkspace"
        ∷ "hostBrokerOnly" ∷ [])

-- A qualification for the request's route and profile, with every control, of the runtime that is
-- installed, that lasts until the deadline.
pub record IsFit (adapter : Adapter) (request : Request) (deadline : ℕ) (proof : RuntimeProof)
    : Type 0 where
  pub status : status_field adapter.qualification ≡ string "qualified"
  pub q : Fields
  pub is_closed :
      closed_record adapter.qualification (
        "status" ∷ "route" ∷ "profile" ∷ "runtimeVersion" ∷ "runtimeDigest" ∷ "evidenceDigest"
        ∷ "expiresAt" ∷ "controls" ∷ [])
      ≡ ok q
  pub controls : Fields
  pub controls_closed : closed_record (get q "controls") task_controls ≡ ok controls
  pub are_attested : AreAttested controls
  pub identity :
      runtime_of
        (get q "runtimeVersion")
        (get q "runtimeDigest")
        (get q "evidenceDigest")
        (get q "expiresAt")
      ≡ ok proof
  pub installed : Fields
  pub installed_closed : closed_record adapter.runtime ("version" ∷ "digest" ∷ []) ≡ ok installed
  pub version : get installed "version" ≡ string proof.runtime_version
  pub digest : get installed "digest" ≡ string proof.runtime_digest
  pub route_of : route (get q "route") ≡ ok request.route
  pub profile_of : profile (get q "profile") ≡ ok request.profile
  pub lasts : deadline ≤ proof.qualification_expires_at
  pub callable : adapter.callable ≡ true

attested_lem :
    (controls : Fields) (names : List String)
    → all (λ control. is_boolean (get controls control) true) names ≡ true
    → All (λ control. get controls control ≡ boolean true) names
attested_lem controls [] h = tt
attested_lem controls (name ∷ names) h =
    let (first, rest) =
      (&&-true_iff (is_boolean (get controls name) true)
          (all (λ control. is_boolean (get controls control) true) names)).0
        h in
    (is_boolean_lem (get controls name) first, attested_lem controls names rest)

abbrev matches : Profile → Request → Fields → RuntimeProof → ℕ → Bool
matches p request installed identity deadline =
    same_profile p request.profile
    && is_string (get installed "version") identity.runtime_version
    && is_string (get installed "digest") identity.runtime_digest
    && leb deadline identity.qualification_expires_at

four_tests :
    (a b c d : Bool) → (a && b && c && d) ≡ true → (a ≡ true) × (b ≡ true) × (c ≡ true) × (d ≡ true)
four_tests a b c d h = ground arith

leb-le : (m n : ℕ) → leb m n ≡ true → m ≤ n
leb-le m n h = ground arith

pub qualified-IsFit :
    (adapter : Adapter) (request : Request) (deadline : ℕ) (proof : RuntimeProof)
    → qualified adapter request deadline ≡ ok proof
    → IsFit adapter request deadline proof
unfolding qualified
qualified-IsFit adapter request deadline proof h =
    after_ok (require (is_string (status_field adapter.qualification) "qualified") _) _ h
      λ u status h. after_ok (closed_record adapter.qualification _) _ h λ q q_ok h.
        after_ok (closed_record (get q "controls") task_controls) _ h λ controls c_ok h.
          after_ok
            (require (all (λ control. is_boolean (get controls control) true) task_controls) _) _ h
            λ u attested h. after_ok (runtime_of _ _ _ _) _ h λ identity identity_ok h.
              after_ok (closed_record adapter.runtime _) _ h λ installed installed_ok h.
                after_ok (route (get q "route")) _ h λ r r_ok h.
                  after_ok (require (same_route r request.route) _) _ h λ u same h.
                    after_ok (profile (get q "profile")) _ h λ p p_ok h.
                      after_ok (require (matches p request installed identity deadline) _) _ h
                        λ u matched h. after_ok (require adapter.callable _) _ h λ u callable last.
                          let (e, version, digest, lasts) =
                            four_tests (same_profile p request.profile) _ _ _
                              (require-eq-ok _ _ matched) in
                          subst (IsFit adapter request deadline) (ok_injective last) (record {
                            status = is_string_lem _ "qualified" (require-eq-ok _ _ status);
                            q = q;
                            is_closed = q_ok;
                            controls = controls;
                            controls_closed = c_ok;
                            are_attested =
                                attested_lem controls task_controls (require-eq-ok _ _ attested);
                            identity = identity_ok;
                            installed = installed;
                            installed_closed = installed_ok;
                            version = is_string_lem _ identity.runtime_version version;
                            digest = is_string_lem _ identity.runtime_digest digest;
                            route_of =
                                r_ok
                                ∙ ap ok
                                    ((same_route_iff r request.route).0 (require-eq-ok _ _ same));
                            profile_of = p_ok ∙ ap ok ((same_profile_iff p request.profile).0 e);
                            lasts = leb-le deadline identity.qualification_expires_at lasts;
                            callable = require-eq-ok _ _ callable;
                          })
