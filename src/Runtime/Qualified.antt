-- ===== src/Runtime/Qualified.antt =====
-- What a run of src/runtime.ts that succeeds had been admitted on: its adapter with its
-- qualification, its binding to the broker, the tools of a classifier, and the lease.
use agentmixer.Prelude.{
  ◌⊎◌, inl, inr, Bool-cases, ℕ, suc, ◌*◌, ◌≢◌, ◌<◌, ◌≤◌, ◌≡◌, refl, ap, ◌∙◌, String, true, false,
  not, Option, none, some, List, [], ◌∷◌, arith, eq_iff, length, ◌==◌, ◌&&◌, if◌then◌else◌,
}
use agentmixer.Prelude.Result.{Result, ok, err, require, after_ok, ok_injective}
use agentmixer.Validation.Data.{Value, string, number, Provider, provider_eq, provider_eq_iff}
use agentmixer.Validation.{identifier, bounded_text, provider, safe_integer, max_safe_integer}
use agentmixer.Validation.Digest.{matches_digest}
use agentmixer.Validation.Laws.{identifier_lem}
use agentmixer.Runtime.Adapters.{
  Controls, Evidence, Qualification, qualified, unqualified, returned, stopped, failed, Outcome,
  Adapter, Request, Broker, Options,
}
use agentmixer.Runtime.Admission.{
  Plan, admit, assert_qualified, check_evidence, lease_input, found_or_unsupported, evidence_holds,
  has_all_controls, contact_tool_profile, is_ok, find_adapter, offers_no_tools, admits_purpose,
}
use agentmixer.Runtime.{World, settle, await_adapter, run, run_admitted}
use agentmixer.Accounts.Rows.{Table, Lease}
use agentmixer.Accounts.{acquire}
use agentmixer.Prelude.Exec.{proceed, pure, throw, ◌>>=◌}
use agentmixer.Accounts.Return.{give_back}
use mathlib.Core.Path.{subst}

abbrev pub all_controls : Controls
all_controls = record {
  no_command_tools = true;
  exact_tool_inventory = true;
  contact_read_isolation = true;
  contact_write_isolation = true;
  isolated_configuration = true;
  auth_outside_workspace = true;
  host_broker_only = true;
}

-- the evidence that the runtime accepts at a time
pub record IsSound (e : Evidence) (now : ℕ) : Type 0 where
  pub profile : e.profile ≡ "xcb.scoped-tools.v1"
  pub expires : (t : ℕ) × (safe_integer (number e.expires_at) 0 max_safe_integer ≡ ok t) × (now < t)
  pub runtime_digest : matches_digest e.runtime_digest ≡ true
  pub evidence_digest : matches_digest e.evidence_digest ≡ true
  pub runtime_version : e.runtime_version ≢ ""
  pub controls : e.controls ≡ all_controls

safe_integer-lower :
    (v : Value) (lo hi t : ℕ)
    → safe_integer v lo hi ≡ ok t
    → (safe_integer v 0 hi ≡ ok t) × (lo ≤ t)
unfolding safe_integer
safe_integer-lower v lo hi t h = ground arith

expires_lem :
    (v : Value) (now : ℕ)
    → is_ok (safe_integer v (suc now) max_safe_integer) ≡ true
    → (t : ℕ) × (safe_integer v 0 max_safe_integer ≡ ok t) × (now < t)
expires_lem v now h = go (safe_integer v (suc now) max_safe_integer) refl h
  where
    go :
        (r : Result ℕ)
        → safe_integer v (suc now) max_safe_integer ≡ r
        → is_ok r ≡ true
        → (t : ℕ) × (safe_integer v 0 max_safe_integer ≡ ok t) × (now < t)
    go (ok t) e k =
        let (f, g) = safe_integer-lower v (suc now) max_safe_integer t e in (t, f, omega (arith, g))
    go (err c) e k = cc

controls_lem : (c : Controls) → has_all_controls c ≡ true → c ≡ all_controls
controls_lem c h = ground arith

sound_lem :
    (e : Evidence) (now : ℕ)
    → evidence_holds e now ≡ true
    → has_all_controls e.controls ≡ true
    → IsSound e now
sound_lem e now h k = record {
  profile = ground (arith, eq_iff e.profile contact_tool_profile);
  expires = expires_lem (number e.expires_at) now (ground arith);
  runtime_digest = ground arith;
  evidence_digest = ground arith;
  runtime_version = λ blank. ground (arith, eq_iff e.runtime_version "");
  controls = controls_lem e.controls k;
}

check_evidence_lem :
    (q : Qualification) (now : ℕ) {u : Unit {0}}
    → check_evidence q now ≡ ok u
    → (e : Evidence) × (q ≡ qualified e) × IsSound e now
unfolding check_evidence
check_evidence_lem (unqualified reason) now h = cc
check_evidence_lem (qualified e) now h = (e, refl, sound_lem e now (ground arith) (ground arith))

-- what `assertQualified` lets through
pub IsQualified : Qualification → Value → Type 0
IsQualified q now =
    (t : ℕ) × (e : Evidence) × (safe_integer now 0 max_safe_integer ≡ ok t)
    × (q ≡ qualified e)
    × IsSound e t

pub assert_qualified_lem :
    (q : Qualification) (now : Value) {u : Unit {0}}
    → assert_qualified q now ≡ ok u
    → IsQualified q now
unfolding assert_qualified IsQualified
assert_qualified_lem q now {u = u} h = go (safe_integer now 0 max_safe_integer) refl h
  where
    go :
        (r : Result ℕ)
        → safe_integer now 0 max_safe_integer ≡ r
        → elim r [ ok t ↦ check_evidence q t | err e ↦ err e ] ≡ ok u
        → IsQualified q now
    go (ok t) p k = let (e, f, g) = check_evidence_lem q t k in (t, e, p, f, g)
    go (err c) p k = cc

-- the first of the adapters that is of that provider
abbrev pub IsFirst : Provider → List Adapter → Adapter → Type 0
IsFirst p [] a = ⊥
IsFirst p (b ∷ adapters) a =
    ((b.provider ≡ p) × (b ≡ a)) ⊎ ((b.provider ≢ p) × IsFirst p adapters a)

found_or_later :
    (p : Provider) (b : Adapter) (adapters : List Adapter) (a : Adapter) (found : Option Adapter)
    → (found ≡ some a → IsFirst p adapters a)
    → (if provider_eq b.provider p then some b else found) ≡ some a
    → IsFirst p (b ∷ adapters) a
found_or_later p b adapters a found later h = elim (Bool-cases (provider_eq b.provider p)) [
  | inl same ↦ inl (
    (provider_eq_iff b.provider p).0 same,
    taken (subst (λ t. (if t then some b else found) ≡ some a) same h),
  )
  | inr other ↦ inr (
    λ e. ground (arith, (provider_eq_iff b.provider p).1 e),
    later (subst (λ t. (if t then some b else found) ≡ some a) other h),
  )
]
  where
    taken : some b ≡ some a → b ≡ a
    taken h = cc

find_adapter-IsFirst :
    (p : Provider) (adapters : List Adapter) (a : Adapter)
    → find_adapter p adapters ≡ some a
    → IsFirst p adapters a
unfolding find_adapter
find_adapter-IsFirst p [] a h = cc
find_adapter-IsFirst p (b ∷ adapters) a h =
    found_or_later p b adapters a (find_adapter p adapters) (find_adapter-IsFirst p adapters a) h

-- what the guards of a run have established when they let it through
pub record IsAdmitted (options : Options) (request : Request) (broker : Broker) (plan : Plan)
    : Type 0 where
  pub provider_of : Provider
  pub is_provider : provider request.provider ≡ ok provider_of
  pub is_first : IsFirst provider_of options.adapters plan.adapter
  pub qualified : IsQualified plan.adapter.qualification options.qualified_at
  pub workspace_id : request.workspace_id ≡ string broker.workspace_id
  pub run_id : request.run_id ≡ string broker.run_id
  pub running : request.aborted ≡ false
  pub purpose : (request.purpose ≡ "classify") ⊎ (request.purpose ≡ "respond")
  pub classifier : (request.purpose ≢ "classify") ⊎ (length broker.tools ≡ 0)
  pub input : plan.input ≡ lease_input options request

found_lem : (o : Option Adapter) (a : Adapter) → found_or_unsupported o ≡ ok a → o ≡ some a
found_lem none a h = cc
found_lem (some b) a h = cc

both_equal :
    (workspace_id run_id : String) (broker : Broker) {u : Unit {0}}
    → require
        (workspace_id == broker.workspace_id && run_id == broker.run_id)
        "BROKER_BINDING_MISMATCH"
      ≡ ok u
    → (workspace_id ≡ broker.workspace_id) × (run_id ≡ broker.run_id)
both_equal workspace_id run_id broker h =
    ground (arith, eq_iff workspace_id broker.workspace_id, eq_iff run_id broker.run_id)

no_tools :
    (request : Request) (broker : Broker) {u : Unit {0}}
    → require (offers_no_tools request broker) "CLASSIFIER_MUST_HAVE_NO_TOOLS" ≡ ok u
    → (request.purpose ≢ "classify") ⊎ (length broker.tools ≡ 0)
no_tools request broker h = elim (Bool-cases (request.purpose == "classify")) [
  | inl classify ↦ inr (ground arith)
  | inr other ↦ inl (λ e. ground (arith, eq_iff request.purpose "classify"))
]

known_purpose :
    (purpose : String) {u : Unit {0}}
    → require (admits_purpose purpose) "INVALID_RUN_PURPOSE" ≡ ok u
    → (purpose ≡ "classify") ⊎ (purpose ≡ "respond")
known_purpose purpose h = ground (arith, eq_iff purpose "classify", eq_iff purpose "respond")

admit-IsAdmitted :
    (options : Options) (request : Request) (broker : Broker) (plan : Plan)
    → admit options request broker ≡ ok plan
    → IsAdmitted options request broker plan
unfolding admit
admit-IsAdmitted options request broker plan h =
    after_ok (provider request.provider) _ h λ p p_ok h.
      after_ok (identifier request.run_id) _ h λ run_id run_ok h.
        after_ok (identifier request.account_id) _ h λ account_id account_ok h.
          after_ok (identifier request.workspace_id) _ h λ workspace_id workspace_ok h.
            after_ok (bounded_text request.prompt (512 * 1024) false) _ h λ prompt prompt_ok h.
              after_ok (bounded_text request.model 160 false) _ h λ model model_ok h.
                after_ok (require (admits_purpose request.purpose) "INVALID_RUN_PURPOSE") _ h
                  λ u purpose_ok h. after_ok _ _ h λ u bound h.
                    after_ok (require (not request.aborted) "AbortError") _ h λ u running h.
                      after_ok (found_or_unsupported (find_adapter p options.adapters)) _ h
                        λ adapter found h.
                          after_ok (assert_qualified adapter.qualification options.qualified_at) _ h
                            λ u attested h.
                              after_ok (require (offers_no_tools request broker) _) _ h
                                λ u tools last.
                                  subst (IsAdmitted options request broker) (ok_injective last)
                                    record {
                                      provider_of = p;
                                      is_provider = p_ok;
                                      is_first = find_adapter-IsFirst p options.adapters adapter (
                                          found_lem (find_adapter p options.adapters) adapter
                                            found);
                                      qualified =
                                          assert_qualified_lem adapter.qualification
                                            options.qualified_at attested;
                                      workspace_id =
                                          identifier_lem request.workspace_id workspace_id
                                            workspace_ok
                                          ∙ ap string
                                              (both_equal workspace_id run_id broker bound).0;
                                      run_id =
                                          identifier_lem request.run_id run_id run_ok
                                          ∙ ap string
                                              (both_equal workspace_id run_id broker bound).1;
                                      running = ground (arith, running);
                                      purpose = known_purpose request.purpose purpose_ok;
                                      classifier = no_tools request broker tools;
                                      input = refl;
                                    }

-- how a run came to its output: the plan of its guards, the lease of its account, and the adapter's
-- answer
pub record IsAnswered (options : Options) (request : Request) (broker : Broker) (w : World)
    (output : Value) : Type 0 where
  pub plan : Plan
  pub is_admitted : IsAdmitted options request broker plan
  pub lease : Lease
  pub leased : Table
  pub acquired : acquire (lease_input options request) w.leases ≡ (ok lease, leased)
  pub left : Table
  pub ran : plan.adapter.run request broker leased ≡ (returned true output, left)

settle_output :
    (lease : Lease) (outcome : Outcome) (left : Table) (output : Value)
    → (settle lease outcome left).0 ≡ ok output
    → outcome ≡ returned true output
unfolding settle
settle_output lease (returned true x) left output h = by_return (give_back lease left) h
  where
    by_return :
        (o : Result (Unit {0}) × Table)
        → (proceed o (λ _. pure x)).0 ≡ ok output
        → returned true x ≡ returned true output
    by_return (ok u, t) h = cc
    by_return (err e, t) h = cc
settle_output lease (returned false x) left output h = cc
settle_output lease (stopped message) left output h = by_return (give_back lease left) h
  where
    by_return :
        (o : Result (Unit {0}) × Table)
        → (proceed o (λ _. throw message)).0 ≡ ok output
        → stopped message ≡ returned true output
    by_return (ok u, t) h = cc
    by_return (err e, t) h = cc
settle_output lease (failed message) left output h = cc

module _ (options : Options) (request : Request) (broker : Broker) (w : World)
    (output : Value) where
  after_run :
      (plan : Plan) (lease : Lease) (leased left : Table) (outcome : Outcome)
      → IsAdmitted options request broker plan
      → acquire plan.input w.leases ≡ (ok lease, leased)
      → plan.adapter.run request broker leased ≡ (outcome, left)
      → (settle lease outcome left).0 ≡ ok output
      → IsAnswered options request broker w output
  after_run plan lease leased left outcome admitted acquired ran h = record {
    plan = plan;
    is_admitted = admitted;
    lease = lease;
    leased = leased;
    acquired = subst (λ i. acquire i w.leases ≡ (ok lease, leased)) admitted.input acquired;
    left = left;
    ran =
        subst (λ o. plan.adapter.run request broker leased ≡ (o, left))
          (settle_output lease outcome left output h) ran;
  }

  after_acquire :
      (plan : Plan) (r : Result Lease × Table)
      → IsAdmitted options request broker plan
      → acquire plan.input w.leases ≡ r
      → (proceed r (λ lease. await_adapter plan.adapter request broker >>= settle lease)).0
        ≡ ok output
      → IsAnswered options request broker w output
  after_acquire plan (err e, t) admitted acquired h = cc
  after_acquire plan (ok lease, t) admitted acquired h =
      let (outcome, left) = plan.adapter.run request broker t in
      after_run plan lease t left outcome admitted acquired refl h

  after_guards :
      (r : Result Plan)
      → admit options request broker ≡ r
      → (proceed
          (r, w.leases)
          (λ plan. acquire plan.input >>= λ lease.
            await_adapter plan.adapter request broker >>= settle lease)).0
        ≡ ok output
      → IsAnswered options request broker w output
  after_guards (err e) admitted h = cc
  after_guards (ok plan) admitted h =
      after_acquire plan (acquire plan.input w.leases)
        (admit-IsAdmitted options request broker plan admitted) refl h

-- A run that answers with an output was admitted: its adapter is the first of the runtime's that is of
-- the request's provider, and was qualified at the time of the run by sound evidence with all
-- controls, the request is bound to the broker's workspace and run and was not aborted, its purpose is
-- one of the two and a classifier had no tools. The lease was acquired for the request's account in
-- the name of the run, and the output is what that adapter returned under it with the proof that its
-- process has stopped.
pub run_authorized :
    (options : Options) (request : Request) (broker : Broker) (w w' : World) (output : Value)
    → run options request broker w ≡ (ok output, w')
    → IsAnswered options request broker w output
unfolding run run_admitted
run_authorized options request broker w w' output h =
    after_guards options request broker w output (admit options request broker) refl
      (ap (λ (x : Result Value × World). x.0) h)
