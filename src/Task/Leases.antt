-- ===== src/Task/Leases.antt =====
-- What `runAgentTask` of src/task-runtime.ts admits a task on, and the lease that it acquires, which is
-- the one it checks for.
use agentmixer.Prelude.{
  ℕ, ltb, not, false, ◌&&◌, ◌==◌, Option, none, some, List, [], ◌∷◌, Bool, ◌⊎◌, if◌then◌else◌,
  Bool-cases, inl, inr, ◌*◌, ◌<◌, ◌+◌, ◌-◌, ◌≤◌, ◌≡◌, sym, ap, ◌∙◌, refl, true, arith, eq_iff,
}
use agentmixer.Prelude.Result.{ok, require, after_ok, ok_injective}
use mathlib.Core.Path.{subst}
use agentmixer.Validation.Data.{Value, string, nat, Fields, get, provider_eq_iff}
use agentmixer.Validation.{identifier, bounded_text, safe_integer, max_safe_integer}
use agentmixer.Validation.Laws.{
  provider-provider_name, identifier_again, safe_integer_bounds, safe_integer-nat,
  safe_integer-nat_value,
}
use agentmixer.Accounts.Rows.{Table, Lease}
use agentmixer.Accounts.Checks.{expiry}
use agentmixer.Accounts.Claims.{Claim, admitted}
use agentmixer.Accounts.Asked.{acquire-IsAsked}
use agentmixer.Accounts.{acquire}
use agentmixer.Task.Records.{Limits, Profile, Route, same_route}
use agentmixer.Task.Same.{same_route_iff, same_profile_iff}
use agentmixer.Task.Read.{route, profile, model, authority, limits, closed_record}
use agentmixer.Task.Guards.{
  Request, Adapter, Broker, Arrival, Admission, admit, read_request, execution_deadline,
  cleanup_deadline, input_keys, assert_capability_profile, qualified, routes, has_duplicate_id,
  available, find_route,
}
use agentmixer.Task.Proofs.{IsFit, qualified-IsFit}
use agentmixer.Task.{lease_input, is_asked_lease}

-- what a request that was read has for its names and its limits
IsRead : Limits → Request → Type 0
IsRead l r =
    (r.limits ≡ l)
    × (identifier (string r.account_id) ≡ ok r.account_id)
    × (identifier (string r.run_id) ≡ ok r.run_id)

read_request_lem :
    (l : Limits) (input : Fields) (r : Request) → read_request l input ≡ ok r → IsRead l r
unfolding read_request IsRead
read_request_lem l input r h = after_ok (route (get input "route")) _ h λ rt rt_ok h.
    after_ok (identifier (get input "accountId")) _ h λ account_id account_ok h.
      after_ok (identifier (get input "workspaceId")) _ h λ workspace_id workspace_ok h.
        after_ok (identifier (get input "runId")) _ h λ run_id run_ok h.
          after_ok (profile (get input "profile")) _ h λ p p_ok h.
            after_ok (model (get input "model")) _ h λ m m_ok h.
              after_ok (bounded_text (get input "purpose") 160 false) _ h λ purpose purpose_ok h.
                after_ok (bounded_text (get input "prompt") (512 * 1024) false) _ h
                  λ prompt prompt_ok h.
                    after_ok (authority (get input "authority")) _ h λ au au_ok last.
                      subst (IsRead l) (ok_injective last) (
                        refl,
                        identifier_again (get input "accountId") account_id account_ok,
                        identifier_again (get input "runId") run_id run_ok,
                      )

-- one of the adapters
abbrev pub IsListed : Adapter → List Adapter → Type 0
IsListed a [] = ⊥
IsListed a (b ∷ adapters) = (b ≡ a) ⊎ IsListed a adapters

-- what admission establishes
pub record IsReady (adapters : List Adapter) (arrival : Arrival) (broker : Broker) (a : Admission)
    : Type 0 where
  pub began : a.began + 3600000 ≤ max_safe_integer
  pub total : (1000 ≤ a.total) × (a.total ≤ 3600000)
  pub sums : a.request.limits.max_run_ms + a.request.limits.max_cleanup_ms ≡ a.total
  pub account_id : identifier (string a.request.account_id) ≡ ok a.request.account_id
  pub run_id : identifier (string a.request.run_id) ≡ ok a.request.run_id
  pub profile : (a.request.profile ≡ broker.profile) × (broker.registered ≡ true)
  pub bound : (a.request.run_id ≡ broker.run_id) × (a.request.workspace_id ≡ broker.workspace_id)
  pub running : (arrival.aborted ≡ false) × (arrival.active ≡ true)
  pub listed : IsListed a.adapter adapters
  pub route : route a.adapter.route ≡ ok a.request.route
  pub fit : IsFit a.adapter a.request (cleanup_deadline a) a.proof
  pub proof : qualified a.adapter a.request (cleanup_deadline a) ≡ ok a.proof
  pub in_time :
      (now : ℕ) × (safe_integer arrival.admitted a.began max_safe_integer ≡ ok now)
      × (now < execution_deadline a)

profile_lem :
    (broker : Broker) (p : Profile) {u : Unit {0}}
    → assert_capability_profile broker p ≡ ok u
    → (p ≡ broker.profile) × (broker.registered ≡ true)
unfolding assert_capability_profile
profile_lem broker p h = ground (arith, same_profile_iff p broker.profile)

bound_lem :
    (request : Request) (broker : Broker) {u : Unit {0}}
    → require
        (request.run_id == broker.run_id && request.workspace_id == broker.workspace_id)
        "TASK_BROKER_BINDING_MISMATCH"
      ≡ ok u
    → (request.run_id ≡ broker.run_id) × (request.workspace_id ≡ broker.workspace_id)
bound_lem request broker h =
    ground
      (arith, eq_iff request.run_id broker.run_id, eq_iff request.workspace_id broker.workspace_id)

available_lem : (o : Option Adapter) (a : Adapter) → available o ≡ ok a → o ≡ some a
available_lem none a h = cc
available_lem (some b) a h = cc

first_or_later :
    (wanted : Route) (b : Adapter) (adapters : List Adapter) (rest : List Route) (a : Adapter)
    (r : Route)
    → route b.route ≡ ok r
    → (find_route wanted rest adapters ≡ some a → route a.route ≡ ok wanted)
    → find_route wanted (r ∷ rest) (b ∷ adapters) ≡ some a
    → route a.route ≡ ok wanted
unfolding find_route
first_or_later wanted b adapters rest a r r_ok later found =
    elim (Bool-cases (same_route r wanted)) [
      | inl same ↦ ground (arith, same_route_iff r wanted)
      | inr other ↦ ground arith
    ]

-- The adapter that is found has the wanted route.
find_route_lem :
    (wanted : Route) (adapters : List Adapter) (rs : List Route) (a : Adapter)
    → routes adapters ≡ ok rs
    → find_route wanted rs adapters ≡ some a
    → route a.route ≡ ok wanted
unfolding find_route routes
find_route_lem wanted [] rs a h k = ground arith
find_route_lem wanted (b ∷ adapters) rs a h k = after_ok (route b.route) _ h λ r r_ok h.
    after_ok (routes adapters) _ h λ rest rest_ok last.
      first_or_later wanted b adapters rest a r r_ok (find_route_lem wanted adapters rest a rest_ok)
        (subst (λ l. find_route wanted l (b ∷ adapters) ≡ some a) (sym (ok_injective last)) k)

find_route-IsListed :
    (wanted : Route) (rs : List Route) (adapters : List Adapter) (a : Adapter)
    → find_route wanted rs adapters ≡ some a
    → IsListed a adapters
unfolding find_route
find_route-IsListed wanted [] adapters a h = cc
find_route-IsListed wanted (r ∷ rs) [] a h = cc
find_route-IsListed wanted (r ∷ rs) (b ∷ adapters) a h =
    by_test (same_route r wanted) (find_route wanted rs adapters)
      (find_route-IsListed wanted rs adapters a) h
  where
    by_test :
        (same : Bool) (found : Option Adapter)
        → (found ≡ some a → IsListed a adapters)
        → (if same then some b else found) ≡ some a
        → (b ≡ a) ⊎ IsListed a adapters
    by_test true found later h = inl (cc h)
    by_test false found later h = inr (later h)

time_lem :
    (now began : ℕ) (l k : Limits) {u : Unit {0}}
    → k ≡ l
    → require (ltb now (began + l.max_run_ms)) "TASK_ADMISSION_DEADLINE" ≡ ok u
    → now < began + k.max_run_ms
time_lem now began l k e h = rw e (ground arith)

-- A task that is admitted began with an hour to spare before the largest safe integer, runs and cleans
-- up within its bounded total, names the broker's registered profile, run and workspace, was not
-- aborted, was active, and was admitted before its execution deadline. Its adapter is one of the given
-- ones, is on the task's route, and has a qualification with every control, for the task's route and
-- profile and for the runtime that is installed, which lasts until the cleanup deadline.
pub admit-IsReady :
    (adapters : List Adapter) (arrival : Arrival) (input : Value) (broker : Broker) (a : Admission)
    → admit adapters arrival input broker ≡ ok a
    → IsReady adapters arrival broker a
unfolding admit IsRead
admit-IsReady adapters arrival value broker a h =
    after_ok (safe_integer arrival.began 0 (max_safe_integer - 3600000)) _ h λ began began_ok h.
      after_ok (closed_record value input_keys) _ h λ input input_ok h.
        after_ok (limits (get input "limits")) _ h λ l l_ok h.
          after_ok (safe_integer (nat (l.max_run_ms + l.max_cleanup_ms)) 1000 3600000) _ h
            λ total total_ok h.
              after_ok (require arrival.is_signal "TASK_SIGNAL_INVALID") _ h λ u signal_ok h.
                after_ok (read_request l input) _ h λ request request_ok h.
                  after_ok (assert_capability_profile broker request.profile) _ h λ u profile_ok h.
                    after_ok
                      (require
                        (request.run_id == broker.run_id
                          && request.workspace_id == broker.workspace_id)
                        "TASK_BROKER_BINDING_MISMATCH")
                      _ h
                      λ u bound_ok h.
                        after_ok (require (not arrival.aborted) "TASK_CANCELLED_BEFORE_ADAPTER") _ h
                          λ u running_ok h.
                            after_ok (require arrival.active "CAPABILITY_REVOKED") _ h
                              λ u active_ok h. after_ok (routes adapters) _ h λ rs rs_ok h.
                                after_ok
                                  (require (not (has_duplicate_id rs)) "TASK_DUPLICATE_ROUTE") _ h
                                  λ u duplicate_ok h.
                                    after_ok (available (find_route request.route rs adapters)) _ h
                                      λ adapter adapter_ok h.
                                        after_ok (qualified adapter request (began + total)) _ h
                                          λ proof proof_ok h.
                                            after_ok
                                              (safe_integer arrival.admitted began max_safe_integer)
                                              _ h
                                              λ now now_ok h.
                                                after_ok
                                                  (require (ltb now (began + l.max_run_ms))
                                                    "TASK_ADMISSION_DEADLINE")
                                                  _ h
                                                  λ u time_ok last.
                                                    let read =
                                                      read_request_lem l input request request_ok in
                                                    subst (IsReady adapters arrival broker)
                                                      (ok_injective last)
                                                      record {
                                                        began = omega (
                                                          arith,
                                                          safe_integer_bounds arrival.began 0
                                                            (max_safe_integer - 3600000) began
                                                            began_ok,
                                                        );
                                                        total =
                                                            let bounds =
                                                            safe_integer_bounds
                                                            (nat (l.max_run_ms + l.max_cleanup_ms))
                                                            1000 3600000 total total_ok in
                                                            (bounds.0, bounds.1);
                                                        sums =
                                                            ap
                                                            (λ (x : Limits).
                                                            x.max_run_ms + x.max_cleanup_ms)
                                                            read.0
                                                            ∙ safe_integer-nat_value
                                                            (l.max_run_ms + l.max_cleanup_ms) 1000
                                                            3600000 total total_ok;
                                                        account_id = read.1;
                                                        run_id = read.2;
                                                        profile =
                                                            profile_lem broker request.profile
                                                            profile_ok;
                                                        bound = bound_lem request broker bound_ok;
                                                        running = (
                                                          ground (arith, running_ok),
                                                          ground (arith, active_ok),
                                                        );
                                                        listed =
                                                            find_route-IsListed request.route rs
                                                            adapters adapter
                                                            (available_lem _ adapter adapter_ok);
                                                        route =
                                                            find_route_lem request.route adapters rs
                                                            adapter rs_ok
                                                            (available_lem _ adapter adapter_ok);
                                                        fit =
                                                            qualified-IsFit adapter request
                                                            (began + total) proof proof_ok;
                                                        proof = proof_ok;
                                                        in_time = (
                                                          now,
                                                          now_ok,
                                                          time_lem now began l request.limits read.0
                                                            time_ok,
                                                        );
                                                      }

-- the claim that the lease of a task is
abbrev claim_of : Admission → Claim
claim_of a = record {
  provider = a.request.route.provider;
  account_id = a.request.account_id;
  owner = a.request.run_id;
  expires_at = a.began + a.total;
}

expiry_lem :
    (adapters : List Adapter) (arrival : Arrival) (broker : Broker) (a : Admission)
    → IsReady adapters arrival broker a
    → expiry (nat a.began) (nat a.total) ≡ ok (a.began + a.total)
unfolding expiry
expiry_lem adapters arrival broker a h = rw (
  safe_integer-nat a.began 0 (max_safe_integer - 3600000) (omega arith) (omega (arith, h.began))
      (omega (arith, h.began)),
  safe_integer-nat a.total 1000 3600000 h.total.0 h.total.1 (omega (arith, h.total.1)),
)

claim_lem :
    (adapters : List Adapter) (arrival : Arrival) (broker : Broker) (a : Admission)
    → IsReady adapters arrival broker a
    → admitted (lease_input a) ≡ ok (claim_of a)
unfolding admitted
claim_lem adapters arrival broker a h = rw (
  provider-provider_name a.request.route.provider,
  h.account_id,
  h.run_id,
  expiry_lem adapters arrival broker a h,
)

-- The lease of an admitted task passes the check that it is the one that was asked for, so no lease
-- is left behind by that check.
pub acquire_asked :
    (adapters : List Adapter) (arrival : Arrival) (broker : Broker) (a : Admission) (t t' : Table)
    (lease : Lease)
    → IsReady adapters arrival broker a
    → acquire (lease_input a) t ≡ (ok lease, t')
    → is_asked_lease a lease ≡ true
acquire_asked adapters arrival broker a t t' lease ready h =
    let asked =
      acquire-IsAsked (lease_input a) (claim_of a) t t' lease
        (claim_lem adapters arrival broker a ready) h in
    ground (
      arith,
      asked.provider,
      asked.account_id,
      asked.owner,
      asked.expires_at,
      eq_iff lease.account_id a.request.account_id,
      eq_iff lease.owner a.request.run_id,
      provider_eq_iff lease.provider a.request.route.provider,
    )
