-- ===== src/Task/Custody.antt =====
-- What `runAgentTask` of src/task-runtime.ts does to the lease that it acquired.
use agentmixer.Prelude.{
  ℕ, List, String, ◌≡◌, ◌≢◌, refl, sym, ap, ◌∙◌, ◌⊎◌, inl, inr, Bool, true, false, Option, none,
  some, arith, if◌then◌else◌,
}
use agentmixer.Prelude.Result.{Result, ok, err}
use agentmixer.Prelude.Exec.{Exec, ◌>>=◌, ◌>>◌, lift}
use agentmixer.Prelude.Readers.{after_reader}
use mathlib.Core.Path.{subst}
use agentmixer.Validation.Data.{Value}
use agentmixer.Validation.{safe_integer, max_safe_integer}
use agentmixer.Accounts.Rows.{Table, Lease, find_row}
use agentmixer.Accounts.Checks.{validate_lease}
use agentmixer.Accounts.Slots.{IsKeyed}
use agentmixer.Accounts.Custody.{row_of}
use agentmixer.Accounts.Release.{find_row-release_held, acquire-valid}
use agentmixer.Accounts.Fencing.{acquire-HasAcquired}
use agentmixer.Task.Leases.{acquire_asked, admit-IsReady}
use agentmixer.Accounts.Return.{give_back, give_back_owned}
use agentmixer.Accounts.{acquire, freed}
use agentmixer.Task.Receipts.{StopEvidence, stop_evidence}
use agentmixer.Task.Guards.{Adapter, Broker, Arrival, Admission, admit}
use agentmixer.Task.Events.{Reason, Course, early, stop_once, when_settled, final_reason}
use agentmixer.Task.{
  TaskResult, lease_input, expected_binding, leave, early_code, settled_completion,
  evidence_or_unproven, execute, start, hold, run_admitted, run_agent_task, await_close,
}

-- The adapter has given evidence that everything it started has stopped, and the broker has closed.
pub record IsStopped (a : Admission) (lease : Lease) (course : Course) : Type 0 where
  pub value : Value
  pub given : course.evidence ≡ some value
  pub closed : course.closed ≡ true
  pub joined_at : ℕ
  pub evidence : StopEvidence
  pub accepted : stop_evidence value (expected_binding a lease) a.began joined_at ≡ ok evidence

-- The adapter is not invoked: the task is cancelled or out of time before, or its broker revoked.
pub IsUninvoked : Admission → Course → Type 0
IsUninvoked a course = (early a course ≢ none) ⊎ (course.active ≡ false)

-- the account is held under the lease, or free with a reason
pub IsKept : Type 0 → Lease → Table → Type 0
IsKept Reason lease t =
    (find_row lease.provider lease.account_id t ≡ some (row_of lease))
    ⊎ ((find_row lease.provider lease.account_id t ≡ some (freed (row_of lease))) × Reason)

IsKept-here :
    (R : Type 0) (lease : Lease) (t : Table)
    → find_row lease.provider lease.account_id t ≡ some (row_of lease)
    → IsKept R lease t
unfolding IsKept
IsKept-here R lease t held = inl held

-- a block that gives the lease back and goes on without changing the table
given_back :
    (R : Type 0) {A : Type 0} (lease : Lease) (t : Table)
    → IsKeyed t
    → validate_lease lease ≡ ok tt
    → find_row lease.provider lease.account_id t ≡ some (row_of lease)
    → (o : Result A) → R
    → IsKept R lease ((give_back lease >> lift o) t).1
unfolding IsKept
given_back R lease t keyed valid held o r =
    inr
      (rw (give_back_owned lease t keyed valid held) (find_row-release_held lease t valid held), r)

weaken : {R S : Type 0} (lease : Lease) (t : Table) → (R → S) → IsKept R lease t → IsKept S lease t
unfolding IsKept
weaken lease t f (inl held) = inl held
weaken lease t f (inr (free, r)) = inr (free, f r)

value_lem :
    (o : Option Value) (closed : Bool) (v : Value)
    → evidence_or_unproven o closed ≡ ok v
    → (o ≡ some v) × (closed ≡ true)
value_lem none closed v h = cc
value_lem (some w) true v h = ground arith
value_lem (some w) false v h = cc

module _ (a : Admission) (lease : Lease) (course : Course) (t : Table)
    (keyed : IsKeyed (course.elsewhere t)) (valid : validate_lease lease ≡ ok tt)
    (untouched : find_row lease.provider lease.account_id t ≡ some (row_of lease))
    (held : find_row lease.provider lease.account_id (course.elsewhere t)
      ≡ some (row_of lease)) where
  leave-IsKept : (code : String) (R : Type 0) → R → IsKept R lease (leave lease course code t).1
  unfolding leave
  leave-IsKept code R r =
      after_reader (λ o. IsKept R lease o.1) (await_close course.closed) _ (course.elsewhere t)
        (λ s. refl) (λ e. IsKept-here R lease (course.elsewhere t) held)
        (λ u _. given_back R lease (course.elsewhere t) keyed valid held (err code) r)

  -- an outcome of the execution that keeps the account, or frees it once everything has stopped
  abbrev Keeps : Result TaskResult × Table → Type 0
  Keeps o = IsKept (IsStopped a lease course) lease o.1

  -- a check that throws keeps the account
  check-Keeps :
      {A : Type 0} (r : Result A) (f : A → Exec Table TaskResult)
      → ((x : A) → r ≡ ok x → Keeps (f x (course.elsewhere t)))
      → Keeps ((lift r >>= f) (course.elsewhere t))
  check-Keeps r f went =
      after_reader Keeps (lift r) f (course.elsewhere t) (λ s. refl)
        (λ e. IsKept-here (IsStopped a lease course) lease (course.elsewhere t) held) went

  execute-IsKept : Keeps (execute a lease course t)
  unfolding execute
  execute-IsKept =
      after_reader Keeps (lift (stop_once a course.stop_reading (when_settled a course).cleanup)) _
        t (λ s. refl) (λ e. IsKept-here (IsStopped a lease course) lease t untouched)
        λ cleanup _.
          check-Keeps (safe_integer course.joined_at a.began max_safe_integer) _ λ joined_at _.
            check-Keeps (evidence_or_unproven course.evidence course.closed) _ λ value value_ok.
              check-Keeps (stop_evidence value (expected_binding a lease) a.began joined_at) _
                λ stop stop_ok.
                  check-Keeps
                    (settled_completion a (expected_binding a lease) (final_reason a course)
                      course.settled)
                    _
                    λ c c_ok.
                      let given = value_lem course.evidence course.closed value value_ok in
                      given_back (IsStopped a lease course) lease (course.elsewhere t) keyed valid
                        held (ok _)
                        record {
                          value = value;
                          given = given.0;
                          closed = given.1;
                          joined_at = joined_at;
                          evidence = stop;
                          accepted = stop_ok;
                        }

  active-IsKept :
      (b : Bool)
      → course.active ≡ b
      → IsKept
          (IsUninvoked a course ⊎ IsStopped a lease course)
          lease
          ((if b
              then execute a lease course
              else leave lease course "TASK_BROKER_REVOKED_BEFORE_ADAPTER")
            t).1
  unfolding IsUninvoked
  active-IsKept true p = weaken lease (execute a lease course t).1 inr execute-IsKept
  active-IsKept false p =
      leave-IsKept "TASK_BROKER_REVOKED_BEFORE_ADAPTER"
        (IsUninvoked a course ⊎ IsStopped a lease course) (inl (inr p))

  start-IsKept :
      (e : Option Reason)
      → early a course ≡ e
      → IsKept (IsUninvoked a course ⊎ IsStopped a lease course) lease (start a lease course e t).1
  unfolding start IsUninvoked
  start-IsKept (some reason) p =
      leave-IsKept (early_code reason) (IsUninvoked a course ⊎ IsStopped a lease course)
        (inl (inl (λ q. cc)))
  start-IsKept none p = active-IsKept course.active refl

-- what the last close of the broker leaves of the table
table-run :
    (adapters : List Adapter) (arrival : Arrival) (course : Course) (input : Value)
    (broker : Broker) (t : Table)
    → (run_agent_task adapters arrival course input broker t).1
      ≡ (run_admitted adapters arrival course input broker t).1
unfolding run_agent_task
table-run adapters arrival course input broker t = ground arith

run-hold :
    (adapters : List Adapter) (arrival : Arrival) (course : Course) (input : Value)
    (broker : Broker) (t t' : Table) (a : Admission) (lease : Lease)
    → admit adapters arrival input broker ≡ ok a
    → acquire (lease_input a) t ≡ (ok lease, t')
    → run_admitted adapters arrival course input broker t ≡ hold a lease course t'
unfolding run_admitted
run-hold adapters arrival course input broker t t' a lease h k = rw (
  h,
  k,
  acquire-valid (lease_input a) t t' lease k,
  acquire_asked adapters arrival broker a t t' lease
      (admit-IsReady adapters arrival input broker a h) k,
)

-- Once a task holds its lease, and no other call takes the account from it, the account is held
-- under that lease at the end, or it is free and there is a reason for it: the adapter was not
-- invoked, or it gave evidence, accepted against this task's binding, that everything it started
-- has stopped, and the broker's handlers were joined.
pub task_custody :
    (adapters : List Adapter) (arrival : Arrival) (course : Course) (input : Value)
    (broker : Broker) (t t' : Table) (a : Admission) (lease : Lease)
    → admit adapters arrival input broker ≡ ok a
    → acquire (lease_input a) t ≡ (ok lease, t')
    → IsKeyed (course.elsewhere t')
    → find_row lease.provider lease.account_id (course.elsewhere t') ≡ some (row_of lease)
    → IsKept
        (IsUninvoked a course ⊎ IsStopped a lease course)
        lease
        (run_agent_task adapters arrival course input broker t).1
task_custody adapters arrival course input broker t t' a lease h k keyed held =
    subst (IsKept (IsUninvoked a course ⊎ IsStopped a lease course) lease)
      (sym (
        table-run adapters arrival course input broker t
        ∙ ap (λ (r : Result TaskResult × Table). r.1)
            (run-hold adapters arrival course input broker t t' a lease h k)))
      (start-IsKept a lease course t' keyed (acquire-valid (lease_input a) t t' lease k)
        (acquire-HasAcquired (lease_input a) t t' lease k).held held (early a course) refl)

-- A task that a guard refuses leaves the lease table as it was, and throws.
pub task_refused :
    (adapters : List Adapter) (arrival : Arrival) (course : Course) (input : Value)
    (broker : Broker) (t : Table) (code : String)
    → admit adapters arrival input broker ≡ err code
    → run_agent_task adapters arrival course input broker t
      ≡ (err (if course.closed_last then code else "BROKER_CLOSE_FAILED"), t)
unfolding run_agent_task run_admitted
task_refused adapters arrival course input broker t code h = rw h (ground arith)
