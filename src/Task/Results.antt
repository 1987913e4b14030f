-- ===== src/Task/Results.antt =====
-- What the result of `runAgentTask` of src/task-runtime.ts says, and when there is one.
use agentmixer.Prelude.{
  Bool-cases, inl, inr, ℕ, ◌≤◌, ◌<◌, ◌++◌, ◌≡◌, refl, sym, ap, ◌∙◌, Bool, true, false, Option, none,
  some, [], ◌∷◌, arith, ltb, ◌&&◌,
}
use agentmixer.Prelude.Result.{Result, ok, err, require, require-eq-ok, after_ok, ok_injective}
use agentmixer.Prelude.Exec.{Exec, ◌>>=◌, pure, lift, proceed}
use mathlib.Core.Path.{subst}
use agentmixer.Validation.Data.{Value, boolean, Fields, get, is_boolean}
use agentmixer.Validation.{safe_integer, max_safe_integer, bounded_text}
use agentmixer.Validation.Laws.{safe_integer_bounds, is_boolean_lem}
use agentmixer.Accounts.Rows.{Table, Lease, find_row}
use agentmixer.Accounts.Checks.{validate_lease}
use agentmixer.Accounts.Slots.{IsKeyed}
use agentmixer.Accounts.Custody.{row_of}
use agentmixer.Accounts.Return.{give_back, give_back_owned}
use agentmixer.Accounts.Release.{find_row-release_held}
use agentmixer.Accounts.{release, freed}
use agentmixer.Task.Records.{Binding, same_binding}
use agentmixer.Task.Same.{same_binding_iff}
use agentmixer.Task.Read.{closed_record, binding, binding_keys, digest, nullable}
use agentmixer.Task.Receipts.{
  Completion, StopEvidence, matching_binding, completion, stop_evidence, stop_keys, proves_join,
  usage, task_outcome,
}
use agentmixer.Task.Guards.{Admission}
use agentmixer.Task.Events.{
  Reason, Settled, fulfilled, stopped_error, rejected, Course, stop_once, when_settled,
  final_reason,
}
use agentmixer.Task.Cancels.{stop_capped}
use agentmixer.Task.{
  TaskResult, expected_binding, settled_completion, evidence_or_unproven, execute, final_completion,
  timing_of, reason_outcome, failure, override,
}

matching_binding_lem :
    (v : Fields) (expected b : Binding) → matching_binding v expected ≡ ok b → b ≡ expected
unfolding matching_binding
matching_binding_lem v expected b h = after_ok (binding v) _ h λ actual actual_ok h.
    after_ok (require (same_binding actual expected) "TASK_RECEIPT_BINDING_MISMATCH") _ h
      λ u same last.
        sym (ok_injective last) ∙ (same_binding_iff actual expected).0 (require-eq-ok _ _ same)

flags_lem :
    (v : Fields)
    → proves_join v ≡ true
    → (is_boolean (get v "processStopped") true ≡ true)
      × (is_boolean (get v "controllersStopped") true ≡ true)
      × (is_boolean (get v "joined") true ≡ true)
flags_lem v h =
    by_flags (is_boolean (get v "processStopped") true)
      (is_boolean (get v "controllersStopped") true) (is_boolean (get v "joined") true) h
  where
    by_flags : (a b c : Bool) → (a && b && c) ≡ true → (a ≡ true) × (b ≡ true) × (c ≡ true)
    by_flags a b c h = ground arith

-- what evidence of a stop says once it is accepted
pub record IsEvidence (value : Value) (expected : Binding) (began now : ℕ) (s : StopEvidence)
    : Type 0 where
  pub fields : Fields
  pub closed : closed_record value (binding_keys ++ stop_keys) ≡ ok fields
  pub joined : proves_join fields ≡ true
  pub processes : get fields "processStopped" ≡ boolean true
  pub controllers : get fields "controllersStopped" ≡ boolean true
  pub all_joined : get fields "joined" ≡ boolean true
  pub binding : s.binding ≡ expected
  pub after : began ≤ s.stopped_at
  pub before : s.stopped_at ≤ now
  pub proof : digest (get fields "proofDigest") ≡ ok s.proof_digest

-- Evidence of a stop is accepted only if it is a closed record whose three flags say that processes
-- and controllers stopped and were joined, whose binding is the task's in every field, and whose
-- time is between the start of the task and the join.
pub stop_evidence_lem :
    (value : Value) (expected : Binding) (began now : ℕ) (s : StopEvidence)
    → stop_evidence value expected began now ≡ ok s
    → IsEvidence value expected began now s
unfolding stop_evidence
stop_evidence_lem value expected began now s h =
    after_ok (closed_record value (binding_keys ++ stop_keys)) _ h λ v v_ok h.
      after_ok (matching_binding v expected) _ h λ actual actual_ok h.
        after_ok (require (proves_join v) "TASK_STOP_UNPROVEN") _ h λ u joined h.
          after_ok (safe_integer (get v "stoppedAtUnixMs") began now) _ h λ stopped_at stopped_ok h.
            after_ok (digest (get v "proofDigest")) _ h λ proof proof_ok last.
              let bounds =
                safe_integer_bounds (get v "stoppedAtUnixMs") began now stopped_at stopped_ok in
              subst (IsEvidence value expected began now) (ok_injective last) record {
                fields = v;
                closed = v_ok;
                joined = require-eq-ok _ _ joined;
                processes = is_boolean_lem _ (flags_lem v (require-eq-ok _ _ joined)).0;
                controllers = is_boolean_lem _ (flags_lem v (require-eq-ok _ _ joined)).1;
                all_joined = is_boolean_lem _ (flags_lem v (require-eq-ok _ _ joined)).2;
                binding = matching_binding_lem v expected actual actual_ok;
                after = bounds.0;
                before = bounds.1;
                proof = proof_ok;
              }

-- A completion is accepted only for the task's own binding.
pub completion-binding :
    (value : Value) (expected : Binding) (limit : ℕ) (c : Completion)
    → completion value expected limit ≡ ok c
    → c.binding ≡ expected
unfolding completion
completion-binding value expected limit c h =
    after_ok (closed_record value (binding_keys ++ "output" ∷ "usage" ∷ "outcome" ∷ [])) _ h
      λ v v_ok h. after_ok (matching_binding v expected) _ h λ actual actual_ok h.
        after_ok (usage (get v "usage")) _ h λ u u_ok h.
          after_ok (task_outcome (get v "outcome")) _ h λ o o_ok h.
            after_ok (nullable (λ text. bounded_text text limit true) (get v "output")) _ h
              λ output output_ok last.
                ap (λ (x : Completion). x.binding) (sym (ok_injective last))
                ∙ matching_binding_lem v expected actual actual_ok

settled-binding :
    (a : Admission) (expected : Binding) (reason : Option Reason) (s : Settled) (c : Completion)
    → settled_completion a expected reason s ≡ ok c
    → c.binding ≡ expected
unfolding settled_completion
settled-binding a expected reason (fulfilled v) c h = completion-binding v expected _ c h
settled-binding a expected reason stopped_error c h =
    sym (ap (λ (x : Completion). x.binding) (ok_injective h))
settled-binding a expected (some r) rejected c h =
    sym (ap (λ (x : Completion). x.binding) (ok_injective h))
settled-binding a expected none rejected c h = cc

-- What the outcome of a result is, by how the task went: the join was after the cleanup deadline,
-- or else the task was cancelled, or else the adapter settled.
pub data Reports (a : Admission) (lease : Lease) (course : Course) (r : TaskResult) : Type 0 where
  exceeded :
      r.timing.cleanup_deadline < r.timing.joined_at
      → r.completion.output ≡ none
      → r.completion.outcome ≡ failure "TASK_CLEANUP_DEADLINE_EXCEEDED"
      → Reports a lease course r
  cancelled :
      (reason : Reason)
      → r.timing.joined_at ≤ r.timing.cleanup_deadline
      → final_reason a course ≡ some reason
      → r.completion.output ≡ none
      → r.completion.outcome ≡ reason_outcome reason
      → Reports a lease course r
  settled :
      r.timing.joined_at ≤ r.timing.cleanup_deadline
      → final_reason a course ≡ none
      → settled_completion a (expected_binding a lease) none course.settled ≡ ok r.completion
      → Reports a lease course r

-- what a result says
pub record IsResult (a : Admission) (lease : Lease) (course : Course) (r : TaskResult)
    : Type 0 where
  pub completion : r.completion.binding ≡ expected_binding a lease
  pub stop : r.stop.binding ≡ expected_binding a lease
  pub stopped : (a.began ≤ r.stop.stopped_at) × (r.stop.stopped_at ≤ r.timing.joined_at)
  pub admitted : r.timing.admitted_at ≡ a.began
  pub capped : r.timing.cleanup_deadline ≤ r.timing.outer_deadline
  pub reports : Reports a lease course r

final-binding :
    (b : Bool) (r : Option Reason) (c : Completion) → (final_completion b r c).binding ≡ c.binding
unfolding final_completion
final-binding true r c = refl
final-binding false (some reason) c = refl
final-binding false none c = refl

result_of : Admission → Course → (cleanup joined_at : ℕ) → StopEvidence → Completion → TaskResult
result_of a course cleanup joined_at stop c = record {
  completion = final_completion (ltb cleanup joined_at) (final_reason a course) c;
  stop = stop;
  timing = timing_of a cleanup joined_at;
}

final_late :
    (m n : ℕ) (r : Option Reason) (c : Completion)
    → m < n
    → final_completion (ltb m n) r c
      ≡ record c { output = none; outcome = failure "TASK_CLEANUP_DEADLINE_EXCEEDED" }
unfolding final_completion
final_late m n r c h = ground arith

final_in_time :
    (m n : ℕ) (r : Option Reason) (c : Completion)
    → n ≤ m
    → final_completion (ltb m n) r c ≡ final_completion false r c
unfolding final_completion
final_in_time m n r c h = ground arith

reports_lem :
    (a : Admission) (lease : Lease) (course : Course) (cleanup joined_at : ℕ) (stop : StopEvidence)
    (c : Completion)
    → settled_completion a (expected_binding a lease) (final_reason a course) course.settled ≡ ok c
    → Reports a lease course (result_of a course cleanup joined_at stop c)
unfolding result_of final_completion
reports_lem a lease course cleanup joined_at stop c h = elim (Bool-cases (ltb cleanup joined_at)) [
  | inl late ↦
      let is = final_late cleanup joined_at (final_reason a course) c (ground arith) in
      exceeded (ground arith) (ap (λ (x : Completion). x.output) is)
        (ap (λ (x : Completion). x.outcome) is)
  | inr early ↦ in_time (ground arith) (final_reason a course) refl
]
  where
    in_time :
        joined_at ≤ cleanup
        → (r : Option Reason) → final_reason a course ≡ r
        → Reports a lease course (result_of a course cleanup joined_at stop c)
    in_time early (some reason) e =
        let is : final_completion (ltb cleanup joined_at) (final_reason a course) c
            ≡ override (reason_outcome reason) c =
          final_in_time cleanup joined_at (final_reason a course) c early
          ∙ ap (λ r. final_completion false r c) e in
        cancelled reason early e (ap (λ (x : Completion). x.output) is)
          (ap (λ (x : Completion). x.outcome) is)
    in_time early none e = settled early e (
        ap (λ r. settled_completion a (expected_binding a lease) r course.settled) (sym e)
        ∙ h
        ∙ ap ok (
            sym (
              final_in_time cleanup joined_at (final_reason a course) c early
              ∙ ap (λ r. final_completion false r c) e)))

-- a block that succeeds has passed each of its checks
after_check :
    {A B R : Type 0} (r : Result A) (f : A → Exec Table B) (t t' : Table) {b : B}
    → (lift r >>= f) t ≡ (ok b, t')
    → ((x : A) → r ≡ ok x → f x t ≡ (ok b, t') → R)
    → R
after_check {B = B} (ok x) f t t' h k = k x refl h
after_check {B = B} (err e) f t t' h k = cc (ap (λ (o : Result B × Table). o.0) h)

after_return :
    {B : Type 0} (o : Result (Unit {0}) × Table) (b b' : B) (t' : Table)
    → proceed o (λ _. pure b) ≡ (ok b', t')
    → b ≡ b'
after_return {B = B} (ok u, s) b b' t' h = ok_injective (ap (λ (o : Result B × Table). o.0) h)
after_return {B = B} (err e, s) b b' t' h = cc (ap (λ (o : Result B × Table). o.0) h)

-- A result of an execution is about the task that was admitted under its lease: its completion and
-- its evidence of a stop have the task's binding in every field, the stop lies between the start of
-- the task and the join, the cleanup deadline is not after the outer one, and the outcome is a
-- failure without output if the join was after the cleanup deadline, else the first cancellation
-- without output if there was one, else what the adapter settled with.
pub execute-IsResult :
    (a : Admission) (lease : Lease) (course : Course) (t t' : Table) (r : TaskResult)
    → execute a lease course t ≡ (ok r, t')
    → IsResult a lease course r
unfolding execute result_of
execute-IsResult a lease course t t' r h =
    after_check (stop_once a course.stop_reading (when_settled a course).cleanup) _ t t' h
      λ cleanup cleanup_ok h.
        after_check (safe_integer course.joined_at a.began max_safe_integer) _ (course.elsewhere t)
          t' h
          λ joined_at joined_ok h.
            after_check (evidence_or_unproven course.evidence course.closed) _ (course.elsewhere t)
              t' h
              λ value value_ok h.
                after_check (stop_evidence value (expected_binding a lease) a.began joined_at) _
                  (course.elsewhere t) t' h
                  λ stop stop_ok h.
                    after_check
                      (settled_completion a (expected_binding a lease) (final_reason a course)
                        course.settled)
                      _ (course.elsewhere t) t' h
                      λ c c_ok h.
                        let evidence =
                          stop_evidence_lem value (expected_binding a lease) a.began joined_at stop
                            stop_ok in
                        subst (IsResult a lease course)
                          (after_return (give_back lease (course.elsewhere t))
                            (result_of a course cleanup joined_at stop c) r t' h)
                          record {
                            completion =
                                final-binding (ltb cleanup joined_at) (final_reason a course) c
                                ∙ settled-binding a (expected_binding a lease)
                                    (final_reason a course) course.settled c c_ok;
                            stop = evidence.binding;
                            stopped = (evidence.after, evidence.before);
                            admitted = refl;
                            capped = stop_capped a course cleanup cleanup_ok;
                            reports = reports_lem a lease course cleanup joined_at stop c c_ok;
                          }

pass_check :
    {A B : Type 0} (r : Result A) (f : A → Exec Table B) (t : Table) {x : A}
    → r ≡ ok x
    → (lift r >>= f) t ≡ f x t
pass_check r f t h = rw h refl

evidence_given :
    (o : Option Value) (b : Bool) (v : Value)
    → o ≡ some v
    → b ≡ true
    → evidence_or_unproven o b ≡ ok v
evidence_given o b v h k = rw (h, k) refl

finishing :
    (a : Admission) (lease : Lease) (course : Course) (t : Table) (cleanup joined_at : ℕ)
    (value : Value) (stop : StopEvidence) (c : Completion)
    → stop_once a course.stop_reading (when_settled a course).cleanup ≡ ok cleanup
    → safe_integer course.joined_at a.began max_safe_integer ≡ ok joined_at
    → course.evidence ≡ some value
    → course.closed ≡ true
    → stop_evidence value (expected_binding a lease) a.began joined_at ≡ ok stop
    → settled_completion a (expected_binding a lease) (final_reason a course) course.settled ≡ ok c
    → give_back lease (course.elsewhere t) ≡ (ok tt, (release lease (course.elsewhere t)).1)
    → execute a lease course t
      ≡ (ok (result_of a course cleanup joined_at stop c), (release lease (course.elsewhere t)).1)
unfolding execute result_of
finishing a lease course t cleanup joined_at value stop c e1 e2 e3 e4 e5 e6 given =
    let left = course.elsewhere t in
    pass_check (stop_once a course.stop_reading (when_settled a course).cleanup) _ t e1
    ∙ pass_check (safe_integer course.joined_at a.began max_safe_integer) _ left e2
    ∙ pass_check (evidence_or_unproven course.evidence course.closed) _ left
        (evidence_given _ _ value e3 e4)
    ∙ pass_check (stop_evidence value (expected_binding a lease) a.began joined_at) _ left e5
    ∙ pass_check
        (settled_completion a (expected_binding a lease) (final_reason a course) course.settled) _
        left e6
    ∙ rw given refl

-- An execution gives a result and frees the account once these things happen: the clock can be read,
-- the adapter's evidence of a stop is accepted, the broker closes, and what the adapter settled with
-- is accepted, while the account stays held under the lease.
pub execute_finishes :
    (a : Admission) (lease : Lease) (course : Course) (t : Table) (cleanup joined_at : ℕ)
    (value : Value) (stop : StopEvidence) (c : Completion)
    → stop_once a course.stop_reading (when_settled a course).cleanup ≡ ok cleanup
    → safe_integer course.joined_at a.began max_safe_integer ≡ ok joined_at
    → course.evidence ≡ some value
    → course.closed ≡ true
    → stop_evidence value (expected_binding a lease) a.began joined_at ≡ ok stop
    → settled_completion a (expected_binding a lease) (final_reason a course) course.settled ≡ ok c
    → IsKeyed (course.elsewhere t)
    → validate_lease lease ≡ ok tt
    → find_row lease.provider lease.account_id (course.elsewhere t) ≡ some (row_of lease)
    → let (result, after) = execute a lease course t in
      (result
        ≡ ok (record {
          completion = final_completion (ltb cleanup joined_at) (final_reason a course) c;
          stop = stop;
          timing = timing_of a cleanup joined_at;
        }))
      × (find_row lease.provider lease.account_id after ≡ some (freed (row_of lease)))
unfolding result_of
execute_finishes a lease course t cleanup joined_at value stop c e1 e2 e3 e4 e5 e6 keyed valid
      held =
    let is =
      finishing a lease course t cleanup joined_at value stop c e1 e2 e3 e4 e5 e6
        (give_back_owned lease (course.elsewhere t) keyed valid held) in
    (
      ap (λ (o : Result TaskResult × Table). o.0) is,
      ap (λ (o : Result TaskResult × Table). find_row lease.provider lease.account_id o.1) is
          ∙ find_row-release_held lease (course.elsewhere t) valid held,
    )
