-- ===== src/Task/Cancels.antt =====
-- The cancellation of a task of src/task-runtime.ts: which reason counts, and the cleanup deadline of
-- its stop.
use agentmixer.Prelude.{
  ℕ, ◌≤◌, ◌-◌, ◌≡◌, refl, sym, ap, ◌∙◌, Bool, true, false, Option, none, some, List, [], ◌∷◌, arith,
  if◌then◌else◌,
}
use agentmixer.Prelude.Result.{Result, ok, err, after_ok, ok_injective}
use mathlib.Core.Path.{subst}
use agentmixer.Validation.Data.{Value}
use agentmixer.Validation.{safe_integer, max_safe_integer}
use agentmixer.Task.Guards.{Admission, cleanup_deadline, execution_deadline}
use agentmixer.Task.Events.{
  Reason, cancelled, deadline_exceeded, Event, Course, Stopping, or_else, cancel, cancel_all,
  cleanup_from, stop_once, when_settled, final_reason, value_of, is_at_least,
}

-- The events after the first do not change the reason.
reason_stays :
    (a : Admission) (events : List Event) (s : Stopping) (reason : Reason)
    → s.cancelled ≡ some reason
    → (cancel_all a events s).cancelled ≡ some reason
unfolding cancel_all
reason_stays a [] s reason h = h
reason_stays a (event ∷ events) s reason h =
    reason_stays a events (cancel a event s) reason (rw h refl)

-- no event has happened
abbrev pub untroubled : Stopping
untroubled = record { cancelled = none; cleanup = none }

-- A reason that there is when the adapter settles stays.
settles_with :
    (late out_of_time : Bool) (s : Stopping) (reason : Reason)
    → s.cancelled ≡ some reason
    → let before =
        (if out_of_time
          then record s { cancelled = or_else s.cancelled deadline_exceeded }
          else s).cancelled in
      (if late then or_else before cancelled else before) ≡ some reason
settles_with true true s reason h = rw h refl
settles_with true false s reason h = rw h refl
settles_with false true s reason h = rw h refl
settles_with false false s reason h = h

-- The reason of the first event while the adapter runs is the reason of the task, whatever happens
-- afterwards: later events, the deadline, or an abort while everything stops.
pub first_reason :
    (a : Admission) (course : Course) (event : Event) (events : List Event)
    → course.running ≡ event ∷ events
    → final_reason a course ≡ some event.reason
unfolding cancel_all
first_reason a course event events h =
    settles_with course.late_abort (is_at_least course.settled_at (execution_deadline a))
      (cancel_all a course.running untroubled) event.reason
      (ap (λ l. (cancel_all a l untroubled).cancelled) h
        ∙ reason_stays a events (cancel a event untroubled) event.reason refl)

-- A cleanup deadline gives no more time than the outer deadline does.
IsCapped : Admission → Option ℕ → Type 0
IsCapped a none = Unit {0}
IsCapped a (some n) = n ≤ cleanup_deadline a

cleanup_from_lem :
    (a : Admission) (reading : Value) (n : ℕ)
    → cleanup_from a reading ≡ ok n
    → n ≤ cleanup_deadline a
unfolding cleanup_from
cleanup_from_lem a reading n h =
    after_ok (safe_integer reading a.began (max_safe_integer - a.request.limits.max_cleanup_ms)) _ h
      λ m m_ok last. omega (arith, ok_injective last)

IsCapped-value :
    (a : Admission) (r : Result ℕ)
    → ((n : ℕ) → r ≡ ok n → n ≤ cleanup_deadline a)
    → IsCapped a (value_of r)
unfolding IsCapped
IsCapped-value a (ok n) h = h n refl
IsCapped-value a (err e) h = tt

stop_once-capped :
    (a : Admission) (reading : Value) (o : Option ℕ) (n : ℕ)
    → IsCapped a o
    → stop_once a reading o ≡ ok n
    → n ≤ cleanup_deadline a
unfolding IsCapped
stop_once-capped a reading (some m) n h e = omega (arith, h, ok_injective e)
stop_once-capped a reading none n h e = cleanup_from_lem a reading n e

cancel_all-IsCapped :
    (a : Admission) (events : List Event) (s : Stopping)
    → IsCapped a s.cleanup
    → IsCapped a (cancel_all a events s).cleanup
unfolding cancel_all
cancel_all-IsCapped a [] s h = h
cancel_all-IsCapped a (event ∷ events) s h = cancel_all-IsCapped a events (cancel a event s) (
    IsCapped-value a (stop_once a event.reading s.cleanup)
      (λ n e. stop_once-capped a event.reading s.cleanup n h e))

same_cleanup :
    (b : Bool) (s : Stopping) (r : Option Reason)
    → (if b then record s { cancelled = r } else s).cleanup ≡ s.cleanup
same_cleanup true s r = refl
same_cleanup false s r = refl

-- The cleanup deadline of a stop is never later than the outer deadline that the lease was acquired
-- to, however the task is cancelled.
pub stop_capped :
    (a : Admission) (course : Course) (cleanup : ℕ)
    → stop_once a course.stop_reading (when_settled a course).cleanup ≡ ok cleanup
    → cleanup ≤ cleanup_deadline a
unfolding IsCapped
stop_capped a course cleanup h =
    stop_once-capped a course.stop_reading (when_settled a course).cleanup cleanup
      (subst (IsCapped a)
        (sym (
          same_cleanup (is_at_least course.settled_at (execution_deadline a))
            (cancel_all a course.running untroubled) _))
        (cancel_all-IsCapped a course.running untroubled tt))
      h
