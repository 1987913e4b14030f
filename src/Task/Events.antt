-- ===== src/Task/Events.antt =====
-- src/task-runtime.ts: what happens to a task once it holds its lease. A course lists the readings of
-- the clock and what the adapter, the broker and the signal do, in the order of `runAgentTask`.
use agentmixer.Prelude.{
  ℕ, ◌+◌, ◌-◌, ◌*◌, ◌^◌, Bool, false, not, ◌&&◌, Option, none, some, List, [], ◌∷◌, nat_eq, leb,
  min, if◌then◌else◌,
}
use agentmixer.Prelude.Result.{Result, ok, err, ◌>>=◌}
use agentmixer.Validation.Data.{Value, Number, finite, infinite, nan}
use agentmixer.Validation.{safe_integer, max_safe_integer}
use agentmixer.Accounts.Rows.{Table}
use agentmixer.Task.Guards.{Admission, execution_deadline, cleanup_deadline}

pub data Reason : Type 0 where
  cancelled deadline_exceeded : Reason

-- The signal aborts, or the timer fires; with the reading of the clock that a stop then takes.
pub record Event : Type 0 where
  pub reason : Reason
  pub reading : Value

-- How the promise of the adapter's `run` settles: with a value, with an `AgentStoppedError`, or with
-- another error.
pub data Settled : Type 0 where
  fulfilled : Value → Settled
  stopped_error : Settled
  rejected : Settled

pub record Course : Type 0 where
  -- before the adapter: has the signal fired, the reading of the clock, is the broker active
  pub aborted : Bool
  pub checked_at : Number
  pub active : Bool
  -- while the adapter runs
  pub running : List Event
  pub settled : Settled
  pub settled_at : Number
  pub stop_reading : Value
  -- while the adapter and the broker stop: has the signal fired, the evidence of a stop that does
  -- not fail, has the broker closed
  pub late_abort : Bool
  pub evidence : Option Value
  pub closed : Bool
  pub joined_at : Value
  -- what other calls make of the lease table until this one gives its lease back
  pub elsewhere : Table → Table
  -- has the broker closed the last time
  pub closed_last : Bool

-- `reading >= bound`
unfoldable pub is_at_least : Number → ℕ → Bool
is_at_least (finite negative mantissa shift) bound =
    if negative then nat_eq mantissa 0 && nat_eq bound 0 else leb (bound * 2 ^ shift) mantissa
is_at_least (infinite negative) bound = not negative
is_at_least nan bound = false

-- `cancelled ??= reason`
abbrev pub or_else : Option Reason → Reason → Option Reason
or_else none reason = some reason
or_else (some first) reason = some first

-- `cancelled`, once the checks before the adapter are made
abbrev pub early : Admission → Course → Option Reason
early a course =
    let first : Option Reason = if course.aborted then some cancelled else none in
    if is_at_least course.checked_at (execution_deadline a)
    then or_else first deadline_exceeded
    else first

-- The variable `cancelled`, and the cleanup deadline of the stop once there is one.
pub record Stopping : Type 0 where
  pub cancelled : Option Reason
  pub cleanup : Option ℕ

-- the cleanup deadline that `stopOnce` takes from a reading of the clock
unfoldable pub cleanup_from : Admission → Value → Result ℕ
cleanup_from a reading =
    let grace = a.request.limits.max_cleanup_ms in
    do
      n ← safe_integer reading a.began (max_safe_integer - grace)
      ok (min (cleanup_deadline a) (n + grace))

-- `stopOnce`: the first call takes the reading
abbrev pub stop_once : Admission → Value → Option ℕ → Result ℕ
stop_once a reading (some cleanup) = ok cleanup
stop_once a reading none = cleanup_from a reading

abbrev pub value_of : Result ℕ → Option ℕ
value_of (ok n) = some n
value_of (err code) = none

-- `cancel` while the adapter runs. A stop that throws in the listener is not published.
abbrev pub cancel : Admission → Event → Stopping → Stopping
cancel a event s = record {
  cancelled = or_else s.cancelled event.reason;
  cleanup = value_of (stop_once a event.reading s.cleanup);
}

unfoldable pub cancel_all : Admission → List Event → Stopping → Stopping
cancel_all a [] s = s
cancel_all a (event ∷ events) s = cancel_all a events (cancel a event s)

-- the state when the adapter has settled
abbrev pub when_settled : Admission → Course → Stopping
when_settled a course =
    let s = cancel_all a course.running (record { cancelled = none; cleanup = none }) in
    if is_at_least course.settled_at (execution_deadline a)
    then record s { cancelled = or_else s.cancelled deadline_exceeded }
    else s

-- `cancelled`, once everything has stopped
abbrev pub final_reason : Admission → Course → Option Reason
final_reason a course =
    let before = (when_settled a course).cancelled in
    if course.late_abort then or_else before cancelled else before
