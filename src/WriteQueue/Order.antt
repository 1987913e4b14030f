-- ===== src/WriteQueue/Order.antt =====
-- Whatever is done with a queue of src/process-write.ts: the order of its writes, and that a failure
-- is the end of them.
use agentmixer.Prelude.{
  ℕ, ◌+◌, ◌≡◌, refl, Bool, true, not, ◌&&◌, ◌||◌, Option, List, [], ◌∷◌, any, arith,
}
use mathlib.Core.Path.{subst}
use agentmixer.Prelude.Result.{Result, ok}
use agentmixer.Prelude.Exec.{assert}
use agentmixer.Prelude.Readers.{after_reader}
use agentmixer.Validation.Data.{Value}
use agentmixer.WriteQueue.{
  Queue, write, begin, settle, expire, stop, empty_queue, new_queue, is_input, bytes_of,
}
use agentmixer.WriteQueue.Places.{Rising}
use agentmixer.WriteQueue.Turns.{
  is_failed, IsOrdered, written-Rising, Moves, Moves-refl, Moves-enqueue, Moves-stop, Moves-trans,
  begin-Moves, settle-Moves, expire-Moves,
}

-- what is done with a queue, or happens to it
pub data Action : Type 0 where
  writing : (now : ℕ) → Option (List ℕ) → Action
  beginning : (now : ℕ) → Result (Unit {0}) → Action
  settling : Result Value → Action
  expiring : ℕ → Action
  stopping : Action

module _ (timeout : ℕ) where
  unfoldable pub step : Action → Queue → Queue
  unfolding write
  step (writing now input) q = (write timeout now input q).1
  step (beginning now active) q = begin now active q
  step (settling outcome) q = settle outcome q
  step (expiring id) q = expire id q
  step stopping q = stop q

  unfoldable pub run : List Action → Queue → Queue
  unfolding step
  run [] q = q
  run (action ∷ actions) q = run actions (step action q)

  write-Moves :
      (now : ℕ) (input : Option (List ℕ)) (q : Queue) → Moves q (write timeout now input q).1
  unfolding write
  write-Moves now input q =
      after_reader {B = ℕ} (λ o. Moves q o.1)
        (assert (not q.closed && is_input input) "PROVIDER_PROCESS_WRITE_CLOSED") _ q (λ t. refl)
        (λ e. Moves-refl q) (λ u _. Moves-enqueue (bytes_of input) (now + timeout) q)

  step-Moves : (action : Action) (q : Queue) → Moves q (step action q)
  unfolding step
  step-Moves (writing now input) q = write-Moves now input q
  step-Moves (beginning now active) q = begin-Moves now active q
  step-Moves (settling outcome) q = settle-Moves outcome q
  step-Moves (expiring id) q = expire-Moves id q
  step-Moves stopping q = Moves-stop q

  run-Moves : (actions : List Action) (q : Queue) → Moves q (run actions q)
  unfolding run
  run-Moves [] q = Moves-refl q
  run-Moves (action ∷ actions) q =
      Moves-trans q (step action q) _ (step-Moves action q) (run-Moves actions (step action q))

new_queue_lem :
    (v : Value) (timeout : ℕ) (q : Queue) → new_queue v ≡ ok (timeout, q) → empty_queue ≡ q
unfolding new_queue
new_queue_lem v timeout q h = ground arith

empty-IsOrdered : IsOrdered empty_queue
unfolding Rising
empty-IsOrdered = record { middle = 0; gone = omega arith; wait = omega arith; shut = refl }

closed_lem : (failed closed : Bool) → (not failed || closed) ≡ true → failed ≡ true → closed ≡ true
closed_lem failed closed h k = ground arith

-- Whatever is done with a new queue, once an admitted write has failed or its timer has fired, the
-- queue is closed and no further write reaches the process, whatever is done next; and the places of
-- the writes that reached it go up, all of them places that were given to admitted writes.
pub failed_last :
    (v : Value) (timeout : ℕ) (q : Queue) (actions more : List Action)
    → new_queue v ≡ ok (timeout, q)
    → any is_failed (run timeout actions q).answers ≡ true
    → let r = run timeout actions q in
      let s = run timeout more r in
      (s.closed ≡ true) × (s.written ≡ r.written) × Rising 0 s.written s.next
failed_last v timeout q actions more made failed =
    let r = run timeout actions q in
    let ordered =
      (run-Moves timeout actions q).ordered
        (subst IsOrdered (new_queue_lem v timeout q made) empty-IsOrdered) in
    let moves = run-Moves timeout more r in
    let shut = closed_lem (any is_failed r.answers) r.closed ordered.shut failed in
    (moves.stays shut, moves.quiet shut, written-Rising _ (moves.ordered ordered))
