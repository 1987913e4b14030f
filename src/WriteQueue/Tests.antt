-- ===== src/WriteQueue/Tests.antt =====
-- A queue of three writes, and its theorem at them.
use agentmixer.Prelude.{ℕ, ◌≡◌, refl, true, some, List, [], ◌∷◌}
use agentmixer.Prelude.Result.{ok, err}
use agentmixer.Validation.{checks}
use agentmixer.Validation.Data.{Value, string, nat, object, plain, enumerable, end, field}
use agentmixer.WriteQueue.Places.{Rising}
use agentmixer.WriteQueue.Order.{
  Action, writing, beginning, settling, expiring, stopping, step, run, failed_last,
}
use agentmixer.WriteQueue.{
  Queue, empty_queue, new_queue, write, begin, settle, expire, write_result,
}

queues : Unit {0}
unfolding checks new_queue write begin settle expire write_result step run
queues = tt

abbrev receipt : ℕ → Value
receipt n = object plain (
    field "outcome" enumerable (string "accepted-full")
      (field "acceptedBytes" enumerable (nat n) end))

-- Three writes are admitted; the first is accepted, the second only in part.
abbrev calls : List Action
calls =
    writing 0 (some (104 ∷ 105 ∷ []))
    ∷ writing 1 (some (33 ∷ []))
    ∷ writing 2 (some (10 ∷ []))
    ∷ beginning 3 (ok tt)
    ∷ settling (ok (receipt 2))
    ∷ beginning 4 (ok tt)
    ∷ settling (ok (receipt 0))
    ∷ []

abbrev later : List Action
later = beginning 5 (ok tt) ∷ writing 6 (some (7 ∷ [])) ∷ expiring 2 ∷ stopping ∷ []

abbrev after : Queue
after = run 1000 calls empty_queue

written_twice :
    after.written
    ≡ record { id = 0; bytes = 104 ∷ 105 ∷ []; deadline = 1000 }
      ∷ record { id = 1; bytes = 33 ∷ []; deadline = 1001 }
      ∷ []
unfolding queues
written_twice = refl

answers_after : after.answers ≡ (0, ok tt) ∷ (1, err "PROVIDER_PROCESS_WRITE_RESULT_INVALID") ∷ []
unfolding queues
answers_after = refl

late_write :
    (run 10 (writing 0 (some (1 ∷ [])) ∷ beginning 10 (ok tt) ∷ []) empty_queue).answers
    ≡ (0, err "PROVIDER_PROCESS_WRITE_CLOSED") ∷ []
unfolding queues
late_write = refl

failed_last_example :
    let s = run 1000 later after in
    (s.closed ≡ true) × (s.written ≡ after.written) × Rising 0 s.written s.next
failed_last_example =
    failed_last (nat 1000) 1000 empty_queue calls later (unfold queues in refl)
      (unfold queues in refl)
