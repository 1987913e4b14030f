-- ===== src/WriteQueue.antt =====
-- src/process-write.ts: the queue of writes to a provider's process, with the check of a receipt from
-- src/process-port.ts. `write` admits a write; `begin` and `settle` are the two parts of its turn,
-- before and after the host's write is awaited; `expire` is its timer. Readings of the clock are
-- whole numbers, and the host's `failed` returns.
pub mod Places
pub mod Turns
pub mod Order
pub mod Tests
use agentmixer.Prelude.{
  ℕ, suc, ◌+◌, String, ◌==◌, Bool, true, false, not, ◌&&◌, ◌||◌, Option, none, some, List, [], ◌∷◌,
  ◌++◌, any, length, leb, ltb, nat_eq, if◌then◌else◌,
}
use agentmixer.Prelude.Result.{Result, ok, err}
use agentmixer.Prelude.Exec.{Exec, ◌>>=◌, ◌>>◌, pure, assert, modify, get_state}
use agentmixer.Validation.Data.{Value, string, nat, object, Fields, get}
use agentmixer.Validation.{safe_integer, max_safe_integer}

-- `ProviderProcessWriteResult`
pub record Receipt : Type 0 where
  pub outcome : String
  pub accepted_bytes : ℕ

abbrev outcome_fits : (outcome : String) (accepted size : ℕ) → Bool
outcome_fits outcome accepted size =
    (outcome == "accepted-full" && nat_eq accepted size)
    || (outcome == "refused-before-write" && nat_eq accepted 0)
    || (outcome == "partial-known" && ltb 0 accepted && ltb accepted size)
    || outcome == "indeterminate"

abbrev receipt_of : Value → Result ℕ → ℕ → Result Receipt
receipt_of (string outcome) (ok accepted) size =
    if outcome_fits outcome accepted size
    then ok (record { outcome = outcome; accepted_bytes = accepted })
    else err "PROVIDER_PROCESS_WRITE_RESULT_INVALID"
receipt_of _ _ size = err "PROVIDER_PROCESS_WRITE_RESULT_INVALID"

-- `providerProcessWriteResult`
unfoldable pub write_result : Value → (size : ℕ) → Result Receipt
write_result (object proto fields) size =
    if leb 1 size && leb size max_safe_integer
    then receipt_of (get fields "outcome") (safe_integer (get fields "acceptedBytes") 0 size) size
    else err "PROVIDER_PROCESS_WRITE_RESULT_INVALID"
write_result _ size = err "PROVIDER_PROCESS_WRITE_RESULT_INVALID"

-- an admitted write, with its copy of the bytes
pub record Job : Type 0 where
  pub id : ℕ
  pub bytes : List ℕ
  pub deadline : ℕ

-- `closed`, the writes in the tail of promises, the calls of the host's `write` and `failed`, and the
-- promises that have settled
pub record Queue : Type 0 where
  pub closed : Bool
  pub next : ℕ
  pub waiting : List Job
  pub running : Option Job
  pub written : List Job
  pub failures : ℕ
  pub answers : List (ℕ × Result (Unit {0}))

-- the queue as it is made
abbrev pub empty_queue : Queue
empty_queue = record {
  closed = false;
  next = 0;
  waiting = [];
  running = none;
  written = [];
  failures = 0;
  answers = [];
}

-- `createProcessWriteQueue`, with its timeout
unfoldable pub new_queue : (timeout_ms : Value) → Result (ℕ × Queue)
new_queue timeout_ms = elim (safe_integer timeout_ms 1 120_000) [
  | err e ↦ err "PROVIDER_PROCESS_WRITE_TIMEOUT_INVALID"
  | ok timeout ↦ ok (timeout, empty_queue)
]

abbrev pub has_answer : ℕ → List (ℕ × Result (Unit {0})) → Bool
has_answer id answers = any (λ a. nat_eq a.0 id) answers

-- A promise settles once.
abbrev pub answer : ℕ → Result (Unit {0}) → Queue → Queue
answer id result q = record q {
  answers = if has_answer id q.answers then q.answers else q.answers ++ (id, result) ∷ [];
}

-- `failed`, and the rejection of the write
abbrev pub fail : ℕ → String → Queue → Queue
fail id message q = answer id (err message) (record q { closed = true; failures = q.failures + 1 })

-- `input instanceof Uint8Array && input.byteLength >= 1`
abbrev pub is_input : Option (List ℕ) → Bool
is_input none = false
is_input (some bytes) = leb 1 (length bytes)

abbrev pub bytes_of : Option (List ℕ) → List ℕ
bytes_of none = []
bytes_of (some bytes) = bytes

abbrev pub enqueue : List ℕ → ℕ → Queue → Queue
enqueue bytes deadline q = record q {
  next = suc q.next;
  waiting = q.waiting ++ record { id = q.next; bytes = bytes; deadline = deadline } ∷ [];
}

-- `write`, which answers with the admitted write's place
unfoldable pub write : (timeout now : ℕ) → Option (List ℕ) → Exec Queue ℕ
write timeout now input = do
  q ← get_state
  assert (not q.closed && is_input input) "PROVIDER_PROCESS_WRITE_CLOSED"
  modify (enqueue (bytes_of input) (now + timeout))
  pure q.next

-- what precedes the host's write; the host's `assertActive` may throw
abbrev pub admitted : Queue → (now : ℕ) → Result (Unit {0}) → Job → Result (Unit {0})
admitted q now active job =
    if q.closed || leb job.deadline now then err "PROVIDER_PROCESS_WRITE_CLOSED" else active

abbrev pub started : Job → Queue → Result (Unit {0}) → Queue
started job q (ok u) = record q { running = some job; written = q.written ++ job ∷ [] }
started job q (err message) = fail job.id message q

abbrev pub begin_next : (now : ℕ) → Result (Unit {0}) → Option Job → List Job → Queue → Queue
begin_next now active (some job) waiting q = q
begin_next now active none [] q = q
begin_next now active none (job ∷ rest) q =
    started job (record q { waiting = rest }) (admitted q now active job)

-- The next write has its turn, if none is running.
unfoldable pub begin : (now : ℕ) → Result (Unit {0}) → Queue → Queue
begin now active q = begin_next now active q.running q.waiting q

-- the end of a turn, by the receipt
abbrev pub received : Job → Result Receipt → Queue → Queue
received job (err message) q = fail job.id message q
received job (ok receipt) q =
    if receipt.outcome == "accepted-full"
    then answer job.id (ok tt) q
    else fail job.id "PROVIDER_PROCESS_WRITE_UNACCEPTED" q

abbrev pub checked_receipt : Job → Result Value → Result Receipt
checked_receipt job (err message) = err message
checked_receipt job (ok value) = write_result value (length job.bytes)

abbrev pub settle_running : Result Value → Option Job → Queue → Queue
settle_running outcome none q = q
settle_running outcome (some job) q =
    received job (checked_receipt job outcome) (record q { running = none })

-- The host's write settles, with a receipt or with an error.
unfoldable pub settle : Result Value → Queue → Queue
unfolding write_result
settle outcome q = settle_running outcome q.running q

-- The timer of an admitted write fires, unless its promise has settled.
unfoldable pub expire : ℕ → Queue → Queue
expire id q =
    if ltb id q.next && not (has_answer id q.answers)
    then fail id "PROVIDER_PROCESS_WRITE_DEADLINE" q
    else q

abbrev pub stop : Queue → Queue
stop q = record q { closed = true }
