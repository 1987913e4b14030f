-- ===== src/WriteQueue/Turns.antt =====
-- What each operation of the queue of src/process-write.ts does to its order and to its closing.
use agentmixer.Prelude.{
  ℕ, suc, String, ◌≡◌, refl, ◌∙◌, Bool, true, false, not, ◌&&◌, ◌||◌, Option, none, some, List, [],
  ◌∷◌, ◌++◌, any, arith, if◌then◌else◌, ltb, ◌==◌,
}
use mathlib.Core.Path.{subst}
use agentmixer.Prelude.Result.{Result, ok, err}
use agentmixer.Validation.Data.{Value}
use agentmixer.WriteQueue.{
  Job, Queue, Receipt, has_answer, answer, fail, enqueue, admitted, started, begin_next, begin,
  received, checked_receipt, settle_running, settle, expire, stop,
}
use agentmixer.WriteQueue.Places.{Rising, Rising-append, Rising-weaken, Rising-bounds}

-- is it a write that was refused?
abbrev pub is_failed : ℕ × Result (Unit {0}) → Bool
is_failed (_, ok _) = false
is_failed (_, err _) = true

-- The writes went out in their order, those that wait follow them, and a queue with a failure is
-- closed.
pub record IsOrdered (q : Queue) : Type 0 where
  pub middle : ℕ
  pub gone : Rising 0 q.written middle
  pub wait : Rising middle q.waiting q.next
  pub shut : (not (any is_failed q.answers) || q.closed) ≡ true

pub written-Rising : (q : Queue) → IsOrdered q → Rising 0 q.written q.next
written-Rising q h =
    Rising-weaken 0 h.middle q.next q.written h.gone
      (Rising-bounds h.middle q.next q.waiting h.wait)

-- what a step does, whatever the queue is
pub record Moves (q r : Queue) : Type 0 where
  pub ordered : IsOrdered q → IsOrdered r
  pub stays : q.closed ≡ true → r.closed ≡ true
  pub quiet : q.closed ≡ true → r.written ≡ q.written

pub Moves-refl : (q : Queue) → Moves q q
Moves-refl q = record { ordered = λ h. h; stays = λ h. h; quiet = λ h. refl }

-- a state with the same writes that is closed, or that has one more success
Moves-fail : (id : ℕ) (message : String) (q : Queue) → Moves q (fail id message q)
Moves-fail id message q = record {
  ordered = λ h. record { middle = h.middle; gone = h.gone; wait = h.wait; shut = ground arith };
  stays = λ h. refl;
  quiet = λ h. refl;
}

any-append_ok :
    (answers : List (ℕ × Result (Unit {0}))) (id : ℕ) (u : Unit {0})
    → any is_failed (answers ++ (id, ok u) ∷ []) ≡ any is_failed answers
any-append_ok [] id u = refl
any-append_ok ((i, ok v) ∷ answers) id u = any-append_ok answers id u
any-append_ok ((i, err e) ∷ answers) id u = refl

still_shut :
    (known closed : Bool) (answers : List (ℕ × Result (Unit {0}))) (id : ℕ)
    → (not (any is_failed answers) || closed) ≡ true
    → (not (any is_failed (if known then answers else answers ++ (id, ok tt) ∷ [])) || closed)
      ≡ true
still_shut true closed answers id h = h
still_shut false closed answers id h = rw (any-append_ok answers id tt) h

Moves-answer : (id : ℕ) (q : Queue) → Moves q (answer id (ok tt) q)
Moves-answer id q = record {
  ordered = λ h. record {
    middle = h.middle;
    gone = h.gone;
    wait = h.wait;
    shut = still_shut (has_answer id q.answers) q.closed q.answers id h.shut;
  };
  stays = λ h. h;
  quiet = λ h. refl;
}

pub Moves-enqueue : (bytes : List ℕ) (deadline : ℕ) (q : Queue) → Moves q (enqueue bytes deadline q)
Moves-enqueue bytes deadline q = record {
  ordered = λ h. record {
    middle = h.middle;
    gone = h.gone;
    wait =
        Rising-append h.middle q.next q.waiting
          (record { id = q.next; bytes = bytes; deadline = deadline }) h.wait (omega arith);
    shut = h.shut;
  };
  stays = λ h. h;
  quiet = λ h. refl;
}

pub Moves-stop : (q : Queue) → Moves q (stop q)
Moves-stop q = record {
  ordered = λ h. record { middle = h.middle; gone = h.gone; wait = h.wait; shut = ground arith };
  stays = λ h. refl;
  quiet = λ h. refl;
}

Moves-idle : (q : Queue) → Moves q (record q { running = none })
Moves-idle q = record {
  ordered = λ h. record { middle = h.middle; gone = h.gone; wait = h.wait; shut = h.shut };
  stays = λ h. h;
  quiet = λ h. refl;
}

pub Moves-trans : (q r s : Queue) → Moves q r → Moves r s → Moves q s
Moves-trans q r s first second = record {
  ordered = λ h. second.ordered (first.ordered h);
  stays = λ h. second.stays (first.stays h);
  quiet = λ h. second.quiet (first.stays h) ∙ first.quiet h;
}

-- A turn goes on to the host only if the queue is open.
Moves-start :
    (job : Job) (rest : List Job) (q : Queue) (r : Result (Unit {0}))
    → q.waiting ≡ job ∷ rest
    → (q.closed ≡ true → r ≡ err "PROVIDER_PROCESS_WRITE_CLOSED")
    → Moves q (started job (record q { waiting = rest }) r)
unfolding Rising
Moves-start job rest q (ok u) e blocked = record {
  ordered = λ h.
      let w = subst (λ (ws : List Job). Rising h.middle ws q.next) e h.wait in
      record {
        middle = suc job.id;
        gone = Rising-append 0 h.middle q.written job h.gone w.0;
        wait = w.1;
        shut = h.shut;
      };
  stays = λ h. h;
  quiet = λ h. let never = blocked h in cc;
}
Moves-start job rest q (err message) e blocked = record {
  ordered = λ h.
      let w = subst (λ (ws : List Job). Rising h.middle ws q.next) e h.wait in
      record {
        middle = suc job.id;
        gone = Rising-weaken 0 h.middle (suc job.id) q.written h.gone (omega (arith, w.0));
        wait = w.1;
        shut = ground arith;
      };
  stays = λ h. refl;
  quiet = λ h. refl;
}

pub begin-Moves : (now : ℕ) (active : Result (Unit {0})) (q : Queue) → Moves q (begin now active q)
unfolding begin
begin-Moves now active q = go q.running q.waiting refl
  where
    go : (r : Option Job) (w : List Job) → q.waiting ≡ w → Moves q (begin_next now active r w q)
    go (some job) w e = Moves-refl q
    go none [] e = Moves-refl q
    go none (job ∷ rest) e =
        Moves-start job rest q (admitted q now active job) e (λ shut. rw shut refl)

accept-Moves :
    (job : Job) (q : Queue) (b : Bool)
    → Moves q
        (if b then answer job.id (ok tt) q else fail job.id "PROVIDER_PROCESS_WRITE_UNACCEPTED" q)
accept-Moves job q true = Moves-answer job.id q
accept-Moves job q false = Moves-fail job.id "PROVIDER_PROCESS_WRITE_UNACCEPTED" q

received-Moves : (job : Job) (r : Result Receipt) (q : Queue) → Moves q (received job r q)
received-Moves job (err message) q = Moves-fail job.id message q
received-Moves job (ok receipt) q = accept-Moves job q (receipt.outcome == "accepted-full")

pub settle-Moves : (outcome : Result Value) (q : Queue) → Moves q (settle outcome q)
unfolding settle
settle-Moves outcome q = go q.running
  where
    go : (r : Option Job) → Moves q (settle_running outcome r q)
    go none = Moves-refl q
    go (some job) =
        Moves-trans q (record q { running = none }) _ (Moves-idle q)
          (received-Moves job (checked_receipt job outcome) (record q { running = none }))

pub expire-Moves : (id : ℕ) (q : Queue) → Moves q (expire id q)
unfolding expire
expire-Moves id q = go (ltb id q.next && not (has_answer id q.answers))
  where
    go : (b : Bool) → Moves q (if b then fail id "PROVIDER_PROCESS_WRITE_DEADLINE" q else q)
    go true = Moves-fail id "PROVIDER_PROCESS_WRITE_DEADLINE" q
    go false = Moves-refl q
