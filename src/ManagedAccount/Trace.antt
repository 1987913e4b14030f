-- ===== src/ManagedAccount/Trace.antt =====
-- The steps of the controller of src/managed-account.ts in any order, and what each of them does.
use agentmixer.Prelude.{
  ℕ, ◌≤◌, String, ◌≡◌, refl, ap, ◌⊎◌, inl, Bool, true, false, ◌||◌, Option, none, some, List, [],
  ◌∷◌, arith, if◌then◌else◌,
}
use agentmixer.Prelude.Result.{Result, ok, err}
use agentmixer.ToolBroker.Paths.{Url}
use agentmixer.Accounts.{release}
use agentmixer.Accounts.Rows.{Lease}
use agentmixer.ManagedAccount.Data.{closed, Event, Receipt, Settings}
use agentmixer.ManagedAccount.Controls.{
  Account, Closing, idle, scheduled, stopping, joining, released, on_event,
}
use agentmixer.ManagedAccount.Fences.{IsFenced, is_signed_in, Follows, Follows-refl}
use agentmixer.ManagedAccount.Settling.{expire-Follows, cancel_signal-Follows}
use agentmixer.ManagedAccount.Turns.{begin_task-Follows}
use agentmixer.ManagedAccount.Reading.{SignsIn, receive_reply-Follows}
use agentmixer.ManagedAccount.Ending.{on_event-Follows, close_account-Follows, ended-Follows}
use agentmixer.ManagedAccount.Starting.{Starts, start-Starts}
use agentmixer.ManagedAccount.Calls.{Request, Opening, start, on_leases}
use agentmixer.ManagedAccount.Tasks.{Reply, begin_task, receive_reply, expire, cancel_signal}
use agentmixer.ManagedAccount.Shutdown.{
  close_account, begin_close, end_attempt, fail_attempt, settle_late_close, receive_receipt,
  fail_close, proves_stop, after_release, release_lease, join_at, join_close, is_idle,
}
use agentmixer.ManagedAccount.Closes.{
  begin_close-Follows, settle_late-Follows, receipt-Follows, fail_attempt-Follows, failure-Follows,
}

-- what is done with a controller, or happens to it
pub data Action : Type 0 where
  starting : Request → Opening → (aborted : Bool) → Action
  beginning expiring cancelling : Action
  replying : Reply → Action
  observing : Event → Action
  asking_close beginning_close settling_late receiving_receipt : Action
  failing_close : (rejected : Bool) → Action
  joining_close : Receipt → Action

-- What every step does.
pub record Advances (R : Type 0) (a b : Account) : Type 0 where
  pub rising : a.generation ≤ b.generation
  pub fresh :
      a.snapshot.account_generation ≡ a.generation → b.snapshot.account_generation ≡ b.generation
  pub signed : is_signed_in b.snapshot.state ≡ true → (b.snapshot ≡ a.snapshot) ⊎ R
  pub fenced : IsFenced a → IsFenced b

Advances-of : (R : Type 0) (a b : Account) → Follows R a b → Advances R a b
Advances-of R a b f = record {
  rising = f.rising;
  fresh = f.fresh;
  signed = f.signed;
  fenced = f.fenced;
}

Advances-Starts : (R : Type 0) (a b : Account) → Starts a b → Advances R a b
Advances-Starts R a b s = record {
  rising = s.rising;
  fresh = s.fresh;
  signed = λ h. inl (s.signed h);
  fenced = s.fenced;
}

released-Advances :
    (R : Type 0) (o : Result Bool × Account) (a : Account)
    → o.1 ≡ record a { leases = o.1.leases }
    → a.closing ≡ true
    → Advances R a (after_release o)
released-Advances R (ok true, b) a e shut = record {
  rising = omega (arith, ap (λ (x : Account). x.generation) e);
  fresh = λ h. refl;
  signed = λ h. cc;
  fenced = λ h. ground (arith, h.fence, h.calm);
}
released-Advances R (ok false, b) a e shut = record {
  rising = omega (arith, ap (λ (x : Account). x.generation) e);
  fresh = λ h. refl;
  signed = λ h. cc;
  fenced = λ h. ground (arith, h.fence, h.calm);
}
released-Advances R (err message, b) a e shut = record {
  rising = omega (arith, ap (λ (x : Account). x.generation) e);
  fresh = λ h. refl;
  signed = λ h. cc;
  fenced = λ h. ground (arith, h.fence, h.calm);
}

join-Advances :
    (R : Type 0) (receipt : Receipt) (a : Account)
    → (is_idle a.close_task || a.closing) ≡ true
    → Advances R a (join_close receipt a)
unfolding join_close
join-Advances R receipt a h = go a.close_task refl
  where
    failing : a.closing ≡ true → Advances R a (fail_attempt a)
    failing shut = Advances-of R a (fail_attempt a) (fail_attempt-Follows R a shut)

    releasing : (l : Option Lease) → a.closing ≡ true → Advances R a (release_lease l a)
    releasing none shut =
        Advances-of R a (end_attempt a) (ended-Follows R a closed none released shut refl)
    releasing (some lease) shut = released-Advances R (on_leases (release lease) a) a refl shut

    proved :
        (b : Bool)
        → a.closing ≡ true
        → Advances R a (if b then release_lease a.lease a else fail_attempt a)
    proved true shut = releasing a.lease shut
    proved false shut = failing shut

    go : (c : Closing) → a.close_task ≡ c → Advances R a (join_at c receipt a)
    go idle e = Advances-of R a a (Follows-refl R a)
    go scheduled e = Advances-of R a a (Follows-refl R a)
    go stopping e = Advances-of R a a (Follows-refl R a)
    go joining e = proved (proves_stop receipt a) (ground arith)
    go released e = Advances-of R a a (Follows-refl R a)

module _ (is_control : ℕ → Bool) (parse_url : String → Option Url) (settings : Settings) where
  unfoldable pub step : Action → Account → Account
  step (starting request opening aborted) a =
      (start is_control settings request opening aborted a).1
  step beginning a = begin_task a
  step expiring a = expire a
  step cancelling a = cancel_signal a
  step (replying reply) a = receive_reply is_control parse_url reply a
  step (observing event) a = on_event event a
  step asking_close a = close_account a
  step beginning_close a = begin_close a
  step settling_late a = settle_late_close a
  step receiving_receipt a = receive_receipt a
  step (failing_close rejected) a = fail_close rejected a
  step (joining_close receipt) a = join_close receipt a

  unfoldable pub run : List Action → Account → Account
  unfolding step
  run [] a = a
  run (action ∷ actions) a = run actions (step action a)

  -- the reading of an account that signs somebody in
  abbrev pub Reads : Action → Account → Type 0
  Reads (replying reply) a = SignsIn is_control parse_url reply a
  Reads _ a = ⊥

  pub step-Advances :
      (action : Action) (a : Account) → IsFenced a → Advances (Reads action a) a (step action a)
  unfolding step
  step-Advances (starting request opening aborted) a h =
      Advances-Starts ⊥ a _ (start-Starts is_control settings opening aborted request a)
  step-Advances beginning a h = Advances-of ⊥ a _ (begin_task-Follows ⊥ a)
  step-Advances expiring a h = Advances-of ⊥ a _ (expire-Follows ⊥ a)
  step-Advances cancelling a h = Advances-of ⊥ a _ (cancel_signal-Follows ⊥ a)
  step-Advances (replying reply) a h =
      Advances-of (SignsIn is_control parse_url reply a) a _
        (receive_reply-Follows is_control parse_url reply a)
  step-Advances (observing event) a h = Advances-of ⊥ a _ (on_event-Follows ⊥ event a)
  step-Advances asking_close a h = Advances-of ⊥ a _ (close_account-Follows ⊥ a)
  step-Advances beginning_close a h = Advances-of ⊥ a _ (begin_close-Follows ⊥ a h.closes)
  step-Advances settling_late a h = Advances-of ⊥ a _ (settle_late-Follows ⊥ a h.closes)
  step-Advances receiving_receipt a h = Advances-of ⊥ a _ (receipt-Follows ⊥ a h.closes)
  step-Advances (failing_close rejected) a h =
      Advances-of ⊥ a _ (failure-Follows ⊥ rejected a h.closes)
  step-Advances (joining_close receipt) a h = join-Advances ⊥ receipt a h.closes

  pub run-IsFenced : (actions : List Action) (a : Account) → IsFenced a → IsFenced (run actions a)
  unfolding run
  run-IsFenced [] a h = h
  run-IsFenced (action ∷ actions) a h =
      run-IsFenced actions (step action a) ((step-Advances action a h).fenced h)
