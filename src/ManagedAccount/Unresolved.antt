-- ===== src/ManagedAccount/Unresolved.antt =====
-- What a login of src/managed-account.ts that was not resolved leaves: nothing but the close.
use agentmixer.Prelude.{
  ℕ, ◌-◌, String, ◌≡◌, refl, sym, ap, ◌∙◌, Bool, true, false, not, ◌&&◌, Option, none, some, List,
  [], ◌∷◌, arith, if◌then◌else◌, all, ltb,
}
use agentmixer.Prelude.Result.{Result}
use mathlib.Core.Path.{subst}
use agentmixer.ToolBroker.Paths.{Url}
use agentmixer.ManagedAccount.Data.{Settings, Event}
use agentmixer.ManagedAccount.Controls.{
  Operation, Account, on_event, receive_event, abort_operation, reject, time_out, Closing, idle,
  scheduled, stopping, joining, released,
}
use agentmixer.ManagedAccount.Fences.{is_quiet, IsFenced}
use agentmixer.ManagedAccount.Settling.{silence}
use agentmixer.ManagedAccount.Starting.{is_free, Refuses, start_refused}
use agentmixer.ManagedAccount.Trace.{
  Action, starting, beginning, expiring, cancelling, replying, observing, asking_close,
  beginning_close, settling_late, receiving_receipt, failing_close, joining_close, step, run,
  step-Advances,
}
use agentmixer.ManagedAccount.Voids.{Leaves, Leaves-refl, Leaves-trans, late_reply, late_begin}
use agentmixer.ManagedAccount.Tasks.{expire, cancel_signal}
use agentmixer.ManagedAccount.Calls.{
  Request, Opening, ask_check, ask_logout, ask_usage, ask_login, ask_cancel, start,
}
use agentmixer.ManagedAccount.Shutdown.{
  is_idle, begin_at_close, begin_close, own_closes, settle_late_close, at_receipt, receive_receipt,
  at_failure, fail_close, join_at, join_close,
}
use agentmixer.ManagedAccount.Barrier.{is_ignored, not_ignored}

idle_lem : (c : Closing) → is_idle c ≡ true → c ≡ idle
idle_lem idle h = refl
idle_lem scheduled h = cc
idle_lem stopping h = cc
idle_lem joining h = cc
idle_lem released h = cc

expire-Leaves : (a : Account) → is_quiet a.operation ≡ true → Leaves a (expire a)
expire-Leaves a quiet = go a.operation quiet
  where
    go : (o : Option Operation) → is_quiet o ≡ true → Leaves a (time_out o a)
    go none h = Leaves-refl a
    go (some op) h =
        subst
          (λ (b : Bool). Leaves a (
            if b
            then reject false "MANAGED_ACCOUNT_TIMEOUT" op
                (record a { operation = silence (some op) })
            else a))
          (sym (not_ignored op.awaited true (ground arith))) (Leaves-refl a)

cancel-Leaves : (a : Account) → is_quiet a.operation ≡ true → Leaves a (cancel_signal a)
cancel-Leaves a quiet = go a.operation quiet
  where
    aborted : (op : Operation) → Leaves a (record a { operation = silence (some op) })
    aborted op = record {
      snapshot = refl;
      generation = refl;
      pending_login = refl;
      calls = refl;
      answers = refl;
      leases = refl;
      lease = refl;
      closing = refl;
      unresolved_login = refl;
    }

    go : (o : Option Operation) → is_quiet o ≡ true → Leaves a (abort_operation o a)
    go none h = Leaves-refl a
    go (some op) h =
        subst
          (λ (b : Bool). Leaves a (
            if b
            then reject false "MANAGED_ACCOUNT_ABORTED" op
                (record a { operation = silence (some op) })
            else record a { operation = silence (some op) }))
          (sym (not_ignored op.awaited true (ground arith))) (aborted op)

late_close-Leaves : (a : Account) → Leaves a (settle_late_close a)
unfolding settle_late_close
late_close-Leaves a = go (ltb (own_closes a.close_task) a.unsettled_closes)
  where
    go :
        (b : Bool)
        → Leaves a (if b then record a { unsettled_closes = a.unsettled_closes - 1 } else a)
    go true = record {
      snapshot = refl;
      generation = refl;
      pending_login = refl;
      calls = refl;
      answers = refl;
      leases = refl;
      lease = refl;
      closing = refl;
      unresolved_login = refl;
    }
    go false = Leaves-refl a

ignored-Leaves :
    (event : Event) (a : Account) → a.unresolved_login ≡ true → Leaves a (on_event event a)
unfolding on_event
ignored-Leaves event a lost = go (is_ignored event a) (ground arith)
  where
    go : (b : Bool) → b ≡ true → Leaves a (if b then a else receive_event event a)
    go true e = Leaves-refl a
    go false e = cc

-- Is it a call of `close`?
abbrev pub is_asking : Action → Bool
is_asking asking_close = true
is_asking _ = false

refused-Leaves : (a : Account) (o : Result (Unit {0}) × Account) → Refuses a o → Leaves a o.1
refused-Leaves a o (message, e) =
    subst (λ (x : Account). Leaves a x) (sym (ap (λ (p : Result (Unit {0}) × Account). p.1) e))
      (Leaves-refl a)

module _ (is_control : ℕ → Bool) (parse_url : String → Option Url) (settings : Settings) where
  start-Leaves :
      (request : Request) (opening : Opening) (aborted : Bool) (a : Account)
      → (is_free a && not aborted) ≡ false
      → Leaves a (start is_control settings request opening aborted a).1
  start-Leaves (ask_usage false) opening aborted a busy = unfold start in Leaves-refl a
  start-Leaves (ask_usage true) opening aborted a busy =
      refused-Leaves a _
        (start_refused is_control settings opening aborted (ask_usage true) a busy refl)
  start-Leaves ask_check opening aborted a busy =
      refused-Leaves a _ (start_refused is_control settings opening aborted ask_check a busy refl)
  start-Leaves ask_logout opening aborted a busy =
      refused-Leaves a _ (start_refused is_control settings opening aborted ask_logout a busy refl)
  start-Leaves (ask_login value) opening aborted a busy =
      refused-Leaves a _
        (start_refused is_control settings opening aborted (ask_login value) a busy refl)
  start-Leaves (ask_cancel value) opening aborted a busy =
      refused-Leaves a _
        (start_refused is_control settings opening aborted (ask_cancel value) a busy refl)

  -- A step of a close, where none has been asked for.
  idle-Leaves :
      (a : Account) (f : Closing → Account)
      → a.close_task ≡ idle
      → f idle ≡ a
      → Leaves a (f a.close_task)
  idle-Leaves a f e same = subst (λ (x : Account). Leaves a x) (sym (ap f e ∙ same)) (Leaves-refl a)

  stuck_step :
      (action : Action) (a : Account)
      → IsFenced a
      → a.unresolved_login ≡ true
      → a.closing ≡ false
      → is_asking action ≡ false
      → Leaves a (step is_control parse_url settings action a)
  unfolding step begin_close receive_receipt fail_close join_close
  stuck_step action a h lost open_yet other = go action other
    where
      quiet : is_quiet a.operation ≡ true
      quiet = ground (arith, h.calm)

      unasked : a.close_task ≡ idle
      unasked = idle_lem a.close_task (ground (arith, h.closes))

      go : (x : Action) → is_asking x ≡ false → Leaves a (step is_control parse_url settings x a)
      go (starting request opening aborted) e =
          start-Leaves request opening aborted a (ground (arith, h.unresolved))
      go beginning e = late_begin a h quiet
      go expiring e = expire-Leaves a quiet
      go cancelling e = cancel-Leaves a quiet
      go (replying reply) e = late_reply is_control parse_url reply a h quiet
      go (observing event) e = ignored-Leaves event a lost
      go asking_close e = cc
      go beginning_close e = idle-Leaves a (λ c. begin_at_close c a) unasked refl
      go settling_late e = late_close-Leaves a
      go receiving_receipt e = idle-Leaves a (λ c. at_receipt c a) unasked refl
      go (failing_close rejected) e = idle-Leaves a (λ c. at_failure c rejected a) unasked refl
      go (joining_close receipt) e = idle-Leaves a (λ c. join_at c receipt a) unasked refl

  -- After a login whose outcome is not resolved, and until a close is asked for, nothing changes: no
  -- operation is started, no reply, event, signal or timer has an effect, nobody is answered, no call
  -- of the transport is made, and the lease stays as it is.
  pub unresolved_stuck :
      (actions : List Action) (a : Account)
      → IsFenced a
      → a.unresolved_login ≡ true
      → a.closing ≡ false
      → all (λ action. not (is_asking action)) actions ≡ true
      → Leaves a (run is_control parse_url settings actions a)
  unfolding run
  unresolved_stuck [] a h lost open_yet others = Leaves-refl a
  unresolved_stuck (action ∷ actions) a h lost open_yet others =
      let b = step is_control parse_url settings action a in
      let s = stuck_step action a h lost open_yet (ground arith) in
      Leaves-trans a b _ s (
        unresolved_stuck actions b
          ((step-Advances is_control parse_url settings action a h).fenced h)
          (s.unresolved_login ∙ lost) (s.closing ∙ open_yet) (ground arith))
