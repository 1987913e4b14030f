-- ===== src/ManagedAccount/Custody.antt =====
-- The custody of the lease by the controller of src/managed-account.ts: nothing but a close that is
-- joined with a proof gives it back.
use agentmixer.Prelude.{
  ℕ, String, ◌≡◌, refl, sym, ap, ◌∙◌, Bool, true, false, ◌&&◌, ◌||◌, Option, some, List, [], ◌∷◌,
  arith, is_some, if◌then◌else◌,
}
use agentmixer.Prelude.Result.{Result, ok}
use mathlib.Core.Path.{subst}
use agentmixer.ToolBroker.Paths.{Url}
use agentmixer.Accounts.{release, freed}
use agentmixer.Accounts.Rows.{Lease, Table, find_row}
use agentmixer.Accounts.Checks.{validate_lease}
use agentmixer.Accounts.Slots.{IsKeyed}
use agentmixer.Accounts.Custody.{row_of}
use agentmixer.Accounts.Release.{released, release_answer, holds-row_of, find_row-release_held}
use agentmixer.ManagedAccount.Data.{closed, Receipt, Settings}
use agentmixer.ManagedAccount.Controls.{
  Account, Closing, idle, scheduled, stopping, joining, on_event,
}
use agentmixer.ManagedAccount.Controls
use agentmixer.ManagedAccount.Fences.{IsFenced, Follows}
use agentmixer.ManagedAccount.Settling.{expire-Follows, cancel_signal-Follows}
use agentmixer.ManagedAccount.Turns.{begin_task-Follows}
use agentmixer.ManagedAccount.Reading.{SignsIn, receive_reply-Follows}
use agentmixer.ManagedAccount.Ending.{on_event-Follows, close_account-Follows}
use agentmixer.ManagedAccount.Starting.{start-Starts}
use agentmixer.ManagedAccount.Closes.{
  begin_close-Follows, settle_late-Follows, receipt-Follows, fail_attempt-Follows, failure-Follows,
}
use agentmixer.ManagedAccount.Trace.{
  Action, starting, beginning, expiring, cancelling, replying, observing, asking_close,
  beginning_close, settling_late, receiving_receipt, failing_close, joining_close, step, run,
  step-Advances,
}
use agentmixer.ManagedAccount.Shutdown.{
  proves_stop, join_at, join_close, release_lease, after_release, fail_attempt, end_attempt,
}

-- What the lease store and the controller know of the lease stays.
pub record KeepsLease (a b : Account) : Type 0 where
  pub leases : b.leases ≡ a.leases
  pub lease : b.lease ≡ a.lease
  pub binding : b.binding ≡ a.binding

KeepsLease-of : (R : Type 0) (a b : Account) → Follows R a b → KeepsLease a b
KeepsLease-of R a b f = record { leases = f.leases; lease = f.lease; binding = f.binding }

KeepsLease-refl : (a : Account) → KeepsLease a a
KeepsLease-refl a = record { leases = refl; lease = refl; binding = refl }

KeepsLease-trans : (a b c : Account) → KeepsLease a b → KeepsLease b c → KeepsLease a c
KeepsLease-trans a b c f g = record {
  leases = g.leases ∙ f.leases;
  lease = g.lease ∙ f.lease;
  binding = g.binding ∙ f.binding;
}

abbrev is_joining : Closing → Bool
is_joining joining = true
is_joining _ = false

-- a join of a close, with a receipt that proves that everything has stopped
abbrev pub proves : Action → Account → Bool
proves (joining_close receipt) a = is_joining a.close_task && proves_stop receipt a
proves _ a = false

join-KeepsLease :
    (receipt : Receipt) (a : Account)
    → IsFenced a
    → (is_joining a.close_task && proves_stop receipt a) ≡ false
    → KeepsLease a (join_close receipt a)
unfolding join_close
join-KeepsLease receipt a h unproved = go a.close_task refl
  where
    at :
        (b : Bool)
        → b ≡ false
        → a.closing ≡ true
        → KeepsLease a (if b then release_lease a.lease a else fail_attempt a)
    at true e shut = cc
    at false e shut = KeepsLease-of ⊥ a (fail_attempt a) (fail_attempt-Follows ⊥ a shut)

    go : (c : Closing) → a.close_task ≡ c → KeepsLease a (join_at c receipt a)
    go idle e = KeepsLease-refl a
    go scheduled e = KeepsLease-refl a
    go stopping e = KeepsLease-refl a
    go joining e = at (proves_stop receipt a) (ground arith) (ground (arith, h.closes))
    go Controls.released e = KeepsLease-refl a

module _ (is_control : ℕ → Bool) (parse_url : String → Option Url) (settings : Settings) where
  step-KeepsLease :
      (action : Action) (a : Account)
      → IsFenced a
      → is_some a.lease ≡ true
      → proves action a ≡ false
      → KeepsLease a (step is_control parse_url settings action a)
  unfolding step
  step-KeepsLease (starting request opening aborted) a h held unproved =
      let (leases, lease, binding) =
        (start-Starts is_control settings opening aborted request a).kept held in
      record { leases = leases; lease = lease; binding = binding }
  step-KeepsLease beginning a h held unproved = KeepsLease-of ⊥ a _ (begin_task-Follows ⊥ a)
  step-KeepsLease expiring a h held unproved = KeepsLease-of ⊥ a _ (expire-Follows ⊥ a)
  step-KeepsLease cancelling a h held unproved = KeepsLease-of ⊥ a _ (cancel_signal-Follows ⊥ a)
  step-KeepsLease (replying reply) a h held unproved =
      KeepsLease-of (SignsIn is_control parse_url reply a) a _
        (receive_reply-Follows is_control parse_url reply a)
  step-KeepsLease (observing event) a h held unproved =
      KeepsLease-of ⊥ a _ (on_event-Follows ⊥ event a)
  step-KeepsLease asking_close a h held unproved = KeepsLease-of ⊥ a _ (close_account-Follows ⊥ a)
  step-KeepsLease beginning_close a h held unproved =
      KeepsLease-of ⊥ a _ (begin_close-Follows ⊥ a h.closes)
  step-KeepsLease settling_late a h held unproved =
      KeepsLease-of ⊥ a _ (settle_late-Follows ⊥ a h.closes)
  step-KeepsLease receiving_receipt a h held unproved =
      KeepsLease-of ⊥ a _ (receipt-Follows ⊥ a h.closes)
  step-KeepsLease (failing_close rejected) a h held unproved =
      KeepsLease-of ⊥ a _ (failure-Follows ⊥ rejected a h.closes)
  step-KeepsLease (joining_close receipt) a h held unproved = join-KeepsLease receipt a h unproved

  -- Is there such a join among the actions?
  unfoldable pub is_proved : List Action → Account → Bool
  unfolding step
  is_proved [] a = false
  is_proved (action ∷ actions) a =
      let rest = is_proved actions (step is_control parse_url settings action a) in
      proves action a || rest

  -- Once a controller has a lease, and as long as no close is joined with a receipt that proves that
  -- everything has stopped, with no operation and no close still to settle, whatever is done with it
  -- leaves the lease table as it is, and it keeps the lease and its binding.
  pub lease_kept :
      (actions : List Action) (a : Account)
      → IsFenced a
      → is_some a.lease ≡ true
      → is_proved actions a ≡ false
      → KeepsLease a (run is_control parse_url settings actions a)
  unfolding run is_proved
  lease_kept [] a h held unproved = KeepsLease-refl a
  lease_kept (action ∷ actions) a h held unproved =
      let b = step is_control parse_url settings action a in
      let s = step-KeepsLease action a h held (ground arith) in
      KeepsLease-trans a b _ s (
        lease_kept actions b ((step-Advances is_control parse_url settings action a h).fenced h)
          (ap is_some s.lease ∙ held) (ground arith))

-- the answer of the release of a lease that holds its account
held_release :
    (lease : Lease) (t : Table)
    → IsKeyed t
    → validate_lease lease ≡ ok tt
    → find_row lease.provider lease.account_id t ≡ some (row_of lease)
    → release lease t ≡ (ok true, (release lease t).1)
held_release lease t keyed valid held =
    ap (λ (r : Result Bool). (r, (release lease t).1))
      (release_answer lease t keyed valid
        ∙ ap (λ s. ok (released s lease)) held
        ∙ ap ok (holds-row_of lease))

-- A close that is joined with such a receipt, while the account is still held under the lease, frees
-- the account and leaves the controller closed, with its close settled.
pub join_releases :
    (receipt : Receipt) (lease : Lease) (a : Account)
    → IsKeyed a.leases
    → validate_lease lease ≡ ok tt
    → find_row lease.provider lease.account_id a.leases ≡ some (row_of lease)
    → a.lease ≡ some lease
    → a.close_task ≡ joining
    → proves_stop receipt a ≡ true
    → let b = join_close receipt a in
      (find_row lease.provider lease.account_id b.leases ≡ some (freed (row_of lease)))
      × (b.snapshot.state ≡ closed)
      × (b.close_task ≡ Controls.released)
unfolding join_close
join_releases receipt lease a keyed valid held has task proof =
    let e : join_close receipt a ≡ end_attempt (record a { leases = (release lease a.leases).1 }) =
      ap (λ c. join_at c receipt a) task
      ∙ ap (λ b. if b then release_lease a.lease a else fail_attempt a) proof
      ∙ ap (λ l. release_lease l a) has
      ∙ ap (λ (o : Result Bool × Table). after_release (o.0, record a { leases = o.1 }))
          (held_release lease a.leases keyed valid held) in
    subst
      (λ (b : Account).
        (find_row lease.provider lease.account_id b.leases ≡ some (freed (row_of lease)))
        × (b.snapshot.state ≡ closed)
        × (b.close_task ≡ Controls.released))
      (sym e) (find_row-release_held lease a.leases valid held, refl, refl)
