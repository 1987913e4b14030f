-- ===== src/ManagedAccount/Shutdown.antt =====
-- src/managed-account.ts: `close`, and the turns of a close up to the release of the lease.
use agentmixer.Prelude.{
  ℕ, suc, ◌-◌, Bool, true, false, not, ◌&&◌, Option, none, some, [], ◌∷◌, ◌++◌, ltb, nat_eq,
  is_some, if◌then◌else◌,
}
use agentmixer.Prelude.Result.{Result, ok, err}
use agentmixer.Accounts.Rows.{Lease}
use agentmixer.Accounts.{release}
use agentmixer.ManagedAccount.Data.{unchecked, recovery_required, closed, Receipt}
use agentmixer.ManagedAccount.Controls.{
  close_transport, Closing, idle, scheduled, stopping, joining, released, Account, publish,
  invalidate, abort_operation, is_bound,
}
use agentmixer.ManagedAccount.Calls.{on_leases}

abbrev pub is_idle : Closing → Bool
is_idle idle = true
is_idle _ = false

-- `close`, which answers with the promise that is there, if any
unfoldable pub close_account : Account → Account
close_account a =
    if is_idle a.close_task
    then abort_operation a.operation (
        invalidate unchecked none
          (record a { closing = true; close_task = scheduled; pending_login = none }))
    else a

-- the attempt ends without a proof, and another may follow
abbrev pub fail_attempt : Account → Account
fail_attempt a = record (publish recovery_required none (some "MANAGED_ACCOUNT_STOP_UNPROVEN") a) {
  close_task = idle;
}

abbrev pub end_attempt : Account → Account
end_attempt a = record (publish closed none none a) { close_task = released }

abbrev pub stop_transport : Account → Account
stop_transport a =
    if a.has_transport && is_some a.binding
    then record a {
      close_task = stopping;
      unsettled_closes = suc a.unsettled_closes;
      calls = a.calls ++ close_transport ∷ [];
    }
    else fail_attempt a

abbrev pub begin_at_close : Closing → Account → Account
begin_at_close scheduled a = if is_some a.lease then stop_transport a else end_attempt a
begin_at_close _ a = a

-- the first turn of the close
unfoldable pub begin_close : Account → Account
begin_close a = begin_at_close a.close_task a

abbrev pub own_closes : Closing → ℕ
own_closes stopping = 1
own_closes _ = 0

-- The transport's `close` of an attempt that is over settles.
unfoldable pub settle_late_close : Account → Account
settle_late_close a =
    if ltb (own_closes a.close_task) a.unsettled_closes
    then record a { unsettled_closes = a.unsettled_closes - 1 }
    else a

abbrev pub at_receipt : Closing → Account → Account
at_receipt stopping a = record a { close_task = joining; unsettled_closes = a.unsettled_closes - 1 }
at_receipt _ a = a

-- the receipt of the attempt's own `close`; it is checked at the join
unfoldable pub receive_receipt : Account → Account
receive_receipt a = at_receipt a.close_task a

abbrev pub at_failure : Closing → (rejected : Bool) → Account → Account
at_failure stopping true a = fail_attempt (record a { unsettled_closes = a.unsettled_closes - 1 })
at_failure stopping false a = fail_attempt a
at_failure joining rejected a = fail_attempt a
at_failure _ rejected a = a

-- an await of the close throws, since the transport's `close` rejects or the time is over
unfoldable pub fail_close : (rejected : Bool) → Account → Account
fail_close rejected a = at_failure a.close_task rejected a

-- the test on the receipt once all that had not settled was awaited
abbrev pub proves_stop : Receipt → Account → Bool
proves_stop receipt a =
    is_bound receipt.binding a.binding
    && receipt.process_exited
    && receipt.process_group_stopped
    && receipt.stdout_ended
    && receipt.stderr_ended
    && receipt.writes_settled
    && receipt.requests_settled
    && receipt.notifications_settled
    && not (is_some a.operation)
    && nat_eq a.unsettled_closes 0

abbrev pub after_release : Result Bool × Account → Account
after_release (ok true, a) = end_attempt a
after_release (ok false, a) = fail_attempt a
after_release (err e, a) = fail_attempt a

abbrev pub release_lease : Option Lease → Account → Account
release_lease none a = end_attempt a
release_lease (some lease) a = after_release (on_leases (release lease) a)

abbrev pub join_at : Closing → Receipt → Account → Account
join_at joining receipt a =
    if proves_stop receipt a then release_lease a.lease a else fail_attempt a
join_at _ receipt a = a

-- the end of the close, when what had not settled has
unfoldable pub join_close : Receipt → Account → Account
join_close receipt a = join_at a.close_task receipt a
