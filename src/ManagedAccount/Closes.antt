-- ===== src/ManagedAccount/Closes.antt =====
-- What each turn of a close does in src/managed-account.ts, up to the join.
use agentmixer.Prelude.{
  suc, ◌-◌, ◌≡◌, refl, Bool, true, false, ◌&&◌, ◌||◌, none, some, [], ◌∷◌, ◌++◌, arith, is_some,
  if◌then◌else◌, ltb,
}
use agentmixer.ManagedAccount.Data.{recovery_required, closed}
use agentmixer.ManagedAccount.Controls.{
  Account, Closing, idle, scheduled, stopping, joining, released, close_transport,
}
use agentmixer.ManagedAccount.Fences.{Follows, Follows-refl, Follows-trans}
use agentmixer.ManagedAccount.Ending.{closing-Follows, ended-Follows}
use agentmixer.ManagedAccount.Shutdown.{
  begin_at_close, begin_close, end_attempt, fail_attempt, own_closes, settle_late_close, at_receipt,
  receive_receipt, at_failure, fail_close, is_idle,
}

-- A close step on a controller that is not closing is none.
pub begin_close-Follows :
    (R : Type 0) (a : Account)
    → (is_idle a.close_task || a.closing) ≡ true
    → Follows R a (begin_close a)
unfolding begin_close
begin_close-Follows R a h = go a.close_task refl
  where
    at :
        (l : Bool) (b : Bool)
        → a.closing ≡ true
        → Follows R a (
            if l
            then (if b
                then record a {
                  close_task = stopping;
                  unsettled_closes = suc a.unsettled_closes;
                  calls = a.calls ++ close_transport ∷ [];
                }
                else fail_attempt a)
            else end_attempt a)
    at true true shut =
        closing-Follows R a stopping (suc a.unsettled_closes) (a.calls ++ close_transport ∷ []) shut
    at true false shut =
        ended-Follows R a recovery_required (some "MANAGED_ACCOUNT_STOP_UNPROVEN") idle shut refl
    at false b shut = ended-Follows R a closed none released shut refl

    go : (c : Closing) → a.close_task ≡ c → Follows R a (begin_at_close c a)
    go idle e = Follows-refl R a
    go scheduled e = at (is_some a.lease) (a.has_transport && is_some a.binding) (ground arith)
    go stopping e = Follows-refl R a
    go joining e = Follows-refl R a
    go released e = Follows-refl R a

pub settle_late-Follows :
    (R : Type 0) (a : Account)
    → (is_idle a.close_task || a.closing) ≡ true
    → Follows R a (settle_late_close a)
unfolding settle_late_close
settle_late-Follows R a h = go (ltb (own_closes a.close_task) a.unsettled_closes)
  where
    go :
        (b : Bool)
        → Follows R a (if b then record a { unsettled_closes = a.unsettled_closes - 1 } else a)
    go true = closing-Follows R a a.close_task (a.unsettled_closes - 1) a.calls h
    go false = Follows-refl R a

pub receipt-Follows :
    (R : Type 0) (a : Account)
    → (is_idle a.close_task || a.closing) ≡ true
    → Follows R a (receive_receipt a)
unfolding receive_receipt
receipt-Follows R a h = go a.close_task refl
  where
    go : (c : Closing) → a.close_task ≡ c → Follows R a (at_receipt c a)
    go idle e = Follows-refl R a
    go scheduled e = Follows-refl R a
    go stopping e = closing-Follows R a joining (a.unsettled_closes - 1) a.calls (ground arith)
    go joining e = Follows-refl R a
    go released e = Follows-refl R a

pub fail_attempt-Follows :
    (R : Type 0) (a : Account) → a.closing ≡ true → Follows R a (fail_attempt a)
fail_attempt-Follows R a shut =
    ended-Follows R a recovery_required (some "MANAGED_ACCOUNT_STOP_UNPROVEN") idle shut refl

pub failure-Follows :
    (R : Type 0) (rejected : Bool) (a : Account)
    → (is_idle a.close_task || a.closing) ≡ true
    → Follows R a (fail_close rejected a)
unfolding fail_close
failure-Follows R rejected a h = go a.close_task refl rejected
  where
    go : (c : Closing) → a.close_task ≡ c → (b : Bool) → Follows R a (at_failure c b a)
    go idle e b = Follows-refl R a
    go scheduled e b = Follows-refl R a
    go stopping e true =
        let shut : a.closing ≡ true = ground arith in
        let fewer = record a { unsettled_closes = a.unsettled_closes - 1 } in
        Follows-trans R a fewer _
          (closing-Follows R a a.close_task (a.unsettled_closes - 1) a.calls h)
          (fail_attempt-Follows R fewer shut)
    go stopping e false = fail_attempt-Follows R a (ground arith)
    go joining e b = fail_attempt-Follows R a (ground arith)
    go released e b = Follows-refl R a
