-- ===== src/ManagedAccount/Ending.antt =====
-- What an event, and the turns of a close, do in src/managed-account.ts.
use agentmixer.Prelude.{
  ℕ, String, ◌≡◌, refl, inl, inr, Bool, true, false, not, ◌&&◌, ◌||◌, Option, none, some, List,
  arith, is_text, is_some, if◌then◌else◌, Bool-cases,
}
use agentmixer.ManagedAccount.Data.{
  AccountState, unchecked, unavailable, Event, account_updated, disconnected, login_completed,
  event_binding,
}
use agentmixer.ManagedAccount.Controls.{
  Operation, Call, Closing, scheduled, Account, publish, invalidate, close_admission,
  abort_operation, failed_login, is_bound, record_early, complete_login, receive_event, on_event,
}
use agentmixer.ManagedAccount.Fences.{is_signed_in, Follows, Follows-refl}
use agentmixer.ManagedAccount.Settling.{admission-Follows, abort_lem, silence}
use agentmixer.ManagedAccount.Shutdown.{close_account, is_idle}

module _ (R : Type 0) where
  early_event-Follows :
      (id : String) (success : Bool) (a : Account) → Follows R a (record_early id success a)
  unfolding record_early
  early_event-Follows id success a = record {
    leases = ground arith;
    lease = ground arith;
    binding = ground arith;
    rising = ground arith;
    fresh = λ h. ground arith;
    signed = λ h. inl (ground arith);
    fenced = λ h. ground arith;
  }

  failed_login-Follows :
      (id : String) (success : Bool) (a : Account)
      → a.unresolved_login ≡ false
      → Follows R a (complete_login id success a)
  failed_login-Follows id success a resolved =
      elim (Bool-cases (not (is_some a.pending_login) && a.login_dispatch)) [
        | inl prior ↦ rw prior (early_event-Follows id success a)
        | inr late ↦ rw late (go (is_text a.pending_login id))
      ]
    where
      go :
          (b : Bool)
          → Follows R a (if b then close_admission unchecked (failed_login success) a else a)
      go true = admission-Follows R unchecked (failed_login success) a refl resolved
      go false = Follows-refl R a

  received-Follows :
      (event : Event) (a : Account)
      → a.unresolved_login ≡ false
      → Follows R a (receive_event event a)
  received-Follows (account_updated b) a h = admission-Follows R unchecked none a refl h
  received-Follows (disconnected b) a h =
      admission-Follows R unavailable (some "MANAGED_ACCOUNT_DISCONNECTED") a refl h
  received-Follows (login_completed b none success) a h = Follows-refl R a
  received-Follows (login_completed b (some id) none) a h = Follows-refl R a
  received-Follows (login_completed b (some id) (some success)) a h =
      failed_login-Follows id success a h

  pub on_event-Follows : (event : Event) (a : Account) → Follows R a (on_event event a)
  unfolding on_event
  on_event-Follows event a =
      elim (Bool-cases
        (a.closing || a.unresolved_login || not (is_bound (event_binding event) a.binding))) [
          | inl ignored ↦ rw ignored (Follows-refl R a)
          | inr counts ↦ rw counts (received-Follows event a (ground arith))
        ]

  -- Everything is void from the call on.
  shut-Follows :
      (o : Option Operation) (a : Account)
      → Follows R a
          (record (invalidate unchecked none
            (record a { closing = true; close_task = scheduled; pending_login = none })) {
              operation = silence o;
            })
  shut-Follows none a = record {
    leases = refl;
    lease = refl;
    binding = refl;
    rising = omega arith;
    fresh = λ h. refl;
    signed = λ h. cc;
    fenced = λ h. ground arith;
  }
  shut-Follows (some op) a = record {
    leases = refl;
    lease = refl;
    binding = refl;
    rising = omega arith;
    fresh = λ h. refl;
    signed = λ h. cc;
    fenced = λ h. ground arith;
  }

  pub close_account-Follows : (a : Account) → Follows R a (close_account a)
  unfolding close_account
  close_account-Follows a = go (is_idle a.close_task)
    where
      shut : Account
      shut =
          invalidate unchecked none
            (record a { closing = true; close_task = scheduled; pending_login = none })

      go : (b : Bool) → Follows R a (if b then abort_operation a.operation shut else a)
      go true = abort_lem R a.operation a shut refl (shut-Follows a.operation a)
      go false = Follows-refl R a

  -- A step of a close that publishes nothing.
  pub closing-Follows :
      (a : Account) (task : Closing) (closes : ℕ) (calls : List Call)
      → (is_idle task || a.closing) ≡ true
      → Follows R a (record a { close_task = task; unsettled_closes = closes; calls = calls })
  closing-Follows a task closes calls shut = record {
    leases = refl;
    lease = refl;
    binding = refl;
    rising = omega arith;
    fresh = λ h. h;
    signed = λ h. inl refl;
    fenced =
        λ h. record { fence = h.fence; unresolved = h.unresolved; calm = h.calm; closes = shut };
  }

  -- An attempt ends, one way or the other.
  pub ended-Follows :
      (a : Account) (state : AccountState) (detail : Option String) (task : Closing)
      → a.closing ≡ true
      → is_signed_in state ≡ false
      → Follows R a (record (publish state none detail a) { close_task = task })
  ended-Follows a state detail task shut out = record {
    leases = refl;
    lease = refl;
    binding = refl;
    rising = omega arith;
    fresh = λ h. refl;
    signed = λ h. cc;
    fenced = λ h. record {
      fence = h.fence;
      unresolved = ground arith;
      calm = h.calm;
      closes = ground arith;
    };
  }
