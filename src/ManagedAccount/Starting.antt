-- ===== src/ManagedAccount/Starting.antt =====
-- What the start of an operation of src/managed-account.ts does, and when it is refused.
use agentmixer.Prelude.{
  ℕ, suc, ◌≤◌, String, ◌≡◌, refl, sym, ◌∙◌, inl, inr, Bool, true, false, not, ◌&&◌, ◌||◌, none,
  arith, is_some, is_text, Bool-cases,
}
use agentmixer.Prelude.Result.{Result, ok, err, require-eq-ok}
use agentmixer.Prelude.Exec.{assert, lift}
use agentmixer.Prelude.Readers.{after_reader}
use agentmixer.ManagedAccount.Data.{unchecked, Settings}
use agentmixer.ManagedAccount.Parsing.{method_of}
use agentmixer.ManagedAccount.Controls.{
  Kind, check, logout, read_usage, start_login, cancel_login, Account, invalidate, is_recovery,
  is_closed,
}
use agentmixer.ManagedAccount.Fences.{IsFenced, is_signed_in}
use agentmixer.ManagedAccount.Calls.{
  Opening, Request, ask_check, ask_logout, ask_usage, ask_login, ask_cancel, ensure_transport,
  opened, run_operation, start, clean_login_id,
}
use agentmixer.ManagedAccount.Transports.{Prepared, ensure_transport-Prepared}

-- What a start does, whether it goes on or throws.
pub record Starts (a b : Account) : Type 0 where
  pub rising : a.generation ≤ b.generation
  pub fresh :
      a.snapshot.account_generation ≡ a.generation → b.snapshot.account_generation ≡ b.generation
  pub signed : is_signed_in b.snapshot.state ≡ true → b.snapshot ≡ a.snapshot
  pub fenced : IsFenced a → IsFenced b
  pub kept :
      is_some a.lease ≡ true → (b.leases ≡ a.leases) × (b.lease ≡ a.lease) × (b.binding ≡ a.binding)

Starts-refl : (a : Account) → Starts a a
Starts-refl a = record {
  rising = omega arith;
  fresh = λ h. h;
  signed = λ h. refl;
  fenced = λ h. h;
  kept = λ h. (refl, refl, refl);
}

-- the guards of `run`
abbrev pub is_free : Account → Bool
is_free a =
    not (a.closing || is_closed a.snapshot.state || is_recovery a.snapshot.state)
    && not (is_some a.operation || a.login_dispatch)

both_true : (b c : Bool) → b ≡ true → c ≡ true → (b && c) ≡ true
both_true b c h k = ground arith

still_busy :
    (b c aborted : Bool)
    → ((b && c) && not aborted) ≡ false
    → b ≡ true
    → aborted ≡ false
    → c ≡ false
still_busy b c aborted h k l = ground arith

module _ (settings : Settings) (kind : Kind) (opening : Opening) where
  opened-Starts :
      (a c : Account) (r : Result (Unit {0}))
      → is_free a ≡ true
      → Prepared (invalidate unchecked none a) c
      → Starts a (opened settings kind opening (suc a.generation) (r, c)).1
  opened-Starts a c (ok u) free p = record {
    rising = omega (arith, p.generation);
    fresh = λ h. p.fresh ∙ sym p.generation;
    signed = λ h. ground (arith, p.out);
    fenced = λ h. ground (arith, p.generation, p.closing, p.unresolved, p.close_task, h.unresolved);
    kept = p.kept;
  }
  opened-Starts a c (err message) free p = record {
    rising = ground (arith, p.generation);
    fresh = λ h. ground (arith, p.fresh, p.generation);
    signed = λ h. ground (arith, p.out);
    fenced = λ h. ground (arith, p.generation, p.closing, p.unresolved, p.operation, p.close_task);
    kept = λ h. ground (arith, p.kept h);
  }

  run-Starts :
      (aborted : Bool) (a : Account) → Starts a (run_operation settings kind opening aborted a).1
  unfolding run_operation
  run-Starts aborted a =
      after_reader (λ o. Starts a o.1)
        (assert (not (a.closing || is_closed a.snapshot.state || is_recovery a.snapshot.state))
          "MANAGED_ACCOUNT_UNAVAILABLE")
        _ a (λ t. refl) (λ e. Starts-refl a)
        λ u open_ok.
          after_reader (λ o. Starts a o.1) (assert (not aborted) "MANAGED_ACCOUNT_ABORTED") _ a
            (λ t. refl) (λ e. Starts-refl a)
            λ u _.
              after_reader (λ o. Starts a o.1)
                (assert (not (is_some a.operation || a.login_dispatch)) "MANAGED_ACCOUNT_BUSY") _ a
                (λ t. refl) (λ e. Starts-refl a)
                λ u idle_ok.
                  let b = invalidate unchecked none a in
                  let o = ensure_transport settings opening b in
                  opened-Starts a o.1 o.0
                    (both_true _ _ (require-eq-ok _ _ open_ok) (require-eq-ok _ _ idle_ok))
                    (ensure_transport-Prepared settings opening b refl refl)

  -- While an operation is in flight, or none is possible, `run` throws and changes nothing.
  run_refused :
      (aborted : Bool) (a : Account)
      → (is_free a && not aborted) ≡ false
      → (message : String) × (run_operation settings kind opening aborted a ≡ (err message, a))
  unfolding run_operation
  run_refused aborted a busy =
      elim (Bool-cases
        (not (a.closing || is_closed a.snapshot.state || is_recovery a.snapshot.state))) [
          | inr shut ↦ ("MANAGED_ACCOUNT_UNAVAILABLE", rw shut refl)
          | inl open_ok ↦ elim (Bool-cases aborted) [
            | inl gone ↦ ("MANAGED_ACCOUNT_ABORTED", rw (open_ok, gone) refl)
            | inr waits ↦ (
              "MANAGED_ACCOUNT_BUSY",
              rw (open_ok, waits, still_busy _ _ _ busy open_ok waits) refl,
            )
          ]
        ]

-- the requests that go through `run`
abbrev pub goes_through : Request → Bool
goes_through (ask_usage has_reader) = has_reader
goes_through _ = true

-- what throws in `a` and leaves it
abbrev pub Refuses : Account → Result (Unit {0}) × Account → Type 0
Refuses a o = (message : String) × (o ≡ (err message, a))

module _ (is_control : ℕ → Bool) (settings : Settings) (opening : Opening) (aborted : Bool) where
  pub start-Starts :
      (request : Request) (a : Account)
      → Starts a (start is_control settings request opening aborted a).1
  unfolding start
  start-Starts ask_check a = run-Starts settings check opening aborted a
  start-Starts ask_logout a = run-Starts settings logout opening aborted a
  start-Starts (ask_usage true) a = run-Starts settings read_usage opening aborted a
  start-Starts (ask_usage false) a = Starts-refl a
  start-Starts (ask_login value) a =
      after_reader (λ o. Starts a o.1) (lift (method_of is_control settings value)) _ a (λ t. refl)
        (λ e. Starts-refl a)
        λ method _.
          after_reader (λ o. Starts a o.1)
            (assert (not (is_some a.pending_login)) "MANAGED_LOGIN_PENDING") _ a (λ t. refl)
            (λ e. Starts-refl a) λ u _. run-Starts settings (start_login method) opening aborted a
  start-Starts (ask_cancel value) a =
      after_reader (λ o. Starts a o.1) (lift (clean_login_id is_control value)) _ a (λ t. refl)
        (λ e. Starts-refl a)
        λ id _.
          after_reader (λ o. Starts a o.1)
            (assert (is_text a.pending_login id) "MANAGED_LOGIN_STALE") _ a (λ t. refl)
            (λ e. Starts-refl a) λ u _. run-Starts settings (cancel_login id) opening aborted a

  -- While an operation is in flight, or a login is being dispatched, or the account is closing,
  -- closed or in need of recovery, or the caller's signal is aborted, every operation that is started
  -- throws and changes nothing.
  pub start_refused :
      (request : Request) (a : Account)
      → (is_free a && not aborted) ≡ false
      → goes_through request ≡ true
      → Refuses a (start is_control settings request opening aborted a)
  unfolding start
  start_refused ask_check a busy goes = run_refused settings check opening aborted a busy
  start_refused ask_logout a busy goes = run_refused settings logout opening aborted a busy
  start_refused (ask_usage true) a busy goes =
      run_refused settings read_usage opening aborted a busy
  start_refused (ask_usage false) a busy goes = cc
  start_refused (ask_login value) a busy goes =
      after_reader (Refuses a) (lift (method_of is_control settings value)) _ a (λ t. refl)
        (λ e. (e, refl))
        λ method _.
          after_reader (Refuses a) (assert (not (is_some a.pending_login)) "MANAGED_LOGIN_PENDING")
            _ a (λ t. refl) (λ e. (e, refl))
            λ u _. run_refused settings (start_login method) opening aborted a busy
  start_refused (ask_cancel value) a busy goes =
      after_reader (Refuses a) (lift (clean_login_id is_control value)) _ a (λ t. refl)
        (λ e. (e, refl))
        λ id _.
          after_reader (Refuses a) (assert (is_text a.pending_login id) "MANAGED_LOGIN_STALE") _ a
            (λ t. refl) (λ e. (e, refl))
            λ u _. run_refused settings (cancel_login id) opening aborted a busy
