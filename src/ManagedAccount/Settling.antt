-- ===== src/ManagedAccount/Settling.antt =====
-- What the settling of an operation's promise does in src/managed-account.ts, whichever way it goes.
use agentmixer.Prelude.{
  ℕ, String, ◌≡◌, refl, sym, inl, Bool, true, false, Option, none, some, arith, if◌then◌else◌,
}
use agentmixer.Prelude.Result.{Result, ok, err}
use agentmixer.ManagedAccount.Data.{AccountState}
use agentmixer.ManagedAccount.Controls.{
  Operation, Answer, Account, Kind, check, logout, read_usage, start_login, cancel_login, Stage,
  queued, calling, reading, projecting, thrown_message, invalidate, mark_unavailable,
  leave_unresolved, end_login, after_throw, after_return, add_answer, reject, abort_operation,
  time_out, settle_task, close_admission,
}
use mathlib.Core.Path.{subst}
use agentmixer.ManagedAccount.Tasks.{cancel_signal, expire}
use agentmixer.ManagedAccount.Fences.{is_quiet, is_signed_in, Follows, Follows-refl, Follows-trans}

-- an operation that is aborted
abbrev pub silence : Option Operation → Option Operation
silence none = none
silence (some op) = some (record op { aborted = true; awaited = false })

-- What a mark leaves quiet may be left unresolved.
mark-quiet :
    (message : String) (generation : ℕ) (a : Account)
    → is_quiet a.operation ≡ true
    → is_quiet (mark_unavailable message generation a).operation ≡ true
mark-quiet message generation a h = ground arith

module _ (R : Type 0) where
  mark-Follows :
      (message : String) (generation : ℕ) (a : Account)
      → Follows R a (mark_unavailable message generation a)
  mark-Follows message generation a = record {
    leases = ground arith;
    lease = ground arith;
    binding = ground arith;
    rising = ground arith;
    fresh = λ h. ground arith;
    signed = λ h. inl (ground arith);
    fenced = λ h. ground arith;
  }

  unresolved-Follows :
      (completed : Bool) (a : Account)
      → is_quiet a.operation ≡ true
      → Follows R a (leave_unresolved completed a)
  unresolved-Follows completed a quiet = record {
    leases = ground arith;
    lease = ground arith;
    binding = ground arith;
    rising = ground arith;
    fresh = λ h. ground arith;
    signed = λ h. inl (ground arith);
    fenced = λ h. ground arith;
  }

  end_login-Follows : (a : Account) → Follows R a (end_login a)
  end_login-Follows a = record {
    leases = refl;
    lease = refl;
    binding = refl;
    rising = omega arith;
    fresh = λ h. h;
    signed = λ h. inl refl;
    fenced = λ h. ground arith;
  }

  answer-Follows : (result : Result Answer) (a : Account) → Follows R a (add_answer result a)
  answer-Follows result a = record {
    leases = refl;
    lease = refl;
    binding = refl;
    rising = omega arith;
    fresh = λ h. h;
    signed = λ h. inl refl;
    fenced = λ h. ground arith;
  }

  throw-Follows :
      (kind : Kind) (stage : Stage) (completed : Bool) (a : Account)
      → is_quiet a.operation ≡ true
      → Follows R a (after_throw kind stage completed a)
  throw-Follows check stage completed a h = Follows-refl R a
  throw-Follows logout stage completed a h = Follows-refl R a
  throw-Follows read_usage stage completed a h = Follows-refl R a
  throw-Follows (cancel_login id) stage completed a h = Follows-refl R a
  throw-Follows (start_login method) queued completed a h = Follows-refl R a
  throw-Follows (start_login method) calling completed a h =
      Follows-trans R a (leave_unresolved completed a) _ (unresolved-Follows completed a h)
        (end_login-Follows (leave_unresolved completed a))
  throw-Follows (start_login method) reading completed a h =
      Follows-trans R a (leave_unresolved completed a) _ (unresolved-Follows completed a h)
        (end_login-Follows (leave_unresolved completed a))
  throw-Follows (start_login method) projecting completed a h =
      Follows-trans R a (leave_unresolved completed a) _ (unresolved-Follows completed a h)
        (end_login-Follows (leave_unresolved completed a))

  -- A rejection, once nobody waits for the operation.
  pub reject-Follows :
      (completed : Bool) (message : String) (op : Operation) (a : Account)
      → is_quiet a.operation ≡ true
      → Follows R a (reject completed message op a)
  reject-Follows completed message op a h =
      let marked = mark_unavailable message op.generation a in
      let thrown = after_throw op.kind op.stage completed marked in
      Follows-trans R a marked _ (mark-Follows message op.generation a) (
        Follows-trans R marked thrown _
          (throw-Follows op.kind op.stage completed marked (mark-quiet message op.generation a h))
          (answer-Follows (err (thrown_message message)) thrown))

  quiet-Follows :
      (op : Operation) (a : Account)
      → Follows R a (record a { operation = some (record op { aborted = true; awaited = false }) })
  quiet-Follows op a = record {
    leases = refl;
    lease = refl;
    binding = refl;
    rising = omega arith;
    fresh = λ h. h;
    signed = λ h. inl refl;
    fenced = λ h. ground arith;
  }

  -- An abort follows what was done before it, once the operation counts as aborted.
  pub abort_lem :
      (o : Option Operation) (a b : Account)
      → b.operation ≡ o
      → Follows R a (record b { operation = silence o })
      → Follows R a (abort_operation o b)
  abort_lem none a b e f =
      subst (λ (o : Option Operation). Follows R a (record b { operation = o })) (sym e) f
  abort_lem (some op) a b e f = go op.awaited
    where
      rest : Account
      rest = record b { operation = silence (some op) }

      go :
          (waits : Bool)
          → Follows R a (if waits then reject false "MANAGED_ACCOUNT_ABORTED" op rest else rest)
      go true =
          Follows-trans R a rest _ f (reject-Follows false "MANAGED_ACCOUNT_ABORTED" op rest refl)
      go false = f

  silence-Follows :
      (o : Option Operation) (a : Account)
      → a.operation ≡ o
      → Follows R a (record a { operation = silence o })
  silence-Follows none a e =
      subst (λ (o : Option Operation). Follows R a (record a { operation = o })) e
        (Follows-refl R a)
  silence-Follows (some op) a e = quiet-Follows op a

  pub cancel_signal-Follows : (a : Account) → Follows R a (cancel_signal a)
  cancel_signal-Follows a = abort_lem a.operation a a refl (silence-Follows a.operation a refl)

  time_out-Follows : (o : Option Operation) (a : Account) → Follows R a (time_out o a)
  time_out-Follows none a = Follows-refl R a
  time_out-Follows (some op) a = go op.awaited
    where
      rest : Account
      rest = record a { operation = some (record op { aborted = true; awaited = false }) }

      go :
          (b : Bool) → Follows R a (if b then reject false "MANAGED_ACCOUNT_TIMEOUT" op rest else a)
      go true =
          Follows-trans R a rest _ (quiet-Follows op a)
            (reject-Follows false "MANAGED_ACCOUNT_TIMEOUT" op rest refl)
      go false = Follows-refl R a

  drop-Follows : (a : Account) → Follows R a (record a { operation = none })
  drop-Follows a = record {
    leases = refl;
    lease = refl;
    binding = refl;
    rising = omega arith;
    fresh = λ h. h;
    signed = λ h. inl refl;
    fenced = λ h. ground arith;
  }

  return-Follows : (kind : Kind) (a : Account) → Follows R a (after_return kind a)
  return-Follows check a = Follows-refl R a
  return-Follows logout a = Follows-refl R a
  return-Follows read_usage a = Follows-refl R a
  return-Follows (cancel_login id) a = Follows-refl R a
  return-Follows (start_login method) a = end_login-Follows a

  -- A task settles, which follows what was done before it, once the operation is gone.
  pub settle_lem :
      (completed : Bool) (result : Result Answer) (op : Operation) (a b : Account)
      → Follows R a (record b { operation = none })
      → Follows R a (settle_task completed result op b)
  settle_lem completed result op a b f = go op.awaited result
    where
      rest : Account
      rest = record b { operation = none }

      go :
          (waits : Bool) (r : Result Answer)
          → Follows R a (
              if waits
              then elim r [
                | ok answer ↦ add_answer (ok answer) (after_return op.kind rest)
                | err message ↦ reject completed message op rest
              ]
              else rest)
      go true (ok answer) = Follows-trans R a rest _ f (
          Follows-trans R rest (after_return op.kind rest) _ (return-Follows op.kind rest)
            (answer-Follows (ok answer) (after_return op.kind rest)))
      go true (err message) =
          Follows-trans R a rest _ f (reject-Follows completed message op rest refl)
      go false r = f

  pub settle_task-Follows :
      (completed : Bool) (result : Result Answer) (op : Operation) (a : Account)
      → Follows R a (settle_task completed result op a)
  settle_task-Follows completed result op a = settle_lem completed result op a a (drop-Follows a)

  pub expire-Follows : (a : Account) → Follows R a (expire a)
  expire-Follows a = time_out-Follows a.operation a

  -- The end of an event that counts: what was known of the account is void.
  pub admission-Follows :
      (state : AccountState) (detail : Option String) (a : Account)
      → is_signed_in state ≡ false
      → a.unresolved_login ≡ false
      → Follows R a (close_admission state detail a)
  admission-Follows state detail a out resolved =
      let b = invalidate state detail (record a { pending_login = none }) in
      abort_lem a.operation a b refl (go a.operation)
    where
      go :
          (o : Option Operation)
          → Follows R a (record (invalidate state detail (record a { pending_login = none })) {
            operation = silence o;
          })
      go none = record {
        leases = refl;
        lease = refl;
        binding = refl;
        rising = omega arith;
        fresh = λ h. refl;
        signed = λ h. cc;
        fenced = λ h. ground arith;
      }
      go (some op) = record {
        leases = refl;
        lease = refl;
        binding = refl;
        rising = omega arith;
        fresh = λ h. refl;
        signed = λ h. cc;
        fenced = λ h. ground arith;
      }
