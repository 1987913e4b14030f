-- ===== src/ManagedAccount/Turns.antt =====
-- What the turns of an operation and of a close do in src/managed-account.ts, on every branch.
use agentmixer.Prelude.{
  String, ◌≡◌, refl, inl, inr, Bool, true, false, Option, none, some, List, [], ◌∷◌, ◌++◌, arith,
}
use agentmixer.Prelude.Result.{Result, ok, err, require-eq-ok, after_ok}
use agentmixer.Validation.Data.{Value, Fields}
use agentmixer.ManagedAccount.Data.{
  AccountState, unchecked, signing_in, Challenge, login_id_of, Response,
}
use agentmixer.ManagedAccount.Controls.{
  Kind, check, logout, read_usage, start_login, cancel_login, Stage, queued, calling, reading,
  projecting, Operation, snapshot_answer, challenge_answer, status_answer, Call, account_read,
  log_out, usage_read, login_start, login_cancel, Account, publish, invalidate, settle_task,
  failed_login,
}
use agentmixer.ManagedAccount.Replies.{
  is_current, assert_current, response, response_fields, Projection, cancel_reply, logout_reply,
}
use agentmixer.ManagedAccount.Fences.{is_signed_in, Follows, Follows-refl, Follows-trans}
use agentmixer.ManagedAccount.Settling.{settle_task-Follows, settle_lem}
use agentmixer.ManagedAccount.Tasks.{
  first_call, on_ok, begin_at, begin_task, after_read, finish_read, finish_login, finish_cancel,
}

-- A reply that passes has passed the fence.
pub response-current :
    (op : Operation) (a : Account) (r : Option Response) (v : Value)
    → response op a r ≡ ok v
    → is_current op a ≡ true
unfolding response
response-current op a r v h =
    after_ok (assert_current op a) _ h λ u passed _. require-eq-ok (is_current op a) _ passed

pub response_fields-current :
    (op : Operation) (a : Account) (r : Option Response) (v : Fields)
    → response_fields op a r ≡ ok v
    → is_current op a ≡ true
unfolding response_fields
response_fields-current op a r v h =
    after_ok (response op a r) _ h λ x passed _. response-current op a r x passed

pub cancel_reply-current :
    (op : Operation) (a : Account) (r : Option Response) (s : String)
    → cancel_reply op a r ≡ ok s
    → is_current op a ≡ true
unfolding cancel_reply
cancel_reply-current op a r s h =
    after_ok (response_fields op a r) _ h λ x passed _. response_fields-current op a r x passed

pub logout_reply-current :
    (op : Operation) (a : Account) (r : Option Response) (u : Unit {0})
    → logout_reply op a r ≡ ok u
    → is_current op a ≡ true
unfolding logout_reply
logout_reply-current op a r u h =
    after_ok (response_fields op a r) _ h λ x passed _. response_fields-current op a r x passed

module _ (R : Type 0) where
  -- A task goes on to another await.
  pub advance-Follows :
      (op : Operation) (a : Account) (stage : Stage) (calls : List Call) (dispatch : Bool)
      (pending : Option String)
      → a.operation ≡ some op
      → Follows R a (record a {
        operation = some (record op { stage = stage });
        calls = calls;
        login_dispatch = dispatch;
        pending_login = pending;
      })
  advance-Follows op a stage calls dispatch pending e = record {
    leases = refl;
    lease = refl;
    binding = refl;
    rising = omega arith;
    fresh = λ h. h;
    signed = λ h. inl refl;
    fenced = λ h. ground arith;
  }

  pub on_ok-Follows :
      {A : Type 0} (m : Result A) (op : Operation) (a : Account) (rest : A → Account)
      → ((x : A) → m ≡ ok x → Follows R a (rest x))
      → Follows R a (on_ok m op a rest)
  on_ok-Follows (ok x) op a rest went = went x refl
  on_ok-Follows (err message) op a rest went = settle_task-Follows R false (err message) op a

  first_call-Follows :
      (kind : Kind) (op : Operation) (a : Account)
      → a.operation ≡ some op
      → Follows R a (first_call kind op a)
  first_call-Follows check op a e =
      advance-Follows op a reading (a.calls ++ account_read ∷ []) a.login_dispatch a.pending_login e
  first_call-Follows logout op a e =
      advance-Follows op a calling (a.calls ++ log_out ∷ []) a.login_dispatch a.pending_login e
  first_call-Follows read_usage op a e =
      advance-Follows op a calling (a.calls ++ usage_read ∷ []) a.login_dispatch a.pending_login e
  first_call-Follows (start_login method) op a e =
      advance-Follows op a calling (a.calls ++ login_start method ∷ []) true a.pending_login e
  first_call-Follows (cancel_login id) op a e =
      advance-Follows op a calling (a.calls ++ login_cancel id ∷ []) a.login_dispatch
        a.pending_login e

  pub begin_task-Follows : (a : Account) → Follows R a (begin_task a)
  unfolding begin_task
  begin_task-Follows a = go a.operation refl
    where
      at :
          (stage : Stage) (op : Operation)
          → a.operation ≡ some op
          → Follows R a (begin_at stage op a)
      at queued op e =
          on_ok-Follows (assert_current op a) op a (λ u. first_call op.kind op a)
            (λ u _. first_call-Follows op.kind op a e)
      at calling op e = Follows-refl R a
      at reading op e = Follows-refl R a
      at projecting op e = Follows-refl R a

      go :
          (o : Option Operation)
          → a.operation ≡ o
          → Follows R a (elim o [ none ↦ a | some op ↦ begin_at op.stage op a ])
      go none e = Follows-refl R a
      go (some op) e = at op.stage op e

  -- What a current operation publishes, the state of a signed-in account only if it was read.
  publish-Follows :
      (state : AccountState) (plan_label detail pending : Option String) (op : Operation)
      (a : Account)
      → a.operation ≡ some op
      → is_current op a ≡ true
      → (is_signed_in state ≡ true → R)
      → Follows R a (publish state plan_label detail (record a { pending_login = pending }))
  publish-Follows state plan_label detail pending op a e current read = record {
    leases = refl;
    lease = refl;
    binding = refl;
    rising = omega arith;
    fresh = λ h. refl;
    signed = λ h. inr (read h);
    fenced = λ h. record {
      fence = h.fence;
      unresolved = ground (arith, h.calm, h.fence);
      calm = h.calm;
      closes = h.closes;
    };
  }

  -- Once an early completion is known, the login is over.
  early-Follows :
      (detail : Option String) (op : Operation) (a : Account)
      → a.operation ≡ some op
      → is_current op a ≡ true
      → Follows R a
          (settle_task true (err "MANAGED_ACCOUNT_STALE") op (invalidate unchecked detail a))
  early-Follows detail op a e current =
      settle_lem R true (err "MANAGED_ACCOUNT_STALE") op a (invalidate unchecked detail a) (record {
        leases = refl;
        lease = refl;
        binding = refl;
        rising = omega arith;
        fresh = λ h. refl;
        signed = λ h. cc;
        fenced = λ h. record {
          fence = refl;
          unresolved = ground (arith, h.calm, h.fence);
          calm = ground arith;
          closes = h.closes;
        };
      })

  pub finish_login-Follows :
      (op : Operation) (challenge : Challenge) (early : Option Bool) (a : Account)
      → a.operation ≡ some op
      → is_current op a ≡ true
      → Follows R a (finish_login op challenge early a)
  finish_login-Follows op challenge none a e current =
      Follows-trans R a
        (publish signing_in none none (record a { pending_login = some (login_id_of challenge) })) _
        (publish-Follows signing_in none none (some (login_id_of challenge)) op a e current
          (λ h. cc))
        (settle_task-Follows R false (ok (challenge_answer challenge)) op _)
  finish_login-Follows op challenge (some success) a e current =
      early-Follows (failed_login success) op a e current

  pub finish_cancel-Follows :
      (op : Operation) (status : String) (a : Account)
      → a.operation ≡ some op
      → is_current op a ≡ true
      → Follows R a (finish_cancel op status a)
  finish_cancel-Follows op status a e current =
      Follows-trans R a (publish unchecked none none (record a { pending_login = none })) _
        (publish-Follows unchecked none none none op a e current (λ h. cc))
        (settle_task-Follows R false (ok (status_answer status)) op _)

  pub finish_read-Follows :
      (op : Operation) (p : Projection) (a : Account)
      → a.operation ≡ some op
      → is_current op a ≡ true
      → (is_signed_in p.state ≡ true → R)
      → Follows R a (finish_read op p a)
  finish_read-Follows op p a e current read =
      let b = publish p.state p.plan_label p.detail a in
      Follows-trans R a b _
        (publish-Follows p.state p.plan_label p.detail a.pending_login op a e current read)
        (settle_task-Follows R false (ok (snapshot_answer b.snapshot)) op b)

  pub after_read-Follows :
      (op : Operation) (r : Option Response) (a : Account)
      → a.operation ≡ some op
      → Follows R a (after_read op r a)
  after_read-Follows op r a e =
      on_ok-Follows (response_fields op a r) op a _
        (λ fields _. advance-Follows op a projecting a.calls a.login_dispatch a.pending_login e)
