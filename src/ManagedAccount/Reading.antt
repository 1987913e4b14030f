-- ===== src/ManagedAccount/Reading.antt =====
-- What a reply to an operation of src/managed-account.ts does: only a projection that is read within
-- the fence signs anybody in.
use agentmixer.Prelude.{ℕ, String, ◌≡◌, refl, Bool, true, false, Option, none, some, [], ◌∷◌, ◌++◌}
use agentmixer.Prelude.Result.{ok, err, require-eq-ok, after_ok}
use agentmixer.Validation.Data.{Value}
use agentmixer.ToolBroker.Paths.{Url}
use agentmixer.ManagedAccount.Data.{Method, Challenge, login_id_of, Response}
use agentmixer.ManagedAccount.Parsing.{record_of}
use agentmixer.ManagedAccount.Controls.{
  Kind, check, logout, read_usage, start_login, cancel_login, Stage, queued, calling, reading,
  projecting, Operation, usage_answer, account_read, Account, find_early,
}
use agentmixer.ManagedAccount.Replies.{
  is_current, assert_current, response, Projection, projection_of, cancel_reply, logout_reply,
  UsageReply, usage_reply_of, login_reply,
}
use agentmixer.ManagedAccount.Fences.{is_signed_in, Follows, Follows-refl}
use agentmixer.ManagedAccount.Settling.{settle_task-Follows}
use agentmixer.ManagedAccount.Tasks.{
  Reply, failed, responded, projected, used, after_call, after_projection, after_usage, resume,
  receive_reply,
}
use agentmixer.ManagedAccount.Turns.{
  response-current, cancel_reply-current, advance-Follows, on_ok-Follows, finish_login-Follows,
  finish_cancel-Follows, finish_read-Follows, after_read-Follows,
}

module _ (is_control : ℕ → Bool) (parse_url : String → Option Url) where
  -- The reply is a projection that the operation has read, and it says that somebody is signed in.
  pub record SignsIn (reply : Reply) (a : Account) : Type 0 where
    pub operation : Operation
    pub value : Value
    pub projection : Projection
    pub active : a.operation ≡ some operation
    pub awaits : operation.stage ≡ projecting
    pub is_reply : reply ≡ projected value
    pub current : is_current operation a ≡ true
    pub reads : projection_of is_control operation a value ≡ ok projection
    pub says : is_signed_in projection.state ≡ true

  pub login_reply-current :
      (method : Method) (op : Operation) (a : Account) (r : Option Response) (c : Challenge)
      → login_reply is_control parse_url method op a r ≡ ok c
      → is_current op a ≡ true
  unfolding login_reply
  login_reply-current method op a r c h =
      after_ok (response op a r) _ h λ v passed _. response-current op a r v passed

  pub projection_of-current :
      (op : Operation) (a : Account) (v : Value) (p : Projection)
      → projection_of is_control op a v ≡ ok p
      → is_current op a ≡ true
  unfolding projection_of
  projection_of-current op a v p h = after_ok (record_of v) _ h λ fields _ h.
      after_ok (assert_current op a) _ h λ u passed _. require-eq-ok (is_current op a) _ passed

  module _ (R : Type 0) where
    after_call-Follows :
        (kind : Kind) (op : Operation) (r : Option Response) (a : Account)
        → a.operation ≡ some op
        → Follows R a (after_call is_control parse_url kind op r a)
    after_call-Follows check op r a e = Follows-refl R a
    after_call-Follows read_usage op r a e = Follows-refl R a
    after_call-Follows logout op r a e = on_ok-Follows R (logout_reply op a r) op a _ (λ u _.
        advance-Follows R op a reading (a.calls ++ account_read ∷ []) a.login_dispatch none e)
    after_call-Follows (cancel_login id) op r a e =
        on_ok-Follows R (cancel_reply op a r) op a _
          (λ status h. finish_cancel-Follows R op status a e (cancel_reply-current op a r status h))
    after_call-Follows (start_login method) op r a e =
        on_ok-Follows R (login_reply is_control parse_url method op a r) op a _ (λ c h.
          finish_login-Follows R op c (find_early (login_id_of c) a.early) a e
            (login_reply-current method op a r c h))

    after_usage-Follows :
        (op : Operation) (r : UsageReply) (a : Account)
        → Follows R a (after_usage is_control parse_url op r a)
    after_usage-Follows op r a =
        on_ok-Follows R (usage_reply_of is_control op a r) op a _
          (λ usage _. settle_task-Follows R false (ok (usage_answer usage)) op a)

    after_projection-Follows :
        (op : Operation) (v : Value) (a : Account)
        → a.operation ≡ some op
        → ((p : Projection)
            → projection_of is_control op a v ≡ ok p
            → is_signed_in p.state ≡ true
            → R)
        → Follows R a (after_projection is_control parse_url op v a)
    after_projection-Follows op v a e read =
        on_ok-Follows R (projection_of is_control op a v) op a _
          (λ p h. finish_read-Follows R op p a e (projection_of-current op a v p h) (read p h))

  resume-Follows :
      (stage : Stage) (reply : Reply) (op : Operation) (a : Account)
      → a.operation ≡ some op
      → op.stage ≡ stage
      → Follows (SignsIn reply a) a (resume is_control parse_url stage reply op a)
  resume-Follows queued reply op a e s = Follows-refl (SignsIn reply a) a
  resume-Follows calling (failed message) op a e s =
      settle_task-Follows (SignsIn (failed message) a) false (err message) op a
  resume-Follows reading (failed message) op a e s =
      settle_task-Follows (SignsIn (failed message) a) false (err message) op a
  resume-Follows projecting (failed message) op a e s =
      settle_task-Follows (SignsIn (failed message) a) false (err message) op a
  resume-Follows calling (responded r) op a e s =
      after_call-Follows (SignsIn (responded r) a) op.kind op r a e
  resume-Follows calling (used r) op a e s = after_usage-Follows (SignsIn (used r) a) op r a
  resume-Follows calling (projected v) op a e s = Follows-refl (SignsIn (projected v) a) a
  resume-Follows reading (responded r) op a e s =
      after_read-Follows (SignsIn (responded r) a) op r a e
  resume-Follows reading (used r) op a e s = Follows-refl (SignsIn (used r) a) a
  resume-Follows reading (projected v) op a e s = Follows-refl (SignsIn (projected v) a) a
  resume-Follows projecting (responded r) op a e s = Follows-refl (SignsIn (responded r) a) a
  resume-Follows projecting (used r) op a e s = Follows-refl (SignsIn (used r) a) a
  resume-Follows projecting (projected v) op a e s =
      after_projection-Follows (SignsIn (projected v) a) op v a e λ p h says. record {
        operation = op;
        value = v;
        projection = p;
        active = e;
        awaits = s;
        is_reply = refl;
        current = projection_of-current op a v p h;
        reads = h;
        says = says;
      }

  pub receive_reply-Follows :
      (reply : Reply) (a : Account)
      → Follows (SignsIn reply a) a (receive_reply is_control parse_url reply a)
  unfolding receive_reply
  receive_reply-Follows reply a = go a.operation refl
    where
      go :
          (o : Option Operation)
          → a.operation ≡ o
          → Follows
              (SignsIn reply a)
              a
              (elim o [ none ↦ a | some op ↦ resume is_control parse_url op.stage reply op a ])
      go none e = Follows-refl (SignsIn reply a) a
      go (some op) e = resume-Follows op.stage reply op a e refl
