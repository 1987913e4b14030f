-- ===== src/ManagedAccount/Tasks.antt =====
-- src/managed-account.ts: the turns of an operation's task. Its first turn is `begin_task`, and it
-- goes on in `receive_reply` when what it awaits settles; a timer fires in `expire`, a caller's signal
-- in `cancel_signal`. The transport, the projection and the usage reader are their replies.
use agentmixer.Prelude.{ℕ, String, Bool, true, false, Option, none, some, [], ◌∷◌, ◌++◌}
use agentmixer.Prelude.Result.{Result, ok, err}
use agentmixer.Validation.Data.{Value}
use agentmixer.ToolBroker.Paths.{Url}
use agentmixer.ManagedAccount.Data.{unchecked, signing_in, Challenge, login_id_of, Response}
use agentmixer.ManagedAccount.Controls.{
  Kind, check, logout, read_usage, start_login, cancel_login, Stage, queued, calling, reading,
  projecting, Operation, snapshot_answer, challenge_answer, status_answer, usage_answer, Call,
  account_read, log_out, usage_read, login_start, login_cancel, Account, publish, invalidate,
  abort_operation, time_out, settle_task, find_early, failed_login,
}
use agentmixer.ManagedAccount.Replies.{
  assert_current, response_fields, Projection, projection_of, cancel_reply, logout_reply,
  UsageReply, usage_reply_of, login_reply,
}

-- a reply that an operation awaits
pub data Reply : Type 0 where
  failed : (message : String) → Reply
  responded : Option Response → Reply
  projected : Value → Reply
  used : UsageReply → Reply

-- the task waits for a call at that stage
abbrev pub await_call : Call → Stage → Operation → Account → Account
await_call call stage op a = record a {
  operation = some (record op { stage = stage });
  calls = a.calls ++ call ∷ [];
}

-- the first call of each operation's task
abbrev pub first_call : Kind → Operation → Account → Account
first_call check op a = await_call account_read reading op a
first_call logout op a = await_call log_out calling op a
first_call read_usage op a = await_call usage_read calling op a
first_call (start_login method) op a =
    await_call (login_start method) calling op (record a { login_dispatch = true })
first_call (cancel_login id) op a = await_call (login_cancel id) calling op a

-- A task whose step throws is over.
abbrev pub on_ok : {A : Type 0} → Result A → Operation → Account → (A → Account) → Account
on_ok (ok x) op a rest = rest x
on_ok (err message) op a rest = settle_task false (err message) op a

abbrev pub begin_at : Stage → Operation → Account → Account
begin_at queued op a = on_ok (assert_current op a) op a (λ u. first_call op.kind op a)
begin_at _ op a = a

-- the first turn of the task
unfoldable pub begin_task : Account → Account
begin_task a = elim a.operation [ none ↦ a | some op ↦ begin_at op.stage op a ]

-- `read`, after the account has been read
abbrev pub after_read : Operation → Option Response → Account → Account
after_read op r a =
    on_ok (response_fields op a r) op a
      (λ fields. record a { operation = some (record op { stage = projecting }) })

abbrev pub finish_read : Operation → Projection → Account → Account
finish_read op p a =
    let b = publish p.state p.plan_label p.detail a in
    settle_task false (ok (snapshot_answer b.snapshot)) op b

abbrev pub finish_login : Operation → Challenge → Option Bool → Account → Account
finish_login op challenge none a =
    settle_task false (ok (challenge_answer challenge)) op
      (publish signing_in none none (record a { pending_login = some (login_id_of challenge) }))
finish_login op challenge (some success) a =
    settle_task true (err "MANAGED_ACCOUNT_STALE") op
      (invalidate unchecked (failed_login success) a)

abbrev pub finish_cancel : Operation → String → Account → Account
finish_cancel op status a =
    settle_task false (ok (status_answer status)) op
      (publish unchecked none none (record a { pending_login = none }))

module _ (is_control : ℕ → Bool) (parse_url : String → Option Url) where
  abbrev pub after_call : Kind → Operation → Option Response → Account → Account
  after_call (start_login method) op r a =
      on_ok (login_reply is_control parse_url method op a r) op a
        (λ challenge. finish_login op challenge (find_early (login_id_of challenge) a.early) a)
  after_call (cancel_login id) op r a =
      on_ok (cancel_reply op a r) op a (λ status. finish_cancel op status a)
  after_call logout op r a =
      on_ok (logout_reply op a r) op a
        (λ u. await_call account_read reading op (record a { pending_login = none }))
  after_call _ op r a = a

  abbrev pub after_projection : Operation → Value → Account → Account
  after_projection op value a =
      on_ok (projection_of is_control op a value) op a (λ p. finish_read op p a)

  abbrev pub after_usage : Operation → UsageReply → Account → Account
  after_usage op r a =
      on_ok (usage_reply_of is_control op a r) op a
        (λ usage. settle_task false (ok (usage_answer usage)) op a)

  -- the task of an operation goes on with what it awaits
  abbrev pub resume : Stage → Reply → Operation → Account → Account
  resume queued reply op a = a
  resume stage (failed message) op a = settle_task false (err message) op a
  resume calling (responded r) op a = after_call op.kind op r a
  resume calling (used r) op a = after_usage op r a
  resume reading (responded r) op a = after_read op r a
  resume projecting (projected value) op a = after_projection op value a
  resume stage reply op a = a

  unfoldable pub receive_reply : Reply → Account → Account
  receive_reply reply a = elim a.operation [ none ↦ a | some op ↦ resume op.stage reply op a ]

-- the timer of the operation
abbrev pub expire : Account → Account
expire a = time_out a.operation a

-- the caller's signal
abbrev pub cancel_signal : Account → Account
cancel_signal a = abort_operation a.operation a
