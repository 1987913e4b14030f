-- ===== src/ManagedAccount/Voids.antt =====
-- The replies that come too late to an operation of src/managed-account.ts, and what nothing but a
-- close can do after a login that was not resolved.
use agentmixer.Prelude.{ℕ, String, ◌≡◌, refl, ◌∙◌, Bool, true, false, Option, none, some, arith}
use agentmixer.Prelude.Result.{Result, ok, err, require-eq-ok, after_ok}
use agentmixer.ToolBroker.Paths.{Url}
use agentmixer.ManagedAccount.Data.{Response, Usage}
use agentmixer.ManagedAccount.Controls.{
  Kind, check, logout, read_usage, start_login, cancel_login, Stage, queued, calling, reading,
  projecting, Operation, Account, Answer, settle_task,
}
use agentmixer.ManagedAccount.Replies.{
  is_current, assert_current, response_fields, projection_of, cancel_reply, logout_reply,
  UsageReply, usage_reply_of, login_reply,
}
use agentmixer.ManagedAccount.Fences.{is_quiet, IsFenced}
use agentmixer.ManagedAccount.Turns.{
  response_fields-current, cancel_reply-current, logout_reply-current,
}
use agentmixer.ManagedAccount.Reading.{login_reply-current, projection_of-current}
use agentmixer.ManagedAccount.Tasks.{
  Reply, failed, responded, projected, used, on_ok, begin_at, begin_task, after_call, resume,
  receive_reply,
}

-- What a step leaves alone that only ends an operation nobody waits for.
pub record Leaves (a b : Account) : Type 0 where
  pub snapshot : b.snapshot ≡ a.snapshot
  pub generation : b.generation ≡ a.generation
  pub pending_login : b.pending_login ≡ a.pending_login
  pub calls : b.calls ≡ a.calls
  pub answers : b.answers ≡ a.answers
  pub leases : b.leases ≡ a.leases
  pub lease : b.lease ≡ a.lease
  pub closing : b.closing ≡ a.closing
  pub unresolved_login : b.unresolved_login ≡ a.unresolved_login

pub Leaves-refl : (a : Account) → Leaves a a
Leaves-refl a = record {
  snapshot = refl;
  generation = refl;
  pending_login = refl;
  calls = refl;
  answers = refl;
  leases = refl;
  lease = refl;
  closing = refl;
  unresolved_login = refl;
}

pub Leaves-trans : (a b c : Account) → Leaves a b → Leaves b c → Leaves a c
Leaves-trans a b c f g = record {
  snapshot = g.snapshot ∙ f.snapshot;
  generation = g.generation ∙ f.generation;
  pending_login = g.pending_login ∙ f.pending_login;
  calls = g.calls ∙ f.calls;
  answers = g.answers ∙ f.answers;
  leases = g.leases ∙ f.leases;
  lease = g.lease ∙ f.lease;
  closing = g.closing ∙ f.closing;
  unresolved_login = g.unresolved_login ∙ f.unresolved_login;
}

usage_reply-current :
    (is_control : ℕ → Bool) (op : Operation) (a : Account) (r : UsageReply) (u : Usage)
    → usage_reply_of is_control op a r ≡ ok u
    → is_current op a ≡ true
unfolding usage_reply_of
usage_reply-current is_control op a r u h =
    after_ok (assert_current op a) _ h λ x passed _. require-eq-ok (is_current op a) _ passed

-- A task nobody waits for settles.
settle-Leaves :
    (op : Operation) (a : Account) (completed : Bool) (result : Result Answer)
    → op.awaited ≡ false
    → Leaves a (settle_task completed result op a)
settle-Leaves op a completed result h = rw h record {
  snapshot = refl;
  generation = refl;
  pending_login = refl;
  calls = refl;
  answers = refl;
  leases = refl;
  lease = refl;
  closing = refl;
  unresolved_login = refl;
}

module _ (op : Operation) (a : Account) (late : op.awaited ≡ false)
    (stale : is_current op a ≡ false) where
  on_ok-Leaves :
      {A : Type 0} (m : Result A) (rest : A → Account)
      → ((x : A) → m ≡ ok x → is_current op a ≡ true)
      → Leaves a (on_ok m op a rest)
  on_ok-Leaves (ok x) rest current = let now = current x refl in cc
  on_ok-Leaves (err message) rest current = settle-Leaves op a false (err message) late

  begin_at-Leaves : (stage : Stage) → Leaves a (begin_at stage op a)
  begin_at-Leaves queued =
      on_ok-Leaves (assert_current op a) _ (λ u passed. require-eq-ok (is_current op a) _ passed)
  begin_at-Leaves calling = Leaves-refl a
  begin_at-Leaves reading = Leaves-refl a
  begin_at-Leaves projecting = Leaves-refl a

  module _ (is_control : ℕ → Bool) (parse_url : String → Option Url) where
    call-Leaves :
        (kind : Kind) (r : Option Response) → Leaves a (after_call is_control parse_url kind op r a)
    call-Leaves check r = Leaves-refl a
    call-Leaves read_usage r = Leaves-refl a
    call-Leaves logout r =
        on_ok-Leaves (logout_reply op a r) _ (λ u h. logout_reply-current op a r u h)
    call-Leaves (cancel_login id) r =
        on_ok-Leaves (cancel_reply op a r) _ (λ s h. cancel_reply-current op a r s h)
    call-Leaves (start_login method) r =
        on_ok-Leaves (login_reply is_control parse_url method op a r) _
          (λ c h. login_reply-current is_control parse_url method op a r c h)

    resume-Leaves :
        (stage : Stage) (reply : Reply) → Leaves a (resume is_control parse_url stage reply op a)
    resume-Leaves queued reply = Leaves-refl a
    resume-Leaves calling (failed m) = settle-Leaves op a false (err m) late
    resume-Leaves reading (failed m) = settle-Leaves op a false (err m) late
    resume-Leaves projecting (failed m) = settle-Leaves op a false (err m) late
    resume-Leaves calling (responded r) = call-Leaves op.kind r
    resume-Leaves calling (used r) =
        on_ok-Leaves (usage_reply_of is_control op a r) _
          (λ u h. usage_reply-current is_control op a r u h)
    resume-Leaves calling (projected v) = Leaves-refl a
    resume-Leaves reading (responded r) =
        on_ok-Leaves (response_fields op a r) _ (λ f h. response_fields-current op a r f h)
    resume-Leaves reading (used r) = Leaves-refl a
    resume-Leaves reading (projected v) = Leaves-refl a
    resume-Leaves projecting (responded r) = Leaves-refl a
    resume-Leaves projecting (used r) = Leaves-refl a
    resume-Leaves projecting (projected v) =
        on_ok-Leaves (projection_of is_control op a v) _
          (λ p h. projection_of-current is_control parse_url op a v p h)

module _ (is_control : ℕ → Bool) (parse_url : String → Option Url) where
  -- A reply to an operation nobody waits for ends it, and does nothing else.
  pub late_reply :
      (reply : Reply) (a : Account)
      → IsFenced a
      → is_quiet a.operation ≡ true
      → Leaves a (receive_reply is_control parse_url reply a)
  unfolding receive_reply
  late_reply reply a h quiet = go a.operation refl
    where
      go :
          (o : Option Operation)
          → a.operation ≡ o
          → Leaves a
              (elim o [ none ↦ a | some op ↦ resume is_control parse_url op.stage reply op a ])
      go none e = Leaves-refl a
      go (some op) e =
          resume-Leaves op a (ground arith) (ground (arith, h.fence)) is_control parse_url op.stage
            reply

pub late_begin : (a : Account) → IsFenced a → is_quiet a.operation ≡ true → Leaves a (begin_task a)
unfolding begin_task
late_begin a h quiet = go a.operation refl
  where
    go :
        (o : Option Operation)
        → a.operation ≡ o
        → Leaves a (elim o [ none ↦ a | some op ↦ begin_at op.stage op a ])
    go none e = Leaves-refl a
    go (some op) e = begin_at-Leaves op a (ground arith) (ground (arith, h.fence)) op.stage
