-- ===== src/ManagedAccount/Barrier.antt =====
-- News of the account make void what src/managed-account.ts knew of it and what it still awaits.
use agentmixer.Prelude.{
  ℕ, ◌<◌, String, ◌≡◌, refl, ap, Bool, true, false, not, ◌&&◌, ◌||◌, Option, none, some, arith,
  if◌then◌else◌, &&-true_iff,
}
use agentmixer.ToolBroker.Paths.{Url}
use agentmixer.ManagedAccount.Data.{
  AccountState, unchecked, unavailable, Event, account_updated, disconnected, login_completed,
  event_binding,
}
use agentmixer.ManagedAccount.Controls.{
  Kind, check, logout, read_usage, start_login, cancel_login, Stage, queued, calling, reading,
  projecting, Operation, Account, is_bound, on_event, close_admission, abort_operation, invalidate,
  reject, mark_unavailable, after_throw,
}
use agentmixer.ManagedAccount.Fences.{is_quiet, IsFenced, is_signed_in}
use agentmixer.ManagedAccount.Settling.{silence}
use agentmixer.ManagedAccount.Ending.{on_event-Follows}
use agentmixer.ManagedAccount.Voids.{Leaves, late_reply}
use agentmixer.ManagedAccount.Tasks.{Reply, receive_reply}

-- Nothing is known of the account, and nobody waits.
record IsVoid (generation : ℕ) (a : Account) : Type 0 where
  later : generation < a.generation
  out : is_signed_in a.snapshot.state ≡ false
  pending : a.pending_login ≡ none
  quiet : is_quiet a.operation ≡ true

mark-IsVoid :
    (g : ℕ) (message : String) (generation : ℕ) (a : Account)
    → IsVoid g a
    → IsVoid g (mark_unavailable message generation a)
mark-IsVoid g message generation a h = ground (arith, h.later, h.out, h.pending, h.quiet)

throw-IsVoid :
    (g : ℕ) (kind : Kind) (stage : Stage) (completed : Bool) (a : Account)
    → IsVoid g a
    → IsVoid g (after_throw kind stage completed a)
throw-IsVoid g check stage completed a h = h
throw-IsVoid g logout stage completed a h = h
throw-IsVoid g read_usage stage completed a h = h
throw-IsVoid g (cancel_login id) stage completed a h = h
throw-IsVoid g (start_login method) queued completed a h = h
throw-IsVoid g (start_login method) calling completed a h =
    ground (arith, h.later, h.out, h.pending, h.quiet)
throw-IsVoid g (start_login method) reading completed a h =
    ground (arith, h.later, h.out, h.pending, h.quiet)
throw-IsVoid g (start_login method) projecting completed a h =
    ground (arith, h.later, h.out, h.pending, h.quiet)

reject-IsVoid :
    (g : ℕ) (completed : Bool) (message : String) (op : Operation) (a : Account)
    → IsVoid g a
    → IsVoid g (reject completed message op a)
reject-IsVoid g completed message op a h =
    let marked = mark-IsVoid g message op.generation a h in
    let thrown =
      throw-IsVoid g op.kind op.stage completed (mark_unavailable message op.generation a) marked in
    record {
      later = thrown.later;
      out = thrown.out;
      pending = thrown.pending;
      quiet = thrown.quiet;
    }

admission-IsVoid :
    (state : AccountState) (detail : Option String) (a : Account)
    → is_signed_in state ≡ false
    → IsVoid a.generation (close_admission state detail a)
admission-IsVoid state detail a out = go a.operation refl
  where
    b : Account
    b = invalidate state detail (record a { pending_login = none })

    rest : (op : Operation) → IsVoid a.generation (record b { operation = silence (some op) })
    rest op = record { later = omega arith; out = out; pending = refl; quiet = refl }

    at :
        (waits : Bool) (op : Operation)
        → IsVoid a.generation (
            if waits
            then reject false "MANAGED_ACCOUNT_ABORTED" op
                (record b { operation = silence (some op) })
            else record b { operation = silence (some op) })
    at true op = reject-IsVoid a.generation false "MANAGED_ACCOUNT_ABORTED" op _ (rest op)
    at false op = rest op

    go : (o : Option Operation) → a.operation ≡ o → IsVoid a.generation (abort_operation o b)
    go none e = record { later = omega arith; out = out; pending = refl; quiet = ap is_quiet e }
    go (some op) e = at op.awaited op

-- news of the account that count
abbrev pub is_news : Event → Bool
is_news (account_updated b) = true
is_news (disconnected b) = true
is_news (login_completed b id success) = false

abbrev pub counts : Event → Account → Bool
counts event a =
    not (a.closing || a.unresolved_login || not (is_bound (event_binding event) a.binding))
    && is_news event

-- the test of `onEvent`
abbrev pub is_ignored : Event → Account → Bool
is_ignored event a =
    a.closing || a.unresolved_login || not (is_bound (event_binding event) a.binding)

pub not_ignored : (b n : Bool) → (not b && n) ≡ true → b ≡ false
not_ignored b n h = ground arith

news-IsVoid :
    (event : Event) (a : Account) → counts event a ≡ true → IsVoid a.generation (on_event event a)
unfolding on_event
news-IsVoid (account_updated b) a h =
    rw (not_ignored (is_ignored (account_updated b) a) true h)
      (admission-IsVoid unchecked none a refl)
news-IsVoid (disconnected b) a h =
    rw (not_ignored (is_ignored (disconnected b) a) true h)
      (admission-IsVoid unavailable (some "MANAGED_ACCOUNT_DISCONNECTED") a refl)
news-IsVoid (login_completed b id success) a h =
    let never = ((&&-true_iff (not (is_ignored (login_completed b id success) a)) false).0 h).1 in
    cc

module _ (is_control : ℕ → Bool) (parse_url : String → Option Url) where
  -- News of a bound account, on a controller that is not closing and has no unresolved login, are a
  -- barrier: the generation rises, nobody is signed in, no login is pending, and a reply that comes
  -- to the operation that was in flight changes nothing any more, whatever it is.
  pub news_barrier :
      (event : Event) (reply : Reply) (a : Account)
      → IsFenced a
      → counts event a ≡ true
      → let b = on_event event a in
        (a.generation < b.generation)
        × (is_signed_in b.snapshot.state ≡ false)
        × (b.pending_login ≡ none)
        × Leaves b (receive_reply is_control parse_url reply b)
  news_barrier event reply a h news =
      let void = news-IsVoid event a news in
      let fence = (on_event-Follows ⊥ event a).fenced h in
      (
        void.later,
        void.out,
        void.pending,
        late_reply is_control parse_url reply (on_event event a) fence void.quiet,
      )
