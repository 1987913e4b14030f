-- ===== src/ManagedAccount/Signing.antt =====
-- What the snapshot of a controller of src/managed-account.ts can say.
use agentmixer.Prelude.{
  ℕ, ◌≤◌, String, ◌≡◌, refl, sym, ap, ◌∙◌, ◌⊎◌, inl, inr, Bool, true, Option, List, [], ◌∷◌, ◌++◌,
  arith,
}
use agentmixer.ToolBroker.Paths.{Url}
use agentmixer.Accounts.Rows.{Table}
use agentmixer.ManagedAccount.Data.{Settings, Snapshot}
use agentmixer.ManagedAccount.Controls.{Account, new_account}
use agentmixer.ManagedAccount.Fences.{fenced, IsFenced, is_signed_in}
use agentmixer.ManagedAccount.Reading.{SignsIn}
use agentmixer.ManagedAccount.Trace.{Action, replying, step, run, Reads, step-Advances}
use agentmixer.ManagedAccount.Tasks.{Reply, receive_reply}

pub new-IsFenced : (leases : Table) → IsFenced (new_account leases)
new-IsFenced leases = record { fence = refl; unresolved = refl; calm = refl; closes = refl }

module _ (is_control : ℕ → Bool) (parse_url : String → Option Url) (settings : Settings) where
  -- a reading of the account among some actions that says that somebody is signed in
  pub record SignedBy (actions : List Action) (a : Account) : Type 0 where
    pub before : List Action
    pub reply : Reply
    pub after : List Action
    pub among : actions ≡ before ++ replying reply ∷ after
    pub reads : SignsIn is_control parse_url reply (run is_control parse_url settings before a)
    pub stays :
        (run is_control parse_url settings actions a).snapshot
        ≡ (receive_reply is_control parse_url reply
            (run is_control parse_url settings before a)).snapshot

  reach :
      (actions : List Action) (a : Account)
      → a.snapshot.account_generation ≡ a.generation
      → IsFenced a
      → let b = run is_control parse_url settings actions a in
        (b.snapshot.account_generation ≡ b.generation) × IsFenced b
  unfolding run
  reach [] a fresh h = (fresh, h)
  reach (action ∷ actions) a fresh h =
      let s = step-Advances is_control parse_url settings action a h in
      reach actions (step is_control parse_url settings action a) (s.fresh fresh) (s.fenced h)

  rises :
      (actions : List Action) (a : Account)
      → IsFenced a
      → a.generation ≤ (run is_control parse_url settings actions a).generation
  unfolding run
  rises [] a h = omega arith
  rises (action ∷ actions) a h =
      let s = step-Advances is_control parse_url settings action a h in
      omega
        (arith, s.rising, rises actions (step is_control parse_url settings action a) (s.fenced h))

  -- Every snapshot of a controller is of its present generation, which never falls, and its
  -- operation, if there is one, is aborted, or its caller waits and it is of the present generation
  -- on a controller that is not closing.
  pub run_fenced :
      (actions more : List Action) (leases : Table)
      → let a = run is_control parse_url settings actions (new_account leases) in
        (a.snapshot.account_generation ≡ a.generation)
        × (a.generation ≤ (run is_control parse_url settings more a).generation)
        × (fenced a.operation a.generation a.closing ≡ true)
  run_fenced actions more leases =
      let (fresh, fence) = reach actions (new_account leases) refl (new-IsFenced leases) in
      (
        fresh,
        rises more (run is_control parse_url settings actions (new_account leases)) fence,
        fence.fence,
      )

  later :
      (action : Action) (actions : List Action) (a : Account)
      → SignedBy actions (step is_control parse_url settings action a)
      → SignedBy (action ∷ actions) a
  unfolding run
  later action actions a o = record {
    before = action ∷ o.before;
    reply = o.reply;
    after = o.after;
    among = ap (◌∷◌ action) o.among;
    reads = o.reads;
    stays = o.stays;
  }

  first :
      (action : Action) (actions : List Action) (a : Account)
      → Reads is_control parse_url settings action a
      → (run is_control parse_url settings (action ∷ actions) a).snapshot
        ≡ (step is_control parse_url settings action a).snapshot
      → SignedBy (action ∷ actions) a
  unfolding run step
  first (replying reply) actions a reads same = record {
    before = [];
    reply = reply;
    after = actions;
    among = refl;
    reads = reads;
    stays = same;
  }
  first _ actions a reads same = elim reads [ ]

  signed_from :
      (actions : List Action) (a : Account)
      → IsFenced a
      → is_signed_in (run is_control parse_url settings actions a).snapshot.state ≡ true
      → ((run is_control parse_url settings actions a).snapshot ≡ a.snapshot) ⊎ SignedBy actions a
  unfolding run
  signed_from [] a h says = inl refl
  signed_from (action ∷ actions) a h says =
      let b = step is_control parse_url settings action a in
      let s = step-Advances is_control parse_url settings action a h in
      elim (signed_from actions b (s.fenced h) says) [
        | inr o ↦ inr (later action actions a o)
        | inl same ↦
            elim (s.signed (ap (λ (x : Snapshot). is_signed_in x.state) (sym same) ∙ says)) [
              | inl kept ↦ inl (same ∙ kept)
              | inr reads ↦ inr (first action actions a reads same)
            ]
      ]

  -- A controller whose snapshot says that the account is signed in has read so: among what was done
  -- with it there is a projection that said so, that its operation awaited within the fence, and the
  -- snapshot is still the one of that reading.
  pub signed_in_read :
      (actions : List Action) (leases : Table)
      → is_signed_in (run is_control parse_url settings actions (new_account leases)).snapshot.state
        ≡ true
      → SignedBy actions (new_account leases)
  signed_in_read actions leases says =
      elim (signed_from actions (new_account leases) (new-IsFenced leases) says) [
        | inr o ↦ o
        | inl same ↦ let never = ap (λ (x : Snapshot). is_signed_in x.state) (sym same) ∙ says in cc
      ]
