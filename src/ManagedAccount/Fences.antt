-- ===== src/ManagedAccount/Fences.antt =====
-- What holds of the controller of src/managed-account.ts in every state: the fence round its one
-- operation, and what is left of it after a login that was not resolved.
use agentmixer.Prelude.{
  ℕ, ◌≤◌, ◌≡◌, refl, sym, ap, ◌∙◌, ◌⊎◌, inl, inr, Bool, true, false, not, ◌&&◌, ◌||◌, Option, none,
  some, arith, nat_eq, if◌then◌else◌,
}
use agentmixer.ManagedAccount.Data.{AccountState, signed_in, Snapshot}
use agentmixer.ManagedAccount.Controls.{Operation, Account, is_recovery}
use agentmixer.ManagedAccount.Shutdown.{is_idle}

-- Nobody waits for the operation, if there is one.
abbrev pub is_quiet : Option Operation → Bool
is_quiet none = true
is_quiet (some op) = not op.awaited

-- An operation is aborted, or its caller waits and it is of the current generation.
abbrev pub fenced : Option Operation → (generation : ℕ) (closing : Bool) → Bool
fenced none generation closing = true
fenced (some op) generation closing =
    if op.awaited
    then not op.aborted && nat_eq op.generation generation && not closing
    else op.aborted

pub record IsFenced (a : Account) : Type 0 where
  pub fence : fenced a.operation a.generation a.closing ≡ true
  pub unresolved : (not a.unresolved_login || a.closing || is_recovery a.snapshot.state) ≡ true
  pub calm : (not a.unresolved_login || is_quiet a.operation) ≡ true
  pub closes : (is_idle a.close_task || a.closing) ≡ true

abbrev pub is_signed_in : AccountState → Bool
is_signed_in signed_in = true
is_signed_in _ = false

-- What a step does that neither opens nor closes the account; `R` says that it has read the account,
-- without which nobody is signed in by it.
pub record Follows (R : Type 0) (a b : Account) : Type 0 where
  pub leases : b.leases ≡ a.leases
  pub lease : b.lease ≡ a.lease
  pub binding : b.binding ≡ a.binding
  pub rising : a.generation ≤ b.generation
  pub fresh :
      a.snapshot.account_generation ≡ a.generation → b.snapshot.account_generation ≡ b.generation
  pub signed : is_signed_in b.snapshot.state ≡ true → (b.snapshot ≡ a.snapshot) ⊎ R
  pub fenced : IsFenced a → IsFenced b

module _ (R : Type 0) where
  pub Follows-refl : (a : Account) → Follows R a a
  Follows-refl a = record {
    leases = refl;
    lease = refl;
    binding = refl;
    rising = omega arith;
    fresh = λ h. h;
    signed = λ h. inl refl;
    fenced = λ h. h;
  }

  signed_trans :
      (a b c : Snapshot)
      → (is_signed_in b.state ≡ true → (b ≡ a) ⊎ R)
      → (is_signed_in c.state ≡ true → (c ≡ b) ⊎ R)
      → is_signed_in c.state ≡ true
      → (c ≡ a) ⊎ R
  signed_trans a b c f g h = elim (g h) [
    | inr r ↦ inr r
    | inl e ↦ elim (f (ap (λ (s : Snapshot). is_signed_in s.state) (sym e) ∙ h)) [
      | inl d ↦ inl (e ∙ d)
      | inr r ↦ inr r
    ]
  ]

  pub Follows-trans : (a b c : Account) → Follows R a b → Follows R b c → Follows R a c
  Follows-trans a b c f g = record {
    leases = g.leases ∙ f.leases;
    lease = g.lease ∙ f.lease;
    binding = g.binding ∙ f.binding;
    rising = omega (arith, f.rising, g.rising);
    fresh = λ h. g.fresh (f.fresh h);
    signed = signed_trans a.snapshot b.snapshot c.snapshot f.signed g.signed;
    fenced = λ h. g.fenced (f.fenced h);
  }
