-- ===== src/ManagedAccount/Transports.antt =====
-- What the opening of a transport does in src/managed-account.ts, whether it works or throws.
use agentmixer.Prelude.{
  ◌≡◌, refl, sym, Bool, true, false, Option, none, some, is_some, if◌then◌else◌,
}
use agentmixer.Prelude.Result.{Result, ok, err}
use agentmixer.Prelude.Exec.{◌>>◌, pure, proceed, modify, throw}
use mathlib.Core.Path.{subst}
use agentmixer.Accounts.{acquire}
use agentmixer.Accounts.Rows.{Lease, Table}
use agentmixer.ManagedAccount.Data.{Settings}
use agentmixer.ManagedAccount.Controls.{Account}
use agentmixer.ManagedAccount.Fences.{is_signed_in}
use agentmixer.ManagedAccount.Calls.{
  Opening, lease_input, binding_of, make_transport, open_transport, ensure_transport,
}

-- what the opening of a transport leaves as it is
pub record Prepared (b c : Account) : Type 0 where
  pub generation : c.generation ≡ b.generation
  pub closing : c.closing ≡ b.closing
  pub unresolved : c.unresolved_login ≡ b.unresolved_login
  pub operation : c.operation ≡ b.operation
  pub close_task : c.close_task ≡ b.close_task
  pub fresh : c.snapshot.account_generation ≡ b.snapshot.account_generation
  pub out : is_signed_in c.snapshot.state ≡ false
  pub kept :
      is_some b.lease ≡ true → (c.leases ≡ b.leases) × (c.lease ≡ b.lease) × (c.binding ≡ b.binding)

Prepared-refl : (b : Account) → is_signed_in b.snapshot.state ≡ false → Prepared b b
Prepared-refl b out = record {
  generation = refl;
  closing = refl;
  unresolved = refl;
  operation = refl;
  close_task = refl;
  fresh = refl;
  out = out;
  kept = λ h. (refl, refl, refl);
}

module _ (settings : Settings) (opening : Opening) where
  transport-Prepared :
      (works : Bool) (b c : Account)
      → b.lease ≡ none
      → b.snapshot.account_generation ≡ b.generation
      → is_signed_in b.snapshot.state ≡ false
      → c ≡ record b { leases = c.leases; lease = c.lease; binding = c.binding }
      → Prepared b (make_transport works c).1
  transport-Prepared true b c free fresh out e =
      subst (λ (x : Account). Prepared b (make_transport true x).1) (sym e)
        record {
          generation = refl;
          closing = refl;
          unresolved = refl;
          operation = refl;
          close_task = refl;
          fresh = refl;
          out = out;
          kept = λ h. cc;
        }
  transport-Prepared false b c free fresh out e =
      subst (λ (x : Account). Prepared b (make_transport false x).1) (sym e)
        record {
          generation = refl;
          closing = refl;
          unresolved = refl;
          operation = refl;
          close_task = refl;
          fresh = sym fresh;
          out = refl;
          kept = λ h. cc;
        }

  open_transport-Prepared :
      (b : Account)
      → b.lease ≡ none
      → b.snapshot.account_generation ≡ b.generation
      → is_signed_in b.snapshot.state ≡ false
      → Prepared b (open_transport settings opening b).1
  unfolding open_transport
  open_transport-Prepared b free fresh out =
      go (acquire (lease_input settings opening.acquired_at) b.leases)
    where
      go :
          (o : Result Lease × Table)
          → Prepared b
              (proceed
                (o.0, record b { leases = o.1 })
                (λ lease.
                  modify (λ a. record a {
                    lease = some lease;
                    binding = some (binding_of settings lease);
                  })
                  >> make_transport opening.factory_works)).1
      go (err message, rows) = record {
        generation = refl;
        closing = refl;
        unresolved = refl;
        operation = refl;
        close_task = refl;
        fresh = refl;
        out = out;
        kept = λ h. cc;
      }
      go (ok lease, rows) =
          transport-Prepared opening.factory_works b
            (record b {
              leases = rows;
              lease = some lease;
              binding = some (binding_of settings lease);
            })
            free fresh out refl

  pub ensure_transport-Prepared :
      (b : Account)
      → b.snapshot.account_generation ≡ b.generation
      → is_signed_in b.snapshot.state ≡ false
      → Prepared b (ensure_transport settings opening b).1
  unfolding ensure_transport
  ensure_transport-Prepared b fresh out = go b.has_transport b.lease refl
    where
      go :
          (has : Bool) (l : Option Lease)
          → b.lease ≡ l
          → Prepared b
              ((if has
                  then pure tt
                  else if is_some l
                  then throw "MANAGED_ACCOUNT_RECOVERY_REQUIRED"
                  else open_transport settings opening)
                b).1
      go true l e = Prepared-refl b out
      go false (some l) e = Prepared-refl b out
      go false none e = open_transport-Prepared b e fresh out
