-- ===== src/Accounts/Return.antt =====
-- The return of a lease by the callers of src/accounts.ts, src/runtime.ts and src/task-runtime.ts.
use agentmixer.Prelude.{◌≡◌, ap, ◌∙◌, false, some}
use agentmixer.Prelude.Result.{ok, err}
use agentmixer.Prelude.Exec.{Exec, proceed-ok, ◌>>=◌, assert}
use agentmixer.Validation.Data.{nat}
use agentmixer.Accounts.Rows.{Table, Lease, find_row}
use agentmixer.Accounts.Checks.{validate_lease}
use agentmixer.Accounts.Slots.{IsKeyed}
use agentmixer.Accounts.Custody.{row_of}
use agentmixer.Accounts.Release.{
  released, release_answer, holds-row_of, stale_refused, valid_expiry,
}
use agentmixer.Accounts.{release}

-- `if (!leases.release(lease)) throw Error("STALE_ACCOUNT_LEASE")`
abbrev pub give_back : Lease → Exec Table (Unit {0})
give_back lease = do given ← release lease; assert given "STALE_ACCOUNT_LEASE"

-- A lease that holds its account is given back.
pub give_back_owned :
    (lease : Lease) (t : Table)
    → IsKeyed t
    → validate_lease lease ≡ ok tt
    → find_row lease.provider lease.account_id t ≡ some (row_of lease)
    → give_back lease t ≡ (ok tt, (release lease t).1)
give_back_owned lease t keyed valid held =
    proceed-ok (release lease t) (λ given. assert given "STALE_ACCOUNT_LEASE")
      (release_answer lease t keyed valid
        ∙ ap (λ s. ok (released s lease)) held
        ∙ ap ok (holds-row_of lease))

-- A lease that does not hold its account is refused, and the table stays.
pub give_back_stale :
    (lease : Lease) (t : Table)
    → IsKeyed t
    → validate_lease lease ≡ ok tt
    → released (find_row lease.provider lease.account_id t) lease ≡ false
    → give_back lease t ≡ (err "STALE_ACCOUNT_LEASE", t)
give_back_stale lease t keyed valid lost =
    rw (stale_refused lease (nat 0) (nat 1000) t keyed valid valid_expiry lost).0
