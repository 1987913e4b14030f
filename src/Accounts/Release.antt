-- ===== src/Accounts/Release.antt =====
-- What `release`, `renew` and a second `acquire` of src/accounts.ts answer, by the row of the account.
use agentmixer.Prelude.{
  ℕ, String, ◌≡◌, refl, sym, ap, ◌∙◌, Bool, true, false, Option, none, some, List, [], ◌∷◌, arith,
  nat_eq, length,
}
use mathlib.Core.Path.{subst}
use agentmixer.Validation.{safe_integer}
use agentmixer.Prelude.Result.{Result, ok, err}
use agentmixer.Validation.Data.{Value, nat}
use agentmixer.Accounts.Rows.{
  Row, Table, Lease, find_row, holds, claimed, claim_row, upsert, update_rows,
}
use agentmixer.Accounts.Checks.{expiry, validate_lease, lease_from}
use agentmixer.Accounts.Slots.{
  IsKeyed, IsKeyed-upsert, IsKeyed-update_rows, hit_slot, upsert_returns, update_rows_hits,
}
use agentmixer.Accounts.Claims.{Claim, admitted, claiming, granted, acquire-admitted}
use agentmixer.Accounts.Trace.{
  Call, acquiring, renewing, releasing, recovering, step, run, table-lease_or, find_row-release,
}
use agentmixer.Accounts.Custody.{row_of, holds_iff}
use agentmixer.Accounts.Fencing.{HasAcquired, acquire-HasAcquired}
use agentmixer.Accounts.{AcquireInput, acquire, renew, release, recover, freed}

-- An update that changes no row leaves the table.
update_rows_none :
    (test : Row → Bool) (change : Row → Row) (t : Table)
    → (update_rows test change t).0 ≡ []
    → (update_rows test change t).1 ≡ t
unfolding update_rows
update_rows_none test change [] h = refl
update_rows_none test change (row ∷ rows) h = ground (arith, update_rows_none test change rows)

-- A claim on an account that is held leaves the table.
upsert_held :
    (c : Claim) (t : Table)
    → (upsert c.provider c.account_id c.owner c.expires_at t).0 ≡ none
    → (upsert c.provider c.account_id c.owner c.expires_at t).1 ≡ t
unfolding upsert claim_row
upsert_held c [] h = cc
upsert_held c (row ∷ rows) h = ground (arith, upsert_held c rows)

-- While an account has an owner, an `acquire` with valid inputs is refused and changes nothing,
-- whatever time it gives and whatever the deadline in the row is.
pub acquire_held :
    (input : AcquireInput) (c : Claim) (t : Table) (row : Row) (holder : String)
    → admitted input ≡ ok c
    → find_row c.provider c.account_id t ≡ some row
    → row.owner ≡ some holder
    → acquire input t ≡ (err "ACCOUNT_BUSY_OR_RECOVERY_REQUIRED", t)
unfolding claimed
acquire_held input c t row holder valid found owned =
    let refused : (upsert c.provider c.account_id c.owner c.expires_at t).0 ≡ none =
      upsert_returns c.provider c.account_id c.owner c.expires_at t ∙ rw found (ground arith) in
    acquire-admitted input t ∙ ap (λ a. claiming a t) valid ∙ cc (refused, upsert_held c t refused)

-- the answer of `release` to a lease that is well formed
abbrev pub released : Option Row → Lease → Bool
released none lease = false
released (some row) lease = holds lease row

hit_length :
    (lease : Lease) (slot : Option Row)
    → nat_eq (length (hit_slot lease freed slot)) 1 ≡ released slot lease
hit_length lease none = refl
hit_length lease (some row) = ground arith

-- `release` answers whether the account is held under exactly that lease.
pub release_answer :
    (lease : Lease) (t : Table) {u : Unit {0}}
    → IsKeyed t
    → validate_lease lease ≡ ok u
    → (release lease t).0 ≡ ok (released (find_row lease.provider lease.account_id t) lease)
unfolding release
release_answer lease t keyed valid = rw (
  valid,
  update_rows_hits lease freed t keyed,
  hit_length lease (find_row lease.provider lease.account_id t),
)

-- what `renew` does to the row that is held
abbrev extended : ℕ → Row → Row
extended n row = record row { expires_at = n }

hit_stale :
    (lease : Lease) (change : Row → Row) (slot : Option Row)
    → released slot lease ≡ false
    → hit_slot lease change slot ≡ []
hit_stale lease change none h = refl
hit_stale lease change (some row) h = ground arith

-- A lease that no longer holds its account frees nothing and renews nothing: both are refused and
-- the table stays as it is.
pub stale_refused :
    (lease : Lease) (now ttl_ms : Value) (t : Table) {u : Unit {0}} {n : ℕ}
    → IsKeyed t
    → validate_lease lease ≡ ok u
    → expiry now ttl_ms ≡ ok n
    → released (find_row lease.provider lease.account_id t) lease ≡ false
    → (release lease t ≡ (ok false, t))
      × (renew lease now ttl_ms t ≡ (err "STALE_ACCOUNT_LEASE", t))
unfolding release renew
stale_refused lease now ttl_ms t {n = n} keyed valid fits stale = (
  rw (valid, none_hit freed, update_rows_none (holds lease) freed t (none_hit freed)),
  rw (
    valid,
    fits,
    none_hit (extended n),
    update_rows_none (holds lease) (extended n) t (none_hit (extended n)),
  ),
)
  where
    none_hit : (change : Row → Row) → (update_rows (holds lease) change t).0 ≡ []
    none_hit change =
        update_rows_hits lease change t keyed
        ∙ hit_stale lease change (find_row lease.provider lease.account_id t) stale

IsKeyed-claiming : (c : Result Claim) (t : Table) → IsKeyed t → IsKeyed (claiming c t).1
IsKeyed-claiming (err e) t h = h
IsKeyed-claiming (ok c) t h = IsKeyed-upsert c.provider c.account_id c.owner c.expires_at t h

pub IsKeyed-step : (call : Call) (t : Table) → IsKeyed t → IsKeyed (step call t)
unfolding step renew release recover
IsKeyed-step (acquiring input) t h =
    rw (ap (λ (r : Result Lease × Table). r.1) (acquire-admitted input t))
      (IsKeyed-claiming (admitted input) t h)
IsKeyed-step (renewing lease now ttl_ms) t h =
    go (validate_lease lease) refl (expiry now ttl_ms) refl
  where
    go :
        (v : Result (Unit {0}))
        → validate_lease lease ≡ v
        → (e : Result ℕ) → expiry now ttl_ms ≡ e
        → IsKeyed (renew lease now ttl_ms t).1
    go (err _) p e r = rw p h
    go (ok _) p (err _) r = rw (p, r) h
    go (ok _) p (ok n) r =
        rw (p, r, table-lease_or)
          (IsKeyed-update_rows (holds lease) (extended n) (λ row. (refl, refl)) t h)
IsKeyed-step (releasing lease) t h =
    ground (arith, IsKeyed-update_rows (holds lease) freed (λ row. (refl, refl)) t h)
IsKeyed-step (recovering lease stopped) t h =
    ground (arith, IsKeyed-update_rows (holds lease) freed (λ row. (refl, refl)) t h)

-- The primary key: after any calls each account has at most one row.
pub IsKeyed-run : (calls : List Call) (t : Table) → IsKeyed t → IsKeyed (run calls t)
unfolding run
IsKeyed-run [] t h = h
IsKeyed-run (call ∷ calls) t h = IsKeyed-run calls (step call t) (IsKeyed-step call t h)

lease_from-valid :
    (row : Row) (lease : Lease) → lease_from row ≡ ok lease → validate_lease lease ≡ ok tt
unfolding lease_from
lease_from-valid row lease h = ground arith

granted-valid :
    (o : Option Row) (lease : Lease) → granted o ≡ ok lease → validate_lease lease ≡ ok tt
granted-valid none lease h = cc
granted-valid (some row) lease h = lease_from-valid row lease h

claiming-valid :
    (c : Result Claim) (t : Table) (lease : Lease)
    → (claiming c t).0 ≡ ok lease
    → validate_lease lease ≡ ok tt
claiming-valid (err e) t lease h = cc
claiming-valid (ok c) t lease h = granted-valid _ lease h

-- A lease that was acquired is well formed.
pub acquire-valid :
    (input : AcquireInput) (t t' : Table) (lease : Lease)
    → acquire input t ≡ (ok lease, t')
    → validate_lease lease ≡ ok tt
acquire-valid input t t' lease h =
    claiming-valid (admitted input) t lease
      (ap (λ (r : Result Lease × Table). r.0) (sym (acquire-admitted input t) ∙ h))

IsKeyed-acquire : (input : AcquireInput) (t : Table) → IsKeyed t → IsKeyed (acquire input t).1
unfolding step
IsKeyed-acquire input t h = IsKeyed-step (acquiring input) t h

IsKeyed-release : (lease : Lease) (t : Table) → IsKeyed t → IsKeyed (release lease t).1
unfolding step
IsKeyed-release lease t h = IsKeyed-step (releasing lease) t h

pub holds-row_of : (lease : Lease) → holds lease (row_of lease) ≡ true
holds-row_of lease = (holds_iff lease (row_of lease)).1 refl

holds-freed : (lease : Lease) (row : Row) → holds lease (freed row) ≡ false
unfolding holds
holds-freed lease row = ground arith

pub find_row-release_held :
    (lease : Lease) (t : Table)
    → validate_lease lease ≡ ok tt
    → find_row lease.provider lease.account_id t ≡ some (row_of lease)
    → find_row lease.provider lease.account_id (release lease t).1 ≡ some (freed (row_of lease))
find_row-release_held lease t valid held =
    find_row-release lease lease.provider lease.account_id t ∙ cc (valid, held, holds-row_of lease)

-- An update may last a second.
pub valid_expiry : expiry (nat 0) (nat 1000) ≡ ok 1000
unfolding expiry safe_integer
valid_expiry = refl

-- The lease of a successful `acquire` can be given back once: `release` answers true and leaves the
-- account free in the same generation; a second `release` answers false and changes nothing.
pub acquire-release :
    (input : AcquireInput) (t t' : Table) (lease : Lease)
    → IsKeyed t
    → acquire input t ≡ (ok lease, t')
    → let t'' = (release lease t').1 in
      ((release lease t').0 ≡ ok true)
      × (find_row lease.provider lease.account_id t'' ≡ some (freed (row_of lease)))
      × (release lease t'' ≡ (ok false, t''))
acquire-release input t t' lease keyed h = (
  release_answer lease t' keyed' valid
      ∙ ap (λ s. ok (released s lease)) got.held
      ∙ ap ok (holds-row_of lease),
  after,
  (stale_refused lease (nat 0) (nat 1000) (release lease t').1 (IsKeyed-release lease t' keyed')
      valid valid_expiry (ap (λ s. released s lease) after ∙ not_held)).0,
)
  where
    got : HasAcquired lease t t'
    got = acquire-HasAcquired input t t' lease h

    valid : validate_lease lease ≡ ok tt
    valid = acquire-valid input t t' lease h

    keyed' : IsKeyed t'
    keyed' =
        subst IsKeyed (ap (λ (r : Result Lease × Table). r.1) h) (IsKeyed-acquire input t keyed)

    after :
        find_row lease.provider lease.account_id (release lease t').1 ≡ some (freed (row_of lease))
    after = find_row-release_held lease t' valid got.held

    not_held : holds lease (freed (row_of lease)) ≡ false
    not_held = holds-freed lease (row_of lease)
