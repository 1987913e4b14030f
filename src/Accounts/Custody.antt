-- ===== src/Accounts/Custody.antt =====
-- The custody that the lease store of src/accounts.ts keeps: who holds an account, until when, and
-- in which order leases of one account are given out.
use agentmixer.Prelude.{
  ℕ, String, ◌≡◌, ◌≢◌, ◌↔◌, refl, ap, true, Option, none, some, List, [], ◌∷◌, arith, eq_iff, ◌∙◌,
  All, is_text_iff,
}
use agentmixer.Prelude.Result.{Result, ok, err}
use agentmixer.Validation.Data.{Provider, provider_eq_iff}
use agentmixer.Accounts.Rows.{Row, Table, Lease, has_key, find_row, holds, claim_row}
use agentmixer.Accounts.Claims.{Claim, admitted}
use agentmixer.Accounts.Trace.{
  Call, acquiring, renewing, releasing, recovering, run, slot_after, slot_run, find_row-run,
  after_claim,
}

-- the lease that a call shows
abbrev pub shown : Call → Option Lease
shown (acquiring input) = none
shown (renewing lease now ttl_ms) = some lease
shown (releasing lease) = some lease
shown (recovering lease stopped) = some lease

-- the row that a lease tells of
abbrev pub row_of : Lease → Row
row_of lease = record {
  provider = lease.provider;
  account_id = lease.account_id;
  owner = some lease.owner;
  generation = lease.generation;
  expires_at = lease.expires_at;
}

pub holds_iff : (lease : Lease) (row : Row) → (holds lease row ≡ true) ↔ (row ≡ row_of lease)
unfolding holds has_key
holds_iff lease row = ground (
  arith,
  provider_eq_iff row.provider lease.provider,
  eq_iff row.account_id lease.account_id,
  is_text_iff row.owner lease.owner,
)

-- A row is held under one lease.
holds_unique : (a b : Lease) (row : Row) → holds a row ≡ true → holds b row ≡ true → a ≡ b
holds_unique a b row h k = ground (arith, holds_iff a row, holds_iff b row)

holds_owner : (lease : Lease) (row : Row) → holds lease row ≡ true → row.owner ≡ some lease.owner
holds_owner lease row h = ap (λ (r : Row). r.owner) ((holds_iff lease row).0 h)

claim_row_held :
    (lease : Lease) (owner : String) (expires_at : ℕ) (row : Row)
    → holds lease row ≡ true
    → claim_row owner expires_at row ≡ row
unfolding claim_row
claim_row_held lease owner expires_at row h = ground (arith, holds_owner lease row h)

-- A call that does not show the lease leaves the row that is held under it.
slot_after_held :
    (lease : Lease) (row : Row) (call : Call) (q : Provider) (j : String)
    → holds lease row ≡ true
    → shown call ≢ some lease
    → slot_after q j call (some row) ≡ some row
unfolding slot_after
slot_after_held lease row (acquiring input) q j h other = go (admitted input)
  where
    go : (c : Result Claim) → after_claim q j c (some row) ≡ some row
    go (err e) = refl
    go (ok c) = ground (arith, claim_row_held lease c.owner c.expires_at row)
slot_after_held lease row (renewing shown_lease now ttl_ms) q j h other =
    ground (arith, holds_unique lease shown_lease row)
slot_after_held lease row (releasing shown_lease) q j h other =
    ground (arith, holds_unique lease shown_lease row)
slot_after_held lease row (recovering shown_lease stopped) q j h other =
    ground (arith, holds_unique lease shown_lease row)

slot_run_held :
    (lease : Lease) (row : Row) (calls : List Call) (q : Provider) (j : String)
    → holds lease row ≡ true
    → All (λ call. shown call ≢ some lease) calls
    → slot_run q j calls (some row) ≡ some row
unfolding slot_run
slot_run_held lease row [] q j h others = refl
slot_run_held lease row (call ∷ calls) q j h others =
    ap (slot_run q j calls) (slot_after_held lease row call q j h others.0)
    ∙ slot_run_held lease row calls q j h others.1

-- While a row is held under a lease, calls that do not show that lease leave the row as it is,
-- whatever they are and whatever time they give: no deadline takes custody away.
pub custody_kept :
    (lease : Lease) (row : Row) (calls : List Call) (t : Table)
    → find_row lease.provider lease.account_id t ≡ some row
    → holds lease row ≡ true
    → All (λ call. shown call ≢ some lease) calls
    → find_row lease.provider lease.account_id (run calls t) ≡ some row
custody_kept lease row calls t found held others =
    find_row-run calls lease.provider lease.account_id t
    ∙ ap (slot_run lease.provider lease.account_id calls) found
    ∙ slot_run_held lease row calls lease.provider lease.account_id held others
