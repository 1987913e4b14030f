-- ===== src/Accounts/Fencing.antt =====
-- The generation of a lease of src/accounts.ts is a fence: a later lease of an account has a larger
-- one.
use agentmixer.Prelude.{
  ℕ, ◌+◌, ◌≤◌, ◌<◌, String, ◌≡◌, refl, sym, ap, true, false, Option, none, some, List, [], ◌∷◌,
  arith, eq_iff, eq_refl, ◌∙◌,
}
use agentmixer.Prelude.Result.{Result, ok, err}
use agentmixer.Validation.Data.{Provider, provider_eq_iff}
use agentmixer.Accounts.Rows.{Row, Table, Lease, find_row, has_key, claim_row, claimed, upsert}
use agentmixer.Accounts.Checks.{renewal, validate_lease, lease_from}
use agentmixer.Accounts.Slots.{same_key, claim_slot, grant, upsert_returns, find_row-upsert}
use agentmixer.Accounts.Claims.{Claim, admitted, granted, claiming, acquire-admitted}
use agentmixer.Accounts.Trace.{
  Call, acquiring, renewing, releasing, recovering, run, slot_after, slot_run, after_claim,
  after_renewal, after_release, find_row-run,
}
use agentmixer.Accounts.Custody.{row_of}
use agentmixer.Accounts.{AcquireInput, acquire}

-- how often the account has been claimed
abbrev pub slot_generation : Option Row → ℕ
slot_generation none = 0
slot_generation (some row) = row.generation

generation-claim :
    (q : Provider) (j : String) (c : Result Claim) (slot : Option Row)
    → slot_generation slot ≤ slot_generation (after_claim q j c slot)
unfolding claim_row
generation-claim q j (err e) slot = omega arith
generation-claim q j (ok c) none = ground arith
generation-claim q j (ok c) (some row) = ground arith

generation-renewal :
    (q : Provider) (j : String) (lease : Lease) (r : Result ℕ) (slot : Option Row)
    → slot_generation slot ≤ slot_generation (after_renewal q j lease r slot)
generation-renewal q j lease (err e) slot = omega arith
generation-renewal q j lease (ok n) none = omega arith
generation-renewal q j lease (ok n) (some row) = ground arith

generation-release :
    (q : Provider) (j : String) (lease : Lease) (r : Result (Unit {0})) (slot : Option Row)
    → slot_generation slot ≤ slot_generation (after_release q j lease r slot)
generation-release q j lease (err e) slot = omega arith
generation-release q j lease (ok n) none = omega arith
generation-release q j lease (ok n) (some row) = ground arith

generation-slot_after :
    (q : Provider) (j : String) (call : Call) (slot : Option Row)
    → slot_generation slot ≤ slot_generation (slot_after q j call slot)
unfolding slot_after
generation-slot_after q j (acquiring input) slot = generation-claim q j (admitted input) slot
generation-slot_after q j (renewing lease now ttl_ms) slot =
    generation-renewal q j lease (renewal lease now ttl_ms) slot
generation-slot_after q j (releasing lease) slot =
    generation-release q j lease (validate_lease lease) slot
generation-slot_after q j (recovering lease true) slot =
    generation-release q j lease (validate_lease lease) slot
generation-slot_after q j (recovering lease false) slot = omega arith

generation-slot_run :
    (q : Provider) (j : String) (calls : List Call) (slot : Option Row)
    → slot_generation slot ≤ slot_generation (slot_run q j calls slot)
unfolding slot_run
generation-slot_run q j [] slot = omega arith
generation-slot_run q j (call ∷ calls) slot = omega (
  arith,
  generation-slot_after q j call slot,
  generation-slot_run q j calls (slot_after q j call slot),
)

-- No calls lower the generation of an account, not even a release.
pub generation-run :
    (q : Provider) (j : String) (calls : List Call) (t : Table)
    → slot_generation (find_row q j t) ≤ slot_generation (find_row q j (run calls t))
generation-run q j calls t =
    rw (find_row-run calls q j t) (generation-slot_run q j calls (find_row q j t))

lease_from_lem : (row : Row) (lease : Lease) → lease_from row ≡ ok lease → row ≡ row_of lease
unfolding lease_from
lease_from_lem row lease h = ground arith

pub grant_lem :
    (c : Claim) (slot : Option Row) (row : Row)
    → grant c.provider c.account_id c.owner c.expires_at slot ≡ some row
    → (claim_slot c.provider c.account_id c.owner c.expires_at slot ≡ some row)
      × (slot_generation slot + 1 ≡ row.generation)
      × (row.owner ≡ some c.owner)
      × (row.expires_at ≡ c.expires_at)
unfolding claimed claim_row
grant_lem c none row h = ground arith
grant_lem c (some old) row h = ground arith

-- What a successful `acquire` has done to the account that its lease names.
pub record HasAcquired (lease : Lease) (before after : Table) : Type 0 where
  pub held : find_row lease.provider lease.account_id after ≡ some (row_of lease)
  pub counted :
      slot_generation (find_row lease.provider lease.account_id before) + 1 ≡ lease.generation
  pub others :
      (q : Provider) (j : String)
      → same_key lease.provider lease.account_id q j ≡ false
      → find_row q j after ≡ find_row q j before

pub claim_key :
    (c : Claim) (slot : Option Row) (row : Row)
    → claim_slot c.provider c.account_id c.owner c.expires_at slot ≡ some row
    → (old : (r : Row) → slot ≡ some r → has_key c.provider c.account_id r ≡ true)
    → (row.provider ≡ c.provider) × (row.account_id ≡ c.account_id)
unfolding claim_row has_key
claim_key c none row h old = ground arith
claim_key c (some r) row h old =
    ground
      (arith, old r refl, provider_eq_iff r.provider c.provider, eq_iff r.account_id c.account_id)

pub find_row-has_key :
    (p : Provider) (id : String) (t : Table) (r : Row)
    → find_row p id t ≡ some r
    → has_key p id r ≡ true
unfolding find_row
find_row-has_key p id [] r h = cc
find_row-has_key p id (row ∷ rows) r h = ground (arith, find_row-has_key p id rows r)

same_key_refl : (p : Provider) (id : String) → same_key p id p id ≡ true
same_key_refl p id = rw (eq_refl id, (provider_eq_iff p p).1 refl)

find_row-at :
    {p q : Provider} {id j : String}
    → p ≡ q
    → id ≡ j
    → (t : Table) → find_row p id t ≡ find_row q j t
find_row-at e f t = cc

same_key-at :
    {p q : Provider} {id j : String}
    → p ≡ q
    → id ≡ j
    → (r : Provider) (k : String) → same_key p id r k ≡ same_key q j r k
same_key-at e f r k = cc

pub granted_lem : (o : Option Row) (lease : Lease) → granted o ≡ ok lease → o ≡ some (row_of lease)
granted_lem none lease h = cc
granted_lem (some row) lease h = ap some (lease_from_lem row lease h)

claiming_lem :
    (c : Claim) (t t' : Table) (lease : Lease)
    → granted (upsert c.provider c.account_id c.owner c.expires_at t).0 ≡ ok lease
    → (upsert c.provider c.account_id c.owner c.expires_at t).1 ≡ t'
    → HasAcquired lease t t'
claiming_lem c t t' lease g e =
    let slot = find_row c.provider c.account_id t in
    let returned : grant c.provider c.account_id c.owner c.expires_at slot ≡ some (row_of lease) =
      sym (upsert_returns c.provider c.account_id c.owner c.expires_at t) ∙ granted_lem _ lease g in
    let facts = grant_lem c slot (row_of lease) returned in
    let (p, id) =
      claim_key c slot (row_of lease) facts.0 (find_row-has_key c.provider c.account_id t) in
    let found = λ (q : Provider) (j : String).
      find_row-upsert c.provider c.account_id c.owner c.expires_at q j t in
    record {
      held =
          find_row-at p id t'
          ∙ ap (find_row c.provider c.account_id) (sym e)
          ∙ found c.provider c.account_id
          ∙ rw (same_key_refl c.provider c.account_id) facts.0;
      counted = ap (λ s. slot_generation s + 1) (find_row-at p id t) ∙ facts.1;
      others = λ q j differs.
          ap (find_row q j) (sym e) ∙ found q j ∙ rw (sym (same_key-at p id q j) ∙ differs);
    }

pub acquire-HasAcquired :
    (input : AcquireInput) (t t' : Table) (lease : Lease)
    → acquire input t ≡ (ok lease, t')
    → HasAcquired lease t t'
acquire-HasAcquired input t t' lease h = go (admitted input) (sym (acquire-admitted input t) ∙ h)
  where
    go : (c : Result Claim) → claiming c t ≡ (ok lease, t') → HasAcquired lease t t'
    go (err e) k = absurd (cc (ap (λ (r : Result Lease × Table). r.0) k))
    go (ok c) k =
        claiming_lem c t t' lease (ap (λ (r : Result Lease × Table). r.0) k)
          (ap (λ (r : Result Lease × Table). r.1) k)

-- A lease that is acquired later, after whatever calls, has a larger generation than an earlier
-- lease of the same account.
pub acquire_fences :
    (first second : AcquireInput) (calls : List Call) (t t' t'' : Table) (a b : Lease)
    → acquire first t ≡ (ok a, t')
    → acquire second (run calls t') ≡ (ok b, t'')
    → a.provider ≡ b.provider
    → a.account_id ≡ b.account_id
    → a.generation < b.generation
acquire_fences first second calls t t' t'' a b h k p id =
    let x = acquire-HasAcquired first t t' a h in
    let y = acquire-HasAcquired second (run calls t') t'' b k in
    let grows = generation-run a.provider a.account_id calls t' in
    let held : slot_generation (find_row a.provider a.account_id t') ≡ a.generation =
      ap slot_generation x.held in
    let counted : slot_generation (find_row a.provider a.account_id (run calls t')) + 1
        ≡ b.generation =
      rw (p, id) y.counted in
    omega arith
