-- ===== src/Accounts/Trace.antt =====
-- The calls on the lease store of src/accounts.ts in any order, and the machine that each account is
-- by itself: what a call makes of the account's row, and nothing else.
use agentmixer.Prelude.{
  ℕ, String, ◌≡◌, refl, ap, Bool, true, Option, none, some, List, [], ◌∷◌, arith, eq_iff, ◌∙◌,
  if◌then◌else◌, Bool-cases, inl, inr,
}
use agentmixer.Prelude.Result.{Result, ok, err}
use agentmixer.Prelude.Exec.{pure}
use agentmixer.Validation.Data.{Value, Provider, provider_eq_iff}
use agentmixer.Accounts.Rows.{Row, Table, Lease, find_row, holds}
use agentmixer.Accounts.Checks.{expiry, renewal, validate_lease}
use agentmixer.Accounts.Slots.{
  same_key, claim_slot, change_slot, find_row-upsert, find_row-update_rows,
}
use agentmixer.Accounts.Claims.{Claim, admitted, claiming, acquire-admitted}
use agentmixer.Accounts.{AcquireInput, acquire, renew, release, recover, freed, lease_or}

-- A call that may change the table. The host's proof in a recovery is its verdict; what other calls
-- do while it is made are calls before this one.
pub data Call : Type 0 where
  acquiring : AcquireInput → Call
  renewing : Lease → (now ttl_ms : Value) → Call
  releasing : Lease → Call
  recovering : Lease → (stopped : Bool) → Call

unfoldable pub step : Call → Table → Table
step (acquiring input) t = (acquire input t).1
step (renewing lease now ttl_ms) t = (renew lease now ttl_ms t).1
step (releasing lease) t = (release lease t).1
step (recovering lease stopped) t = (recover lease (λ _. pure stopped) t).1

unfoldable pub run : List Call → Table → Table
run [] t = t
run (call ∷ calls) t = run calls (step call t)

module _ (q : Provider) (j : String) where
  abbrev pub claim_slot_of : Claim → Option Row → Option Row
  claim_slot_of c slot =
      if same_key c.provider c.account_id q j
      then claim_slot c.provider c.account_id c.owner c.expires_at slot
      else slot

  abbrev pub after_claim : Result Claim → Option Row → Option Row
  after_claim (ok c) slot = claim_slot_of c slot
  after_claim (err e) slot = slot

  abbrev pub after_renewal : Lease → Result ℕ → Option Row → Option Row
  after_renewal lease (ok expires_at) slot =
      change_slot (holds lease) (λ row. record row { expires_at = expires_at }) slot
  after_renewal lease (err e) slot = slot

  abbrev pub after_release : Lease → Result (Unit {0}) → Option Row → Option Row
  after_release lease (ok _) slot = change_slot (holds lease) freed slot
  after_release lease (err e) slot = slot

  -- what a call makes of the row of the account `j` of `q`
  unfoldable pub slot_after : Call → Option Row → Option Row
  slot_after (acquiring input) slot = after_claim (admitted input) slot
  slot_after (renewing lease now ttl_ms) slot = after_renewal lease (renewal lease now ttl_ms) slot
  slot_after (releasing lease) slot = after_release lease (validate_lease lease) slot
  slot_after (recovering lease stopped) slot =
      if stopped then after_release lease (validate_lease lease) slot else slot

  unfoldable pub slot_run : List Call → Option Row → Option Row
  slot_run [] slot = slot
  slot_run (call ∷ calls) slot = slot_run calls (slot_after call slot)

same_key_iff : (p q : Provider) (id j : String) → same_key p id q j ≡ true → (p ≡ q) × (id ≡ j)
same_key_iff p q id j h = ground (arith, provider_eq_iff p q, eq_iff id j)

-- a claim acts on the row of its own account
find_row-claim :
    (c : Claim) (q : Provider) (j : String) (t : Table)
    → find_row q j (claiming (ok c) t).1 ≡ claim_slot_of q j c (find_row q j t)
find_row-claim c q j t = elim (Bool-cases (same_key c.provider c.account_id q j)) [
  | inl same ↦
      let (e, f) = same_key_iff c.provider q c.account_id j same in
      rw (find_row-upsert c.provider c.account_id c.owner c.expires_at q j t, same, e, f)
  | inr other ↦ rw (find_row-upsert c.provider c.account_id c.owner c.expires_at q j t, other)
]

find_row-claiming :
    (checked : Result Claim) (q : Provider) (j : String) (t : Table)
    → find_row q j (claiming checked t).1 ≡ after_claim q j checked (find_row q j t)
find_row-claiming (err e) q j t = refl
find_row-claiming (ok c) q j t = find_row-claim c q j t

pub find_row-release :
    (lease : Lease) (q : Provider) (j : String) (t : Table)
    → find_row q j (release lease t).1
      ≡ after_release q j lease (validate_lease lease) (find_row q j t)
unfolding release
find_row-release lease q j t =
    ground (arith, find_row-update_rows (holds lease) freed (λ row. (refl, refl)) q j t)

pub table-lease_or : (code : String) (o : Option Row) (t : Table) → (lease_or code o t).1 ≡ t
table-lease_or code none t = refl
table-lease_or code (some row) t = refl

find_row-recover :
    (lease : Lease) (stopped : Bool) (q : Provider) (j : String) (t : Table)
    → find_row q j (recover lease (λ _. pure stopped) t).1 ≡ (
        if stopped
        then after_release q j lease (validate_lease lease) (find_row q j t)
        else find_row q j t)
unfolding recover
find_row-recover lease stopped q j t =
    ground (arith, find_row-update_rows (holds lease) freed (λ row. (refl, refl)) q j t)

find_row-renew :
    (lease : Lease) (now ttl_ms : Value) (q : Provider) (j : String) (t : Table)
    → find_row q j (renew lease now ttl_ms t).1
      ≡ after_renewal q j lease (renewal lease now ttl_ms) (find_row q j t)
unfolding renew renewal
find_row-renew lease now ttl_ms q j t = go (validate_lease lease) refl (expiry now ttl_ms) refl
  where
    go :
        (v : Result (Unit {0}))
        → validate_lease lease ≡ v
        → (e : Result ℕ) → expiry now ttl_ms ≡ e
        → find_row q j (renew lease now ttl_ms t).1
          ≡ after_renewal q j lease (renewal lease now ttl_ms) (find_row q j t)
    go (err _) p e r = rw p
    go (ok _) p (err _) r = rw (p, r)
    go (ok _) p (ok n) r =
        rw (p, r, table-lease_or)
          (find_row-update_rows (holds lease) (λ row. record row { expires_at = n })
            (λ row. (refl, refl)) q j t)

-- Each account is a machine by itself: a call changes its row as `slot_after` says, whatever the
-- rows of the other accounts are.
pub find_row-step :
    (call : Call) (q : Provider) (j : String) (t : Table)
    → find_row q j (step call t) ≡ slot_after q j call (find_row q j t)
unfolding step slot_after
find_row-step (acquiring input) q j t =
    ap (λ r. find_row q j r.1) (acquire-admitted input t) ∙ find_row-claiming (admitted input) q j t
find_row-step (renewing lease now ttl_ms) q j t = find_row-renew lease now ttl_ms q j t
find_row-step (releasing lease) q j t = find_row-release lease q j t
find_row-step (recovering lease stopped) q j t = find_row-recover lease stopped q j t

-- The row of each account after any calls is what its own machine makes of its first row.
pub find_row-run :
    (calls : List Call) (q : Provider) (j : String) (t : Table)
    → find_row q j (run calls t) ≡ slot_run q j calls (find_row q j t)
unfolding run slot_run
find_row-run [] q j t = refl
find_row-run (call ∷ calls) q j t =
    find_row-run calls q j (step call t) ∙ ap (slot_run q j calls) (find_row-step call q j t)
