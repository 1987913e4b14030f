-- ===== src/Accounts/Asked.antt =====
-- A lease of src/accounts.ts is for the account, the owner and the time that were asked for.
use agentmixer.Prelude.{String, ◌≡◌, sym, ap, ◌∙◌, some}
use agentmixer.Prelude.Result.{Result, ok}
use agentmixer.Accounts.Rows.{Table, Lease, find_row}
use agentmixer.Accounts.Slots.{grant, upsert_returns}
use agentmixer.Accounts.Claims.{Claim, admitted, claiming, acquire-admitted}
use agentmixer.Accounts.Custody.{row_of}
use agentmixer.Accounts.Fencing.{grant_lem, claim_key, find_row-has_key, granted_lem}
use agentmixer.Accounts.{AcquireInput, acquire}

-- the lease that a claim asks for, but for its generation
pub record IsAsked (c : Claim) (lease : Lease) : Type 0 where
  pub provider : lease.provider ≡ c.provider
  pub account_id : lease.account_id ≡ c.account_id
  pub owner : lease.owner ≡ c.owner
  pub expires_at : lease.expires_at ≡ c.expires_at

granted-IsAsked :
    (c : Claim) (t : Table) (lease : Lease) → (claiming (ok c) t).0 ≡ ok lease → IsAsked c lease
granted-IsAsked c t lease h =
    let slot = find_row c.provider c.account_id t in
    let returned : grant c.provider c.account_id c.owner c.expires_at slot ≡ some (row_of lease) =
      sym (upsert_returns c.provider c.account_id c.owner c.expires_at t) ∙ granted_lem _ lease h in
    let facts = grant_lem c slot (row_of lease) returned in
    let (p, id) =
      claim_key c slot (row_of lease) facts.0 (find_row-has_key c.provider c.account_id t) in
    record { provider = p; account_id = id; owner = some_injective facts.2; expires_at = facts.3 }
  where
    some_injective : {a b : String} → some a ≡ some b → a ≡ b
    some_injective e = cc

-- An `acquire` that succeeds gives a lease of the account, the owner and the deadline of its claim.
pub acquire-IsAsked :
    (input : AcquireInput) (c : Claim) (t t' : Table) (lease : Lease)
    → admitted input ≡ ok c
    → acquire input t ≡ (ok lease, t')
    → IsAsked c lease
acquire-IsAsked input c t t' lease valid h = granted-IsAsked c t lease (
    ap (λ (r : Result Lease × Table). r.0)
      (sym (acquire-admitted input t ∙ ap (λ r. claiming r t) valid) ∙ h))
