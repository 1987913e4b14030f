-- ===== src/Accounts/Claims.antt =====
-- The checks of `acquire` of src/accounts.ts, apart from its statement.
use agentmixer.Prelude.{ℕ, String, ◌≡◌, arith, Option, none, some}
use agentmixer.Prelude.Result.{Result, ok, err, ◌>>=◌}
use agentmixer.Validation.Data.{Provider}
use agentmixer.Validation.{identifier, provider}
use agentmixer.Accounts.Rows.{Row, Table, Lease, upsert}
use agentmixer.Accounts.Checks.{expiry, lease_from}
use agentmixer.Accounts.{AcquireInput, acquire}

-- the inputs of a claim, once they have passed the checks
pub record Claim : Type 0 where
  pub provider : Provider
  pub account_id : String
  pub owner : String
  pub expires_at : ℕ

unfoldable pub admitted : AcquireInput → Result Claim
admitted input = do
  p ← provider input.provider
  id ← identifier input.account_id
  owner ← identifier input.owner
  expires_at ← expiry input.now input.ttl_ms
  ok (record { provider = p; account_id = id; owner = owner; expires_at = expires_at })

abbrev pub granted : Option Row → Result Lease
granted none = err "ACCOUNT_BUSY_OR_RECOVERY_REQUIRED"
granted (some row) = lease_from row

-- `acquire` once its inputs are checked
abbrev pub claiming : Result Claim → Table → Result Lease × Table
claiming (err e) t = (err e, t)
claiming (ok c) t =
    let (returned, rows) = upsert c.provider c.account_id c.owner c.expires_at t in
    (granted returned, rows)

pub acquire-admitted :
    (input : AcquireInput) (t : Table) → acquire input t ≡ claiming (admitted input) t
unfolding acquire admitted
acquire-admitted input t = ground arith
