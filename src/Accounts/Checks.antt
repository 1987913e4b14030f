-- ===== src/Accounts/Checks.antt =====
-- The checks of src/accounts.ts on the inputs and on the rows that come back.
use agentmixer.Prelude.{ℕ, ◌+◌, ◌-◌, String, none, some}
use agentmixer.Prelude.Result.{Result, ok, err, ◌>>=◌, ◌>>◌}
use agentmixer.Validation.Data.{Value, string, nat}
use agentmixer.Validation.{identifier, safe_integer, max_safe_integer}
use agentmixer.Accounts.Rows.{Row, Lease}

unfoldable pub expiry : Value → Value → Result ℕ
expiry now ttl_ms = do
  t ← safe_integer now 0 (max_safe_integer - 3_600_000)
  ttl ← safe_integer ttl_ms 1_000 3_600_000
  ok (t + ttl)

-- `validateLease`; the provider of a lease is one of the three by its type
unfoldable pub validate_lease : Lease → Result (Unit {0})
validate_lease lease = do
  identifier (string lease.account_id)
  identifier (string lease.owner)
  safe_integer (nat lease.generation) 1 max_safe_integer
  safe_integer (nat lease.expires_at) 0 max_safe_integer
  ok tt

abbrev pub lease_of : Row → String → Lease
lease_of row owner = record {
  provider = row.provider;
  account_id = row.account_id;
  owner = owner;
  generation = row.generation;
  expires_at = row.expires_at;
}

abbrev checked : Lease → Result Lease
checked lease = do validate_lease lease; ok lease

-- `leaseFrom`
unfoldable pub lease_from : Row → Result Lease
lease_from row = elim row.owner [
  | none ↦ err "ACCOUNT_LEASE_RELEASED"
  | some owner ↦ checked (lease_of row owner)
]

-- the checks that `renew` makes before its statement
unfoldable pub renewal : Lease → Value → Value → Result ℕ
renewal lease now ttl_ms = do validate_lease lease; expiry now ttl_ms
