-- ===== src/Accounts.antt =====
-- src/accounts.ts: the operations of the lease store over its table of rows. A query is a function
-- on the list of rows; SQLite's 64-bit integers are numbers without a bound.
pub mod Rows
pub mod Checks
pub mod Slots
pub mod Claims
pub mod Trace
pub mod Custody
pub mod Fencing
pub mod Asked
pub mod Release
pub mod Return
pub mod Opening
pub mod Tests
use agentmixer.Prelude.{
  ℕ, String, Bool, true, false, Option, none, some, List, [], ◌∷◌, nat_eq, length, is_some,
  if◌then◌else◌,
}
use agentmixer.Prelude.Exec.{Exec, ◌>>=◌, ◌>>◌, pure, throw, lift, get_state}
use agentmixer.Validation.Data.{Value, string, Provider}
use agentmixer.Validation.{identifier, provider}
use agentmixer.Accounts.Rows.{Row, Table, Lease, upsert, update_rows, find_row, holds}
use agentmixer.Accounts.Checks.{expiry, validate_lease, lease_from}

-- the store's tables: `agentmixer_account_leases` and `xcb_account_leases`
pub record Database : Type 0 where
  pub legacy : Option Table
  pub current : Option Table

-- `ALTER TABLE … RENAME TO …`, if there is an old table and no new one
abbrev rename_legacy : Option Table → Option Table → Database
rename_legacy (some rows) none = record { legacy = none; current = some rows }
rename_legacy legacy current = record { legacy = legacy; current = current }

-- `CREATE TABLE IF NOT EXISTS`
abbrev create_if_missing : Database → Database
create_if_missing db = record db { current = elim db.current [ none ↦ some [] | some t ↦ some t ] }

-- the constructor
unfoldable pub open_store : Database → Database
open_store db = create_if_missing (rename_legacy db.legacy db.current)

pub record AcquireInput : Type 0 where
  pub provider : Value
  pub account_id : Value
  pub owner : Value
  pub now : Value
  pub ttl_ms : Value

-- the statement of `acquire`, its row checked as a lease
abbrev claim : Provider → String → String → ℕ → Exec Table (Option Row)
claim p id owner expires_at table =
    let (returned, rows) = upsert p id owner expires_at table in pure returned rows

abbrev pub lease_or : String → Option Row → Exec Table Lease
lease_or code none = throw code
lease_or code (some row) = lift (lease_from row)

unfoldable pub acquire : AcquireInput → Exec Table Lease
acquire input = do
  p ← lift (provider input.provider)
  id ← lift (identifier input.account_id)
  owner ← lift (identifier input.owner)
  expires_at ← lift (expiry input.now input.ttl_ms)
  row ← claim p id owner expires_at
  lease_or "ACCOUNT_BUSY_OR_RECOVERY_REQUIRED" row

-- an update that answers with the rows that it changed
abbrev update_where : Lease → (Row → Row) → Exec Table Table
update_where lease change table =
    let (hits, rows) = update_rows (holds lease) change table in pure hits rows

abbrev pub first_row : Table → Option Row
first_row [] = none
first_row (row ∷ _) = some row

unfoldable pub renew : Lease → Value → Value → Exec Table Lease
renew lease now ttl_ms = do
  lift (validate_lease lease)
  expires_at ← lift (expiry now ttl_ms)
  hits ← update_where lease (λ row. record row { expires_at = expires_at })
  lease_or "STALE_ACCOUNT_LEASE" (first_row hits)

abbrev pub freed : Row → Row
freed row = record row { owner = none; expires_at = 0 }

unfoldable pub release : Lease → Exec Table Bool
release lease = do
  lift (validate_lease lease)
  hits ← update_where lease freed
  pure (nat_eq (length hits) 1)

abbrev lease_unless_free : Option Row → Exec Table (Option Lease)
lease_unless_free none = pure none
lease_unless_free (some row) =
    if is_some row.owner then (do lease ← lift (lease_from row); pure (some lease)) else pure none

unfoldable pub inspect : Value → Value → Exec Table (Option Lease)
inspect provider_value account_id = do
  p ← lift (provider provider_value)
  id ← lift (identifier account_id)
  table ← get_state
  lease_unless_free (find_row p id table)

-- The host's proof may take time, in which other calls change the table.
unfoldable pub recover : Lease → (Lease → Exec Table Bool) → Exec Table Bool
unfolding release
recover lease prove_stopped = do
  lift (validate_lease lease)
  stopped ← prove_stopped lease
  if stopped then release lease else throw "ACCOUNT_PROCESS_STOP_UNPROVEN"
