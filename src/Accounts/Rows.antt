-- ===== src/Accounts/Rows.antt =====
-- The rows of the lease table, and the three queries of src/accounts.ts on them.
use agentmixer.Prelude.{
  ℕ, ◌+◌, String, Bool, ◌&&◌, Option, none, some, List, [], ◌∷◌, nat_eq, is_text, is_some,
  if◌then◌else◌, ◌==◌,
}
use agentmixer.Validation.Data.{Provider, provider_eq}

pub record Row : Type 0 where
  pub provider : Provider
  pub account_id : String
  pub owner : Option String
  pub generation : ℕ
  pub expires_at : ℕ

abbrev pub Table : Type 0
Table = List Row

-- `AccountLease`
pub record Lease : Type 0 where
  pub provider : Provider
  pub account_id : String
  pub owner : String
  pub generation : ℕ
  pub expires_at : ℕ

unfoldable pub has_key : Provider → String → Row → Bool
has_key p id row = provider_eq row.provider p && row.account_id == id

-- `SELECT * … WHERE provider=? AND account_id=?`
unfoldable pub find_row : Provider → String → Table → Option Row
unfolding has_key
find_row p id [] = none
find_row p id (row ∷ rows) = if has_key p id row then some row else find_row p id rows

abbrev pub fresh_row : Provider → String → String → ℕ → Row
fresh_row p id owner expires_at = record {
  provider = p;
  account_id = id;
  owner = some owner;
  generation = 1;
  expires_at = expires_at;
}

-- what `DO UPDATE … WHERE owner IS NULL` makes of a row, and whether it returns it
unfoldable pub claim_row : String → ℕ → Row → Row
claim_row owner expires_at row =
    if is_some row.owner
    then row
    else record row { owner = some owner; generation = row.generation + 1; expires_at = expires_at }

unfoldable pub claimed : String → ℕ → Row → Option Row
unfolding claim_row
claimed owner expires_at row =
    if is_some row.owner then none else some (claim_row owner expires_at row)

-- `INSERT … ON CONFLICT(provider, account_id) DO UPDATE … WHERE owner IS NULL RETURNING *`
unfoldable pub upsert : Provider → String → String → ℕ → Table → Option Row × Table
unfolding has_key claimed
upsert p id owner expires_at [] =
    (some (fresh_row p id owner expires_at), fresh_row p id owner expires_at ∷ [])
upsert p id owner expires_at (row ∷ rows) =
    let (returned, rest) = upsert p id owner expires_at rows in
    if has_key p id row
    then (claimed owner expires_at row, claim_row owner expires_at row ∷ rows)
    else (returned, row ∷ rest)

-- `WHERE provider=? AND account_id=? AND owner=? AND generation=? AND expires_at=?`
unfoldable pub holds : Lease → Row → Bool
unfolding has_key
holds lease row =
    has_key lease.provider lease.account_id row
    && is_text row.owner lease.owner
    && nat_eq row.generation lease.generation
    && nat_eq row.expires_at lease.expires_at

-- `UPDATE … SET … WHERE …`: the rows that it changed, and the table
unfoldable pub update_rows : (Row → Bool) → (Row → Row) → Table → Table × Table
update_rows test change [] = ([], [])
update_rows test change (row ∷ rows) =
    let (hits, rest) = update_rows test change rows in
    if test row then (change row ∷ hits, change row ∷ rest) else (hits, row ∷ rest)
