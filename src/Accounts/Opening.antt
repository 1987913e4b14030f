-- ===== src/Accounts/Opening.antt =====
-- Opening the store of src/accounts.ts: the table that was made under the old name.
use agentmixer.Prelude.{◌≡◌, Option, none, some, [], arith}
use agentmixer.Accounts.Rows.{Table}
use agentmixer.Accounts.{Database, open_store}

-- the rows that a store works on: those under the new name, else those under the old one, else none
pub working_rows : Option Table → Option Table → Table
working_rows legacy (some rows) = rows
working_rows (some rows) none = rows
working_rows none none = []

-- the table under the old name that is left beside one under the new name
pub leftover : Option Table → Option Table → Option Table
leftover legacy (some rows) = legacy
leftover legacy none = none

-- Opening a store keeps all rows: they are then under the new name, those under the old name if
-- there was no table under the new one; a table under the old name stays only beside one under the
-- new name; and opening twice is opening once.
pub open_store_migrates :
    (db : Database)
    → ((open_store db).current ≡ some (working_rows db.legacy db.current))
      × ((open_store db).legacy ≡ leftover db.legacy db.current)
      × (open_store (open_store db) ≡ open_store db)
unfolding open_store working_rows leftover
open_store_migrates db = (ground arith, ground arith, ground arith)
