-- ===== src/Accounts/Slots.antt =====
-- What an account's first row is after each query of src/accounts.ts, and that a key has one row.
use agentmixer.Prelude.{
  ℕ, String, ◌≡◌, refl, Bool, true, false, ◌&&◌, Option, none, some, [], ◌∷◌, arith, eq_iff, ◌==◌,
  if◌then◌else◌, Bool-cases, inl, inr,
}
use agentmixer.Validation.Data.{Provider, provider_eq, provider_eq_iff}
use agentmixer.Accounts.Rows.{
  Row, Table, Lease, has_key, find_row, fresh_row, claim_row, claimed, upsert, holds, update_rows,
}

abbrev pub same_key : Provider → String → Provider → String → Bool
same_key p id q j = provider_eq p q && id == j

-- what a claim makes of an account's row
abbrev pub claim_slot : Provider → String → String → ℕ → Option Row → Option Row
claim_slot p id owner expires_at none = some (fresh_row p id owner expires_at)
claim_slot p id owner expires_at (some row) = some (claim_row owner expires_at row)

-- the row that a claim returns
abbrev pub grant : Provider → String → String → ℕ → Option Row → Option Row
grant p id owner expires_at none = some (fresh_row p id owner expires_at)
grant p id owner expires_at (some row) = claimed owner expires_at row

-- Of two keys of one row, one is the other.
key_agrees :
    (p q : Provider) (id j : String) (row : Row)
    → has_key p id row ≡ true
    → has_key q j row ≡ same_key p id q j
unfolding has_key
key_agrees p q id j row h = ground (
  arith,
  eq_iff id j,
  eq_iff row.account_id id,
  eq_iff row.account_id j,
  provider_eq_iff p q,
  provider_eq_iff row.provider p,
  provider_eq_iff row.provider q,
)

-- A row without a key does not have it under another name.
key_differs :
    (p q : Provider) (id j : String) (row : Row)
    → has_key p id row ≡ false
    → same_key p id q j ≡ true
    → has_key q j row ≡ false
unfolding has_key
key_differs p q id j row h s = ground (
  arith,
  eq_iff id j,
  eq_iff row.account_id id,
  eq_iff row.account_id j,
  provider_eq_iff p q,
  provider_eq_iff row.provider p,
  provider_eq_iff row.provider q,
)

has_key-claim_row :
    (q : Provider) (j owner : String) (expires_at : ℕ) (row : Row)
    → has_key q j (claim_row owner expires_at row) ≡ has_key q j row
unfolding has_key claim_row
has_key-claim_row q j owner expires_at row = ground arith

has_key-fresh_row :
    (p q : Provider) (id j owner : String) (expires_at : ℕ)
    → has_key q j (fresh_row p id owner expires_at) ≡ same_key p id q j
unfolding has_key
has_key-fresh_row p q id j owner expires_at = refl

module _ (p : Provider) (id owner : String) (expires_at : ℕ) where
  pub upsert_returns :
      (t : Table)
      → (upsert p id owner expires_at t).0 ≡ grant p id owner expires_at (find_row p id t)
  unfolding upsert find_row
  upsert_returns [] = refl
  upsert_returns (row ∷ rows) = ground (arith, upsert_returns rows)

  pub find_row-upsert :
      (q : Provider) (j : String) (t : Table)
      → find_row q j (upsert p id owner expires_at t).1 ≡ (
          if same_key p id q j
          then claim_slot p id owner expires_at (find_row p id t)
          else find_row q j t)
  unfolding upsert find_row
  find_row-upsert q j [] = rw (has_key-fresh_row p q id j owner expires_at)
  find_row-upsert q j (row ∷ rows) = ground (
    arith,
    find_row-upsert q j rows,
    key_agrees p q id j row,
    key_differs p q id j row,
    has_key-claim_row q j owner expires_at row,
  )

-- A key has one row.
abbrev pub IsKeyed : Table → Type 0
IsKeyed [] = Unit
IsKeyed (row ∷ rows) = (find_row row.provider row.account_id rows ≡ none) × IsKeyed rows

abbrev pub change_slot : (Row → Bool) → (Row → Row) → Option Row → Option Row
change_slot test change none = none
change_slot test change (some row) = some (if test row then change row else row)

-- A change that keeps the key of a row.
abbrev pub KeepsKey : (Row → Row) → Type 0
KeepsKey change =
    (row : Row)
    → ((change row).provider ≡ row.provider) × ((change row).account_id ≡ row.account_id)

module _ (test : Row → Bool) (change : Row → Row) (keeps : KeepsKey change) where
  pub find_row-update_rows :
      (q : Provider) (j : String) (t : Table)
      → find_row q j (update_rows test change t).1 ≡ change_slot test change (find_row q j t)
  unfolding update_rows find_row
  find_row-update_rows q j [] = refl
  find_row-update_rows q j (row ∷ rows) = ground (arith, find_row-update_rows q j rows, keeps row)

same_key-row :
    (p : Provider) (id : String) (row : Row)
    → same_key p id row.provider row.account_id ≡ has_key p id row
unfolding has_key
same_key-row p id row = ground (
  arith,
  eq_iff id row.account_id,
  eq_iff row.account_id id,
  provider_eq_iff p row.provider,
  provider_eq_iff row.provider p,
)

-- A row that holds a lease has its key.
holds-has_key :
    (lease : Lease) (row : Row)
    → holds lease row ≡ true
    → has_key lease.provider lease.account_id row ≡ true
unfolding holds
holds-has_key lease row h = ground arith

IsKeyed-claim :
    (owner : String) (expires_at : ℕ) (row : Row) (rows : Table)
    → IsKeyed (row ∷ rows)
    → IsKeyed (claim_row owner expires_at row ∷ rows)
unfolding claim_row
IsKeyed-claim owner expires_at row rows h = ground arith

pub IsKeyed-upsert :
    (p : Provider) (id owner : String) (expires_at : ℕ) (t : Table)
    → IsKeyed t
    → IsKeyed (upsert p id owner expires_at t).1
unfolding upsert
IsKeyed-upsert p id owner expires_at [] h = (unfold find_row in refl, tt)
IsKeyed-upsert p id owner expires_at (row ∷ rows) h = elim (Bool-cases (has_key p id row)) [
  | inl same ↦ rw same (IsKeyed-claim owner expires_at row rows h)
  | inr other ↦ rw other (
    ground (
      arith,
      find_row-upsert p id owner expires_at row.provider row.account_id rows,
      same_key-row p id row,
    ),
    IsKeyed-upsert p id owner expires_at rows h.1,
  )
]

module _ (test : Row → Bool) (change : Row → Row) (keeps : KeepsKey change) where
  pub IsKeyed-update_rows : (t : Table) → IsKeyed t → IsKeyed (update_rows test change t).1
  unfolding update_rows
  IsKeyed-update_rows [] h = tt
  IsKeyed-update_rows (row ∷ rows) h = ground (
    arith,
    keeps row,
    IsKeyed-update_rows rows,
    find_row-update_rows test change keeps row.provider row.account_id rows,
  )

find_row-own :
    (p : Provider) (id : String) (row : Row) (rows : Table)
    → has_key p id row ≡ true
    → find_row row.provider row.account_id rows ≡ none
    → find_row p id rows ≡ none
unfolding has_key
find_row-own p id row rows own h = cc (
  h,
  (provider_eq_iff row.provider p).0 (ground arith),
  (eq_iff row.account_id id).0 (ground arith),
)

-- the rows that an update on a lease changes, by the row of its account
abbrev pub hit_slot : Lease → (Row → Row) → Option Row → Table
hit_slot lease change none = []
hit_slot lease change (some row) = if holds lease row then change row ∷ [] else []

module _ (lease : Lease) (change : Row → Row) where
  no_hits :
      (t : Table)
      → find_row lease.provider lease.account_id t ≡ none
      → (update_rows (holds lease) change t).0 ≡ []
  unfolding update_rows find_row
  no_hits [] h = refl
  no_hits (row ∷ rows) h = ground (arith, holds-has_key lease row, no_hits rows)

  -- `holds` is a test of the key and more, so at most one row passes it.
  pub update_rows_hits :
      (t : Table)
      → IsKeyed t
      → (update_rows (holds lease) change t).0
        ≡ hit_slot lease change (find_row lease.provider lease.account_id t)
  unfolding update_rows find_row
  update_rows_hits [] h = refl
  update_rows_hits (row ∷ rows) h = elim (Bool-cases (holds lease row)) [
    | inl held ↦
        let own = holds-has_key lease row held in
        let alone = no_hits rows (find_row-own lease.provider lease.account_id row rows own h.0) in
        rw (held, own, alone, held)
    | inr other ↦ rw other (
        ground (
          arith,
          update_rows_hits rows h.1,
          no_hits rows,
          find_row-own lease.provider lease.account_id row rows,
        ))
  ]
