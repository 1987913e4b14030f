-- ===== src/Runtime/Custody.antt =====
-- What a run of src/runtime.ts does to the lease of its account, by what the adapter comes to.
use agentmixer.Prelude.{◌≡◌, refl, ◌∙◌, String, Bool, true, false, some, if◌then◌else◌}
use agentmixer.Prelude.Result.{Result, ok, err}
use agentmixer.Validation.Data.{Value}
use agentmixer.Accounts.Rows.{Row, Table, Lease, find_row}
use agentmixer.Accounts.Checks.{validate_lease}
use agentmixer.Accounts.Slots.{IsKeyed}
use agentmixer.Accounts.Custody.{row_of}
use agentmixer.Accounts.Release.{released, find_row-release_held, acquire-valid}
use agentmixer.Accounts.{acquire, release, freed}
use agentmixer.Accounts.Return.{give_back, give_back_owned, give_back_stale}
use agentmixer.Runtime.Adapters.{Outcome, returned, stopped, failed, Request, Broker, Options}
use agentmixer.Runtime.Admission.{Plan, admit}
use agentmixer.Runtime.{World, settle, run_admitted, run}

-- Does the outcome prove that the provider has stopped?
abbrev pub proves_stop : Outcome → Bool
proves_stop (returned process_stopped output) = process_stopped
proves_stop (stopped message) = true
proves_stop (failed message) = false

-- the answer of a run whose lease is still its own when the adapter settles
abbrev pub answer : Outcome → Result Value
answer (returned process_stopped output) =
    if process_stopped then ok output else err "PROVIDER_PROCESS_STOP_UNPROVEN"
answer (stopped message) = err message
answer (failed message) = err message

module _ (options : Options) (request : Request) (broker : Broker) (w : World) where
  -- The plan, the lease, and how the adapter settled, of a run that reached its adapter.
  pub record Reaches (plan : Plan) (lease : Lease) (outcome : Outcome) (left : Table) : Type 0 where
    pub table : Table
    pub admitted : admit options request broker ≡ ok plan
    pub acquired : acquire plan.input w.leases ≡ (ok lease, table)
    pub settled : plan.adapter.run request broker table ≡ (outcome, left)

  -- A run that a guard refuses leaves the lease table as it was, and its broker revoked.
  pub run_refused :
      (code : String)
      → admit options request broker ≡ err code
      → run options request broker w ≡ (err code, record { leases = w.leases; revoked = true })
  unfolding run run_admitted
  run_refused code h = rw h

  module _ (plan : Plan) (lease : Lease) (outcome : Outcome) (left : Table) where
    run_settles :
        Reaches plan lease outcome left
        → run options request broker w ≡ (
          (settle lease outcome left).0,
          record { leases = (settle lease outcome left).1; revoked = true },
        )
    unfolding run run_admitted
    run_settles h = rw (h.admitted, h.acquired, h.settled)

settle_owned :
    (lease : Lease) (outcome : Outcome) (t : Table)
    → give_back lease t ≡ (ok tt, (release lease t).1)
    → settle lease outcome t
      ≡ (answer outcome, if proves_stop outcome then (release lease t).1 else t)
unfolding settle
settle_owned lease (returned true output) t h = rw h
settle_owned lease (returned false output) t h = refl
settle_owned lease (stopped message) t h = rw h
settle_owned lease (failed message) t h = refl

settle_stale :
    (lease : Lease) (outcome : Outcome) (t : Table)
    → give_back lease t ≡ (err "STALE_ACCOUNT_LEASE", t)
    → settle lease outcome t
      ≡ (if proves_stop outcome then err "STALE_ACCOUNT_LEASE" else answer outcome, t)
unfolding settle
settle_stale lease (returned true output) t h = rw h
settle_stale lease (returned false output) t h = refl
settle_stale lease (stopped message) t h = rw h
settle_stale lease (failed message) t h = refl

-- the row of the account after a run
abbrev pub row_left : Outcome → Lease → Row
row_left outcome lease = if proves_stop outcome then freed (row_of lease) else row_of lease

found_left :
    (lease : Lease) (outcome : Outcome) (t : Table)
    → validate_lease lease ≡ ok tt
    → find_row lease.provider lease.account_id t ≡ some (row_of lease)
    → find_row lease.provider lease.account_id
        (if proves_stop outcome then (release lease t).1 else t)
      ≡ some (row_left outcome lease)
found_left lease (returned true output) t valid held = find_row-release_held lease t valid held
found_left lease (returned false output) t valid held = held
found_left lease (stopped message) t valid held = find_row-release_held lease t valid held
found_left lease (failed message) t valid held = held

module _ (options : Options) (request : Request) (broker : Broker) (w : World) (plan : Plan)
    (lease : Lease) (outcome : Outcome) (left : Table) where
  -- When the adapter settles and the account is still held under the lease of the run, the run
  -- frees the account if the outcome proves that the provider stopped, and otherwise leaves it
  -- held under that lease; it answers with the output or the error of the outcome, an unproven
  -- stop being an error, and the broker is revoked.
  pub run_custody :
      Reaches options request broker w plan lease outcome left
      → IsKeyed left
      → find_row lease.provider lease.account_id left ≡ some (row_of lease)
      → let (result, after) = run options request broker w in
        (result ≡ answer outcome)
        × (find_row lease.provider lease.account_id after.leases ≡ some (row_left outcome lease))
        × (after.revoked ≡ true)
  run_custody h keyed held =
      let valid = acquire-valid plan.input w.leases h.table lease h.acquired in
      let given = give_back_owned lease left keyed valid held in
      rw
        (
          run_settles options request broker w plan lease outcome left h,
          settle_owned lease outcome left given,
        )
        (refl, found_left lease outcome left valid held, refl)

  -- When the adapter settles and the account is no longer held under the lease of the run, the run
  -- leaves the table as the adapter left it, and a proof that the provider stopped gives a stale
  -- lease as the error instead of the outcome.
  pub run_stale :
      Reaches options request broker w plan lease outcome left
      → IsKeyed left
      → released (find_row lease.provider lease.account_id left) lease ≡ false
      → run options request broker w ≡ (
        if proves_stop outcome then err "STALE_ACCOUNT_LEASE" else answer outcome,
        record { leases = left; revoked = true },
      )
  run_stale h keyed lost =
      let valid = acquire-valid plan.input w.leases h.table lease h.acquired in
      let refused = give_back_stale lease left keyed valid lost in
      run_settles options request broker w plan lease outcome left h
      ∙ rw (settle_stale lease outcome left refused)
