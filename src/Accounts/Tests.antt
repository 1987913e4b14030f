-- ===== src/Accounts/Tests.antt =====
-- Runs of the lease store, and the theorems about it at concrete calls.
use agentmixer.Prelude.{
  ℕ, ◌≡◌, ◌≢◌, refl, ◌<◌, none, some, true, false, List, [], ◌∷◌, arith, String, eq_iff,
}
use agentmixer.Prelude.Result.{ok}
use agentmixer.Validation.{checks}
use agentmixer.Validation.Data.{string, nat, codex}
use agentmixer.Accounts.Rows.{Table, Lease, find_row, holds, upsert, update_rows}
use agentmixer.Accounts.Claims.{Claim, admitted}
use agentmixer.Accounts.Checks.{validate_lease, expiry, lease_from}
use agentmixer.Accounts.Trace.{
  Call, acquiring, releasing, recovering, run, step, slot_run, find_row-run,
}
use agentmixer.Accounts.Custody.{custody_kept, row_of}
use agentmixer.Accounts.Fencing.{acquire_fences}
use agentmixer.Accounts.Release.{acquire-release}
use agentmixer.Accounts.Slots.{IsKeyed}
use agentmixer.Accounts.{AcquireInput, Database, acquire, renew, release, recover, inspect, freed}

store : Unit {0}
unfolding checks acquire renew release recover inspect run step find_row holds admitted upsert
    update_rows expiry lease_from validate_lease
store = tt

abbrev asking : String → ℕ → AcquireInput
asking owner now = record {
  provider = string "codex";
  account_id = string "work";
  owner = string owner;
  now = nat now;
  ttl_ms = nat 60000;
}

abbrev first_lease : Lease
first_lease = record {
  provider = codex;
  account_id = "work";
  owner = "run-1";
  generation = 1;
  expires_at = 60100;
}

abbrev second_lease : Lease
second_lease = record first_lease { owner = "run-2"; generation = 2; expires_at = 60200 }

abbrev held_table : Table
held_table = row_of first_lease ∷ []

abbrev second_table : Table
second_table = row_of second_lease ∷ []

first_acquire : acquire (asking "run-1" 100) [] ≡ (ok first_lease, held_table)
unfolding store
first_acquire = refl

second_acquire :
    acquire (asking "run-2" 200) (run (releasing first_lease ∷ []) held_table)
    ≡ (ok second_lease, second_table)
unfolding store
second_acquire = refl

-- Another run asks long after the deadline in the row, and is refused.
abbrev late : AcquireInput
late = asking "run-2" 900000

abbrev late_claim : Claim
late_claim = record { provider = codex; account_id = "work"; owner = "run-2"; expires_at = 960000 }

late_admitted : admitted late ≡ ok late_claim
unfolding store
late_admitted = refl

leases_differ : some second_lease ≢ some first_lease
leases_differ e = ground (arith, eq_iff "run-1" "run-2")

abbrev others : List Call
others = acquiring late ∷ releasing second_lease ∷ recovering second_lease true ∷ []

custody_kept_example : find_row codex "work" (run others held_table) ≡ some (row_of first_lease)
custody_kept_example =
    custody_kept first_lease (row_of first_lease) others held_table (unfold store in refl)
      (unfold store in refl) ((λ e. cc), (leases_differ, (leases_differ, tt)))

find_row-run_example :
    find_row codex "work" (run others held_table)
    ≡ slot_run codex "work" others (find_row codex "work" held_table)
find_row-run_example = find_row-run others codex "work" held_table

acquire_fences_example : first_lease.generation < second_lease.generation
acquire_fences_example =
    acquire_fences (asking "run-1" 100) (asking "run-2" 200) (releasing first_lease ∷ []) []
      held_table second_table first_lease second_lease first_acquire second_acquire refl refl

held-IsKeyed : IsKeyed held_table
unfolding store
held-IsKeyed = (refl, tt)

acquire-release_example :
    let t = (release first_lease held_table).1 in
    ((release first_lease held_table).0 ≡ ok true)
    × (find_row codex "work" t ≡ some (freed (row_of first_lease)))
    × (release first_lease t ≡ (ok false, t))
acquire-release_example =
    acquire-release (asking "run-1" 100) [] held_table first_lease tt first_acquire

abbrev old_database : Database
old_database = record { legacy = some held_table; current = none }

-- A holder renews its lease, and only the renewed lease can be given back.
renewal_run :
    (renew first_lease (nat 500) (nat 1000) held_table).0
    ≡ ok (record first_lease { expires_at = 1500 })
unfolding store
renewal_run = refl

inspect_run : (inspect (string "codex") (string "work") held_table).0 ≡ ok (some first_lease)
unfolding store
inspect_run = refl
