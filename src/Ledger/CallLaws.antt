-- ===== src/Ledger/CallLaws.antt =====
-- The life of one call of src/codex-managed-ledger.ts, and the list of calls.
use agentmixer.Prelude.{
  ◌≤◌, String, ◌≡◌, refl, ◌==◌, eq_iff, true, Option, none, some, List, [], ◌∷◌, arith, All, length,
  count_where, is_some, if◌then◌else◌, Bool-cases, inl, inr,
}
use agentmixer.Ledger.Calls.{Call, find_call, add_call, change_call}

-- A call is claimed before it has a response, has one before that is written, and is completed last.
pub record IsOrdered (call : Call) : Type 0 where
  pub response_claimed : is_some call.response ≡ true → call.claimed ≡ true
  pub written_response : call.written ≡ true → is_some call.response ≡ true
  pub completed_written : call.completed ≡ true → call.written ≡ true

-- A later state of the same call: what it is for stays, and no step is taken back.
pub record IsLater (before after : Call) : Type 0 where
  pub native_name : after.native_name ≡ before.native_name
  pub capability_name : after.capability_name ≡ before.capability_name
  pub arguments : after.arguments ≡ before.arguments
  pub claimed : before.claimed ≡ true → after.claimed ≡ true
  pub responded : is_some before.response ≡ true → after.response ≡ before.response
  pub written : before.written ≡ true → after.written ≡ true
  pub completed : before.completed ≡ true → after.completed ≡ true

pub IsLater-refl : (call : Call) → IsLater call call
IsLater-refl call = ground arith

pub IsLater-trans : (a b c : Call) → IsLater a b → IsLater b c → IsLater a c
IsLater-trans a b c h k = ground arith

abbrev Calls : Type 0
Calls = List (String × Call)

abbrev pub AllOrdered : List (String × Call) → Type 0
AllOrdered = All (λ entry. IsOrdered entry.1)

-- Each identifier stands once.
abbrev pub HasDistinctIds : List (String × Call) → Type 0
HasDistinctIds [] = Unit
HasDistinctIds ((id, call) ∷ calls) = (find_call id calls ≡ none) × HasDistinctIds calls

-- what a change makes of the call that it finds
abbrev pub changed : (Call → Call) → Option Call → Option Call
changed change none = none
changed change (some call) = some (change call)

pub find_call-change_call :
    (id j : String) (change : Call → Call) (calls : List (String × Call))
    → find_call j (change_call id change calls)
      ≡ (if id == j then changed change (find_call id calls) else find_call j calls)
unfolding find_call change_call
find_call-change_call id j change [] = ground arith
find_call-change_call id j change ((key, call) ∷ calls) =
    ground
      (arith, find_call-change_call id j change calls, eq_iff key id, eq_iff key j, eq_iff id j)

abbrev pub or_call : Option Call → Option Call → Option Call
or_call none other = other
or_call (some call) other = some call

pub find_call-add_call :
    (id j : String) (new : Call) (calls : List (String × Call))
    → find_call j (add_call id new calls)
      ≡ or_call (find_call j calls) (if id == j then some new else none)
unfolding find_call
find_call-add_call id j new [] = refl
find_call-add_call id j new ((key, call) ∷ calls) =
    ground (arith, find_call-add_call id j new calls)

pub length-change_call :
    (id : String) (change : Call → Call) (calls : List (String × Call))
    → length (change_call id change calls) ≡ length calls
unfolding change_call
length-change_call id change [] = refl
length-change_call id change ((key, call) ∷ calls) =
    ground (arith, length-change_call id change calls)

-- A change that keeps the order of the call that it finds keeps the order of all.
pub AllOrdered-change_call :
    (id : String) (change : Call → Call) (calls : List (String × Call))
    → ((call : Call) → find_call id calls ≡ some call → IsOrdered call → IsOrdered (change call))
    → AllOrdered calls
    → AllOrdered (change_call id change calls)
unfolding find_call change_call
AllOrdered-change_call id change [] keeps h = tt
AllOrdered-change_call id change ((key, call) ∷ calls) keeps h = elim (Bool-cases (key == id)) [
  | inl same ↦ rw same (keeps call (rw same) h.0, h.1)
  | inr other ↦
      rw other
        (h.0, AllOrdered-change_call id change calls (λ c found. keeps c (rw other found)) h.1)
]

pub AllOrdered-add_call :
    (id : String) (new : Call) (calls : List (String × Call))
    → IsOrdered new
    → AllOrdered calls
    → AllOrdered (add_call id new calls)
AllOrdered-add_call id new [] k h = (k, tt)
AllOrdered-add_call id new ((key, call) ∷ calls) k h = (h.0, AllOrdered-add_call id new calls k h.1)

pub HasDistinctIds-change_call :
    (id : String) (change : Call → Call) (calls : List (String × Call))
    → HasDistinctIds calls
    → HasDistinctIds (change_call id change calls)
unfolding change_call
HasDistinctIds-change_call id change [] h = tt
HasDistinctIds-change_call id change ((key, call) ∷ calls) h = ground (
  arith,
  find_call-change_call id key change calls,
  HasDistinctIds-change_call id change calls,
  eq_iff key id,
  eq_iff id key,
)

pub HasDistinctIds-add_call :
    (id : String) (new : Call) (calls : List (String × Call))
    → find_call id calls ≡ none
    → HasDistinctIds calls
    → HasDistinctIds (add_call id new calls)
unfolding find_call
HasDistinctIds-add_call id new [] k h = (refl, tt)
HasDistinctIds-add_call id new ((key, call) ∷ calls) k h = ground (
  arith,
  find_call-add_call id key new calls,
  HasDistinctIds-add_call id new calls,
  eq_iff key id,
  eq_iff id key,
)

-- In ordered calls each step has been taken by at most as many calls as the step before it.
pub counts_ordered :
    (calls : List (String × Call))
    → AllOrdered calls
    → (count_where (λ e. e.1.completed) calls ≤ count_where (λ e. e.1.written) calls)
      × (count_where (λ e. e.1.written) calls ≤ count_where (λ e. e.1.claimed) calls)
      × (count_where (λ e. e.1.claimed) calls ≤ length calls)
counts_ordered [] h = omega arith
counts_ordered ((id, call) ∷ calls) h = ground (arith, counts_ordered calls)
