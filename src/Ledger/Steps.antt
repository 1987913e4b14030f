-- ===== src/Ledger/Steps.antt =====
-- Each operation of src/codex-managed-ledger.ts keeps what Outcomes asks of it.
use agentmixer.Prelude.{
  String, ◌≡◌, refl, Bool, true, false, not, ◌&&◌, all, Option, none, some, List, arith, Bool-cases,
  inl, inr, length, ◌<◌,
}
use agentmixer.Prelude.Result.{Result, ok}
use agentmixer.Prelude.Exec.{modify}
use agentmixer.Prelude.Readers.{IsReader}
use agentmixer.Validation.Data.{Value, Fields, get, string, is_string}
use agentmixer.Validation.{as_object, identifier, bounded_text}
use agentmixer.Ledger.Calls.{
  Call, Response, Phase, started, completed, find_call, set_claimed, set_response, set_written,
  set_completed,
}
use agentmixer.Ledger.CallLaws.{IsOrdered, IsLater}
use agentmixer.Ledger.Outcomes.{
  IsGood, IsGood-err, IsGood-ok, IsGood-assert, IsGood-lift, IsGood-read, Advances-change,
  Advances-add, Advances-close,
}
use agentmixer.Ledger.{
  Ledger, Identity, scope, identity, observe_started, complete, same_contents, observe_completed,
  observe_phase, observe, claim_call, claim, respond, mark_written, finish, awaiting, claimable,
  can_respond, can_write, may_start, starts_clean, observe_keys, check_stamp, check_duration,
  item_keys, claim_keys, is_completion, new_call, change, is_finished,
}

pub IsReader-scope : (v : Value) (allowed : List String) → IsReader (scope v allowed)
unfolding scope
IsReader-scope v allowed l = ground arith

-- `scope` passes only on an open ledger.
pub scope_open :
    (v : Value) (allowed : List String) (l : Ledger) (p : Fields)
    → (scope v allowed l).0 ≡ ok p
    → l.closed ≡ false
unfolding scope
scope_open v allowed l p h = ground arith

IsReader-check_stamp : (phase : Phase) (params : Fields) → IsReader (check_stamp phase params)
unfolding check_stamp
IsReader-check_stamp phase params l = ground arith

IsReader-check_duration : (fields : Fields) → IsReader (check_duration fields)
unfolding check_duration
IsReader-check_duration fields l = ground arith

-- the four steps of a call's life, each in order and forward
claim_step : (c : Call) → (IsOrdered c → IsOrdered (set_claimed c)) × IsLater c (set_claimed c)
claim_step c = (λ h. ground arith, ground arith)

respond_step :
    (c : Call) (r : Response)
    → can_respond (some c) ≡ true
    → (IsOrdered c → IsOrdered (set_response r c)) × IsLater c (set_response r c)
respond_step c r may = (λ h. ground arith, ground arith)

write_step :
    (c : Call)
    → can_write (some c) ≡ true
    → (IsOrdered c → IsOrdered (set_written c)) × IsLater c (set_written c)
write_step c may = (λ h. ground arith, ground arith)

complete_step :
    (c d : Call) (r : Response)
    → awaiting (some c) ≡ some (d, r)
    → (c ≡ d) × (IsOrdered c → IsOrdered (set_completed c)) × IsLater c (set_completed c)
complete_step c d r may = (ground arith, λ h. ground arith, ground arith)

may_start_absent : (id : String) (l : Ledger) → may_start id l ≡ true → find_call id l.calls ≡ none
may_start_absent id l may = ground arith

may_start_room :
    (id : String) (l : Ledger) → may_start id l ≡ true → length l.calls < l.maximum_calls
may_start_room id l may = ground arith

awaiting_found :
    (o : Option Call) (call : Call) (response : Response)
    → awaiting o ≡ some (call, response)
    → (c : Call) × (o ≡ some c) × (awaiting (some c) ≡ some (call, response))
awaiting_found none call response e = cc
awaiting_found (some c) call response e = (c, refl, e)

pub claimable_found :
    (this : Identity) (o : Option Call) (call : Call)
    → claimable this o ≡ some call
    → (o ≡ some call) × (call.claimed ≡ false)
claimable_found this none call e = cc
claimable_found this (some c) call e = ground arith

can_respond_found :
    (o : Option Call)
    → can_respond o ≡ true
    → (c : Call) × (o ≡ some c) × (can_respond (some c) ≡ true)
can_respond_found none e = cc
can_respond_found (some c) e = (c, refl, e)

can_write_found :
    (o : Option Call) → can_write o ≡ true → (c : Call) × (o ≡ some c) × (can_write (some c) ≡ true)
can_write_found none e = cc
can_write_found (some c) e = (c, refl, e)

module _ (capability_name : String → Option String) (canonical_json : Value → Result String)
    (parse_json : String → Value) where
  pub IsReader-identity :
      (native_name namespace args : Value)
      → IsReader (identity capability_name canonical_json parse_json native_name namespace args)
  unfolding identity
  IsReader-identity native_name namespace args l = ground arith

  IsReader-same_contents :
      (b : Bool) (fields : Fields) (r : Response)
      → IsReader (same_contents capability_name canonical_json parse_json b fields r)
  unfolding same_contents
  IsReader-same_contents b fields r l = ground arith

  started-IsGood :
      (id : String) (this : Identity) (fields : Fields) (l : Ledger)
      → l.closed ≡ false
      → IsGood l (observe_started capability_name canonical_json parse_json id this fields l)
  unfolding observe_started
  started-IsGood id this fields l is_open = elim (Bool-cases (may_start id l)) [
    | inr full ↦ rw full (IsGood-err l "CODEX_MANAGED_CALL_LIMIT_OR_DUPLICATE")
    | inl may ↦ rw may (elim (Bool-cases (starts_clean fields)) [
      | inr unclean ↦ rw unclean (IsGood-err l "CODEX_MANAGED_START_INVALID")
      | inl clean ↦ rw clean (
          IsGood-ok l _ tt (
            Advances-add l id is_open (new_call this) (may_start_absent id l may)
              (may_start_room id l may) (ground arith)))
    ])
  ]

  completed-IsGood :
      (id : String) (this : Identity) (fields : Fields) (l : Ledger)
      → l.closed ≡ false
      → IsGood l (observe_completed capability_name canonical_json parse_json id this fields l)
  unfolding observe_completed complete
  completed-IsGood id this fields l is_open = go (awaiting (find_call id l.calls)) refl
    where
      go :
          (o : Option (Call × Response))
          → awaiting (find_call id l.calls) ≡ o
          → IsGood l (complete capability_name canonical_json parse_json id this fields o l)
      go none e = IsGood-err l _
      go (some (call, response)) e =
          let (c, found, is_awaiting) = awaiting_found (find_call id l.calls) call response e in
          let (same, keeps, is_later) = complete_step c call response is_awaiting in
          IsGood-read
            (same_contents capability_name canonical_json parse_json
              (is_completion call this fields response) fields response)
            _ l (IsReader-same_contents _ fields response)
            λ _ _.
              IsGood-ok l _ tt (Advances-change l id is_open set_completed c found keeps is_later)

  phase-IsGood :
      (phase : Phase) (id : String) (this : Identity) (fields : Fields) (l : Ledger)
      → l.closed ≡ false
      → IsGood l (observe_phase capability_name canonical_json parse_json phase id this fields l)
  unfolding observe_phase
  phase-IsGood started id this fields l is_open = started-IsGood id this fields l is_open
  phase-IsGood completed id this fields l is_open = completed-IsGood id this fields l is_open

  pub observe-IsGood :
      (v : Value) (phase : Phase) (l : Ledger)
      → IsGood l (observe capability_name canonical_json parse_json v phase l)
  unfolding observe
  observe-IsGood v phase l =
      IsGood-read (scope v (observe_keys phase)) _ l (IsReader-scope v (observe_keys phase))
        λ params passed.
          IsGood-read (check_stamp phase params) _ l (IsReader-check_stamp phase params) λ _ _.
            IsGood-lift (as_object (get params "item") item_keys) _ l λ fields _.
              IsGood-assert (is_string (get fields "type") "dynamicToolCall")
                "CODEX_MANAGED_TOOL_ITEM_INVALID" _ l
                λ _. IsGood-lift (identifier (get fields "id")) _ l λ id _.
                  IsGood-read
                    (identity capability_name canonical_json parse_json (get fields "tool")
                      (get fields "namespace") (get fields "arguments"))
                    _ l
                    (IsReader-identity (get fields "tool") (get fields "namespace")
                      (get fields "arguments"))
                    λ this _.
                      IsGood-read (check_duration fields) _ l (IsReader-check_duration fields)
                        λ _ _.
                          phase-IsGood phase id this fields l
                            (scope_open v (observe_keys phase) l params passed)

  claim_call-IsGood :
      (id : String) (this : Identity) (l : Ledger)
      → l.closed ≡ false
      → IsGood l (
          claim_call capability_name canonical_json parse_json id
            (claimable this (find_call id l.calls))
            l)
  unfolding claim_call
  claim_call-IsGood id this l is_open = go (claimable this (find_call id l.calls)) refl
    where
      go :
          (o : Option Call)
          → claimable this (find_call id l.calls) ≡ o
          → IsGood l (claim_call capability_name canonical_json parse_json id o l)
      go none e = IsGood-err l "CODEX_MANAGED_CALLBACK_DENIED"
      go (some call) e =
          let (found, fresh) = claimable_found this (find_call id l.calls) call e in
          let (keeps, is_later) = claim_step call in
          IsGood-ok l _ _ (Advances-change l id is_open set_claimed call found keeps is_later)

  pub claim-IsGood :
      (v : Value) (l : Ledger) → IsGood l (claim capability_name canonical_json parse_json v l)
  unfolding claim
  claim-IsGood v l =
      IsGood-read (scope v claim_keys) _ l (IsReader-scope v claim_keys) λ params passed.
        IsGood-lift (identifier (get params "callId")) _ l λ id _.
          IsGood-read
            (identity capability_name canonical_json parse_json (get params "tool")
              (get params "namespace") (get params "arguments"))
            _ l
            (IsReader-identity (get params "tool") (get params "namespace")
              (get params "arguments"))
            λ this _. claim_call-IsGood id this l (scope_open v claim_keys l params passed)

open_and : (l : Ledger) (b : Bool) → (not l.closed && b) ≡ true → (l.closed ≡ false) × (b ≡ true)
open_and l b h = ground arith

pub respond-IsGood :
    (id text : String) (success : Bool) (l : Ledger) → IsGood l (respond id text success l)
unfolding respond
respond-IsGood id text success l =
    IsGood-assert (not l.closed && can_respond (find_call id l.calls))
      "CODEX_MANAGED_RESPONSE_ORDER" _ l
      λ passed. IsGood-lift (bounded_text (string text) 524288 true) _ l λ bounded _.
        let (is_open, may) = open_and l (can_respond (find_call id l.calls)) passed in
        let (c, found, is_ready) = can_respond_found (find_call id l.calls) may in
        let response : Response = record { success = success; text = bounded } in
        let (keeps, is_later) = respond_step c response is_ready in
        IsGood-ok l _ response
          (Advances-change l id is_open (set_response response) c found keeps is_later)

pub mark_written-IsGood : (id : String) (l : Ledger) → IsGood l (mark_written id l)
unfolding mark_written
mark_written-IsGood id l =
    IsGood-assert (not l.closed && can_write (find_call id l.calls))
      "CODEX_MANAGED_RESPONSE_WRITE_ORDER" (change id set_written) l
      λ passed.
        let (is_open, may) = open_and l (can_write (find_call id l.calls)) passed in
        let (c, found, is_ready) = can_write_found (find_call id l.calls) may in
        let (keeps, is_later) = write_step c is_ready in
        IsGood-ok l _ tt (Advances-change l id is_open set_written c found keeps is_later)

pub finish-IsGood : (l : Ledger) → IsGood l (finish l)
unfolding finish
finish-IsGood l =
    IsGood-assert (not l.closed && all is_finished l.calls) "CODEX_MANAGED_CALLS_INCOMPLETE"
      (modify (λ m. record m { closed = true })) l
      λ passed. IsGood-ok l _ tt (Advances-close l (open_and l (all is_finished l.calls) passed).0)
