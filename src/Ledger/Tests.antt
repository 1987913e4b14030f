-- ===== src/Ledger/Tests.antt =====
-- One native call through the ledger, and the theorems about the ledger at it.
use agentmixer.Prelude.{
  ◌≤◌, ◌≡◌, ◌≢◌, refl, String, ◌==◌, true, false, Option, none, some, List, [], ◌∷◌, if◌then◌else◌,
}
use agentmixer.Prelude.Result.{Result, ok, err}
use agentmixer.Validation.{checks}
use agentmixer.Validation.Data.{
  Value, boolean, string, nat, object, plain, Attr, Fields, field, end,
}
use agentmixer.Ledger.Calls.{Call, started, completed, find_call, change_call}
use agentmixer.Ledger.Outcomes.{IsValid}
use agentmixer.Ledger.Trace.{
  Action, binding, Action, binding, observing, claiming, responding, writing, finishing, step, run,
  run-IsValid,
}
use agentmixer.Ledger.Claims.{claim_once}
use agentmixer.Ledger.Errors.{thrown_unchanged}
use agentmixer.Ledger.Halfway.{IsDeadEnd, bind_stuck}
use agentmixer.Ledger.{
  Ledger, Claimed, new_ledger, bind, scope, identity, observe, observe_phase, claim, claim_call,
  respond, mark_written, finish, receipt, content_items, check_stamp, check_duration,
}

ledger : Unit {0}
unfolding checks new_ledger bind scope identity observe observe_phase claim claim_call respond
    mark_written finish receipt step run find_call change_call check_stamp check_duration
ledger = tt

abbrev tool_name : String → Option String
tool_name name = if name == "read_file" then some "files.read" else none

abbrev encode : Value → Result String
encode v = ok "{}"

abbrev decode : String → Value
decode text = object plain end

infixr 20 ◌⊳◌
abbrev ◌⊳◌ : String × Value → Fields → Fields
(k, v) ⊳ rest = field k Attr.enumerable v rest

abbrev call_fields : String → Fields
call_fields id =
    ("threadId", string "t1")
    ⊳ ("turnId", string "u1")
    ⊳ ("callId", string id)
    ⊳ ("tool", string "read_file")
    ⊳ ("arguments", object plain end)
    ⊳ end

abbrev callback : Value
callback = object plain (call_fields "c1")

abbrev item_fields : Fields → Fields
item_fields rest =
    ("type", string "dynamicToolCall")
    ⊳ ("id", string "c1")
    ⊳ ("tool", string "read_file")
    ⊳ ("arguments", object plain end)
    ⊳ rest

abbrev notice : Fields → Value
notice rest = object plain (
    ("threadId", string "t1")
    ⊳ ("turnId", string "u1")
    ⊳ ("item", object plain (item_fields rest))
    ⊳ end)

abbrev start_notice : Value
start_notice = notice (("status", string "inProgress") ⊳ end)

abbrev end_notice : Value
end_notice = notice (
    ("status", string "completed")
    ⊳ ("success", boolean true)
    ⊳ ("contentItems", content_items (record { success = true; text = "hello" }))
    ⊳ end)

abbrev empty_ledger : Ledger
empty_ledger = record {
  calls = [];
  thread_id = none;
  turn_id = none;
  closed = false;
  maximum_calls = 2;
}

abbrev opening : List Action
opening = binding (string "t1") (string "u1") ∷ observing start_notice started ∷ []

abbrev closing : List Action
closing =
    claiming callback
    ∷ responding "c1" "hello" true
    ∷ writing "c1"
    ∷ observing end_notice completed
    ∷ finishing
    ∷ []

abbrev seen_call : Call
seen_call = record {
  native_name = "read_file";
  capability_name = "files.read";
  arguments = "{}";
  claimed = false;
  response = none;
  written = false;
  completed = false;
}

abbrev seen_ledger : Ledger
seen_ledger = record {
  calls = ("c1", seen_call) ∷ [];
  thread_id = some "t1";
  turn_id = some "u1";
  closed = false;
  maximum_calls = 2;
}

opening_run : run tool_name encode decode opening empty_ledger ≡ seen_ledger
unfolding ledger
opening_run = refl

full_run :
    receipt (run tool_name encode decode closing seen_ledger)
    ≡ record { started = 1; claimed = 1; responses_written = 1; completed = 1; closed = true }
unfolding ledger
full_run = refl

new_run : new_ledger (nat 2) ≡ ok empty_ledger
unfolding ledger
new_run = refl

run-IsValid_example :
    let l = run tool_name encode decode opening empty_ledger in
    IsValid l
    × ((receipt l).completed ≤ (receipt l).responses_written)
    × ((receipt l).responses_written ≤ (receipt l).claimed)
    × ((receipt l).claimed ≤ (receipt l).started)
    × ((receipt l).started ≤ 1024)
run-IsValid_example = run-IsValid tool_name encode decode (nat 2) empty_ledger opening new_run

abbrev closed_ledger : Ledger
closed_ledger = record empty_ledger { closed = true }

-- two calls observed, and the callbacks for both
abbrev both_seen : Ledger
both_seen = record seen_ledger { calls = ("c1", seen_call) ∷ ("c2", seen_call) ∷ [] }

abbrev second_callback : Value
second_callback = object plain (call_fields "c2")

abbrev grant_of : String → Claimed
grant_of id = record { id = id; name = "files.read"; input = object plain end }

abbrev claimed_call : Call
claimed_call = record seen_call { claimed = true }

abbrev first_claimed : Ledger
first_claimed = record both_seen { calls = ("c1", claimed_call) ∷ ("c2", seen_call) ∷ [] }

abbrev both_claimed : Ledger
both_claimed = record both_seen { calls = ("c1", claimed_call) ∷ ("c2", claimed_call) ∷ [] }

first_claim : claim tool_name encode decode callback both_seen ≡ (ok (grant_of "c1"), first_claimed)
unfolding ledger
first_claim = refl

second_claim :
    claim tool_name encode decode second_callback
      (run tool_name encode decode (claiming callback ∷ []) first_claimed)
    ≡ (ok (grant_of "c2"), both_claimed)
unfolding ledger
second_claim = refl

claim_once_example : (grant_of "c1").id ≢ (grant_of "c2").id
claim_once_example =
    claim_once tool_name encode decode callback second_callback both_seen first_claimed both_claimed
      (grant_of "c1") (grant_of "c2") (claiming callback ∷ []) first_claim second_claim

-- a call that has gone all the way
abbrev done_call : Call
done_call = record seen_call {
  claimed = true;
  response = some (record { success = true; text = "hello" });
  written = true;
  completed = true;
}

abbrev done_ledger : Ledger
done_ledger = record seen_ledger { calls = ("c1", done_call) ∷ [] }

thrown_unchanged_example : step tool_name encode decode finishing seen_ledger ≡ seen_ledger
thrown_unchanged_example =
    thrown_unchanged tool_name encode decode finishing seen_ledger "CODEX_MANAGED_CALLS_INCOMPLETE"
      refl (unfold ledger in refl)

-- a good turn and a callback, after the turn that was refused
abbrev retries : List Action
retries = binding (string "t1") (string "u1") ∷ claiming callback ∷ []

bind_stuck_example :
    ((bind (string "t1") (string "") empty_ledger).0 ≡ err "INVALID_TEXT")
    × IsDeadEnd tool_name encode decode "t1"
        (run tool_name encode decode retries (bind (string "t1") (string "") empty_ledger).1)
bind_stuck_example =
    bind_stuck tool_name encode decode (string "t1") (string "") "t1" "INVALID_TEXT" empty_ledger
      retries refl refl refl (unfold ledger in refl) (unfold ledger in refl)
