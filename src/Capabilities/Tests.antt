-- ===== src/Capabilities/Tests.antt =====
-- A broker with one tool, its runs, and the theorems about brokers and snapshots at them.
use agentmixer.Prelude.{◌≤◌, String, ◌≡◌, refl, true, some, List, [], ◌∷◌, length}
use agentmixer.Prelude.Result.{ok}
use agentmixer.Validation.{checks, byte_length}
use agentmixer.Validation.Data.{
  Value, null, string, object, array, plain, enumerable, item, nil, end, field, nat, Number,
}
use agentmixer.Capabilities.Json.{
  Snapshot, snapshot, visit, visit_value, visit_array, visit_object, visit_items, visit_fields,
  leaf, add, count_node, properties, sorted, insert, is_before, item_count, index_count,
}
use agentmixer.Capabilities.Counting.{snapshot_bounded}
use agentmixer.Capabilities.Steps.{Action, invoking, beginning, finishing, step, run, IsValid}
use agentmixer.Capabilities.Broker.{broker_limits, revoked_quiet, close_joins, turns}
use agentmixer.Capabilities.{
  Tool, State, new_broker, find_tool, invoke, admit_input, begin, finish, revoke,
}

capabilities : Unit {0}
unfolding checks snapshot visit visit_value visit_array visit_object visit_items visit_fields leaf
    add count_node properties sorted insert is_before item_count index_count step run find_tool
    invoke admit_input begin finish
capabilities = tt

abbrev plain_quote : String → String
plain_quote s = s

abbrev digits : Number → String
digits n = "1"

abbrev tool : Tool
tool = record {
  name = "read";
  properties = "path" ∷ [];
  required = "path" ∷ [];
  parse_input = λ v. ok v;
}

abbrev call : Action
call = invoking true (string "read") (object plain (field "path" enumerable (string "a") end))

abbrev two_calls : List Action
two_calls = call ∷ call ∷ beginning true true ∷ []

abbrev busy : State
busy = run plain_quote digits (tool ∷ []) two_calls new_broker

busy_run : busy.pending ≡ 2
unfolding capabilities
busy_run = refl

broker_limits_example :
    IsValid busy
    × (busy.pending ≤ 32)
    × (length busy.executed ≤ 256)
    × (length busy.executed ≤ busy.calls)
broker_limits_example = broker_limits plain_quote digits (tool ∷ []) two_calls

abbrev halted : State
halted = revoke busy

revoked_quiet_example :
    let t = run plain_quote digits (tool ∷ []) (call ∷ beginning true true ∷ []) halted in
    (t.revoked ≡ true) × (t.executed ≡ halted.executed)
revoked_quiet_example =
    revoked_quiet plain_quote digits (tool ∷ []) (call ∷ beginning true true ∷ []) halted refl

close_joins_example :
    let t =
      run plain_quote digits
        (tool ∷ [])
        (finishing true (some null) ∷ turns plain_quote digits (tool ∷ []) busy.waiting)
        (revoke busy) in
    (t.pending ≡ 0) × (t.executed ≡ busy.executed)
close_joins_example =
    close_joins plain_quote digits (tool ∷ []) true (some null) busy
      (broker_limits plain_quote digits (tool ∷ []) two_calls).0

abbrev unsorted : Value
unsorted = object plain (
    field "b" enumerable (nat 1)
      (field "a" enumerable (array plain (item enumerable null nil)) end))

abbrev copy : Snapshot
copy = record {
  value = object plain (
      field "a" enumerable (array plain (item enumerable null nil))
        (field "b" enumerable (nat 1) end));
  text = "{a:[null],b:1}";
}

copied_run : snapshot plain_quote digits 100 unsorted ≡ ok copy
unfolding capabilities
copied_run = refl

snapshot_bounded_example : byte_length copy.text ≤ 100
snapshot_bounded_example = snapshot_bounded plain_quote digits 100 unsorted copy copied_run
