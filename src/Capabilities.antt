-- ===== src/Capabilities.antt =====
-- src/capabilities.ts: the broker that `createCapabilityBroker` makes. A call is admitted by `invoke`
-- and waits in the tail of promises; `begin` and `finish` are the two parts of its handler's turn,
-- before and after the tool is awaited. The text of a snapshot and the tools are parameters.
pub mod Json
pub mod Counting
pub mod Steps
pub mod Broker
pub mod Tests
use agentmixer.Prelude.{
  ℕ, ◌+◌, ◌-◌, String, ◌==◌, Bool, true, false, not, ◌&&◌, Option, none, some, List, [], ◌∷◌, ◌++◌,
  all, length, includes, leb, ltb, if◌then◌else◌,
}
use agentmixer.Prelude.Result.{Result, ok, err}
use agentmixer.Prelude.Exec.{Exec, ◌>>=◌, ◌>>◌, pure, throw, lift, assert, modify, get_state}
use agentmixer.Validation.Data.{Value, string, object, Proto, Fields, Number, keys}
use agentmixer.Capabilities.Json.{snapshot, Snapshot}

-- a `RegisteredTool`: its name, the names of its schema, and its parser, which may throw
pub record Tool : Type 0 where
  pub name : String
  pub properties : List String
  pub required : List String
  pub parse_input : Value → Result Value

-- an admitted call
pub record Ticket : Type 0 where
  pub tool : Tool
  pub raw : Fields

-- `calls`, `pending`, the signal, and the calls by where they are
pub record State : Type 0 where
  pub revoked : Bool
  pub calls : ℕ
  pub pending : ℕ
  pub waiting : List Ticket
  pub running : Option Ticket
  pub executed : List Ticket
  pub answers : List (Result Value)

abbrev pub max_calls : ℕ
max_calls = 256

abbrev pub max_pending : ℕ
max_pending = 32

abbrev pub input_bytes : ℕ
input_bytes = 262_144

abbrev pub output_bytes : ℕ
output_bytes = 262_144

-- the broker as it is made
abbrev pub new_broker : State
new_broker = record {
  revoked = false;
  calls = 0;
  pending = 0;
  waiting = [];
  running = none;
  executed = [];
  answers = [];
}

unfoldable pub find_tool : String → List Tool → Option Tool
find_tool name [] = none
find_tool name (t ∷ tools) = if t.name == name then some t else find_tool name tools

-- the tool of a name that is text
abbrev pub tool_of : List Tool → Value → Result Tool
tool_of tools (string name) = elim (find_tool name tools) [
  | none ↦ err "CAPABILITY_TOOL_DENIED"
  | some t ↦ ok t
]
tool_of tools _ = err "CAPABILITY_TOOL_DENIED"

-- `jsonObject`
abbrev pub json_object : Value → Result Fields
json_object (object p fields) = ok fields
json_object _ = err "CAPABILITY_OBJECT_REQUIRED"

-- Has the input only keys of the schema, and all that it requires?
abbrev pub fits_schema : Tool → Fields → Bool
fits_schema tool raw =
    all (λ key. includes tool.properties key) (keys raw)
    && all (λ key. includes (keys raw) key) tool.required

abbrev copied : String → Result Snapshot → Result Value
copied code (ok s) = ok s.value
copied code (err e) = err code

-- one more call that has been answered
abbrev pub answer : Result Value → State → State
answer result s = record s { pending = s.pending - 1; answers = s.answers ++ result ∷ [] }

-- `calls` goes up before the limits are checked
abbrev pub count_call : Exec State (Unit {0})
count_call = do
  modify (λ s. record s { calls = s.calls + 1 })
  s ← get_state
  assert (leb s.calls max_calls && ltb s.pending max_pending) "CAPABILITY_CALL_LIMIT"

abbrev pub enqueue : Ticket → State → State
enqueue t s = record s { pending = s.pending + 1; waiting = s.waiting ++ t ∷ [] }

-- `assertActive`, by what the host says
abbrev pub assert_active : Bool → Exec State (Unit {0})
assert_active active = do s ← get_state; assert (not s.revoked && active) "CAPABILITY_REVOKED"

-- a turn goes on with the tool, or is over
abbrev pub started : Ticket → State → Result Value → State
started t s (ok v) = record s { running = some t; executed = s.executed ++ t ∷ [] }
started t s (err e) = answer (err e) s

module _ (quote : String → String) (show_number : Number → String) (tools : List Tool) where
  abbrev snapshot_value : ℕ → Value → Result Value
  snapshot_value maximum v = elim (snapshot quote show_number maximum v) [
    | ok s ↦ ok s.value
    | err e ↦ err e
  ]

  abbrev pub raw_of : Value → Result Fields
  raw_of input = elim (snapshot_value input_bytes input) [ ok v ↦ json_object v | err e ↦ err e ]

  -- the rest of `invoke`, once the call is counted
  unfoldable pub admit_input : Tool → Value → Exec State (Unit {0})
  admit_input tool input = do
    raw ← lift (raw_of input)
    assert (fits_schema tool raw) "CAPABILITY_INPUT_INVALID"
    modify (enqueue (record { tool = tool; raw = raw }))

  unfoldable pub invoke : (active : Bool) (name input : Value) → Exec State (Unit {0})
  unfolding admit_input
  invoke active name input = do
    assert_active active
    tool ← lift (tool_of tools name)
    count_call
    admit_input tool input

  -- the parsed input, copied
  abbrev pub parsed : Tool → Fields → Result Value
  parsed tool raw = elim (tool.parse_input (object Proto.plain raw)) [
    | ok v ↦ copied "CAPABILITY_INPUT_INVALID" (snapshot quote show_number input_bytes v)
    | err e ↦ err "CAPABILITY_INPUT_INVALID"
  ]

  -- what a turn comes to before the tool is executed
  abbrev pub prepared : (is_active still_active : Bool) → Ticket → Result Value
  prepared is_active still_active t =
      if is_active
      then (if still_active
          then parsed t.tool t.raw
          else elim (parsed t.tool t.raw) [ ok v ↦ err "CAPABILITY_REVOKED" | err e ↦ err e ])
      else err "CAPABILITY_REVOKED"

  abbrev pub begin_next : (before after : Bool) → Option Ticket → List Ticket → State → State
  begin_next before after (some t) waiting s = s
  begin_next before after none [] s = s
  begin_next before after none (t ∷ rest) s =
      started t (record s { waiting = rest })
        (prepared (not s.revoked && before) (not s.revoked && after) t)

  -- The next call has its turn, if none is running; with what the host says before and after it
  -- parses.
  unfoldable pub begin : (before after : Bool) → State → State
  begin before after s = begin_next before after s.running s.waiting s

  -- the answer once the tool has settled: with a value, or with an error
  abbrev pub settled : Bool → Option Value → Result Value
  settled false outcome = err "CAPABILITY_REVOKED"
  settled true none = err "CAPABILITY_TOOL_FAILED"
  settled true (some v) =
      copied "CAPABILITY_OUTPUT_INVALID" (snapshot quote show_number output_bytes v)

  abbrev pub finish_running : Bool → Option Value → Option Ticket → State → State
  finish_running active outcome none s = s
  finish_running active outcome (some t) s =
      answer (settled (not s.revoked && active) outcome) (record s { running = none })

  unfoldable pub finish : (active : Bool) → Option Value → State → State
  finish active outcome s = finish_running active outcome s.running s

-- `revoke`, and the first half of `close`; a signal of the host that aborts does the same
abbrev pub revoke : State → State
revoke s = record s { revoked = true }
