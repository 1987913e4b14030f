-- ===== src/Ledger.antt =====
-- src/codex-managed-ledger.ts: the ledger that binds the callbacks of a native tool to the items
-- observed for them. `capability_name` is the mapping that the constructor is given, `canonical_json`
-- and `parse_json` are the encoder and the decoder that the ledger calls.
pub mod Calls
pub mod CallLaws
pub mod Outcomes
pub mod Steps
pub mod Trace
pub mod Claims
pub mod Errors
pub mod Halfway
pub mod Tests
use agentmixer.Prelude.{
  ℕ, ◌*◌, String, ◌==◌, Bool, true, false, not, ◌&&◌, Option, none, some, List, [], ◌∷◌, ltb,
  length, all, is_some, is_text, nat_eq, count_where, if◌then◌else◌,
}
use agentmixer.Prelude.Result.{Result, ok, err}
use agentmixer.Prelude.Exec.{Exec, ◌>>=◌, ◌>>◌, pure, throw, lift, get_state, modify, assert}
use agentmixer.Validation.Data.{
  Value, undefined, null, boolean, string, array, object, opaque, Proto, plain, Attr, Fields, field,
  end, Items, item, nil, get, is_nullish, is_string, is_boolean,
}
use agentmixer.Validation.{as_object, identifier, bounded_text, safe_integer, max_safe_integer}
use agentmixer.Ledger.Calls.{
  Call, Response, Phase, started, completed, set_claimed, set_response, set_written, set_completed,
  find_call, add_call, change_call,
}

-- the fields of `CodexManagedCallLedger`; its `mapping` is the section's parameter
pub record Ledger : Type 0 where
  pub calls : List (String × Call)
  pub thread_id : Option String
  pub turn_id : Option String
  pub closed : Bool
  pub maximum_calls : ℕ

-- `params.key === this.key`, where the ledger's value may still be null
abbrev pub is_field : Value → Option String → Bool
is_field null none = true
is_field (string s) (some t) = s == t
is_field _ _ = false

pub record Identity : Type 0 where
  pub native_name : String
  pub capability_name : String
  pub arguments : String

pub record Claimed : Type 0 where
  pub id : String
  pub name : String
  pub input : Value

pub record Receipt : Type 0 where
  pub started : ℕ
  pub claimed : ℕ
  pub responses_written : ℕ
  pub completed : ℕ
  pub closed : Bool

-- the constructor's check of `maximumCalls`
unfoldable pub new_ledger : Value → Result Ledger
new_ledger maximum_calls = elim (safe_integer maximum_calls 1 1024) [
  | ok n ↦
      ok
        (record { calls = []; thread_id = none; turn_id = none; closed = false; maximum_calls = n })
  | err e ↦ err e
]

-- The two fields are written one after the other, each as soon as its check has passed.
unfoldable pub bind : Value → Value → Exec Ledger (Unit {0})
bind thread_id turn_id = do
  ledger ← get_state
  assert (not (is_some ledger.thread_id) && not ledger.closed) "CODEX_MANAGED_DUPLICATE_TURN"
  thread ← lift (identifier thread_id)
  modify (λ l. record l { thread_id = some thread })
  turn ← lift (identifier turn_id)
  modify (λ l. record l { turn_id = some turn })

unfoldable pub scope : Value → List String → Exec Ledger Fields
scope value allowed = do
  params ← lift (as_object value allowed)
  ledger ← get_state
  assert
      (not ledger.closed
        && is_some ledger.thread_id
        && is_field (get params "threadId") ledger.thread_id
        && is_field (get params "turnId") ledger.turn_id)
      "CODEX_MANAGED_CALL_SCOPE_MISMATCH"
  pure params

-- `args !== null && typeof args === "object" && !Array.isArray(args)`
abbrev is_record : Value → Bool
is_record (object _ _) = true
is_record _ = false

-- `safeInteger` on a value that may be absent
abbrev check_unless : Bool → Value → Exec Ledger (Unit {0})
check_unless true value = pure tt
check_unless false value = do lift (safe_integer value 0 max_safe_integer); pure tt

abbrev is_undefined : Value → Bool
is_undefined undefined = true
is_undefined _ = false

abbrev timestamp_key : Phase → String
timestamp_key started = "startedAtMs"
timestamp_key completed = "completedAtMs"

abbrev observe_keys : Phase → List String
observe_keys phase = "threadId" ∷ "turnId" ∷ "item" ∷ timestamp_key phase ∷ []

check_stamp : Phase → Fields → Exec Ledger (Unit {0})
check_stamp phase params =
    let stamp = get params (timestamp_key phase) in check_unless (is_undefined stamp) stamp

check_duration : Fields → Exec Ledger (Unit {0})
check_duration fields =
    let duration = get fields "durationMs" in check_unless (is_nullish duration) duration

-- the content items of a response, as a value
abbrev pub content_items : Response → Value
content_items response = array plain (
    item Attr.enumerable
      (object plain (
        field "type" Attr.enumerable (string "inputText")
          (field "text" Attr.enumerable (string response.text) end)))
      nil)

abbrev status_of : Bool → String
status_of true = "completed"
status_of false = "failed"

abbrev new_call : Identity → Call
new_call identity = record {
  native_name = identity.native_name;
  capability_name = identity.capability_name;
  arguments = identity.arguments;
  claimed = false;
  response = none;
  written = false;
  completed = false;
}

abbrev may_start : String → Ledger → Bool
may_start id ledger =
    not (is_some (find_call id ledger.calls)) && ltb (length ledger.calls) ledger.maximum_calls

-- a call that has a response which was written, and which is not completed
abbrev awaiting : Option Call → Option (Call × Response)
awaiting none = none
awaiting (some call) =
    if call.written && not call.completed
    then elim call.response [ none ↦ none | some response ↦ some (call, response) ]
    else none

abbrev can_respond : Option Call → Bool
can_respond none = false
can_respond (some call) = call.claimed && not (is_some call.response) && not call.completed

abbrev can_write : Option Call → Bool
can_write none = false
can_write (some call) = is_some call.response && not call.written

abbrev is_same : Call → Identity → Bool
is_same call identity =
    call.native_name == identity.native_name && call.arguments == identity.arguments

abbrev starts_clean : Fields → Bool
starts_clean fields =
    is_string (get fields "status") "inProgress"
    && is_nullish (get fields "contentItems")
    && is_nullish (get fields "success")

abbrev is_completion : Call → Identity → Fields → Response → Bool
is_completion call identity fields response =
    is_same call identity
    && is_string (get fields "status") (status_of response.success)
    && is_boolean (get fields "success") response.success

abbrev claimable : Identity → Option Call → Option Call
claimable identity none = none
claimable identity (some call) =
    if not call.claimed && not call.completed && is_same call identity then some call else none

abbrev change : String → (Call → Call) → Exec Ledger (Unit {0})
change id f = modify (λ l. record l { calls = change_call id f l.calls })

abbrev item_keys : List String
item_keys =
    "type" ∷ "id" ∷ "tool" ∷ "namespace" ∷ "arguments" ∷ "status" ∷ "contentItems" ∷ "success"
    ∷ "durationMs" ∷ []

abbrev claim_keys : List String
claim_keys = "threadId" ∷ "turnId" ∷ "callId" ∷ "tool" ∷ "namespace" ∷ "arguments" ∷ []

-- `capabilityName !== null && namespace == null`
abbrev admit_tool : Option String → Value → Exec Ledger String
admit_tool none namespace = throw "CODEX_MANAGED_TOOL_DENIED"
admit_tool (some capability) namespace = do
  assert (is_nullish namespace) "CODEX_MANAGED_TOOL_DENIED"
  pure capability

module _ (capability_name : String → Option String) (canonical_json : Value → Result String)
    (parse_json : String → Value) where
  unfoldable pub identity : Value → Value → Value → Exec Ledger Identity
  identity native_name namespace args = do
    name ← lift (identifier native_name)
    capability ← admit_tool (capability_name name) namespace
    assert (is_record args) "CODEX_MANAGED_ARGUMENTS_INVALID"
    encoded ← lift (canonical_json args)
    arguments ← lift (bounded_text (string encoded) (256 * 1024) false)
    pure (record { native_name = name; capability_name = capability; arguments = arguments })

  observe_started : String → Identity → Fields → Exec Ledger (Unit {0})
  observe_started id this fields = do
    ledger ← get_state
    assert (may_start id ledger) "CODEX_MANAGED_CALL_LIMIT_OR_DUPLICATE"
    assert (starts_clean fields) "CODEX_MANAGED_START_INVALID"
    modify (λ l. record l { calls = add_call id (new_call this) l.calls })

  -- the last conjunct is read only if the others hold, since the encoder may throw
  same_contents : Bool → Fields → Response → Exec Ledger (Unit {0})
  same_contents false fields response = throw "CODEX_MANAGED_COMPLETION_CHANGED"
  same_contents true fields response = do
    given ← lift (canonical_json (get fields "contentItems"))
    sent ← lift (canonical_json (content_items response))
    assert (given == sent) "CODEX_MANAGED_COMPLETION_CHANGED"

  complete : String → Identity → Fields → Option (Call × Response) → Exec Ledger (Unit {0})
  unfolding same_contents
  complete id this fields none = throw "CODEX_MANAGED_COMPLETION_ORDER"
  complete id this fields (some (call, response)) = do
    same_contents (is_completion call this fields response) fields response
    change id set_completed

  observe_completed : String → Identity → Fields → Exec Ledger (Unit {0})
  unfolding complete
  observe_completed id this fields = do
    ledger ← get_state
    complete id this fields (awaiting (find_call id ledger.calls))

  observe_phase : Phase → String → Identity → Fields → Exec Ledger (Unit {0})
  unfolding observe_started observe_completed
  observe_phase started id this fields = observe_started id this fields
  observe_phase completed id this fields = observe_completed id this fields

  pub observe : Value → Phase → Exec Ledger (Unit {0})
  observe value phase = do
    params ← scope value (observe_keys phase)
    check_stamp phase params
    fields ← lift (as_object (get params "item") item_keys)
    assert (is_string (get fields "type") "dynamicToolCall") "CODEX_MANAGED_TOOL_ITEM_INVALID"
    id ← lift (identifier (get fields "id"))
    this ← identity (get fields "tool") (get fields "namespace") (get fields "arguments")
    check_duration fields
    observe_phase phase id this fields

  claim_call : String → Option Call → Exec Ledger Claimed
  claim_call id none = throw "CODEX_MANAGED_CALLBACK_DENIED"
  claim_call id (some call) = do
    change id set_claimed
    pure (record { id = id; name = call.capability_name; input = parse_json call.arguments })

  pub claim : Value → Exec Ledger Claimed
  claim value = do
    params ← scope value claim_keys
    id ← lift (identifier (get params "callId"))
    this ← identity (get params "tool") (get params "namespace") (get params "arguments")
    ledger ← get_state
    claim_call id (claimable this (find_call id ledger.calls))

unfoldable pub respond : String → String → Bool → Exec Ledger Response
respond id text success = do
  ledger ← get_state
  assert (not ledger.closed && can_respond (find_call id ledger.calls))
      "CODEX_MANAGED_RESPONSE_ORDER"
  bounded ← lift (bounded_text (string text) (512 * 1024) true)
  let response : Response = record { success = success; text = bounded }
  change id (set_response response)
  pure response

-- `written`
unfoldable pub mark_written : String → Exec Ledger (Unit {0})
mark_written id = do
  ledger ← get_state
  assert (not ledger.closed && can_write (find_call id ledger.calls))
      "CODEX_MANAGED_RESPONSE_WRITE_ORDER"
  change id set_written

abbrev pub is_finished : String × Call → Bool
is_finished (_, call) = call.completed && call.written

unfoldable pub finish : Exec Ledger (Unit {0})
finish = do
  ledger ← get_state
  assert (not ledger.closed && all is_finished ledger.calls) "CODEX_MANAGED_CALLS_INCOMPLETE"
  modify (λ l. record l { closed = true })

unfoldable pub receipt : Ledger → Receipt
receipt ledger = record {
  started = length ledger.calls;
  claimed = count_where (λ entry. entry.1.claimed) ledger.calls;
  responses_written = count_where (λ entry. entry.1.written) ledger.calls;
  completed = count_where (λ entry. entry.1.completed) ledger.calls;
  closed = ledger.closed;
}
