-- ===== src/ToolBroker.antt =====
-- src/broker.ts: the broker that `createToolBroker` makes for one run of one workspace. Its calls are
-- in one order, so a call is a step on the effects so far. The host's files, web and messages are
-- one parameter, `host`; the copy through JSON, Unicode's letters and the URL parser are others.
pub mod Paths
pub mod Scope
pub mod Confined
pub mod Tests
use agentmixer.Prelude.{
  ℕ, ◌*◌, String, ◌==◌, Bool, true, false, not, ◌&&◌, ◌||◌, Option, none, some, List, [], ◌∷◌, ◌++◌,
  all, any, includes, length, if◌then◌else◌,
}
use agentmixer.Prelude.Result.{Result, ok, err}
use agentmixer.Prelude.Exec.{Exec, ◌>>=◌, ◌>>◌, pure, throw, lift, assert, modify, get_state}
use agentmixer.Validation.Data.{
  Value, undefined, null, string, object, Proto, Attr, Fields, end, field, get, nat,
}
use agentmixer.Validation.{as_object, bounded_text, identifier, safe_integer}
use agentmixer.ToolBroker.Paths.{Url, relative_file, public_https_url}

-- `BROKER_TOOL_NAMES`
abbrev pub tool_names : List String
tool_names =
    "files.read" ∷ "files.write" ∷ "web.fetch" ∷ "messages.propose_text"
    ∷ "messages.propose_reaction" ∷ "messages.propose_attachment" ∷ []

-- `MessageOperation`
pub data Operation : Type 0 where
  text_message : (text key : String) → Operation
  reaction : (message_id kind key : String) → Operation
  attachment : (path caption key : String) → Operation

-- a call of the host
pub data Effect : Type 0 where
  reading : (workspace path : String) → Effect
  writing : (workspace path text : String) (expected : Option String) → Effect
  fetching : (url : String) (max_bytes : ℕ) → Effect
  staging : (workspace run : String) → Operation → Effect

pub record ToolBroker : Type 0 where
  pub workspace_id : String
  pub run_id : String
  pub tools : List String

pub record World : Type 0 where
  pub revoked : Bool
  pub effects : List Effect

-- what the host says when a call starts, before it stages, and after an effect
pub record Moments : Type 0 where
  pub before : Bool
  pub staged : Bool
  pub after : Bool

unfoldable pub repeats : List String → Bool
repeats [] = false
repeats (n ∷ names) = includes names n || repeats names

-- `createToolBroker`, with the tools that are allowed
unfoldable pub create_tool_broker :
    (workspace run : Value) → Option (List String) → Result ToolBroker
unfolding repeats
create_tool_broker workspace run allowed =
    let names : List String = elim allowed [ none ↦ tool_names | some given ↦ given ] in
    elim (identifier workspace) [
      | err e ↦ err e
      | ok w ↦ elim (identifier run) [
        | err e ↦ err e
        | ok r ↦
            if repeats names || any (λ name. not (includes tool_names name)) names
            then err "INVALID_TOOL_SET"
            else ok (record { workspace_id = w; run_id = r; tools = names })
      ]
    ]

-- `assertActive`
abbrev pub assert_active : Bool → Exec World (Unit {0})
assert_active active = do w ← get_state; assert (not w.revoked && active) "RUN_REVOKED"

abbrev pub revoke : World → World
revoke w = record w { revoked = true }

abbrev answer_of : String → String → Fields → Fields
answer_of key text rest = field key Attr.enumerable (string text) rest

abbrev pub reactions : List String
reactions = "love" ∷ "like" ∷ "dislike" ∷ "laugh" ∷ "emphasize" ∷ "question" ∷ []

abbrev reaction_kind : Value → Result String
reaction_kind (string s) = if includes reactions s then ok s else err "UNSUPPORTED_REACTION"
reaction_kind _ = err "UNSUPPORTED_REACTION"

-- the revision that a write expects, which may be null
abbrev expected_revision : Value → Result (Option String)
expected_revision null = ok none
expected_revision v = elim (bounded_text v 160 false) [ ok s ↦ ok (some s) | err e ↦ err e ]

abbrev max_bytes_of : Value → Result ℕ
max_bytes_of undefined = ok 65536
max_bytes_of v = safe_integer v 1 262144

module _ (host : Effect → Result Fields) (json_copy : Value → Option Value) (is_letter : ℕ → Bool)
    (parse_url : String → Option Url) (lower : String → String) (broker : ToolBroker) where
  -- a call of the host, which may throw
  abbrev pub perform : Effect → Exec World Fields
  perform effect = do
    modify (λ w. record w { effects = w.effects ++ effect ∷ [] })
    lift (host effect)

  -- `stage`
  unfoldable pub stage : Moments → Operation → Exec World Value
  stage at operation = do
    assert_active at.staged
    staged ← perform (staging broker.workspace_id broker.run_id operation)
    intent ← lift (identifier (get staged "intentId"))
    pure (object Proto.plain (answer_of "intentId" intent end))

  unfoldable pub read_file : Moments → Value → Exec World Value
  read_file at raw = do
    input ← lift (as_object raw ("path" ∷ []))
    path ← lift (relative_file is_letter (get input "path"))
    reply ← perform (reading broker.workspace_id path)
    assert_active at.after
    text ← lift (bounded_text (get reply "text") 262144 true)
    revision ← lift (bounded_text (get reply "revision") 160 false)
    pure (object Proto.plain (answer_of "text" text (answer_of "revision" revision end)))

  unfoldable pub write_file : Moments → Value → Exec World Value
  write_file at raw = do
    input ← lift (as_object raw ("path" ∷ "text" ∷ "expectedRevision" ∷ []))
    expected ← lift (expected_revision (get input "expectedRevision"))
    path ← lift (relative_file is_letter (get input "path"))
    text ← lift (bounded_text (get input "text") 262144 true)
    reply ← perform (writing broker.workspace_id path text expected)
    assert_active at.after
    revision ← lift (bounded_text (get reply "revision") 160 false)
    pure (object Proto.plain (answer_of "revision" revision end))

  unfoldable pub fetch_web : Moments → Value → Exec World Value
  fetch_web at raw = do
    input ← lift (as_object raw ("url" ∷ "maxBytes" ∷ []))
    url ← lift (public_https_url parse_url lower (get input "url"))
    max_bytes ← lift (max_bytes_of (get input "maxBytes"))
    reply ← perform (fetching url max_bytes)
    assert_active at.after
    text ← lift (bounded_text (get reply "text") max_bytes true)
    final ← lift (public_https_url parse_url lower (get reply "url"))
    pure (object Proto.plain (answer_of "text" text (answer_of "url" final end)))

  unfoldable pub propose_text : Moments → Value → Exec World Value
  unfolding stage
  propose_text at raw = do
    input ← lift (as_object raw ("text" ∷ "idempotencyKey" ∷ []))
    text ← lift (bounded_text (get input "text") 16384 false)
    key ← lift (identifier (get input "idempotencyKey"))
    stage at (text_message text key)

  unfoldable pub propose_reaction : Moments → Value → Exec World Value
  unfolding stage
  propose_reaction at raw = do
    input ← lift (as_object raw ("messageId" ∷ "reaction" ∷ "idempotencyKey" ∷ []))
    kind ← lift (reaction_kind (get input "reaction"))
    id ← lift (identifier (get input "messageId"))
    key ← lift (identifier (get input "idempotencyKey"))
    stage at (reaction id kind key)

  unfoldable pub propose_attachment : Moments → Value → Exec World Value
  unfolding stage
  propose_attachment at raw = do
    input ← lift (as_object raw ("path" ∷ "caption" ∷ "idempotencyKey" ∷ []))
    path ← lift (relative_file is_letter (get input "path"))
    caption ← lift (bounded_text (get input "caption") 16384 true)
    key ← lift (identifier (get input "idempotencyKey"))
    stage at (attachment path caption key)

  -- the `switch` on the name
  unfoldable pub handle : Moments → String → Value → Exec World Value
  unfolding read_file write_file fetch_web propose_text propose_reaction propose_attachment
  handle at name raw =
      if name == "files.read"
      then read_file at raw
      else if name == "files.write"
      then write_file at raw
      else if name == "web.fetch"
      then fetch_web at raw
      else if name == "messages.propose_text"
      then propose_text at raw
      else if name == "messages.propose_reaction"
      then propose_reaction at raw
      else if name == "messages.propose_attachment"
      then propose_attachment at raw
      else throw "TOOL_DENIED"

  abbrev pub allowed_name : Value → Result String
  allowed_name (string name) = if includes broker.tools name then ok name else err "TOOL_DENIED"
  allowed_name _ = err "TOOL_DENIED"

  unfoldable pub dispatch : Moments → (name raw : Value) → Exec World Value
  unfolding handle
  dispatch at name raw = do
    assert_active at.before
    tool ← lift (allowed_name name)
    handle at tool raw

  -- a call with its copied input
  abbrev pub dispatch_copy : Moments → Value → Option Value → Exec World Value
  dispatch_copy at name none = throw "INVALID_TOOL_INPUT"
  dispatch_copy at name (some raw) = dispatch at name raw

  unfoldable pub invoke : Moments → (name input : Value) → Exec World Value
  unfolding dispatch
  invoke at name input = dispatch_copy at name (json_copy input)
