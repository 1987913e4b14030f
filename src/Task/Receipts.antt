-- ===== src/Task/Receipts.antt =====
-- src/task-runtime.ts: the checks on what an adapter returns: a completion, and the evidence that
-- everything it started has stopped.
use agentmixer.Prelude.{
  ℕ, ◌++◌, String, Bool, true, false, not, ◌&&◌, Option, none, some, List, [], ◌∷◌, nat_eq,
  includes, if◌then◌else◌,
}
use agentmixer.Prelude.Result.{Result, ok, err, require, ◌>>=◌, ◌>>◌}
use agentmixer.Validation.Data.{
  Value, null, number, string, array, nil, item, Fields, get, Number, finite, is_string, is_boolean,
}
use agentmixer.Validation.{identifier, bounded_text, safe_integer, max_safe_integer}
use agentmixer.Task.Records.{Binding, same_binding}
use agentmixer.Task.Read.{closed_record, digest, nullable, binding, binding_keys}

-- `AgentTaskUsage`
pub record Usage : Type 0 where
  pub input_tokens : Option ℕ
  pub output_tokens : Option ℕ
  pub total_tokens : Option ℕ
  pub cost_usd : Option Number

abbrev pub unknown_usage : Usage
unknown_usage = record {
  input_tokens = none;
  output_tokens = none;
  total_tokens = none;
  cost_usd = none;
}

-- `AgentTaskOutcome`, its status as the adapter gave it
pub record TaskOutcome : Type 0 where
  pub status : Value
  pub code : Option String

-- `AgentTaskCompletion`
pub record Completion : Type 0 where
  pub binding : Binding
  pub output : Option String
  pub usage : Usage
  pub outcome : TaskOutcome

-- `AgentTaskStopEvidence`
pub record StopEvidence : Type 0 where
  pub binding : Binding
  pub stopped_at : ℕ
  pub proof_digest : String

unfoldable pub matching_binding : Fields → Binding → Result Binding
matching_binding value expected = do
  actual ← binding value
  require (same_binding actual expected) "TASK_RECEIPT_BINDING_MISMATCH"
  ok actual

abbrev tokens : Value → Result (Option ℕ)
tokens v = nullable (λ n. safe_integer n 0 max_safe_integer) v

-- a cost that is null, or a finite number that is not negative
abbrev cost : Value → Result (Option Number)
cost null = ok none
cost (number (finite negative mantissa shift)) =
    if negative && not (nat_eq mantissa 0)
    then err "TASK_USAGE_INVALID"
    else ok (some (finite negative mantissa shift))
cost _ = err "TASK_USAGE_INVALID"

unfoldable pub usage : Value → Result Usage
usage value = do
  u ← closed_record value ("inputTokens" ∷ "outputTokens" ∷ "totalTokens" ∷ "costUsd" ∷ [])
  c ← cost (get u "costUsd")
  input ← tokens (get u "inputTokens")
  output ← tokens (get u "outputTokens")
  total ← tokens (get u "totalTokens")
  ok (record { input_tokens = input; output_tokens = output; total_tokens = total; cost_usd = c })

-- `String(value)`, where it can be the text of a status: text, or an array that holds it alone
unfoldable pub status_text : Value → Option String
status_text (string s) = some s
status_text (array p (item a v nil)) = status_text v
status_text _ = none

abbrev has_status : Option String → Bool
has_status none = false
has_status (some s) = includes ("completed" ∷ "failed" ∷ "cancelled" ∷ "deadline-exceeded" ∷ []) s

abbrev is_null : Value → Bool
is_null null = true
is_null _ = false

abbrev is_any_string : Value → Bool
is_any_string (string s) = true
is_any_string _ = false

unfoldable pub task_outcome : Value → Result TaskOutcome
unfolding status_text
task_outcome value = do
  o ← closed_record value ("status" ∷ "code" ∷ [])
  require
      (has_status (status_text (get o "status"))
        && (if is_string (get o "status") "completed"
            then is_null (get o "code")
            else is_any_string (get o "code")))
      "TASK_OUTCOME_INVALID"
  code ← nullable identifier (get o "code")
  ok (record { status = get o "status"; code = code })

unfoldable pub completion : Value → Binding → ℕ → Result Completion
unfolding matching_binding usage task_outcome
completion value expected limit = do
  v ← closed_record value (binding_keys ++ "output" ∷ "usage" ∷ "outcome" ∷ [])
  actual ← matching_binding v expected
  u ← usage (get v "usage")
  o ← task_outcome (get v "outcome")
  output ← nullable (λ text. bounded_text text limit true) (get v "output")
  ok (record { binding = actual; output = output; usage = u; outcome = o })

abbrev pub stop_keys : List String
stop_keys =
    "processStopped" ∷ "controllersStopped" ∷ "joined" ∷ "stoppedAtUnixMs" ∷ "proofDigest" ∷ []

-- the three flags that prove a stop
abbrev pub proves_join : Fields → Bool
proves_join v =
    is_boolean (get v "processStopped") true
    && is_boolean (get v "controllersStopped") true
    && is_boolean (get v "joined") true

unfoldable pub stop_evidence : Value → Binding → (began now : ℕ) → Result StopEvidence
unfolding matching_binding
stop_evidence value expected began now = do
  v ← closed_record value (binding_keys ++ stop_keys)
  actual ← matching_binding v expected
  require (proves_join v) "TASK_STOP_UNPROVEN"
  stopped_at ← safe_integer (get v "stoppedAtUnixMs") began now
  proof ← digest (get v "proofDigest")
  ok (record { binding = actual; stopped_at = stopped_at; proof_digest = proof })
