-- ===== src/Judge/Questions.antt =====
-- src/judge.ts: `checkJudgeQuestions` and `checkJudgeState`. The text of `JSON.stringify` is a
-- parameter.
use agentmixer.Prelude.{
  ℕ, suc, ◌*◌, String, Bool, true, false, ◌&&◌, Option, none, some, List, [], ◌∷◌, length, leb,
  if◌then◌else◌,
}
use agentmixer.Prelude.Result.{Result, ok, err, require, ◌>>=◌, ◌>>◌}
use agentmixer.Validation.Data.{
  Value, undefined, null, string, array, object, Fields, end, Items, nil, hole, item, get, keys,
  is_string,
}
use agentmixer.Validation.{bounded_text, byte_length}
use agentmixer.Judge.Names.{check_name, properties}

abbrev pub max_state_bytes : ℕ
max_state_bytes = 128 * 1024

abbrev pub max_questions : ℕ
max_questions = 64

abbrev pub max_instruction_bytes : ℕ
max_instruction_bytes = 4 * 1024

abbrev instruction : Value → Result String
instruction v = bounded_text v max_instruction_bytes false

-- a text that may be undefined
abbrev pub optional_instruction : Value → Result (Unit {0})
optional_instruction undefined = ok tt
optional_instruction v = do instruction v; ok tt

-- the criteria of a yes or no question, which are read if they are not undefined
unfoldable pub check_noul : Value → Result (Unit {0})
check_noul undefined = ok tt
check_noul null = err "TypeError"
check_noul (object proto fields) = do
  optional_instruction (get fields "true")
  optional_instruction (get fields "false")
check_noul (array proto items) = ok tt
check_noul _ = err "JUDGE_CRITERIA_INVALID"

-- a description that may be null
abbrev described : Value → Result (Unit {0})
described null = ok tt
described v = do instruction v; ok tt

-- the loop over the options
unfoldable pub check_options : Fields → List String → Result (Unit {0})
check_options criteria [] = ok tt
check_options criteria (option ∷ options) =
    let rest = check_options criteria options in
    do check_name option; described (get criteria option); rest

unfoldable pub check_choice : Value → Result (Unit {0})
unfolding check_options properties
check_choice criteria = do
  let options = keys (properties criteria)
  require (leb 1 (length options) && leb (length options) 64) "JUDGE_OPTIONS_LIMIT"
  check_options (properties criteria) options

-- `Array.prototype.length`
unfoldable pub criteria_count : Items → ℕ
criteria_count nil = 0
criteria_count (hole items) = suc (criteria_count items)
criteria_count (item attr v items) = suc (criteria_count items)

-- the loop over the criteria of a score, in which a hole is undefined
unfoldable pub check_criteria : Items → Result (Unit {0})
check_criteria nil = ok tt
check_criteria (hole items) = err "INVALID_TEXT"
check_criteria (item attr v items) = let rest = check_criteria items in do instruction v; rest

unfoldable pub check_score : Value → Result (Unit {0})
unfolding check_criteria criteria_count
check_score (array proto items) = do
  require (leb 1 (criteria_count items) && leb (criteria_count items) 16) "JUDGE_CRITERIA_LIMIT"
  check_criteria items
check_score _ = err "JUDGE_CRITERIA_LIMIT"

abbrev question_fields : Value → Result Fields
question_fields (object proto fields) = ok fields
question_fields (array proto items) = ok end
question_fields _ = err "JUDGE_QUESTION_INVALID"

-- the branches on the type of a question
abbrev pub check_kind : Value → Value → Result (Unit {0})
check_kind kind criteria =
    if is_string kind "noul"
    then check_noul criteria
    else if is_string kind "choice"
    then check_choice criteria
    else if is_string kind "score"
    then check_score criteria
    else err "JUDGE_QUESTION_TYPE"

unfoldable pub check_question : Value → Result (Unit {0})
unfolding check_noul check_choice check_score
check_question question = do
  fields ← question_fields question
  instruction (get fields "instructions")
  check_kind (get fields "type") (get fields "criteria")

-- the loop over the names
unfoldable pub check_each : Fields → List String → Result (Unit {0})
check_each questions [] = ok tt
check_each questions (name ∷ names) =
    let rest = check_each questions names in
    do check_name name; check_question (get questions name); rest

abbrev pub questions_of : Value → Result Fields
questions_of (object proto fields) = ok fields
questions_of _ = err "JUDGE_QUESTIONS_INVALID"

-- `checkJudgeQuestions`, with the questions as fields
unfoldable pub check_questions : Value → Result Fields
unfolding check_each
check_questions value = do
  questions ← questions_of value
  let names = keys questions
  require (leb 1 (length names) && leb (length names) max_questions) "JUDGE_QUESTIONS_LIMIT"
  check_each questions names
  ok questions

abbrev is_state : Value → Bool
is_state (string s) = true
is_state (object proto fields) = true
is_state (array proto items) = true
is_state _ = false

abbrev encoded_size : Option String → ℕ
encoded_size none = 0
encoded_size (some text) = byte_length text

module _ (stringify : Value → Option String) where
  -- `checkJudgeState`
  unfoldable pub check_state : Value → Result (Unit {0})
  check_state state = do
    require (is_state state) "JUDGE_STATE_INVALID"
    let size = encoded_size (stringify state)
    require (leb 1 size && leb size max_state_bytes) "JUDGE_STATE_LIMIT"
