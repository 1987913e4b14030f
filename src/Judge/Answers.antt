-- ===== src/Judge/Answers.antt =====
-- src/judge.ts: `parseAnswer` and `parseJudgeResponse`. `JSON.parse` is a parameter.
use agentmixer.Prelude.{
  ℕ, ◌*◌, String, ◌==◌, Bool, true, false, not, ◌&&◌, ◌||◌, Option, none, some, List, [], ◌∷◌, any,
  includes, leb, ltb, nat_eq, if◌then◌else◌,
}
use agentmixer.Prelude.Result.{Result, ok, err, require, ◌>>=◌, ◌>>◌}
use agentmixer.Validation.Data.{
  Value, undefined, string, array, object, Attr, Number, Fields, end, field, get, keys, is_string,
}
use agentmixer.Validation.{byte_length, safe_integer, max_safe_integer}
use agentmixer.Judge.Names.{check_name, finite_of, probability}

-- `JudgeAnswer`
pub data Answer : Type 0 where
  noul : Number → Answer
  choice : (choice : String) (confidence : Number) (probabilities : List (String × Number)) → Answer
  score : (score confidence : Number) (probabilities : List (String × Number)) → Answer

pub record Usage : Type 0 where
  pub input_tokens : Option ℕ
  pub output_tokens : Option ℕ

-- `JudgeAnswers`
pub record Answers : Type 0 where
  pub answers : List (String × Answer)
  pub model : Option String
  pub usage : Option Usage

abbrev malformed {ℓ} : {A : Type ℓ} → Result A
malformed = err "JUDGE_ANSWER_MALFORMED"

abbrev pub bad_response {ℓ} : {A : Type ℓ} → Result A
bad_response = err "JUDGE_RESPONSE_MALFORMED"

-- `Object.entries`, each checked
unfoldable pub entries_of : Fields → Result (List (String × Number))
entries_of end = ok []
entries_of (field key Attr.enumerable value fields) =
    let others = entries_of fields in
    do name ← check_name key; p ← probability value; rest ← others; ok ((name, p) ∷ rest)
entries_of (field key Attr.accessor value fields) =
    let others = entries_of fields in
    do name ← check_name key; p ← probability value; rest ← others; ok ((name, p) ∷ rest)
entries_of (field key attr value fields) = entries_of fields

abbrev pub is_empty {ℓ} : {A : Type ℓ} → List A → Bool
is_empty [] = true
is_empty (x ∷ xs) = false

-- the entries of `probabilities`
unfoldable pub probabilities_of : Value → Result (List (String × Number))
unfolding entries_of
probabilities_of (object proto fields) = do
  entries ← entries_of fields
  require (not (is_empty entries)) "JUDGE_ANSWER_MALFORMED"
  ok entries
probabilities_of _ = malformed

abbrev pub choice_name : Value → Result String
choice_name (string s) = check_name s
choice_name _ = malformed

abbrev pub choice_of : Fields → List (String × Number) → Result Answer
choice_of answer probabilities = do
  name ← choice_name (get answer "choice")
  confidence ← probability (get answer "confidence")
  ok (choice name confidence probabilities)

abbrev pub score_of : Fields → List (String × Number) → Result Answer
score_of answer probabilities = do
  value ← finite_of (get answer "score")
  confidence ← probability (get answer "confidence")
  ok (score value confidence probabilities)

abbrev pub noul_of : Fields → Result Answer
noul_of answer = do p ← probability (get answer "noul"); ok (noul p)

-- `name in answer`, for a name that no object inherits: parsed JSON has no other properties
unfoldable pub has : String → Fields → Bool
has name end = false
has name (field key Attr.symbolic value fields) = has name fields
has name (field key attr value fields) = key == name || has name fields

-- the one kind that an answer has
unfoldable pub kind_of : Fields → Option String
unfolding has
kind_of answer =
    if has "noul" answer
    then (if has "choice" answer || has "score" answer then none else some "noul")
    else if has "choice" answer
    then (if has "score" answer then none else some "choice")
    else if has "score" answer
    then some "score"
    else none

-- `answer.type !== undefined && answer.type !== kind`
abbrev pub is_other_type : Value → String → Bool
is_other_type undefined kind = false
is_other_type v kind = not (is_string v kind)

abbrev pub answer_of_kind : String → Fields → Result Answer
answer_of_kind kind answer =
    if is_other_type (get answer "type") kind
    then malformed
    else if kind == "noul"
    then noul_of answer
    else (do
      probabilities ← probabilities_of (get answer "probabilities")
      if kind == "choice" then choice_of answer probabilities else score_of answer probabilities)

abbrev pub answer_fields : Value → Result Fields
answer_fields (object proto fields) = ok fields
answer_fields (array proto items) = ok end
answer_fields _ = malformed

abbrev pub of_kind : Option String → Fields → Result Answer
of_kind none answer = malformed
of_kind (some kind) answer = answer_of_kind kind answer

-- `parseAnswer`; the code of a malformed answer is without the name that the source appends
unfoldable pub parse_answer : String → Value → Result Answer
unfolding kind_of probabilities_of
parse_answer name value = do
  check_name name
  answer ← answer_fields value
  of_kind (kind_of answer) answer

-- the answers, in the order of their entries
unfoldable pub parse_answers : Fields → Result (List (String × Answer))
unfolding parse_answer
parse_answers end = ok []
parse_answers (field name attr value fields) =
    let others = parse_answers fields in
    do answer ← parse_answer name value; rest ← others; ok ((name, answer) ∷ rest)

abbrev pub response_of : Value → Result Fields
response_of (object proto fields) = ok fields
response_of _ = bad_response

abbrev pub model_of : Value → Result (Option String)
model_of undefined = ok none
model_of (string s) = do name ← check_name s; ok (some name)
model_of _ = bad_response

abbrev tokens_of : Value → Result (Option ℕ)
tokens_of undefined = ok none
tokens_of v = elim (safe_integer v 0 max_safe_integer) [ ok n ↦ ok (some n) | err e ↦ bad_response ]

abbrev usage_fields : Value → Result Fields
usage_fields (object proto fields) =
    if any (λ key. not (includes ("input_tokens" ∷ "output_tokens" ∷ []) key)) (keys fields)
    then bad_response
    else ok fields
usage_fields _ = bad_response

abbrev counted_usage : Fields → Result (Option Usage)
counted_usage usage = do
  input_tokens ← tokens_of (get usage "input_tokens")
  output_tokens ← tokens_of (get usage "output_tokens")
  ok (some (record { input_tokens = input_tokens; output_tokens = output_tokens }))

abbrev pub usage_of : Value → Result (Option Usage)
usage_of undefined = ok none
usage_of v = do usage ← usage_fields v; counted_usage usage

abbrev pub status_error : ℕ → String
status_error status =
    if nat_eq status 401 || nat_eq status 403
    then "JUDGE_KEY_REJECTED"
    else if nat_eq status 429
    then "JUDGE_RATE_LIMITED"
    else "JUDGE_REQUEST_FAILED"

abbrev pub max_response_bytes : ℕ
max_response_bytes = 256 * 1024

module _ (parse_json : String → Option Value) where
  abbrev pub parsed_body : String → Result Fields
  parsed_body body = elim (parse_json body) [ none ↦ bad_response | some v ↦ response_of v ]

  -- `parseJudgeResponse`
  unfoldable pub parse_response : (status : ℕ) (body : String) → Result Answers
  unfolding parse_answers
  parse_response status body = do
    require (leb 200 status && ltb status 300) (status_error status)
    require (leb (byte_length body) max_response_bytes) "JUDGE_RESPONSE_LIMIT"
    response ← parsed_body body
    raw ← response_of (get response "answers")
    answers ← parse_answers raw
    require (not (is_empty answers)) "JUDGE_RESPONSE_MALFORMED"
    model ← model_of (get response "model")
    usage ← usage_of (get response "usage")
    ok (record { answers = answers; model = model; usage = usage })
