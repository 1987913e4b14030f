-- ===== src/Judge/Matching.antt =====
-- src/judge.ts: `checkJudgeAnswers`, which compares a response with the questions that were sent.
use Prim.Native.Char.{code}
use agentmixer.Prelude.{
  includes, zero, suc, ℕ, ◌+◌, ◌*◌, ◌-◌, String, ◌==◌, Bool, true, false, ◌&&◌, ◌||◌, Option, none,
  some, List, [], ◌∷◌, all, length, leb, ltb, nat_eq, if◌then◌else◌,
}
use agentmixer.Prelude.Result.{Result, ok, require, ◌>>=◌, ◌>>◌}
use agentmixer.Validation.Data.{
  Value, array, object, opaque, Number, Fields, get, keys, is_string, Items, nil, hole, item,
}
use agentmixer.Judge.Names.{Prototype, is_in, is_within}
use agentmixer.Judge.Questions.{check_questions, criteria_count}
use agentmixer.Judge.Answers.{Answer, noul, choice, score, Answers, has}

abbrev pub names_of {ℓ} : {A : Type ℓ} → List (String × A) → List String
names_of [] = []
names_of ((name, x) ∷ rest) = name ∷ names_of rest

-- `response.answers[name]`; none stands for what a record inherits, which has no type of an answer
unfoldable pub find_answer : String → List (String × Answer) → Option Answer
find_answer name [] = none
find_answer name ((key, answer) ∷ rest) = if key == name then some answer else find_answer name rest

-- the value of decimal digits
unfoldable pub decimal_from : ℕ → String → Option ℕ
decimal_from n String.[] = some n
decimal_from n (String.◌∷◌ c s) =
    if leb b'0' (code c) && leb (code c) b'9'
    then decimal_from (n * 10 + (code c - b'0')) s
    else none

-- `/^(0|[1-9][0-9]*)$/u`, with the number
unfoldable pub decimal : String → Option ℕ
unfolding decimal_from
decimal String.[] = none
decimal (String.◌∷◌ c s) =
    if nat_eq (code c) b'0'
    then (if s == "" then some 0 else none)
    else decimal_from 0 (String.◌∷◌ c s)

-- is there an item at that index?
unfoldable pub has_item : ℕ → Items → Bool
has_item n nil = false
has_item zero (hole items) = false
has_item zero (item attr v items) = true
has_item (suc n) (hole items) = has_item n items
has_item (suc n) (item attr v items) = has_item n items

-- is it an own property of a value? The own properties of an array are its items and `length`.
unfoldable pub has_own : Value → String → Bool
unfolding has has_item decimal
has_own (object proto fields) name = has name fields
has_own (array proto items) name = elim (decimal name) [
  | none ↦ name == "length"
  | some n ↦ has_item n items
]
has_own _ name = false

-- What `in` sees that is not an own property: of the criteria of a question, whose prototype is the
-- caller's, and of the answers and the probabilities, which are records with a prototype or none.
pub record Prototypes : Type 0 where
  pub of_criteria : Value → List String
  pub of_answers : Prototype
  pub of_buckets : (question : String) → Prototype

-- `name in criteria`
abbrev pub is_property : Prototypes → Value → String → Bool
is_property prototypes criteria name =
    has_own criteria name || includes (prototypes.of_criteria criteria) name

-- the right side of `in` has to be an object
abbrev pub is_object : Value → Bool
is_object (object proto fields) = true
is_object (array proto items) = true
is_object opaque = true
is_object _ = false

-- the test on an answer that is a choice
abbrev pub fits_options :
    Prototypes → (question name : String) → (buckets : List String) → (criteria : Value) → Bool
fits_options prototypes question name buckets criteria =
    is_property prototypes criteria name
    && is_in (prototypes.of_buckets question) buckets name
    && leb 1 (length buckets)
    && all (is_property prototypes criteria) buckets

abbrev pub matches_choice :
    Prototypes → (question name : String) → (buckets : List String) → Value → Result (Unit {0})
matches_choice prototypes question name buckets criteria = do
  require (is_object criteria) "TypeError"
  require (fits_options prototypes question name buckets criteria) "JUDGE_RESPONSE_OPTION_MISMATCH"

abbrev pub is_bucket : ℕ → String → Bool
is_bucket count bucket = elim (decimal bucket) [ none ↦ false | some n ↦ ltb n count ]

-- the test on an answer that is a score
abbrev pub fits_score : Number → List String → ℕ → Bool
fits_score value buckets count =
    is_within (count - 1) value && leb 1 (length buckets) && all (is_bucket count) buckets

abbrev pub count_of : Value → ℕ
count_of (array proto items) = criteria_count items
count_of _ = 0

-- the branches on the type of an answer
unfoldable pub check_answer :
    Prototypes → (name : String) → Fields → Option Answer → Result (Unit {0})
unfolding decimal criteria_count has_own
check_answer prototypes question fields (some (choice name confidence probabilities)) = do
  require (is_string (get fields "type") "choice") "JUDGE_RESPONSE_TYPE_MISMATCH"
  matches_choice prototypes question name (names_of probabilities) (get fields "criteria")
check_answer prototypes question fields (some (score value confidence probabilities)) = do
  require (is_string (get fields "type") "score") "JUDGE_RESPONSE_TYPE_MISMATCH"
  require (fits_score value (names_of probabilities) (count_of (get fields "criteria")))
      "JUDGE_RESPONSE_SCORE_MISMATCH"
check_answer prototypes question fields (some (noul p)) =
    require (is_string (get fields "type") "noul") "JUDGE_RESPONSE_TYPE_MISMATCH"
check_answer prototypes question fields none =
    require (is_string (get fields "type") "noul") "JUDGE_RESPONSE_TYPE_MISMATCH"

abbrev pub fields_of : Value → Fields
fields_of (object proto fields) = fields
fields_of _ = Fields.end

-- the loop over the names
unfoldable pub check_each_answer :
    Prototypes → Fields → List (String × Answer) → List String → Result (Unit {0})
unfolding check_answer find_answer
check_each_answer prototypes questions answers [] = ok tt
check_each_answer prototypes questions answers (name ∷ names) =
    let rest = check_each_answer prototypes questions answers names in
    do
      check_answer prototypes name (fields_of (get questions name)) (find_answer name answers)
      rest

abbrev pub covers : Prototype → (names answered : List String) → Bool
covers prototype names answered =
    nat_eq (length answered) (length names) && all (is_in prototype answered) names

-- `checkJudgeAnswers`
unfoldable pub check_answers : Prototypes → Value → Answers → Result Answers
unfolding check_questions check_each_answer
check_answers prototypes value response = do
  questions ← check_questions value
  require (covers prototypes.of_answers (keys questions) (names_of response.answers))
      "JUDGE_RESPONSE_QUESTION_MISMATCH"
  check_each_answer prototypes questions response.answers (keys questions)
  ok response
