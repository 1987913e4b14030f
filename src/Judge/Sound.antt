-- ===== src/Judge/Sound.antt =====
-- What the answers that `ask` of src/judge.ts returns have to do with the questions.
use agentmixer.Prelude.{
  ℕ, zero, suc, ◌==◌, ◌||◌, Bool-cases, inl, inr, ◌<◌, ◌-◌, String, ◌≡◌, ◌⊎◌, refl, arith, Bool,
  true, false, Option, some, none, List, [], ◌∷◌, All, all, includes, length, leb, ltb, eq_iff,
  ◌&&◌, &&-true_iff,
}
use agentmixer.Prelude.Result.{Result, ok, require, require-eq-ok, after_ok, ok_injective}
use mathlib.Core.Path.{subst}
use agentmixer.Validation.Data.{
  Value, string, array, object, Number, Attr, Fields, end, field, Items, nil, hole, item, get, keys,
  is_string,
}
use agentmixer.Validation.Laws.{is_string_lem}
use agentmixer.Judge.Names.{Prototype, inherited, is_in, is_within}
use agentmixer.Judge.Questions.{check_questions, criteria_count}
use agentmixer.Judge.Answers.{Answer, noul, choice, score, Answers, has, parse_response}
use agentmixer.Judge.Matching.{
  names_of, find_answer, has_item, has_own, Prototypes, is_property, is_object, matches_choice,
  decimal, is_bucket, fits_score, count_of, check_answer, fields_of, check_each_answer, covers,
  check_answers,
}
use agentmixer.Judge.Backend.{
  Judge, Request, Response, bounded_body, request_of, parsed_prototypes, ask,
}
use agentmixer.Judge.Ranges.{IsWithin, is_within-holds, AreAnswers, parse_response-AreAnswers}

-- one of the names, or one that a record has from its prototype
abbrev pub Seen : Prototype → List String → String → Type 0
Seen prototype names name =
    (includes names name ≡ true) ⊎ (includes (inherited prototype) name ≡ true)

is_in-Seen :
    (prototype : Prototype) (names : List String) (name : String)
    → is_in prototype names name ≡ true
    → Seen prototype names name
is_in-Seen prototype names name h = ground arith

all-All {ℓ} :
    {A : Type ℓ} (p : A → Bool) (P : A → Type 0) (xs : List A)
    → ((x : A) → p x ≡ true → P x)
    → all p xs ≡ true
    → All P xs
all-All p P [] f h = tt
all-All p P (x ∷ xs) f h =
    let (first, rest) = (&&-true_iff (p x) (all p xs)).0 h in (f x first, all-All p P xs f rest)

-- the text of a number below the count
abbrev pub IsBucket : ℕ → String → Type 0
IsBucket count bucket = (n : ℕ) × (decimal bucket ≡ some n) × (n < count)

is_bucket-IsBucket :
    (count : ℕ) (bucket : String) → is_bucket count bucket ≡ true → IsBucket count bucket
is_bucket-IsBucket count bucket h = by_value (decimal bucket) h
  where
    by_value :
        (o : Option ℕ)
        → elim o [ none ↦ false | some n ↦ ltb n count ] ≡ true
        → (n : ℕ) × (o ≡ some n) × (n < count)
    by_value none h = cc
    by_value (some n) h = (n, refl, ground arith)

-- the name of a field
abbrev pub IsField : String → Fields → Type 0
IsField name end = ⊥
IsField name (field key Attr.symbolic v fields) = IsField name fields
IsField name (field key attr v fields) = (key ≡ name) ⊎ IsField name fields

-- an own property: a field of a record, or an index or the length of an array
abbrev pub IsOwn : Value → String → Type 0
IsOwn (object proto fields) name = IsField name fields
IsOwn (array proto items) name = (name ≡ "length") ⊎ IsBucket (criteria_count items) name
IsOwn _ name = ⊥

same_or_later :
    (key name : String) (b : Bool) (P : Type 0)
    → (b ≡ true → P)
    → (key == name || b) ≡ true
    → (key ≡ name) ⊎ P
same_or_later key name b P later h = elim (Bool-cases (key == name)) [
  | inl same ↦ inl ((eq_iff key name).0 same)
  | inr other ↦ inr (later (ground arith))
]

has-IsField : (name : String) (fields : Fields) → has name fields ≡ true → IsField name fields
unfolding has
has-IsField name end h = cc
has-IsField name (field key Attr.symbolic v fields) h = has-IsField name fields h
has-IsField name (field key Attr.enumerable v fields) h =
    same_or_later key name (has name fields) (IsField name fields) (has-IsField name fields) h
has-IsField name (field key Attr.accessor v fields) h =
    same_or_later key name (has name fields) (IsField name fields) (has-IsField name fields) h
has-IsField name (field key Attr.hidden v fields) h =
    same_or_later key name (has name fields) (IsField name fields) (has-IsField name fields) h

has_item-lt_count : (n : ℕ) (items : Items) → has_item n items ≡ true → n < criteria_count items
unfolding has_item criteria_count
has_item-lt_count n nil h = cc
has_item-lt_count zero (hole items) h = cc
has_item-lt_count zero (item attr v items) h = omega arith
has_item-lt_count (suc n) (hole items) h = omega (arith, has_item-lt_count n items h)
has_item-lt_count (suc n) (item attr v items) h = omega (arith, has_item-lt_count n items h)

has_own-IsOwn : (v : Value) (name : String) → has_own v name ≡ true → IsOwn v name
unfolding has_own
has_own-IsOwn (object proto fields) name h = has-IsField name fields h
has_own-IsOwn (array proto items) name h = by_index (decimal name) refl h
  where
    by_index :
        (o : Option ℕ)
        → decimal name ≡ o
        → elim o [ none ↦ name == "length" | some n ↦ has_item n items ] ≡ true
        → (name ≡ "length") ⊎ IsBucket (criteria_count items) name
    by_index none e h = inl ((eq_iff name "length").0 h)
    by_index (some n) e h = inr (n, e, has_item-lt_count n items h)
has_own-IsOwn _ name h = cc

-- what `in` sees of criteria: an own property, or one that their prototype has
abbrev pub IsProperty : (Value → List String) → Value → String → Type 0
IsProperty inherits criteria name = IsOwn criteria name ⊎ (includes (inherits criteria) name ≡ true)

is_property-IsProperty :
    (prototypes : Prototypes) (criteria : Value) (name : String)
    → is_property prototypes criteria name ≡ true
    → IsProperty prototypes.of_criteria criteria name
is_property-IsProperty prototypes criteria name h = elim (Bool-cases (has_own criteria name)) [
  | inl own ↦ inl (has_own-IsOwn criteria name own)
  | inr other ↦ inr (ground arith)
]

-- a choice among the options of a question
pub record IsChoice (prototypes : Prototypes) (question : String) (fields : Fields) (name : String)
    (buckets : List String) : Type 0 where
  pub kind : get fields "type" ≡ string "choice"
  pub is_option : IsProperty prototypes.of_criteria (get fields "criteria") name
  pub is_bucket_too : Seen (prototypes.of_buckets question) buckets name
  pub of_options : All (IsProperty prototypes.of_criteria (get fields "criteria")) buckets

-- a score on the scale of a question
pub record IsScore (fields : Fields) (value : Number) (buckets : List String) : Type 0 where
  pub kind : get fields "type" ≡ string "score"
  pub is_on_scale : IsWithin (count_of (get fields "criteria") - 1) value
  pub of_scale : All (IsBucket (count_of (get fields "criteria"))) buckets

-- an answer of the kind that the question asks for; `none` is one that is inherited
abbrev pub Fits : Prototypes → String → Fields → Option Answer → Type 0
Fits prototypes question fields none = get fields "type" ≡ string "noul"
Fits prototypes question fields (some (noul p)) = get fields "type" ≡ string "noul"
Fits prototypes question fields (some (choice name confidence buckets)) =
    IsChoice prototypes question fields name (names_of buckets)
Fits prototypes question fields (some (score value confidence buckets)) =
    IsScore fields value (names_of buckets)

four_tests : (a b c d : Bool) → (a && b && c && d) ≡ true → (a ≡ true) × (b ≡ true) × (d ≡ true)
four_tests a b c d h = ground arith

matches_choice-IsChoice :
    (prototypes : Prototypes) (question : String) (fields : Fields) (name : String)
    (buckets : List String) {u : Unit {0}}
    → is_string (get fields "type") "choice" ≡ true
    → matches_choice prototypes question name buckets (get fields "criteria") ≡ ok u
    → IsChoice prototypes question fields name buckets
matches_choice-IsChoice prototypes question fields name buckets typed h =
    let criteria = get fields "criteria" in
    after_ok (require (is_object criteria) _) _ h λ u _ last.
      let (first, second, third) =
        four_tests (is_property prototypes criteria name)
          (is_in (prototypes.of_buckets question) buckets name) (leb 1 (length buckets))
          (all (is_property prototypes criteria) buckets) (require-eq-ok _ _ last) in
      record {
        kind = is_string_lem (get fields "type") "choice" typed;
        is_option = is_property-IsProperty prototypes criteria name first;
        is_bucket_too = is_in-Seen (prototypes.of_buckets question) buckets name second;
        of_options =
            all-All (is_property prototypes criteria) (IsProperty prototypes.of_criteria criteria)
              buckets (is_property-IsProperty prototypes criteria) third;
      }

fits_score_lem :
    (value : Number) (buckets : List String) (count : ℕ)
    → fits_score value buckets count ≡ true
    → (is_within (count - 1) value ≡ true) × (all (is_bucket count) buckets ≡ true)
fits_score_lem value buckets count h = ground arith

check_answer-Fits :
    (prototypes : Prototypes) (question : String) (fields : Fields) (o : Option Answer)
    {u : Unit {0}}
    → check_answer prototypes question fields o ≡ ok u
    → Fits prototypes question fields o
unfolding check_answer
check_answer-Fits prototypes question fields none h = is_string_lem _ "noul" (require-eq-ok _ _ h)
check_answer-Fits prototypes question fields (some (noul p)) h =
    is_string_lem _ "noul" (require-eq-ok _ _ h)
check_answer-Fits prototypes question fields (some (choice name confidence buckets)) h =
    after_ok (require (is_string (get fields "type") "choice") _) _ h λ u typed last.
      matches_choice-IsChoice prototypes question fields name (names_of buckets)
        (require-eq-ok _ _ typed) last
check_answer-Fits prototypes question fields (some (score value confidence buckets)) h =
    after_ok (require (is_string (get fields "type") "score") _) _ h λ u typed last.
      let count = count_of (get fields "criteria") in
      let (within, of_scale) =
        fits_score_lem value (names_of buckets) count (require-eq-ok _ _ last) in
      record {
        kind = is_string_lem (get fields "type") "score" (require-eq-ok _ _ typed);
        is_on_scale = is_within-holds (count - 1) value within;
        of_scale =
            all-All (is_bucket count) (IsBucket count) (names_of buckets) (is_bucket-IsBucket count)
              of_scale;
      }

-- each of the questions with those names has an answer that fits
abbrev pub AreFit : Prototypes → Fields → List (String × Answer) → List String → Type 0
AreFit prototypes questions answers names =
    All (λ name. Fits prototypes name (fields_of (get questions name)) (find_answer name answers))
      names

check_each_answer-AreFit :
    (prototypes : Prototypes) (questions : Fields) (answers : List (String × Answer))
    (names : List String) {u : Unit {0}}
    → check_each_answer prototypes questions answers names ≡ ok u
    → AreFit prototypes questions answers names
unfolding check_each_answer
check_each_answer-AreFit prototypes questions answers [] h = tt
check_each_answer-AreFit prototypes questions answers (name ∷ names) h =
    after_ok
      (check_answer prototypes name (fields_of (get questions name)) (find_answer name answers)) _ h
      λ u first last. (
        check_answer-Fits prototypes name _ _ first,
        check_each_answer-AreFit prototypes questions answers names last,
      )

covers_lem :
    (prototype : Prototype) (names answered : List String)
    → covers prototype names answered ≡ true
    → (length answered ≡ length names) × (all (is_in prototype answered) names ≡ true)
covers_lem prototype names answered h = ground arith

-- answers to the questions
pub record AreOf (prototypes : Prototypes) (questions : Value) (r : Answers) : Type 0 where
  pub fields : Fields
  pub are_checked : check_questions questions ≡ ok fields
  pub same_count : length (names_of r.answers) ≡ length (keys fields)
  pub are_answered : All (Seen prototypes.of_answers (names_of r.answers)) (keys fields)
  pub fit : AreFit prototypes fields r.answers (keys fields)
  pub are_probable : AreAnswers r.answers

check_answers-AreOf :
    (prototypes : Prototypes) (questions : Value) (r s : Answers)
    → AreAnswers r.answers
    → check_answers prototypes questions r ≡ ok s
    → AreOf prototypes questions s
unfolding check_answers
check_answers-AreOf prototypes questions r s probable h =
    after_ok (check_questions questions) _ h λ fields f_ok h.
      let names = names_of r.answers in
      after_ok (require (covers prototypes.of_answers (keys fields) names) _) _ h λ u covered h.
        after_ok (check_each_answer prototypes fields r.answers (keys fields)) _ h λ u each last.
          let (count, every) =
            covers_lem prototypes.of_answers (keys fields) names (require-eq-ok _ _ covered) in
          subst (AreOf prototypes questions) (ok_injective last) (record {
            fields = fields;
            are_checked = f_ok;
            same_count = count;
            are_answered =
                all-All (is_in prototypes.of_answers names) (Seen prototypes.of_answers names)
                  (keys fields) (is_in-Seen prototypes.of_answers names) every;
            fit = check_each_answer-AreFit prototypes fields r.answers (keys fields) each;
            are_probable = probable;
          })

-- Whatever the server sends, the answers that `ask` returns are as many as the questions. Each
-- question is answered under its name, unless that is a name that `Object.prototype` has, and by an
-- answer of its kind: a choice and its buckets are own properties of the question's criteria (the
-- options of a record; an index or the length of an array) or names that the criteria inherit, the
-- choice has a bucket unless it is a name that `Object.prototype` has, and a score is from 0 to the
-- last criterion and its buckets are numbers of criteria. Each probability and confidence is from 0
-- to 1.
pub ask-AreOf :
    (stringify : Value → Option String) (parse_json : String → Option Value)
    (fetch : Request → Result Response) (decode : List ℕ → String) (inherits : Value → List String)
    (judge : Judge) (state questions : Value) (r : Answers)
    → ask stringify parse_json fetch decode inherits judge state questions ≡ ok r
    → AreOf (parsed_prototypes inherits) questions r
unfolding ask
ask-AreOf stringify parse_json fetch decode inherits judge state questions r h =
    after_ok (request_of stringify judge state questions) _ h λ request _ h.
      after_ok (fetch request) _ h λ response _ h.
        after_ok (bounded_body decode response.body) _ h λ body _ h.
          after_ok (parse_response parse_json response.status body) _ h λ answers a_ok last.
            check_answers-AreOf (parsed_prototypes inherits) questions answers r
              (parse_response-AreAnswers parse_json response.status body answers a_ok) last
