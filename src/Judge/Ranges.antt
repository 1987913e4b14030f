-- ===== src/Judge/Ranges.antt =====
-- The numbers that `parseJudgeResponse` of src/judge.ts lets through.
use agentmixer.Prelude.{
  ℕ, ◌≤◌, ◌*◌, ◌^◌, String, ◌≡◌, ◌⊎◌, refl, arith, Bool, true, false, not, Option, some, none, List,
  [], ◌∷◌, length, ◌==◌, if◌then◌else◌, leb, ltb, ◌&&◌,
}
use agentmixer.Prelude.Result.{
  Result, ok, err, require, require-eq-ok, after_ok, ok_injective, ◌>>=◌,
}
use mathlib.Core.Path.{subst}
use agentmixer.Validation.Data.{Value, object, Number, Attr, Fields, end, field, get}
use agentmixer.Validation.{byte_length}
use agentmixer.Judge.Names.{is_within, finite_of, in_unit, probability, check_name}
use agentmixer.Judge.Answers.{
  Answer, noul, choice, score, Answers, entries_of, is_empty, probabilities_of, choice_name,
  choice_of, score_of, noul_of, is_other_type, answer_of_kind, answer_fields, of_kind, kind_of,
  parse_answer, parse_answers, response_of, model_of, usage_of, status_error, parsed_body,
  parse_response, max_response_bytes,
}

-- from 0 to n, where -0 is 0
abbrev pub IsWithin : ℕ → Number → Type 0
IsWithin n (Number.finite negative mantissa shift) =
    (mantissa ≤ n * 2 ^ shift) × ((negative ≡ false) ⊎ (mantissa ≡ 0))
IsWithin n _ = ⊥

pub is_within-holds : (n : ℕ) (x : Number) → is_within n x ≡ true → IsWithin n x
is_within-holds n (Number.finite negative mantissa shift) h = ground arith
is_within-holds n (Number.infinite negative) h = cc
is_within-holds n Number.nan h = cc

-- buckets, each with a probability
abbrev pub AreProbable : List (String × Number) → Type 0
AreProbable [] = Unit
AreProbable ((name, p) ∷ rest) = IsWithin 1 p × AreProbable rest

-- an answer whose probabilities and confidence are from 0 to 1, with at least one bucket
abbrev pub IsProbable : Answer → Type 0
IsProbable (noul p) = IsWithin 1 p
IsProbable (choice name confidence buckets) =
    IsWithin 1 confidence × AreProbable buckets × (1 ≤ length buckets)
IsProbable (score value confidence buckets) =
    IsWithin 1 confidence × AreProbable buckets × (1 ≤ length buckets)

kept_lem :
    (b : Bool) (x p : Number)
    → (if b then ok x else err "JUDGE_ANSWER_RANGE") ≡ ok p
    → (b ≡ true) × (x ≡ p)
kept_lem true x p h = (refl, ok_injective h)
kept_lem false x p h = cc

probability-IsWithin : (v : Value) (p : Number) → probability v ≡ ok p → IsWithin 1 p
unfolding probability
probability-IsWithin v p h =
    after_ok (finite_of v) in_unit (unfolded (finite_of v) h) λ x _ last. unit_lem x p last
  where
    unfolded :
        (r : Result Number)
        → elim r [ ok n ↦ in_unit n | err e ↦ err e ] ≡ ok p
        → (r >>= in_unit) ≡ ok p
    unfolded (ok n) h = h
    unfolded (err e) h = cc

    unit_lem : (x p : Number) → in_unit x ≡ ok p → IsWithin 1 p
    unit_lem x p h =
        let (within, same) = kept_lem (is_within 1 x) x p h in
        subst (IsWithin 1) same (is_within-holds 1 x within)

entries_of-AreProbable :
    (fields : Fields) (entries : List (String × Number))
    → entries_of fields ≡ ok entries
    → AreProbable entries
unfolding entries_of
entries_of-AreProbable end entries h = subst AreProbable (ok_injective h) tt
entries_of-AreProbable (field key Attr.enumerable v fields) entries h =
    after_ok (check_name key) _ h λ name _ h. after_ok (probability v) _ h λ p p_ok h.
      after_ok (entries_of fields) _ h λ rest rest_ok last.
        subst AreProbable (ok_injective last)
          (probability-IsWithin v p p_ok, entries_of-AreProbable fields rest rest_ok)
entries_of-AreProbable (field key Attr.accessor v fields) entries h =
    after_ok (check_name key) _ h λ name _ h. after_ok (probability v) _ h λ p p_ok h.
      after_ok (entries_of fields) _ h λ rest rest_ok last.
        subst AreProbable (ok_injective last)
          (probability-IsWithin v p p_ok, entries_of-AreProbable fields rest rest_ok)
entries_of-AreProbable (field key Attr.hidden v fields) entries h =
    entries_of-AreProbable fields entries h
entries_of-AreProbable (field key Attr.symbolic v fields) entries h =
    entries_of-AreProbable fields entries h

length_lem : (entries : List (String × Number)) → not (is_empty entries) ≡ true → 1 ≤ length entries
length_lem [] h = cc
length_lem (e ∷ entries) h = omega arith

probabilities_of-AreProbable :
    (v : Value) (entries : List (String × Number))
    → probabilities_of v ≡ ok entries
    → AreProbable entries × (1 ≤ length entries)
unfolding probabilities_of
probabilities_of-AreProbable (object proto fields) entries h =
    after_ok (entries_of fields) _ h λ x x_ok h.
      after_ok (require (not (is_empty x)) _) _ h λ u some_ok last.
        subst (λ (y : List (String × Number)). AreProbable y × (1 ≤ length y)) (ok_injective last)
          (entries_of-AreProbable fields x x_ok, length_lem x (require-eq-ok _ _ some_ok))
probabilities_of-AreProbable _ entries h = cc

choice_of-IsProbable :
    (fields : Fields) (buckets : List (String × Number)) (answer : Answer)
    → AreProbable buckets × (1 ≤ length buckets)
    → choice_of fields buckets ≡ ok answer
    → IsProbable answer
choice_of-IsProbable fields buckets answer given h =
    after_ok (choice_name (get fields "choice")) _ h λ name _ h.
      after_ok (probability (get fields "confidence")) _ h λ p p_ok last.
        subst IsProbable (ok_injective last) (probability-IsWithin _ p p_ok, given.0, given.1)

score_of-IsProbable :
    (fields : Fields) (buckets : List (String × Number)) (answer : Answer)
    → AreProbable buckets × (1 ≤ length buckets)
    → score_of fields buckets ≡ ok answer
    → IsProbable answer
score_of-IsProbable fields buckets answer given h =
    after_ok (finite_of (get fields "score")) _ h λ x _ h.
      after_ok (probability (get fields "confidence")) _ h λ p p_ok last.
        subst IsProbable (ok_injective last) (probability-IsWithin _ p p_ok, given.0, given.1)

noul_of-IsProbable :
    (fields : Fields) (answer : Answer) → noul_of fields ≡ ok answer → IsProbable answer
noul_of-IsProbable fields answer h =
    after_ok (probability (get fields "noul")) _ h
      λ p p_ok last. subst IsProbable (ok_injective last) (probability-IsWithin _ p p_ok)

answer_of_kind-IsProbable :
    (kind : String) (fields : Fields) (answer : Answer)
    → answer_of_kind kind fields ≡ ok answer
    → IsProbable answer
answer_of_kind-IsProbable kind fields answer h =
    by_tests (is_other_type (get fields "type") kind) (kind == "noul") (kind == "choice") h
  where
    by_tests :
        (other is_noul is_choice : Bool)
        → (if other then err "JUDGE_ANSWER_MALFORMED" else if is_noul then noul_of fields else (do
          buckets ← probabilities_of (get fields "probabilities")
          if is_choice then choice_of fields buckets else score_of fields buckets))
          ≡ ok answer
        → IsProbable answer
    by_tests true n c h = cc
    by_tests false true c h = noul_of-IsProbable fields answer h
    by_tests false false true h =
        after_ok (probabilities_of (get fields "probabilities")) _ h λ buckets b_ok last.
          choice_of-IsProbable fields buckets answer (probabilities_of-AreProbable _ buckets b_ok)
            last
    by_tests false false false h =
        after_ok (probabilities_of (get fields "probabilities")) _ h λ buckets b_ok last.
          score_of-IsProbable fields buckets answer (probabilities_of-AreProbable _ buckets b_ok)
            last

of_kind-IsProbable :
    (kind : Option String) (fields : Fields) (answer : Answer)
    → of_kind kind fields ≡ ok answer
    → IsProbable answer
of_kind-IsProbable none fields answer h = cc
of_kind-IsProbable (some kind) fields answer h = answer_of_kind-IsProbable kind fields answer h

parse_answer-IsProbable :
    (name : String) (v : Value) (answer : Answer)
    → parse_answer name v ≡ ok answer
    → IsProbable answer
unfolding parse_answer
parse_answer-IsProbable name v answer h = after_ok (check_name name) _ h λ n _ h.
    after_ok (answer_fields v) _ h
      λ fields _ last. of_kind-IsProbable (kind_of fields) fields answer last

-- probable answers
abbrev pub AreAnswers : List (String × Answer) → Type 0
AreAnswers [] = Unit
AreAnswers ((name, answer) ∷ rest) = IsProbable answer × AreAnswers rest

parse_answers-AreAnswers :
    (fields : Fields) (answers : List (String × Answer))
    → parse_answers fields ≡ ok answers
    → AreAnswers answers
unfolding parse_answers
parse_answers-AreAnswers end answers h = subst AreAnswers (ok_injective h) tt
parse_answers-AreAnswers (field name attr v fields) answers h =
    after_ok (parse_answer name v) _ h λ answer a_ok h.
      after_ok (parse_answers fields) _ h λ rest rest_ok last.
        subst AreAnswers (ok_injective last)
          (parse_answer-IsProbable name v answer a_ok, parse_answers-AreAnswers fields rest rest_ok)

pub parse_response-AreAnswers :
    (parse_json : String → Option Value) (status : ℕ) (body : String) (r : Answers)
    → parse_response parse_json status body ≡ ok r
    → AreAnswers r.answers
unfolding parse_response
parse_response-AreAnswers parse_json status body r h =
    after_ok (require (leb 200 status && ltb status 300) (status_error status)) _ h λ u _ h.
      after_ok (require (leb (byte_length body) max_response_bytes) _) _ h λ u _ h.
        after_ok (parsed_body parse_json body) _ h λ response _ h.
          after_ok (response_of (get response "answers")) _ h λ raw _ h.
            after_ok (parse_answers raw) _ h λ answers a_ok h.
              after_ok (require (not (is_empty answers)) _) _ h λ u _ h.
                after_ok (model_of (get response "model")) _ h λ model _ h.
                  after_ok (usage_of (get response "usage")) _ h λ usage _ last.
                    subst (λ (x : Answers). AreAnswers x.answers) (ok_injective last)
                      (parse_answers-AreAnswers raw answers a_ok)
