-- ===== src/Judge/Tests.antt =====
-- A judge at work: its questions, a response, its key and its requests.
use agentmixer.Prelude.{
  ℕ, String, ◌≡◌, refl, true, false, Option, some, none, List, [], ◌∷◌, length, leb, if◌then◌else◌,
}
use agentmixer.Prelude.Result.{Result, ok, err}
use agentmixer.Validation.{checks, is_space, is_alphanumeric}
use agentmixer.Validation.Data.{
  Value, null, number, string, array, object, plain, enumerable, Fields, end, field, nil, item,
  Number, finite, nat,
}
use agentmixer.Judge.Names.{
  built_in, inherited, digits, is_name_tail, is_name, check_name, finite_of, probability, char_at,
  join, index_name, item_fields, char_fields, properties,
}
use agentmixer.Judge.Questions.{
  check_noul, check_options, check_choice, criteria_count, check_criteria, check_score,
  check_question, check_each, check_questions, check_state,
}
use agentmixer.Judge.Answers.{
  noul, choice, score, Answers, max_response_bytes, entries_of, probabilities_of, has, kind_of,
  parse_answer, parse_answers, parse_response,
}
use agentmixer.Judge.Matching.{
  has_item, has_own, find_answer, decimal_from, decimal, check_answer, check_each_answer,
  check_answers,
}
use agentmixer.Judge.Keys.{
  trim, trim_end, are_token_codes, valid_token, Root, absent, present, new_file, Vault,
  private_root, read_size, vault_key, store_key, remove_key, has_key, env_key, resolve_key,
}
use agentmixer.Judge.Targets.{Url, system_one_url, has_control, parse_endpoint, check_target}
use agentmixer.Judge.Backend.{
  Judge, Request, Response, stream, Resolution, read_chunks, create_judge, resolve_judge,
  bounded_body, request_of, parsed_prototypes, ask,
}
use agentmixer.Judge.Bodies.{joined, bounded_body-stream}
use agentmixer.Judge.Vaults.{Holds, store-vault_key}
use agentmixer.Judge.Vaulted.{IsVaulted, request_of-IsVaulted}
use agentmixer.Judge.Sound.{AreOf, ask-AreOf}

questions_read : Unit {0}
unfolding checks is_space is_alphanumeric is_name_tail is_name check_name finite_of probability
    char_at join digits index_name item_fields char_fields properties check_noul check_options
    check_choice criteria_count check_criteria check_score check_question check_each check_questions
    check_state
questions_read = tt

judging : Unit {0}
unfolding questions_read entries_of probabilities_of has kind_of parse_answer parse_answers
    parse_response find_answer decimal_from decimal has_item has_own check_answer check_each_answer
    check_answers trim trim_end are_token_codes valid_token private_root read_size vault_key
    store_key remove_key has_key env_key resolve_key has_control parse_endpoint check_target
    read_chunks create_judge resolve_judge bounded_body request_of ask joined
judging = tt

abbrev half : Number
half = finite false 1 1

abbrev pick : Fields
pick = field "type" enumerable (string "choice") (
    field "instructions" enumerable (string "Which?") (
      field "criteria" enumerable
        (object plain (field "left" enumerable null (field "right" enumerable null end))) end))

abbrev rate : Fields
rate = field "type" enumerable (string "score") (
    field "instructions" enumerable (string "How much?") (
      field "criteria" enumerable
        (array plain (item enumerable (string "a little") (item enumerable (string "a lot") nil)))
        end))

abbrev questions : Value
questions =
    object plain (
      field "pick" enumerable (object plain pick) (field "rate" enumerable (object plain rate) end))

abbrev received : Value
received = object plain (
    field "answers" enumerable
      (object plain (
        field "pick" enumerable
          (object plain (
            field "choice" enumerable (string "left") (
              field "confidence" enumerable (number half) (
                field "probabilities" enumerable
                  (object plain (field "left" enumerable (number half) end)) end))))
          (field "rate" enumerable
            (object plain (
              field "score" enumerable (nat 1) (
                field "confidence" enumerable (number half) (
                  field "probabilities" enumerable
                    (object plain (field "1" enumerable (number half) end)) end))))
            end)))
      (field "model" enumerable (string "jev-1") end))

abbrev stringify : Value → Option String
stringify v = some "{}"

abbrev parse_json : String → Option Value
parse_json s = some received

abbrev fetch : Request → Result Response
fetch r = ok (record { status = 200; body = stream ((1 ∷ 2 ∷ []) ∷ (3 ∷ []) ∷ []) })

abbrev decode : List ℕ → String
decode bytes = "{}"

abbrev judge : Judge
judge = record { token = "key-1"; endpoint = system_one_url; model = "jev-latest"; timeout = 15000 }

abbrev answered : Answers
answered = record {
  answers =
      ("pick", choice "left" half (("left", half) ∷ []))
      ∷ ("rate", score (finite false 1 0) half (("1", half) ∷ []))
      ∷ [];
  model = some "jev-1";
  usage = none;
}

ask-AreOf_example : AreOf (parsed_prototypes (λ v. [])) questions answered
ask-AreOf_example =
    ask-AreOf stringify parse_json fetch decode (λ v. []) judge (string "state") questions answered
      (unfold judging in refl)

abbrev unasked : Answers
unasked = record { answers = []; model = none; usage = none }

-- what the prototypes of records and arrays have
abbrev inherits : Value → List String
inherits (object proto fields) = inherited built_in
inherits (array proto items) = "map" ∷ inherited built_in
inherits _ = []

abbrev one_question : Fields → Value
one_question fields = object plain (field "pick" enumerable (object plain fields) end)

abbrev picked : String → Answers
picked name = record unasked { answers = ("pick", choice name half ((name, half) ∷ [])) ∷ [] }

-- a choice that only the prototype of the criteria has
inherited_choice :
    check_answers (parsed_prototypes inherits) (one_question pick) (picked "constructor")
    ≡ ok (picked "constructor")
unfolding judging
inherited_choice = refl

-- and criteria without a prototype
bare_choice :
    check_answers (parsed_prototypes (λ v. [])) (one_question pick) (picked "constructor")
    ≡ err "JUDGE_RESPONSE_OPTION_MISMATCH"
unfolding judging
bare_choice = refl

-- criteria that are an array
abbrev listed : Fields
listed = field "type" enumerable (string "choice") (
    field "instructions" enumerable (string "Which?") (
      field "criteria" enumerable
        (array plain (item enumerable (string "left") (item enumerable (string "right") nil))) end))

listed_choice :
    check_answers (parsed_prototypes inherits) (one_question listed) (picked "1") ≡ ok (picked "1")
unfolding judging
listed_choice = refl

length_choice :
    check_answers (parsed_prototypes inherits) (one_question listed) (picked "length")
    ≡ ok (picked "length")
unfolding judging
length_choice = refl

listed_mismatch :
    check_answers (parsed_prototypes inherits) (one_question listed) (picked "2")
    ≡ err "JUDGE_RESPONSE_OPTION_MISMATCH"
unfolding judging
listed_mismatch = refl

bounded_body-stream_example : bounded_body decode (stream ((1 ∷ []) ∷ (2 ∷ []) ∷ [])) ≡ (
    if leb (length (joined ((1 ∷ []) ∷ (2 ∷ []) ∷ []))) max_response_bytes
    then ok (decode (joined ((1 ∷ []) ∷ (2 ∷ []) ∷ [])))
    else err "JUDGE_RESPONSE_LIMIT")
bounded_body-stream_example = bounded_body-stream decode ((1 ∷ []) ∷ (2 ∷ []) ∷ [])

abbrev root : Root
root = record {
  is_actual = true;
  is_directory = true;
  is_link = false;
  is_owned = true;
  mode = 0o700;
  is_writable = true;
}

abbrev empty_vault : Vault
empty_vault = record { root = some root; entry = absent }

abbrev full_vault : Vault
full_vault = record { root = some root; entry = present (new_file "key-1" 7 9) }

store-vault_key_example : Holds (trim " key-1 ") empty_vault full_vault
store-vault_key_example =
    store-vault_key " key-1 " 7 9 empty_vault full_vault (unfold judging in refl)

-- a parser of addresses that takes everything after the protocol for the name of the host
abbrev parse_url : String → Option Url
parse_url text = some (record {
  protocol = "https:";
  username = "";
  password = "";
  search = "";
  hash = "";
  hostname = "api.typesafe.ai";
  text = text;
})

abbrev no_variable : String → Option String
no_variable name = none

abbrev resolution : Resolution
resolution = record { enabled = true; model = none; endpoint = none }

abbrev request : Request
request = record {
  endpoint = system_one_url;
  authorization = "Bearer key-1";
  body = some "{}";
  timeout = 15000;
}

request_of-IsVaulted_example : IsVaulted parse_url full_vault request
request_of-IsVaulted_example =
    request_of-IsVaulted parse_url stringify resolution full_vault no_variable judge
      (string "state") questions request (unfold judging in refl) (unfold judging in refl)
      (unfold judging in refl)

-- another endpoint is refused for the key of the vault
elsewhere :
    resolve_judge parse_url
      (record { enabled = true; model = none; endpoint = some "https://example.test/" })
      full_vault
      no_variable
    ≡ err "JUDGE_VAULT_ENDPOINT_MISMATCH"
unfolding judging
elsewhere = refl

-- a yes or no question with an inherited name counts as answered by an answer to another question
inherited_question :
    check_answers
      (parsed_prototypes inherits)
      (object plain (
        field "constructor" enumerable
          (object plain (
            field "type" enumerable
              (string "noul")
              (field "instructions" enumerable (string "Is it?") end)))
          end))
      (record unasked { answers = ("other", noul half) ∷ [] })
    ≡ ok (record unasked { answers = ("other", noul half) ∷ [] })
unfolding judging
inherited_question = refl
