-- ===== src/Judge/Backend.antt =====
-- src/judge.ts: `createSystemOneJudge`, `boundedBody` and `resolveJudge`. `fetch`, `JSON`, `URL` and
-- the decoder of bytes are parameters.
use agentmixer.Prelude.{
  ℕ, ◌+◌, String, Bool, Option, none, some, List, [], ◌∷◌, ◌++◌, length, leb, if◌then◌else◌,
}
use agentmixer.Prelude.Result.{Result, ok, err, require, ◌>>=◌, ◌>>◌}
use agentmixer.Validation.Data.{Value, number, string, object, plain, Attr, Number, end, field}
use agentmixer.Validation.{safe_integer}
use agentmixer.Judge.Names.{built_in, check_name, join}
use agentmixer.Judge.Questions.{check_state, check_questions}
use agentmixer.Judge.Answers.{Answers, max_response_bytes, parse_response}
use agentmixer.Judge.Matching.{Prototypes, check_answers}
use agentmixer.Judge.Keys.{Key, Vault, valid_token, resolve_key}
use agentmixer.Judge.Targets.{Url, system_one_url, or_default, parse_endpoint, check_target}

abbrev default_model : String
default_model = "jev-latest"

abbrev url_env : String
url_env = "XCB_JEV_URL"

abbrev model_env : String
model_env = "XCB_JEV_MODEL"

abbrev request_timeout : ℕ
request_timeout = 15000

-- `SystemOneOptions`, and what is there for each option that is absent
pub record Options : Type 0 where
  pub token : String
  pub model : Option String
  pub endpoint : Option String
  pub timeout : Option Number

-- the judge: what the closure `ask` holds
pub record Judge : Type 0 where
  pub token : String
  pub endpoint : String
  pub model : String
  pub timeout : ℕ

pub record Request : Type 0 where
  pub endpoint : String
  pub authorization : String
  pub body : Option String
  pub timeout : ℕ

-- the body of a response: all of its text, or a stream of chunks of bytes
pub data Body : Type 0 where
  whole : String → Body
  stream : List (List ℕ) → Body

pub record Response : Type 0 where
  pub status : ℕ
  pub body : Body

-- the loop over the chunks, each put after those before it
unfoldable pub read_chunks : (size : ℕ) → List (List ℕ) → Result (List ℕ)
read_chunks size [] = ok []
read_chunks size (chunk ∷ chunks) =
    let others = read_chunks (size + length chunk) chunks in
    do
      require (leb (size + length chunk) max_response_bytes) "JUDGE_RESPONSE_LIMIT"
      rest ← others
      ok (chunk ++ rest)

abbrev pub timeout_of : Option Number → Result ℕ
timeout_of none = ok request_timeout
timeout_of (some n) = elim (safe_integer (number n) 1000 120000) [
  | ok ms ↦ ok ms
  | err e ↦ err "JUDGE_TIMEOUT_INVALID"
]

-- `ResolveJudgeOptions`
pub record Resolution : Type 0 where
  pub enabled : Bool
  pub model : Option String
  pub endpoint : Option String

abbrev pub or_else : Option String → Option String → Option String
or_else none other = other
or_else (some text) other = some text

module _ (parse_url : String → Option Url) where
  -- `createSystemOneJudge`
  unfoldable pub create_judge : Options → Result Judge
  unfolding valid_token parse_endpoint check_name
  create_judge options = do
    require (valid_token options.token) "JUDGE_KEY_INVALID"
    url ← parse_endpoint parse_url (or_default options.endpoint system_one_url)
    model ← check_name (or_default options.model default_model)
    timeout ← timeout_of options.timeout
    ok (record { token = options.token; endpoint = url.text; model = model; timeout = timeout })

  abbrev pub keyed_judge :
      Resolution → (String → Option String) → Option Key → Result (Option Judge)
  keyed_judge options lookup none = ok none
  keyed_judge options lookup (some key) = do
    let model = or_else options.model (lookup model_env)
    let endpoint = or_else options.endpoint (lookup url_env)
    check_target parse_url key.source endpoint
    judge ←
        create_judge
          (record { token = key.token; model = model; endpoint = endpoint; timeout = none })
    ok (some judge)

  -- `resolveJudge`
  unfoldable pub resolve_judge :
      Resolution → Vault → (String → Option String) → Result (Option Judge)
  unfolding create_judge check_target resolve_key
  resolve_judge options v lookup =
      if options.enabled
      then (do key ← resolve_key v lookup; keyed_judge options lookup key)
      else ok none

module _ (decode : List ℕ → String) where
  -- `boundedBody`
  unfoldable pub bounded_body : Body → Result String
  unfolding read_chunks
  bounded_body (whole text) = ok text
  bounded_body (stream chunks) = do bytes ← read_chunks 0 chunks; ok (decode bytes)

module _ (stringify : Value → Option String) where
  abbrev message : Judge → (state questions : Value) → Value
  message judge state questions = object plain (
      field "model" Attr.enumerable (string judge.model)
        (field "state" Attr.enumerable state (field "questions" Attr.enumerable questions end)))

  -- the request of `ask`, after its checks
  unfoldable pub request_of : Judge → (state questions : Value) → Result Request
  unfolding check_state check_questions
  request_of judge state questions = do
    check_state stringify state
    check_questions questions
    ok (record {
      endpoint = judge.endpoint;
      authorization = join "Bearer " judge.token;
      body = stringify (message judge state questions);
      timeout = judge.timeout;
    })

-- what the response that was parsed inherits: its records are built here, with `Object.prototype`
abbrev pub parsed_prototypes : (Value → List String) → Prototypes
parsed_prototypes inherits = record {
  of_criteria = inherits;
  of_answers = built_in;
  of_buckets = λ question. built_in;
}

module _ (stringify : Value → Option String) (parse_json : String → Option Value)
    (fetch : Request → Result Response) (decode : List ℕ → String)
    (inherits : Value → List String) where
  -- `ask`; the last parameter is what the prototype of a question's criteria has
  unfoldable pub ask : Judge → (state questions : Value) → Result Answers
  unfolding request_of parse_response check_answers
  ask judge state questions = do
    request ← request_of stringify judge state questions
    response ← fetch request
    body ← bounded_body decode response.body
    answers ← parse_response parse_json response.status body
    check_answers (parsed_prototypes inherits) questions answers
