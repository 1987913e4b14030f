-- ===== src/Judge/Targets.antt =====
-- src/judge.ts: the endpoints of a judge. The parser of `URL` is a parameter.
use Prim.Native.Char.{code}
use agentmixer.Prelude.{String, ◌==◌, Bool, false, not, ◌&&◌, ◌||◌, Option, none, some, leb, nat_eq}
use agentmixer.Prelude.Result.{Result, ok, err, require, ◌>>=◌, ◌>>◌}
use agentmixer.Validation.Data.{string}
use agentmixer.Validation.{bounded_text}
use agentmixer.Judge.Keys.{Source, env, vault}

-- what the source reads of a `URL`; `text` is its `toString`
pub record Url : Type 0 where
  pub protocol : String
  pub username : String
  pub password : String
  pub search : String
  pub hash : String
  pub hostname : String
  pub text : String

abbrev pub system_one_url : String
system_one_url = "https://api.typesafe.ai/v1/systemone"

-- `/[\u0000-\u0020\u007f]/u`
unfoldable pub has_control : String → Bool
has_control String.[] = false
has_control (String.◌∷◌ c s) = leb (code c) 0x20 || nat_eq (code c) 0x7f || has_control s

abbrev pub is_clean : Url → Bool
is_clean url =
    url.protocol == "https:"
    && url.username == ""
    && url.password == ""
    && url.search == ""
    && url.hash == ""
    && not (url.hostname == "")

abbrev pub or_default : Option String → String → String
or_default none text = text
or_default (some text) default = text

module _ (parse_url : String → Option Url) where
  abbrev pub clean_url : String → Result Url
  clean_url text = elim (parse_url text) [
    | none ↦ err "JUDGE_ENDPOINT_INVALID"
    | some url ↦ (do require (is_clean url) "JUDGE_ENDPOINT_INVALID"; ok url)
  ]

  -- `parseJudgeEndpoint`
  unfoldable pub parse_endpoint : String → Result Url
  unfolding has_control
  parse_endpoint text = do
    bounded_text (string text) 1024 false
    require (not (has_control text)) "JUDGE_ENDPOINT_INVALID"
    clean_url text

  -- `checkJudgeKeyTarget`
  unfoldable pub check_target : Source → Option String → Result (Unit {0})
  unfolding parse_endpoint
  check_target env endpoint = ok tt
  check_target vault endpoint = do
    url ← parse_endpoint (or_default endpoint system_one_url)
    own ← parse_endpoint system_one_url
    require (url.text == own.text) "JUDGE_VAULT_ENDPOINT_MISMATCH"
