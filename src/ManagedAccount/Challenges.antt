-- ===== src/ManagedAccount/Challenges.antt =====
-- src/managed-account.ts: `parseChallenge` and `loginUrl`. The parser of URLs is a parameter.
use agentmixer.Prelude.{ℕ, suc, String, ◌==◌, Bool, ◌&&◌, Option, none, some, List, [], ◌∷◌, ltb}
use agentmixer.Prelude.Result.{Result, ok, err, require, ◌>>=◌, ◌>>◌}
use agentmixer.Validation.Data.{Value, Attr, Fields, end, field, get, is_string}
use agentmixer.ToolBroker.Paths.{Url}
use agentmixer.ManagedAccount.Data.{
  Method, provider_native, browser_session, Challenge, native_challenge, browser_challenge,
}
use agentmixer.ManagedAccount.Parsing.{record_of, clean_text, session_fields, session_binding}

module _ (is_control : ℕ → Bool) where
  -- the own keys of a challenge's fields, in their order, with `count` of them taken
  unfoldable pub challenge_fields : Fields → (count : ℕ) → Result (List (String × String))
  unfolding clean_text
  challenge_fields end count = ok []
  challenge_fields (field key Attr.symbolic value rest) count = err "INVALID_LOGIN_CHALLENGE"
  challenge_fields (field key attr value rest) count =
      let taken = challenge_fields rest (suc count) in
      do
        require (ltb count 16) "INVALID_LOGIN_CHALLENGE"
        text ← clean_text is_control value 8192
        others ← taken
        ok ((key, text) ∷ others)

module _ (is_control : ℕ → Bool) (parse_url : String → Option Url) where
  abbrev parsed_url : String → Result Url
  parsed_url text = elim (parse_url text) [ none ↦ err "ERR_INVALID_URL" | some url ↦ ok url ]

  -- `loginUrl`
  unfoldable pub login_url : Value → Result String
  unfolding clean_text
  login_url value = do
    text ← clean_text is_control value 8192
    url ← parsed_url text
    require (url.protocol == "https:" && url.username == "" && url.password == "" && url.port == "")
        "INVALID_LOGIN_URL"
    ok text

  abbrev method_challenge : Fields → String → Method → Result Challenge
  method_challenge challenge login_id (provider_native method) = do
    require (is_string (get challenge "type") "provider-native") "UNEXPECTED_LOGIN_METHOD"
    name ← clean_text is_control (get challenge "method") 64
    require (name == method) "UNEXPECTED_LOGIN_METHOD"
    raw ← record_of (get challenge "fields")
    fields ← challenge_fields is_control raw 0
    ok (native_challenge name login_id fields)
  method_challenge challenge login_id (browser_session session) = do
    require (is_string (get challenge "type") "browser-session") "UNEXPECTED_LOGIN_METHOD"
    bound ← session_fields "INVALID_LOGIN_CHALLENGE" (get challenge "session")
    given ← session_binding bound
    url ← login_url (get challenge "navigationUrl")
    ok (browser_challenge login_id given url)

  -- `parseChallenge`
  unfoldable pub parse_challenge : Value → Method → Result Challenge
  unfolding clean_text session_binding record_of challenge_fields login_url
  parse_challenge value method = do
    challenge ← record_of value
    login_id ← clean_text is_control (get challenge "loginId") 160
    method_challenge challenge login_id method
