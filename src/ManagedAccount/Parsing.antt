-- ===== src/ManagedAccount/Parsing.antt =====
-- src/managed-account.ts: the checks on values of unknown type. Which characters Unicode calls
-- controls, formats or surrogates, and the parser of URLs, are parameters.
use Prim.Native.Char.{code}
use agentmixer.Prelude.{
  ℕ, String, ◌==◌, Bool, true, false, not, ◌&&◌, ◌||◌, Option, none, some, if◌then◌else◌,
}
use agentmixer.Prelude.Result.{Result, ok, err, require, ◌>>=◌, ◌>>◌}
use agentmixer.Validation.Data.{
  Value, undefined, string, array, object, Fields, end, get, is_string, is_nullish,
}
use agentmixer.Validation.{bounded_text, identifier, provider, safe_integer, max_safe_integer}
use agentmixer.Validation.Laws.{provider_name}
use agentmixer.ManagedAccount.Data.{
  AccountState, signed_out, signing_in, signed_in, unavailable, Binding, Method, provider_native,
  browser_session, Settings,
}

-- `record`
unfoldable pub record_of : Value → Result Fields
record_of (object proto fields) = ok fields
record_of _ = err "INVALID_MANAGED_RESPONSE"

-- `session === null || typeof session !== "object"`
abbrev pub session_fields : String → Value → Result Fields
session_fields code (object proto fields) = ok fields
session_fields code (array proto items) = ok end
session_fields code _ = err code

-- the session of a method or of a challenge, checked field by field
unfoldable pub session_binding : Fields → Result Binding
session_binding bound = do
  p ← provider (get bound "provider")
  account_id ← identifier (get bound "accountId")
  owner ← identifier (get bound "owner")
  lease_generation ← safe_integer (get bound "leaseGeneration") 1 max_safe_integer
  process_generation ← safe_integer (get bound "processGeneration") 1 max_safe_integer
  ok (record {
    provider = p;
    account_id = account_id;
    owner = owner;
    lease_generation = lease_generation;
    process_generation = process_generation;
  })

abbrev pub is_own_session : Settings → Fields → Bool
is_own_session settings bound =
    is_string (get bound "provider") (provider_name settings.provider)
    && is_string (get bound "accountId") settings.account_id
    && is_string (get bound "owner") settings.owner

-- `state` of a projection
unfoldable pub projected_state : Value → Result AccountState
projected_state (string s) =
    if s == "signed-out"
    then ok signed_out
    else if s == "signing-in"
    then ok signing_in
    else if s == "signed-in"
    then ok signed_in
    else if s == "unavailable"
    then ok unavailable
    else err "INVALID_ACCOUNT_PROJECTION"
projected_state _ = err "INVALID_ACCOUNT_PROJECTION"

module _ (is_control : ℕ → Bool) where
  unfoldable pub has_control : String → Bool
  has_control String.[] = false
  has_control (String.◌∷◌ c s) = is_control (code c) || has_control s

  -- `cleanText`
  unfoldable pub clean_text : Value → ℕ → Result String
  unfolding has_control
  clean_text value max = do
    text ← bounded_text value max false
    require (not (has_control text)) "INVALID_MANAGED_TEXT"
    ok text

  abbrev text_unless : Bool → Value → ℕ → Result (Option String)
  text_unless true value max = ok none
  text_unless false value max = do text ← clean_text value max; ok (some text)

  abbrev is_undefined : Value → Bool
  is_undefined undefined = true
  is_undefined _ = false

  -- a text that may be undefined, and one that may be null too
  abbrev pub optional_text : Value → ℕ → Result (Option String)
  optional_text value max = text_unless (is_undefined value) value max

  abbrev pub nullable_text : Value → ℕ → Result (Option String)
  nullable_text value max = text_unless (is_nullish value) value max

  abbrev pub native_method : Fields → Result Method
  native_method fields = do
    method ← clean_text (get fields "method") 64
    ok (provider_native method)

  abbrev pub session_method : Settings → Fields → Result Method
  session_method settings fields = do
    bound ← session_fields "MANAGED_ACCOUNT_SESSION_INVALID" (get fields "session")
    require (is_own_session settings bound) "MANAGED_ACCOUNT_SESSION_MISMATCH"
    session ← session_binding bound
    ok (browser_session session)

  -- `methodOf`
  unfoldable pub method_of : Settings → Value → Result Method
  unfolding clean_text session_binding record_of
  method_of settings raw = do
    fields ← record_of raw
    if is_string (get fields "type") "provider-native"
        then native_method fields
        else if is_string (get fields "type") "browser-session"
        then session_method settings fields
        else err "MANAGED_ACCOUNT_METHOD_INVALID"
