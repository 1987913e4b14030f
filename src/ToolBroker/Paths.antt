-- ===== src/ToolBroker/Paths.antt =====
-- src/broker.ts: `relativeFile` and `publicHttpsUrl`. Which characters Unicode calls letters or
-- numbers, and the parser of URLs, are parameters.
use Prim.Native.Char.{Char, code}
use agentmixer.Prelude.{
  ℕ, suc, String, ◌==◌, Bool, true, false, not, ◌&&◌, ◌||◌, Option, none, some, List, [], ◌∷◌, all,
  length, nat_eq, leb, if◌then◌else◌,
}
use agentmixer.Prelude.Result.{Result, ok, err, require, ◌>>=◌, ◌>>◌}
use agentmixer.Validation.Data.{Value}
use agentmixer.Validation.{bounded_text}

abbrev with_char : Char → List String → List String
with_char c [] = String.◌∷◌ c String.[] ∷ []
with_char c (part ∷ parts) = String.◌∷◌ c part ∷ parts

-- `path.split("/")`
unfoldable pub parts : String → List String
parts String.[] = String.[] ∷ []
parts (String.◌∷◌ c s) =
    let rest = parts s in if nat_eq (code c) b'/' then String.[] ∷ rest else with_char c rest

unfoldable pub has_backslash : String → Bool
has_backslash String.[] = false
has_backslash (String.◌∷◌ c s) = nat_eq (code c) 0x5c || has_backslash s

unfoldable pub char_count : String → ℕ
char_count String.[] = 0
char_count (String.◌∷◌ c s) = suc (char_count s)

-- Does the text end with that character?
unfoldable pub ends_with : ℕ → String → Bool
ends_with d String.[] = false
ends_with d (String.◌∷◌ c String.[]) = nat_eq (code c) d
ends_with d (String.◌∷◌ c (String.◌∷◌ e s)) = ends_with d (String.◌∷◌ e s)

-- `URL`, as far as it is read
pub record Url : Type 0 where
  pub protocol : String
  pub username : String
  pub password : String
  pub port : String
  pub hash : String
  pub hostname : String
  pub href : String

module _ (is_letter : ℕ → Bool) where
  -- `[\p{L}\p{N} _.-]*`
  unfoldable pub is_part_tail : String → Bool
  is_part_tail String.[] = true
  is_part_tail (String.◌∷◌ c s) =
      (is_letter (code c)
        || nat_eq (code c) b' '
        || nat_eq (code c) b'_'
        || nat_eq (code c) b'.'
        || nat_eq (code c) b'-')
      && is_part_tail s

  -- the test on each part of a path
  unfoldable pub is_part : String → Bool
  unfolding is_part_tail char_count ends_with
  is_part String.[] = false
  is_part (String.◌∷◌ c s) =
      let part = String.◌∷◌ c s in
      is_letter (code c)
      && is_part_tail s
      && leb (char_count s) 127
      && not (part == ".")
      && not (part == "..")
      && not (ends_with b'.' part)
      && not (ends_with b' ' part)

  unfoldable pub relative_file : Value → Result String
  unfolding is_part parts has_backslash
  relative_file value = do
    path ← bounded_text value 1024 false
    require (leb (length (parts path)) 8 && not (has_backslash path) && all is_part (parts path))
        "PATH_OUTSIDE_WORKSPACE"
    ok path

-- `hostname.includes(".")`
unfoldable pub has_dot : String → Bool
has_dot String.[] = false
has_dot (String.◌∷◌ c s) = nat_eq (code c) b'.' || has_dot s

-- Does the text end with that suffix?
unfoldable pub has_suffix : String → String → Bool
has_suffix suffix String.[] = suffix == ""
has_suffix suffix (String.◌∷◌ c s) = (String.◌∷◌ c s) == suffix || has_suffix suffix s

-- `/^[\d.]+$/u`
unfoldable pub is_dotted_number : String → Bool
is_dotted_number String.[] = true
is_dotted_number (String.◌∷◌ c s) =
    ((leb b'0' (code c) && leb (code c) b'9') || nat_eq (code c) b'.') && is_dotted_number s

unfoldable pub opens_bracket : String → Bool
opens_bracket String.[] = false
opens_bracket (String.◌∷◌ c s) = nat_eq (code c) b'['

-- the host names that are refused: `hostname` is in lower case
unfoldable pub is_public_host : String → Bool
unfolding has_dot has_suffix is_dotted_number opens_bracket
is_public_host h =
    has_dot h
    && not (has_suffix "." h)
    && not (has_suffix ".localhost" h)
    && not (has_suffix ".local" h)
    && not (is_dotted_number h)
    && not (opens_bracket h)

module _ (parse_url : String → Option Url) (lower : String → String) where
  abbrev parsed_url : String → Result Url
  parsed_url text = elim (parse_url text) [ none ↦ err "ERR_INVALID_URL" | some url ↦ ok url ]

  unfoldable pub public_https_url : Value → Result String
  unfolding is_public_host
  public_https_url value = do
    text ← bounded_text value 8192 false
    url ← parsed_url text
    require
        (url.protocol == "https:"
          && url.username == ""
          && url.password == ""
          && (url.port == "" || url.port == "443")
          && url.hash == ""
          && is_public_host (lower url.hostname))
        "PUBLIC_HTTPS_REQUIRED"
    ok url.href
