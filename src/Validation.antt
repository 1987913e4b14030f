-- ===== src/Validation.antt =====
-- src/validation.ts: the checks that every boundary applies to a value of unknown type.
pub mod Data
pub mod Digest
pub mod Laws
use Prim.Native.Char.{Char, code}
use Prim.Native.String
use agentmixer.Prelude.{
  ℕ, ◌+◌, ◌-◌, ◌*◌, ◌^◌, ◌/◌, ◌%◌, String, Bool, true, false, not, ◌&&◌, ◌||◌, ltb, leb, nat_eq,
  if◌then◌else◌, any, includes, ◌==◌, List,
}
use agentmixer.Prelude.Result.{Result, ok, err, require, ◌>>=◌, ◌>>◌}
use agentmixer.Validation.Data.{
  Value, undefined, null, boolean, number, string, array, object, opaque, Number, finite, infinite,
  nan, Fields, Provider, codex, claude, devin, keys, get, provider_eq,
}

-- `object`: the record of fields of an object with no key but the given ones
unfoldable pub as_object : Value → List String → Result Fields
as_object (object proto fields) allowed =
    if any (λ key. not (includes allowed key)) (keys fields) then err "UNKNOWN_FIELD" else ok fields
as_object _ allowed = err "INVALID_OBJECT"

abbrev is_between : ℕ → ℕ → ℕ → Bool
is_between c lo hi = leb lo c && leb c hi

-- the characters that `trim` removes
unfoldable pub is_space : ℕ → Bool
is_space c =
    is_between c 9 13
    || nat_eq c 32
    || nat_eq c 0xa0
    || nat_eq c 0x1680
    || is_between c 0x2000 0x200a
    || is_between c 0x2028 0x2029
    || nat_eq c 0x202f
    || nat_eq c 0x205f
    || nat_eq c 0x3000
    || nat_eq c 0xfeff

-- `value.trim().length === 0`
unfoldable pub is_blank : String → Bool
unfolding is_space
is_blank String.[] = true
is_blank (String.◌∷◌ c s) = is_space (code c) && is_blank s

-- `value.includes("\0")`
unfoldable pub has_nul : String → Bool
has_nul String.[] = false
has_nul (String.◌∷◌ c s) = nat_eq (code c) 0 || has_nul s

-- the bytes of one code point in UTF-8
abbrev utf8_size : ℕ → ℕ
utf8_size c = if ltb c 0x80 then 1 else if ltb c 0x800 then 2 else if ltb c 0x10000 then 3 else 4

-- `new TextEncoder().encode(value).byteLength`
unfoldable pub byte_length : String → ℕ
byte_length String.[] = 0
byte_length (String.◌∷◌ c s) = utf8_size (code c) + byte_length s

-- `boundedText`; the flag `empty` admits blank text
unfoldable pub bounded_text : Value → ℕ → Bool → Result String
bounded_text (string s) max_bytes empty =
    if (not empty && is_blank s) || has_nul s || ltb max_bytes (byte_length s)
    then err "INVALID_TEXT"
    else ok s
bounded_text _ max_bytes empty = err "INVALID_TEXT"

unfoldable pub is_alphanumeric : ℕ → Bool
is_alphanumeric c = is_between c b'A' b'Z' || is_between c b'a' b'z' || is_between c b'0' b'9'

-- `[A-Za-z0-9_.:-]*`
is_identifier_tail : String → Bool
is_identifier_tail String.[] = true
is_identifier_tail (String.◌∷◌ ch s) =
    let c = code ch in
    (is_alphanumeric c || nat_eq c b'_' || nat_eq c b'.' || nat_eq c b':' || nat_eq c b'-')
    && is_identifier_tail s

-- `/^[A-Za-z0-9][A-Za-z0-9_.:-]*$/u`
unfoldable pub matches_identifier : String → Bool
unfolding is_alphanumeric is_identifier_tail
matches_identifier String.[] = false
matches_identifier (String.◌∷◌ c s) = is_alphanumeric (code c) && is_identifier_tail s

unfoldable pub identifier : Value → Result String
identifier value = do
  text ← bounded_text value 160 false
  require (matches_identifier text) "INVALID_IDENTIFIER"
  ok text

-- `Number.MAX_SAFE_INTEGER`
abbrev pub max_safe_integer : ℕ
max_safe_integer = 9007199254740991

-- `safeInteger`, whose lower bound is nowhere negative: a negative number is below it, and -0 is 0
unfoldable pub safe_integer : Value → ℕ → ℕ → Result ℕ
safe_integer (number (finite negative mantissa shift)) lo hi =
    let n = mantissa / 2 ^ shift in
    if not (nat_eq (mantissa % 2 ^ shift) 0)
      || ltb max_safe_integer n
      || (negative && not (nat_eq n 0))
      || ltb n lo
      || ltb hi n
    then err "INVALID_INTEGER"
    else ok n
safe_integer _ lo hi = err "INVALID_INTEGER"

unfoldable pub provider : Value → Result Provider
provider (string s) =
    if s == "codex"
    then ok codex
    else if s == "claude"
    then ok claude
    else if s == "devin"
    then ok devin
    else err "UNSUPPORTED_PROVIDER"
provider _ = err "UNSUPPORTED_PROVIDER"

-- Unfolds every check, for tests.
unfoldable pub checks : Unit {0}
unfolding as_object bounded_text is_blank has_nul byte_length identifier matches_identifier
    safe_integer provider keys get provider_eq
checks = tt
