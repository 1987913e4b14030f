-- ===== src/Validation/Laws.antt =====
-- What a value that passes the checks of src/validation.ts is known to be.
use agentmixer.Prelude.{ℕ, ◌≤◌, String, ◌≡◌, refl, ap, arith, eq_iff, true, false}
use agentmixer.Prelude.Result.{ok}
use agentmixer.Validation.Data.{Value, boolean, string, nat, Provider, is_string, is_boolean}
use agentmixer.Validation.{bounded_text, identifier, safe_integer, provider, max_safe_integer}

pub identifier_lem : (v : Value) (s : String) → identifier v ≡ ok s → v ≡ string s
unfolding identifier bounded_text
identifier_lem v s h = ground arith

-- What `identifier` lets through is text that it lets through again.
pub identifier_again : (v : Value) (s : String) → identifier v ≡ ok s → identifier (string s) ≡ ok s
identifier_again v s h = ground (arith, identifier_lem v s)

pub safe_integer_bounds :
    (v : Value) (lo hi n : ℕ)
    → safe_integer v lo hi ≡ ok n
    → (lo ≤ n) × (n ≤ hi) × (n ≤ max_safe_integer)
unfolding safe_integer
safe_integer_bounds v lo hi n h = ground arith

pub safe_integer-nat :
    (n lo hi : ℕ) → lo ≤ n → n ≤ hi → n ≤ max_safe_integer → safe_integer (nat n) lo hi ≡ ok n
unfolding safe_integer
safe_integer-nat n lo hi p q r = ground arith

pub safe_integer-nat_value : (n lo hi m : ℕ) → safe_integer (nat n) lo hi ≡ ok m → n ≡ m
unfolding safe_integer
safe_integer-nat_value n lo hi m h = ground arith

-- the text of a provider
abbrev pub provider_name : Provider → String
provider_name Provider.codex = "codex"
provider_name Provider.claude = "claude"
provider_name Provider.devin = "devin"

pub provider-provider_name : (p : Provider) → provider (string (provider_name p)) ≡ ok p
unfolding provider
provider-provider_name Provider.codex = refl
provider-provider_name Provider.claude = refl
provider-provider_name Provider.devin = refl

pub is_string_lem : (v : Value) (s : String) → is_string v s ≡ true → v ≡ string s
is_string_lem (string t) s h = ap string ((eq_iff t s).0 h)
is_string_lem _ s h = cc

pub is_boolean_lem : (v : Value) → is_boolean v true ≡ true → v ≡ boolean true
is_boolean_lem (boolean true) h = refl
is_boolean_lem (boolean false) h = cc
is_boolean_lem _ h = cc
