-- ===== src/Validation/Data.antt =====
-- The values of unknown type that reach the program, as the checks see them: JSON-like data with
-- property attributes. A number is the dyadic rational that a double is. Text holds whole code
-- points. Cyclic structures are outside the model.
use agentmixer.Prelude.{
  ◌≡◌, ◌↔◌, arith, ℕ, String, Bool, true, false, List, [], ◌∷◌, ◌==◌, if◌then◌else◌,
}

-- ± mantissa / 2 ^ shift
pub data Number : Type 0 where
  finite : (negative : Bool) (mantissa shift : ℕ) → Number
  infinite : (negative : Bool) → Number
  nan : Number

-- Does an array or an object have the built-in prototype (or, for an object, none)?
pub data Proto : Type 0 where
  plain exotic : Proto

-- An own property: an enumerable data property, an enumerable accessor, one that is not enumerable,
-- or one whose key is a symbol.
pub data Attr : Type 0 where
  enumerable accessor hidden symbolic : Attr

mutual
  pub data Value : Type 0 where
    undefined : Value
    null : Value
    boolean : Bool → Value
    number : Number → Value
    string : String → Value
    array : Proto → Items → Value
    object : Proto → Fields → Value
    -- a function, a symbol or a big integer
    opaque : Value

  pub data Items : Type 0 where
    nil : Items
    hole : Items → Items
    item : Attr → Value → Items → Items

  pub data Fields : Type 0 where
    end : Fields
    field : String → Attr → Value → Fields → Fields

-- `Object.keys`
unfoldable pub keys : Fields → List String
keys end = []
keys (field k Attr.enumerable v fs) = k ∷ keys fs
keys (field k Attr.accessor v fs) = k ∷ keys fs
keys (field k Attr.hidden v fs) = keys fs
keys (field k Attr.symbolic v fs) = keys fs

-- `record[key]`: the value of the own property with that text for a key, else `undefined`
unfoldable pub get : Fields → String → Value
get end key = undefined
get (field k Attr.symbolic v fs) key = get fs key
get (field k Attr.enumerable v fs) key = if k == key then v else get fs key
get (field k Attr.accessor v fs) key = if k == key then v else get fs key
get (field k Attr.hidden v fs) key = if k == key then v else get fs key

-- a whole number as a value
abbrev pub nat : ℕ → Value
nat n = number (finite false n 0)

-- `value == null`
abbrev pub is_nullish : Value → Bool
is_nullish undefined = true
is_nullish null = true
is_nullish _ = false

-- `value === text`
abbrev pub is_string : Value → String → Bool
is_string (string s) t = s == t
is_string _ t = false

-- `value === flag`
abbrev pub is_boolean : Value → Bool → Bool
is_boolean (boolean true) b = b
is_boolean (boolean false) true = false
is_boolean (boolean false) false = true
is_boolean _ b = false

pub data Provider : Type 0 where
  codex claude devin : Provider

pub Provider-discrete : Discrete Provider
Provider-discrete = hlevel

unfoldable pub provider_eq : Provider → Provider → Bool
provider_eq codex codex = true
provider_eq claude claude = true
provider_eq devin devin = true
provider_eq _ _ = false

pub provider_eq_iff : (p q : Provider) → (provider_eq p q ≡ true) ↔ (p ≡ q)
unfolding provider_eq
provider_eq_iff p q = ground arith
