-- ===== src/Capabilities/Json.antt =====
-- src/capabilities.ts: `snapshot`, the bounded copy of JSON data. The text that `JSON.stringify`
-- makes of a number and of a string are parameters. The levels that are left bound the recursion.
use Prim.Native.Char.{code}
use agentmixer.Prelude.{
  ℕ, zero, suc, ◌+◌, ◌-◌, String, Bool, true, false, not, ◌&&◌, List, [], ◌∷◌, nat_eq, ltb, leb,
  any, length, if◌then◌else◌,
}
use agentmixer.Prelude.Result.{Result}
use agentmixer.Prelude.Exec.{Exec, ◌>>=◌, ◌>>◌, pure, throw, assert, modify, get_state}
use Prim.Native.String.{◌++◌}
use agentmixer.Validation.Data.{
  Value, undefined, null, boolean, number, string, array, object, opaque, Number, finite, Proto,
  plain, exotic, Attr, enumerable, Items, nil, hole, item, Fields, end, field,
}
use agentmixer.Validation.{byte_length}

-- `CAPABILITY_LIMITS`
abbrev pub max_depth : ℕ
max_depth = 16

abbrev pub max_nodes : ℕ
max_nodes = 8192

abbrev pub max_object_keys : ℕ
max_object_keys = 256

abbrev pub max_array_items : ℕ
max_array_items = 4096

-- the counts of nodes and bytes so far
pub record Budget : Type 0 where
  pub nodes : ℕ
  pub bytes : ℕ

-- `Snapshot`
pub record Snapshot : Type 0 where
  pub value : Value
  pub text : String

-- `add`
unfoldable pub add : ℕ → String → Exec Budget String
add maximum text = do
  modify (λ budget. record budget { bytes = budget.bytes + byte_length text })
  budget ← get_state
  assert (leb budget.bytes maximum) "CAPABILITY_JSON_LIMIT"
  pure text

-- `++nodes`
unfoldable pub count_node : Exec Budget (Unit {0})
count_node = do
  modify (λ budget. record budget { nodes = budget.nodes + 1 })
  budget ← get_state
  assert (leb budget.nodes max_nodes) "CAPABILITY_JSON_LIMIT"

-- The place of a character in the order of UTF-16: a pair of surrogates stands before U+E000.
abbrev utf16_place : ℕ → ℕ
utf16_place c =
    if leb 0x10000 c then (c - 0x10000) + 0xd800 else if leb 0xe000 c then c + 0x110000 else c

-- the order of `Array.prototype.sort` on text
unfoldable pub is_before : String → String → Bool
is_before String.[] t = true
is_before (String.◌∷◌ c s) String.[] = false
is_before (String.◌∷◌ c s) (String.◌∷◌ d t) =
    let rest = is_before s t in
    if ltb (utf16_place (code c)) (utf16_place (code d))
    then true
    else if nat_eq (utf16_place (code c)) (utf16_place (code d))
    then rest
    else false

pub record Property : Type 0 where
  pub key : String
  pub attr : Attr
  pub value : Value

unfoldable pub properties : Fields → List Property
properties end = []
properties (field k a v fs) = record { key = k; attr = a; value = v } ∷ properties fs

unfoldable pub insert : Property → List Property → List Property
insert p [] = p ∷ []
insert p (q ∷ qs) = let rest = insert p qs in if is_before p.key q.key then p ∷ q ∷ qs else q ∷ rest

unfoldable pub sorted : List Property → List Property
sorted [] = []
sorted (p ∷ ps) = insert p (sorted ps)

abbrev pub is_symbolic : Property → Bool
is_symbolic p = elim p.attr [ Attr.symbolic ↦ true | _ ↦ false ]

abbrev pub is_data : Attr → Bool
is_data Attr.enumerable = true
is_data _ = false

-- `value.length`
unfoldable pub item_count : Items → ℕ
item_count nil = 0
item_count (hole rest) = suc (item_count rest)
item_count (item a v rest) = suc (item_count rest)

-- `keys.length - 1` of an array without other keys
unfoldable pub index_count : Items → ℕ
index_count nil = 0
index_count (hole rest) = index_count rest
index_count (item a v rest) = suc (index_count rest)

-- `Object.is(value, -0) ? 0 : value`
abbrev without_negative_zero : Number → Number
without_negative_zero (finite negative mantissa shift) =
    if nat_eq mantissa 0 then finite false 0 0 else finite negative mantissa shift
without_negative_zero n = n

abbrev is_finite : Number → Bool
is_finite (finite negative mantissa shift) = true
is_finite _ = false

-- a comma before all but the first
abbrev pub add_comma : ℕ → Bool → Exec Budget (Unit {0})
add_comma maximum true = pure tt
add_comma maximum false = do add maximum ","; pure tt

abbrev pub comma_text : Bool → String → String
comma_text true text = text
comma_text false text = "," ++ text

module _ (quote : String → String) (show_number : Number → String) (maximum : ℕ) where
  -- the elements of an array, and their texts after one another
  unfoldable pub visit_items :
      (Value → Exec Budget Snapshot) → (first : Bool) → Items → Exec Budget (Items × String)
  unfolding add
  visit_items visit first nil = pure (nil, "")
  visit_items visit first (hole rest) = throw "CAPABILITY_JSON_INVALID"
  visit_items visit first (item a v rest) = do
    assert (is_data a) "CAPABILITY_JSON_INVALID"
    add_comma maximum first
    next ← visit v
    others ← visit_items visit false rest
    pure (item enumerable next.value others.0, comma_text first next.text ++ others.1)

  -- the properties of an object in the order of their keys
  unfoldable pub visit_fields :
      (Value → Exec Budget Snapshot)
      → (first : Bool) → List Property
      → Exec Budget (Fields × String)
  unfolding add
  visit_fields visit first [] = pure (end, "")
  visit_fields visit first (p ∷ ps) = do
    assert (is_data p.attr) "CAPABILITY_JSON_INVALID"
    assert (leb (byte_length p.key) 1024) "CAPABILITY_JSON_LIMIT"
    add_comma maximum first
    encoded ← add maximum (quote p.key)
    add maximum ":"
    next ← visit p.value
    others ← visit_fields visit false ps
    pure (
      field p.key enumerable next.value others.0,
      comma_text first (encoded ++ (":" ++ next.text)) ++ others.1,
    )

  unfoldable pub visit_array : (Value → Exec Budget Snapshot) → Proto → Items → Exec Budget Snapshot
  unfolding visit_items add
  visit_array visit exotic values = throw "CAPABILITY_JSON_INVALID"
  visit_array visit plain values = do
    assert
        (leb (item_count values) max_array_items && nat_eq (index_count values) (item_count values))
        "CAPABILITY_JSON_LIMIT"
    add maximum "["
    copy ← visit_items visit true values
    add maximum "]"
    pure (record { value = array plain copy.0; text = "[" ++ (copy.1 ++ "]") })

  unfoldable pub visit_object :
      (Value → Exec Budget Snapshot) → Proto → Fields → Exec Budget Snapshot
  unfolding visit_fields add
  visit_object visit exotic fields = throw "CAPABILITY_JSON_INVALID"
  visit_object visit plain fields =
      let own = properties fields in
      do
        assert (not (any is_symbolic own)) "CAPABILITY_JSON_INVALID"
        assert (leb (length own) max_object_keys) "CAPABILITY_JSON_LIMIT"
        add maximum "{"
        copy ← visit_fields visit true (sorted own)
        add maximum "}"
        pure (record { value = object plain copy.0; text = "{" ++ (copy.1 ++ "}") })

  -- a value whose text is given at once
  unfoldable pub leaf : Value → String → Exec Budget Snapshot
  unfolding add
  leaf value text = do written ← add maximum text; pure (record { value = value; text = written })

  -- what `visit` does with a value by its type
  unfoldable pub visit_value : (Value → Exec Budget Snapshot) → Value → Exec Budget Snapshot
  unfolding visit_array visit_object leaf
  visit_value visit null = leaf null "null"
  visit_value visit (boolean true) = leaf (boolean true) "true"
  visit_value visit (boolean false) = leaf (boolean false) "false"
  visit_value visit (number n) =
      if is_finite n
      then leaf (number (without_negative_zero n)) (show_number n)
      else throw "CAPABILITY_JSON_INVALID"
  visit_value visit (string s) =
      if leb (byte_length s) maximum
      then leaf (string s) (quote s)
      else throw "CAPABILITY_JSON_LIMIT"
  visit_value visit (array p values) = visit_array visit p values
  visit_value visit (object p fields) = visit_object visit p fields
  visit_value visit undefined = throw "CAPABILITY_JSON_INVALID"
  visit_value visit opaque = throw "CAPABILITY_JSON_INVALID"

  -- `visit`, with the levels that are left below `CAPABILITY_LIMITS.depth`
  unfoldable pub visit : ℕ → Value → Exec Budget Snapshot
  unfolding visit_value count_node
  visit zero value = throw "CAPABILITY_JSON_LIMIT"
  visit (suc levels) value = do count_node; visit_value (visit levels) value

  unfoldable pub snapshot : Value → Result Snapshot
  unfolding visit
  snapshot input = (visit (suc max_depth) input (record { nodes = 0; bytes = 0 })).0
