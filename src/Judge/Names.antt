-- ===== src/Judge/Names.antt =====
-- src/judge.ts: names, numbers and the `in` of records.
use Prim.Native.Char.{code}
use agentmixer.Prelude.{
  ℕ, zero, suc, ◌*◌, ◌/◌, ◌%◌, ◌^◌, String, Bool, true, false, not, ◌&&◌, ◌||◌, List, [], ◌∷◌,
  includes, leb, ltb, nat_eq, if◌then◌else◌,
}
use agentmixer.Prelude.Result.{Result, ok, err}
use agentmixer.Validation.Data.{
  Value, number, string, array, object, Attr, Number, finite, Fields, end, field, Items, nil, hole,
  item,
}
use agentmixer.Validation.{byte_length, is_alphanumeric}

-- `[A-Za-z0-9_.\[\]-]*`
unfoldable pub is_name_tail : String → Bool
is_name_tail String.[] = true
is_name_tail (String.◌∷◌ ch s) =
    let c = code ch in
    (is_alphanumeric c
      || nat_eq c b'_'
      || nat_eq c b'.'
      || nat_eq c 0x5b
      || nat_eq c 0x5d
      || nat_eq c b'-')
    && is_name_tail s

-- `NAME`
unfoldable pub is_name : String → Bool
unfolding is_name_tail
is_name String.[] = false
is_name (String.◌∷◌ c s) = is_alphanumeric (code c) && is_name_tail s

abbrev max_name_bytes : ℕ
max_name_bytes = 160

-- `checkName`
unfoldable pub check_name : String → Result String
unfolding is_name
check_name name =
    if is_name name && leb (byte_length name) max_name_bytes
    then ok name
    else err "JUDGE_NAME_INVALID"

-- `finite`
unfoldable pub finite_of : Value → Result Number
finite_of (number (finite negative mantissa shift)) = ok (finite negative mantissa shift)
finite_of _ = err "JUDGE_ANSWER_MALFORMED"

-- a finite number from `0` to `n`, where -0 is 0
abbrev pub is_within : ℕ → Number → Bool
is_within n (finite negative mantissa shift) =
    not (negative && not (nat_eq mantissa 0)) && leb mantissa (n * 2 ^ shift)
is_within n _ = false

abbrev pub in_unit : Number → Result Number
in_unit n = if is_within 1 n then ok n else err "JUDGE_ANSWER_RANGE"

-- `probability`
unfoldable pub probability : Value → Result Number
unfolding finite_of
probability value = elim (finite_of value) [ ok n ↦ in_unit n | err e ↦ err e ]

-- the prototype of a record: none, or `Object.prototype`
pub data Prototype : Type 0 where
  bare built_in : Prototype

-- the names that a record has from its prototype
abbrev pub inherited : Prototype → List String
inherited bare = []
inherited built_in =
    "constructor" ∷ "toString" ∷ "valueOf" ∷ "hasOwnProperty" ∷ "isPrototypeOf"
    ∷ "propertyIsEnumerable" ∷ "toLocaleString" ∷ "__proto__" ∷ "__defineGetter__"
    ∷ "__defineSetter__" ∷ "__lookupGetter__" ∷ "__lookupSetter__" ∷ []

-- `name in record`, for a record with those keys
abbrev pub is_in : Prototype → List String → String → Bool
is_in prototype names name = includes names name || includes (inherited prototype) name

unfoldable pub char_at : ℕ → String → String
char_at n String.[] = ""
char_at zero (String.◌∷◌ c s) = String.◌∷◌ c String.[]
char_at (suc n) (String.◌∷◌ c s) = char_at n s

abbrev digit : ℕ → String
digit n = char_at n "0123456789"

unfoldable pub join : String → String → String
join String.[] t = t
join (String.◌∷◌ c s) t = String.◌∷◌ c (join s t)

-- a number of at most that many digits, without zeros before it
unfoldable pub digits : (places : ℕ) → ℕ → String
unfolding char_at join
digits zero n = digit n
digits (suc places) n =
    let before = digits places (n / 10) in
    if ltb n 10 then digit n else join before (digit (n % 10))

-- the text of an index, which has at most ten digits
unfoldable pub index_name : ℕ → String
unfolding digits
index_name n = digits 9 n

-- the enumerable properties of an array, and of a text, from an index on
unfoldable pub item_fields : ℕ → Items → Fields
unfolding index_name
item_fields i nil = end
item_fields i (hole items) = item_fields (suc i) items
item_fields i (item attr v items) = field (index_name i) attr v (item_fields (suc i) items)

unfoldable pub char_fields : ℕ → String → Fields
unfolding index_name
char_fields i String.[] = end
char_fields i (String.◌∷◌ c s) =
    field (index_name i) Attr.enumerable (string (String.◌∷◌ c String.[])) (char_fields (suc i) s)

-- what `Object.keys` and a lookup see of a value
unfoldable pub properties : Value → Fields
unfolding item_fields char_fields
properties (object proto fields) = fields
properties (array proto items) = item_fields 0 items
properties (string s) = char_fields 0 s
properties _ = end
