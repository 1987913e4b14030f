-- ===== src/Models/Catalog.antt =====
-- src/models.ts: `selectClassifierModel`. The order of text of `localeCompare` is a parameter. The
-- products and the sum of a cost are rounded to doubles; no price is large enough for an infinity.
use agentmixer.Prelude.{
  ℕ, suc, ◌-◌, ◌+◌, ◌*◌, ◌/◌, ◌%◌, ◌^◌, zero, String, Bool, false, not, ◌&&◌, ◌||◌, List, [], ◌∷◌,
  includes, leb, ltb, nat_eq, if◌then◌else◌,
}
use agentmixer.Prelude.Result.{Result, ok, err, require, ◌>>=◌, ◌>>◌}
use agentmixer.Validation.Data.{
  Value, undefined, boolean, number, array, get, Number, finite, Items, nil, hole, item,
}
use agentmixer.Validation.{as_object, bounded_text, provider, safe_integer, max_safe_integer}

-- `ModelEntry`
pub record Entry : Type 0 where
  pub id : String
  pub input : Number
  pub output : Number
  pub is_structured : Bool
  pub is_available : Bool
  pub is_classifier : Bool

abbrev pub entry_keys : List String
entry_keys =
    "id" ∷ "inputUsdPerMillion" ∷ "outputUsdPerMillion" ∷ "supportsStructuredOutput" ∷ "available"
    ∷ "classifierEligible" ∷ []

-- a finite number from 0 to a million, where -0 is 0
abbrev pub is_price : Number → Bool
is_price (finite negative mantissa shift) =
    not (negative && not (nat_eq mantissa 0)) && leb mantissa (1000000 * 2 ^ shift)
is_price _ = false

abbrev pub price : Value → Result Number
price (number n) = if is_price n then ok n else err "INVALID_MODEL_PRICE"
price _ = err "INVALID_MODEL_PRICE"

abbrev pub capability : Value → Result Bool
capability (boolean b) = ok b
capability _ = err "INVALID_MODEL_CAPABILITY"

-- the body of the loop over the models, up to the test for eligibility
unfoldable pub parse_entry : (seen : List String) → Value → Result Entry
parse_entry seen raw = do
  fields ← as_object raw entry_keys
  id ← bounded_text (get fields "id") 160 false
  require (not (includes seen id)) "DUPLICATE_MODEL"
  input ← price (get fields "inputUsdPerMillion")
  output ← price (get fields "outputUsdPerMillion")
  structured ← capability (get fields "supportsStructuredOutput")
  available ← capability (get fields "available")
  classifier ← capability (get fields "classifierEligible")
  ok (record {
    id = id;
    input = input;
    output = output;
    is_structured = structured;
    is_available = available;
    is_classifier = classifier;
  })

-- the loop, where a hole is undefined
unfoldable pub read_entries : (seen : List String) → Items → Result (List Entry)
unfolding parse_entry
read_entries seen nil = ok []
read_entries seen (hole items) = err "INVALID_OBJECT"
read_entries seen (item attr v items) = do
  entry ← parse_entry seen v
  rest ← read_entries (entry.id ∷ seen) items
  ok (entry ∷ rest)

abbrev pub is_eligible : Entry → Bool
is_eligible e = e.is_structured && e.is_available && e.is_classifier

unfoldable pub eligible_entries : List Entry → List Entry
eligible_entries [] = []
eligible_entries (e ∷ entries) =
    let rest = eligible_entries entries in if is_eligible e then e ∷ rest else rest

-- `length`
unfoldable pub item_count : Items → ℕ
item_count nil = 0
item_count (hole items) = suc (item_count items)
item_count (item attr v items) = suc (item_count items)

abbrev pub catalog_items : Value → Result Items
catalog_items (array proto items) =
    if leb (item_count items) 256 then ok items else err "INVALID_MODEL_CATALOG"
catalog_items _ = err "INVALID_MODEL_CATALOG"

-- `maxAgeMs`, a day if it is not given
abbrev pub max_age_of : Value → Result ℕ
max_age_of undefined = ok 86400000
max_age_of v = safe_integer v 1 86400000

-- the entries of a catalog that is fresh
unfoldable pub catalog_entries : (value now max_age : Value) → Result (List Entry)
unfolding read_entries item_count
catalog_entries value now max_age = do
  catalog ← as_object value ("provider" ∷ "observedAt" ∷ "models" ∷ [])
  provider (get catalog "provider")
  n ← safe_integer now 0 max_safe_integer
  age ← max_age_of max_age
  observed ← safe_integer (get catalog "observedAt") 0 n
  require (leb (n - observed) age) "MODEL_CATALOG_STALE"
  items ← catalog_items (get catalog "models")
  read_entries [] items

abbrev pub first : List Entry → Result Entry
first [] = err "NO_CLASSIFIER_MODEL"
first (e ∷ entries) = ok e

-- Doubles that are not negative are counted in units of the least positive one, which is 1 / 2 ^ 1074.
unfoldable pub units : Number → ℕ
units (finite negative mantissa shift) = mantissa * 2 ^ 1074 / 2 ^ shift
units _ = 0

-- the distance of the doubles around a number, if that is at most 2 ^ places
unfoldable pub spacing : (places : ℕ) → ℕ → ℕ
spacing zero x = 1
spacing (suc places) x = let half = spacing places (x / 2) in if ltb x (2 ^ 53) then 1 else 2 * half

abbrev pub round_to : (step : ℕ) → ℕ → ℕ
round_to step x =
    let q = x / step in
    let r = x % step in
    if ltb (2 * r) step
    then q * step
    else if ltb step (2 * r)
    then (q + 1) * step
    else (q + q % 2) * step

-- the nearest double, an even one if there are two; a number of units below 2 ^ 1153 needs no more
-- places
unfoldable pub nearest : ℕ → ℕ
unfolding spacing
nearest x = round_to (spacing 1100 x) x

-- the double that the workload of 2000 tokens of input and 128 of output costs
unfoldable pub cost : Entry → ℕ
cost e = nearest (nearest (units e.input * 2000) + nearest (units e.output * 128))

module _ (locale_before : String → String → Bool) where
  -- does the comparison of the sort put the first before the second?
  abbrev pub is_before : Entry → Entry → Bool
  is_before a b = ltb (cost a) (cost b) || (nat_eq (cost a) (cost b) && locale_before a.id b.id)

  -- an insertion that keeps the order of what compares as equal
  unfoldable pub insert : Entry → List Entry → List Entry
  insert e [] = e ∷ []
  insert e (x ∷ xs) = let rest = insert e xs in if is_before x e then x ∷ rest else e ∷ x ∷ xs

  unfoldable pub sort : List Entry → List Entry
  unfolding insert
  sort [] = []
  sort (e ∷ entries) = insert e (sort entries)

  -- `selectClassifierModel`
  unfoldable pub select_model : (value now max_age : Value) → Result Entry
  unfolding sort eligible_entries catalog_entries
  select_model value now max_age = do
    entries ← catalog_entries value now max_age
    first (sort (eligible_entries entries))
