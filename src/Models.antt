-- ===== src/Models.antt =====
-- src/models.ts: `parseClassification`. `JSON.parse` is a parameter. `selectClassifierModel` is in
-- Catalog.
pub mod Catalog
pub mod Selection
pub mod Decisions
pub mod Tests
use agentmixer.Prelude.{
  ℕ, ◌^◌, String, ◌==◌, Bool, true, false, not, ◌&&◌, ◌||◌, List, [], ◌∷◌, includes, leb, nat_eq,
  if◌then◌else◌,
}
use agentmixer.Prelude.Result.{Result, ok, err, require, ◌>>=◌, ◌>>◌}
use agentmixer.Validation.Data.{
  Value, undefined, null, boolean, number, string, array, object, opaque, get, Number, finite,
  infinite, nan,
}
use agentmixer.Validation.{as_object, bounded_text}

-- `Classification`
pub record Classification : Type 0 where
  pub respond : Bool
  pub confidence : Number
  pub reason : String

abbrev pub classification_keys : List String
classification_keys = "respond" ∷ "confidence" ∷ "reason" ∷ []

abbrev pub reasons : List String
reasons = "requested" ∷ "helpful" ∷ "human_active" ∷ "not_needed" ∷ "uncertain" ∷ []

-- `Number.isFinite(n) && n >= 0 && n <= 1`, where -0 is 0
abbrev pub is_fraction : Number → Bool
is_fraction (finite negative mantissa shift) =
    not (negative && not (nat_eq mantissa 0)) && leb mantissa (2 ^ shift)
is_fraction (infinite negative) = false
is_fraction nan = false

unfoldable pub decision : Value → Value → Result (Bool × Number)
decision (boolean respond) (number confidence) =
    if is_fraction confidence then ok (respond, confidence) else err "INVALID_CLASSIFICATION"
decision _ _ = err "INVALID_CLASSIFICATION"

unfoldable pub reason_of : Value → Result String
reason_of (string s) = if includes reasons s then ok s else err "INVALID_CLASSIFICATION_REASON"
reason_of _ = err "INVALID_CLASSIFICATION_REASON"

-- the reasons of a decision to respond
abbrev pub agrees : Bool → String → Bool
agrees respond reason = not respond || reason == "requested" || reason == "helpful"

module _ (parse_json : String → Result Value) where
  abbrev pub parsed_text : Result String → Result Value
  parsed_text (ok text) = parse_json text
  parsed_text (err e) = err e

  -- text is read as JSON, any other value is taken as it is
  unfoldable pub decoded : Value → Result Value
  decoded (string s) = parsed_text (bounded_text (string s) 4096 false)
  decoded v = ok v

  unfoldable pub parse_classification : Value → Result Classification
  unfolding decoded decision reason_of
  parse_classification value = do
    parsed ← decoded value
    fields ← as_object parsed classification_keys
    (respond, confidence) ← decision (get fields "respond") (get fields "confidence")
    reason ← reason_of (get fields "reason")
    require (agrees respond reason) "CONTRADICTORY_CLASSIFICATION"
    ok (record { respond = respond; confidence = confidence; reason = reason })
