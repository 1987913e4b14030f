-- ===== src/Models/Tests.antt =====
-- Classifications that are accepted and refused.
use agentmixer.Prelude.{ℕ, ◌+◌, ◌^◌, ◌≡◌, refl, String, Bool, true, false, []}
use agentmixer.Prelude.Result.{Result, ok, err}
use agentmixer.Validation.{checks}
use agentmixer.Validation.Data.{
  Value, undefined, boolean, number, string, array, item, nil, nat, object, plain, enumerable, end,
  field, Number, finite,
}
use agentmixer.Models.Catalog.{
  Entry, parse_entry, read_entries, eligible_entries, item_count, catalog_entries, units, spacing,
  nearest, cost, insert, sort, select_model,
}
use agentmixer.Models.Selection.{IsChosen, select_model-IsChosen}
use agentmixer.Models.{Classification, decision, reason_of, decoded, parse_classification}

models : Unit {0}
unfolding checks decision reason_of decoded parse_classification
models = tt

abbrev three_quarters : Number
three_quarters = finite false 3 2

abbrev says : String → Value
says reason = object plain (
    field "respond" enumerable (boolean true) (
      field "confidence" enumerable (number three_quarters)
        (field "reason" enumerable (string reason) end)))

-- every text is read as one record
abbrev parse_helpful : String → Result Value
parse_helpful text = ok (says "helpful")

abbrev helpful : Classification
helpful = record { respond = true; confidence = three_quarters; reason = "helpful" }

helpful_text : parse_classification parse_helpful (string "{}") ≡ ok helpful
unfolding models
helpful_text = refl

contradiction :
    parse_classification parse_helpful (says "human_active") ≡ err "CONTRADICTORY_CLASSIFICATION"
unfolding models
contradiction = refl

catalogs : Unit {0}
unfolding checks parse_entry read_entries eligible_entries item_count catalog_entries units spacing
    nearest cost insert sort select_model
catalogs = tt

abbrev model : String → (input : ℕ) → (is_available : Bool) → Value
model name input is_available = object plain (
    field "id" enumerable (string name) (
      field "inputUsdPerMillion" enumerable (nat input) (
        field "outputUsdPerMillion" enumerable (nat 8) (
          field "supportsStructuredOutput" enumerable (boolean true) (
            field "available" enumerable (boolean is_available)
              (field "classifierEligible" enumerable (boolean true) end))))))

-- three models, of which the one with the lowest price is not available
abbrev catalog : Value
catalog = object plain (
    field "provider" enumerable (string "codex") (
      field "observedAt" enumerable (nat 90) (
        field "models" enumerable
          (array plain (
            item enumerable (model "large" 5 true) (
              item enumerable (model "small" 1 false) (item enumerable (model "mini" 3 true) nil))))
          end)))

abbrev before : String → String → Bool
before a b = false

abbrev mini : Entry
mini = record {
  id = "mini";
  input = finite false 3 0;
  output = finite false 8 0;
  is_structured = true;
  is_available = true;
  is_classifier = true;
}

select_model-IsChosen_example : IsChosen catalog (nat 100) undefined mini
select_model-IsChosen_example =
    select_model-IsChosen before catalog (nat 100) undefined mini (unfold catalogs in refl)

duplicated :
    read_entries []
      (item enumerable (model "mini" 3 true) (item enumerable (model "mini" 4 true) nil))
    ≡ err "DUPLICATE_MODEL"
unfolding catalogs
duplicated = refl

-- a tie between two doubles goes to the even one
ties : (nearest (2 ^ 53 + 1) ≡ 2 ^ 53) × (nearest (2 ^ 53 + 3) ≡ 2 ^ 53 + 4)
unfolding catalogs
ties = (refl, refl)
