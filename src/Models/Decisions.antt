-- ===== src/Models/Decisions.antt =====
-- When `parseClassification` of src/models.ts accepts a value.
use agentmixer.Prelude.{◌≡◌, String, Bool, true, includes, ◌≤◌, ◌^◌, ◌⊎◌, false}
use agentmixer.Prelude.Result.{Result, ok}
use agentmixer.Validation.Data.{Value, boolean, number, string, Number, Fields, get}
use agentmixer.Validation.{as_object}
use agentmixer.Models.{Classification, classification_keys, reasons, decoded}

-- a finite number from 0 to 1, where -0 is 0
pub IsFraction : Number → Type 0
IsFraction (Number.finite negative mantissa shift) =
    (mantissa ≤ 2 ^ shift) × ((negative ≡ false) ⊎ (mantissa ≡ 0))
IsFraction _ = ⊥

-- to respond only if it is asked for or helps
pub IsConsistent : Bool → String → Type 0
IsConsistent respond reason = (respond ≡ false) ⊎ ((reason ≡ "requested") ⊎ (reason ≡ "helpful"))

-- fields that say a classification
pub record Says (fields : Fields) (c : Classification) : Type 0 where
  pub respond : get fields "respond" ≡ boolean c.respond
  pub confidence : get fields "confidence" ≡ number c.confidence
  pub reason : get fields "reason" ≡ string c.reason
  pub fraction : IsFraction c.confidence
  pub known : includes reasons c.reason ≡ true
  pub agreed : IsConsistent c.respond c.reason

module _ (parse_json : String → Result Value) where
  -- a value that is read as a record of the three keys, whose fields say that classification
  pub record Accepts (v : Value) (c : Classification) : Type 0 where
    pub parsed : Value
    pub fields : Fields
    pub is_read : decoded parse_json v ≡ ok parsed
    pub is_closed : as_object parsed classification_keys ≡ ok fields
    pub says : Says fields c
