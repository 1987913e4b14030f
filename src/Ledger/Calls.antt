-- ===== src/Ledger/Calls.antt =====
-- The calls of the ledger of src/codex-managed-ledger.ts, in the order of a `Map`.
use agentmixer.Prelude.{
  String, ◌==◌, Bool, true, Option, none, some, List, [], ◌∷◌, ◌++◌, if◌then◌else◌,
}

-- `contentItems` of a response has one item, of type "inputText" with this text.
pub record Response : Type 0 where
  pub success : Bool
  pub text : String

pub record Call : Type 0 where
  pub native_name : String
  pub capability_name : String
  pub arguments : String
  pub claimed : Bool
  pub response : Option Response
  pub written : Bool
  pub completed : Bool

pub data Phase : Type 0 where
  started completed : Phase

-- `this.calls.get(id)`
unfoldable pub find_call : String → List (String × Call) → Option Call
find_call id [] = none
find_call id ((key, call) ∷ calls) = if key == id then some call else find_call id calls

-- `this.calls.set(id, call)` for an id that the map lacks
abbrev pub add_call : String → Call → List (String × Call) → List (String × Call)
add_call id call calls = calls ++ (id, call) ∷ []

-- an assignment to a field of the call that `this.calls.get(id)` returned
unfoldable pub change_call : String → (Call → Call) → List (String × Call) → List (String × Call)
change_call id change [] = []
change_call id change ((key, call) ∷ calls) =
    if key == id then (key, change call) ∷ calls else (key, call) ∷ change_call id change calls

abbrev pub set_claimed : Call → Call
set_claimed call = record call { claimed = true }

abbrev pub set_response : Response → Call → Call
set_response response call = record call { response = some response }

abbrev pub set_written : Call → Call
set_written call = record call { written = true }

abbrev pub set_completed : Call → Call
set_completed call = record call { completed = true }
