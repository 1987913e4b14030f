-- ===== src/Ledger/Errors.antt =====
-- What an operation of src/codex-managed-ledger.ts leaves behind when it throws.
use agentmixer.Prelude.{String, ◌≡◌, refl, Bool, true, false, Option, none, some}
use agentmixer.Prelude.Result.{Result, ok, err}
use agentmixer.Validation.Data.{Value}
use agentmixer.Ledger.Steps.{
  observe-IsGood, claim-IsGood, respond-IsGood, mark_written-IsGood, finish-IsGood,
}
use agentmixer.Ledger.Outcomes.{IsGood}
use agentmixer.Ledger.Trace.{
  Action, binding, observing, claiming, responding, writing, finishing, step,
}
use agentmixer.Ledger.{Ledger, bind, observe, claim, respond, mark_written, finish}

-- Is it a call of `bind`?
abbrev pub is_binding : Action → Bool
is_binding (binding thread_id turn_id) = true
is_binding _ = false

abbrev error_of {ℓ} : {A : Type ℓ} → Result A → Option String
error_of (ok a) = none
error_of (err e) = some e

module _ (capability_name : String → Option String) (canonical_json : Value → Result String)
    (parse_json : String → Value) where
  -- the error that an operation throws
  abbrev pub thrown : Action → Ledger → Option String
  thrown (binding thread_id turn_id) l = error_of (bind thread_id turn_id l).0
  thrown (observing v phase) l =
      error_of (observe capability_name canonical_json parse_json v phase l).0
  thrown (claiming v) l = error_of (claim capability_name canonical_json parse_json v l).0
  thrown (responding id text success) l = error_of (respond id text success l).0
  thrown (writing id) l = error_of (mark_written id l).0
  thrown finishing l = error_of (finish l).0

unchanged_lem :
    {A : Type 0} {l : Ledger} (out : Result A × Ledger) (e : String)
    → IsGood l out
    → error_of out.0 ≡ some e
    → out.1 ≡ l
unchanged_lem (ok a, m) e good h = cc
unchanged_lem (err c, m) e good h = good.unchanged c refl

module _ (capability_name : String → Option String) (canonical_json : Value → Result String)
    (parse_json : String → Value) where
  -- Every operation but `bind` that throws, for whatever reason, leaves the ledger as it was.
  pub thrown_unchanged :
      (action : Action) (l : Ledger) (e : String)
      → is_binding action ≡ false
      → thrown capability_name canonical_json parse_json action l ≡ some e
      → step capability_name canonical_json parse_json action l ≡ l
  unfolding step
  thrown_unchanged (binding thread_id turn_id) l e other h = cc
  thrown_unchanged (observing v phase) l e other h =
      unchanged_lem _ e (observe-IsGood capability_name canonical_json parse_json v phase l) h
  thrown_unchanged (claiming v) l e other h =
      unchanged_lem _ e (claim-IsGood capability_name canonical_json parse_json v l) h
  thrown_unchanged (responding id text success) l e other h =
      unchanged_lem _ e (respond-IsGood id text success l) h
  thrown_unchanged (writing id) l e other h = unchanged_lem _ e (mark_written-IsGood id l) h
  thrown_unchanged finishing l e other h = unchanged_lem _ e (finish-IsGood l) h
