-- ===== src/Ledger/Claims.antt =====
-- What a callback of src/codex-managed-ledger.ts is admitted for.
use agentmixer.Prelude.{
  String, ◌≡◌, ◌≢◌, ◌↔◌, refl, ap, eq_refl, true, false, Option, none, some, List, arith, length,
  count_where, all, [], ◌∷◌,
}
use agentmixer.Prelude.Result.{Result, ok, err}
use mathlib.Core.Path.{subst}
use agentmixer.Prelude.Exec.{Exec, lift}
use agentmixer.Prelude.Readers.{after_reader}
use agentmixer.Validation.Data.{Value, Fields, get}
use agentmixer.Validation.{identifier}
use agentmixer.Ledger.Calls.{Call, find_call, set_claimed}
use agentmixer.Ledger.CallLaws.{find_call-change_call}
use agentmixer.Ledger.Steps.{IsReader-scope, IsReader-identity, claimable_found}
use agentmixer.Ledger.Trace.{Action, run, run-Keeps}
use agentmixer.Ledger.{
  Ledger, Claimed, Identity, scope, identity, claim, claim_call, claim_keys, claimable, finish,
  receipt, is_finished,
}

module _ (capability_name : String → Option String) (canonical_json : Value → Result String)
    (parse_json : String → Value) where
  -- What a granted claim tells: the call was observed under that identifier and not claimed before,
  -- the name and the input are those that were observed, and now the call is claimed.
  pub record IsGranted (l : Ledger) (c : Claimed) (m : Ledger) : Type 0 where
    pub call : Call
    pub observed : find_call c.id l.calls ≡ some call
    pub unclaimed : call.claimed ≡ false
    pub name : c.name ≡ call.capability_name
    pub input : c.input ≡ parse_json call.arguments
    pub marked : find_call c.id m.calls ≡ some (set_claimed call)

  -- `out`, if it is a success, is a granted claim
  abbrev GrantsFrom : Ledger → Result Claimed × Ledger → Type 0
  GrantsFrom l out = (c : Claimed) → out.0 ≡ ok c → IsGranted l c out.1

  abbrev callback_identity : Fields → Exec Ledger Identity
  callback_identity params =
      identity capability_name canonical_json parse_json (get params "tool")
        (get params "namespace") (get params "arguments")

  claim_call-IsGranted :
      (id : String) (this : Identity) (l : Ledger)
      → GrantsFrom l (
          claim_call capability_name canonical_json parse_json id
            (claimable this (find_call id l.calls))
            l)
  unfolding claim_call
  claim_call-IsGranted id this l = go (claimable this (find_call id l.calls)) refl
    where
      go :
          (o : Option Call)
          → claimable this (find_call id l.calls) ≡ o
          → GrantsFrom l (claim_call capability_name canonical_json parse_json id o l)
      go none e c h = absurd (cc h)
      go (some call) e c h =
          let (found, fresh) = claimable_found this (find_call id l.calls) call e in
          let same_id : c.id ≡ id = ground arith in
          record {
            call = call;
            observed = rw same_id found;
            unclaimed = fresh;
            name = ground arith;
            input = ground arith;
            marked =
                rw (same_id, find_call-change_call id id set_claimed l.calls, eq_refl id, found);
          }

  -- An admitted callback is one for an observed call that no callback was admitted for, and is
  -- given the name and the arguments that were observed.
  pub claim-IsGranted :
      (v : Value) (l m : Ledger) (c : Claimed)
      → claim capability_name canonical_json parse_json v l ≡ (ok c, m)
      → IsGranted l c m
  unfolding claim
  claim-IsGranted v l m c h =
      subst (IsGranted l c) (ap (λ (r : Result Claimed × Ledger). r.1) h)
        (grants c (ap (λ (r : Result Claimed × Ledger). r.0) h))
    where
      failed : (e : String) → GrantsFrom l (err e, l)
      failed e c h = absurd (cc h)

      grants : GrantsFrom l (claim capability_name canonical_json parse_json v l)
      grants =
          after_reader (GrantsFrom l) (scope v claim_keys) _ l (IsReader-scope v claim_keys) failed
            λ params _.
              after_reader (GrantsFrom l) (lift (identifier (get params "callId"))) _ l (λ _. refl)
                failed
                λ id _.
                  after_reader (GrantsFrom l) (callback_identity params) _ l
                    (IsReader-identity capability_name canonical_json parse_json (get params "tool")
                      (get params "namespace") (get params "arguments"))
                    failed λ this _. claim_call-IsGranted id this l

  -- After a callback was admitted, whatever is called next, no callback is admitted for the same
  -- identifier.
  pub claim_once :
      (v w : Value) (l m n : Ledger) (c d : Claimed) (actions : List Action)
      → claim capability_name canonical_json parse_json v l ≡ (ok c, m)
      → claim capability_name canonical_json parse_json w
          (run capability_name canonical_json parse_json actions m)
        ≡ (ok d, n)
      → c.id ≢ d.id
  claim_once v w l m n c d actions first second same =
      let x = claim-IsGranted v l m c first in
      let y =
        claim-IsGranted w (run capability_name canonical_json parse_json actions m) n d second in
      let (e, found, is_later) =
        (run-Keeps capability_name canonical_json parse_json actions m).later c.id
          (set_claimed x.call) x.marked in
      let one : e ≡ y.call = cc (found, y.observed, same) in
      absurd (cc (is_later.claimed refl, y.unclaimed, one))

all_finished :
    (calls : List (String × Call))
    → all is_finished calls ≡ true
    → (count_where (λ e. e.1.completed) calls ≡ length calls)
      × (count_where (λ e. e.1.written) calls ≡ length calls)
all_finished [] h = (refl, refl)
all_finished ((id, call) ∷ calls) h = ground (arith, all_finished calls)

finish_calls :
    (l m : Ledger) {u : Unit {0}}
    → finish l ≡ (ok u, m)
    → (all is_finished l.calls ≡ true) × (m.calls ≡ l.calls)
unfolding finish
finish_calls l m h = ground arith

-- `finish` succeeds, closing the ledger and changing nothing else, if and only if the ledger is open
-- and each of its calls is completed with its answer written.
pub finish_iff :
    (l : Ledger)
    → (finish l ≡ (ok tt, record l { closed = true }))
      ↔ ((l.closed ≡ false) × (all is_finished l.calls ≡ true))
unfolding finish
finish_iff l = ground arith

-- After a `finish` that succeeded the receipt counts as many answers written, and as many calls
-- completed, as calls started.
pub finish-receipt :
    (l m : Ledger) {u : Unit {0}}
    → finish l ≡ (ok u, m)
    → ((receipt m).completed ≡ (receipt m).started)
      × ((receipt m).responses_written ≡ (receipt m).started)
unfolding receipt
finish-receipt l m h =
    let (finished, same) = finish_calls l m h in rw same (all_finished l.calls finished)
