-- ===== src/Ledger/Trace.antt =====
-- The operations of src/codex-managed-ledger.ts in any order, from a new ledger on.
use mathlib.Core.Path.{subst}
use agentmixer.Prelude.{
  ◌≤◌, String, ◌≡◌, refl, sym, ◌∙◌, Bool, true, false, not, ◌&&◌, Option, some, List, [], ◌∷◌,
  arith, is_some,
}
use agentmixer.Prelude.Result.{Result, ok, err}
use agentmixer.Validation.Data.{Value}
use agentmixer.Validation.{identifier}
use agentmixer.Validation.Laws.{safe_integer_bounds}
use agentmixer.Ledger.Calls.{Call, Phase, find_call}
use agentmixer.Ledger.CallLaws.{IsLater, IsLater-refl, IsLater-trans, counts_ordered}
use agentmixer.Ledger.Outcomes.{IsValid, Advances}
use agentmixer.Ledger.Steps.{
  observe-IsGood, claim-IsGood, respond-IsGood, mark_written-IsGood, finish-IsGood,
}
use agentmixer.Ledger.{
  Ledger, new_ledger, bind, observe, claim, respond, mark_written, finish, receipt,
}

pub data Action : Type 0 where
  binding : (thread_id turn_id : Value) → Action
  observing : Value → Phase → Action
  claiming : Value → Action
  responding : (id text : String) → Bool → Action
  writing : String → Action
  finishing : Action

-- What every operation keeps, `bind` too.
pub record Keeps (l m : Ledger) : Type 0 where
  pub valid : IsValid l → IsValid m
  pub maximum : m.maximum_calls ≡ l.maximum_calls
  pub stays_closed : l.closed ≡ true → m ≡ l
  pub later :
      (id : String) (c : Call)
      → find_call id l.calls ≡ some c
      → (d : Call) × (find_call id m.calls ≡ some d) × IsLater c d

Keeps-refl : (l : Ledger) → Keeps l l
Keeps-refl l = record {
  valid = λ h. h;
  maximum = refl;
  stays_closed = λ _. refl;
  later = λ id c found. (c, found, IsLater-refl c);
}

Keeps-trans : (a b c : Ledger) → Keeps a b → Keeps b c → Keeps a c
Keeps-trans a b c h k = record {
  valid = λ v. k.valid (h.valid v);
  maximum = k.maximum ∙ h.maximum;
  stays_closed = λ shut.
      k.stays_closed (subst (λ (x : Ledger). x.closed ≡ true) (sym (h.stays_closed shut)) shut)
      ∙ h.stays_closed shut;
  later = λ id call found.
      let (d, at_b, first) = h.later id call found in
      let (e, at_c, second) = k.later id d at_b in (e, at_c, IsLater-trans call d e first second);
}

of_Advances : {l m : Ledger} → Advances l m → Keeps l m
of_Advances a = record {
  valid = a.valid;
  maximum = a.maximum;
  stays_closed = a.stays_closed;
  later = a.later;
}

-- A ledger with the same calls that is open keeps all.
rebound :
    (l : Ledger) (thread turn : Option String)
    → l.closed ≡ false
    → Keeps l (record l { thread_id = thread; turn_id = turn })
rebound l thread turn is_open = record {
  valid = λ h. record { ordered = h.ordered; distinct = h.distinct; bounded = h.bounded };
  maximum = refl;
  stays_closed = λ shut. absurd (cc (shut, is_open));
  later = λ id c found. (c, found, IsLater-refl c);
}

bind-Keeps : (thread_id turn_id : Value) (l : Ledger) → Keeps l (bind thread_id turn_id l).1
unfolding bind
bind-Keeps thread_id turn_id l =
    go (not (is_some l.thread_id) && not l.closed) refl (identifier thread_id) refl
      (identifier turn_id) refl
  where
    go :
        (allowed : Bool)
        → (not (is_some l.thread_id) && not l.closed) ≡ allowed
        → (t : Result String) → identifier thread_id ≡ t
        → (u : Result String) → identifier turn_id ≡ u
        → Keeps l (bind thread_id turn_id l).1
    go false p t e u f = rw p (Keeps-refl l)
    go true p (err _) e u f = rw (p, e) (Keeps-refl l)
    go true p (ok thread) e (err _) f =
        rw (p, e, f) (rebound l (some thread) l.turn_id (ground arith))
    go true p (ok thread) e (ok turn) f =
        rw (p, e, f) (rebound l (some thread) (some turn) (ground arith))

new_ledger-IsValid :
    (maximum_calls : Value) (l : Ledger)
    → new_ledger maximum_calls ≡ ok l
    → IsValid l × (l.maximum_calls ≤ 1024)
unfolding new_ledger
new_ledger-IsValid maximum_calls l made = (
  record { ordered = rw empty tt; distinct = rw empty tt; bounded = rw empty (omega arith) },
  small,
)
  where
    empty : l.calls ≡ []
    empty = ground arith

    small : l.maximum_calls ≤ 1024
    small = ground (arith, safe_integer_bounds maximum_calls 1 1024 l.maximum_calls)

module _ (capability_name : String → Option String) (canonical_json : Value → Result String)
    (parse_json : String → Value) where
  unfoldable pub step : Action → Ledger → Ledger
  step (binding thread_id turn_id) l = (bind thread_id turn_id l).1
  step (observing v phase) l = (observe capability_name canonical_json parse_json v phase l).1
  step (claiming v) l = (claim capability_name canonical_json parse_json v l).1
  step (responding id text success) l = (respond id text success l).1
  step (writing id) l = (mark_written id l).1
  step finishing l = (finish l).1

  unfoldable pub run : List Action → Ledger → Ledger
  run [] l = l
  run (action ∷ actions) l = run actions (step action l)

  step-Keeps : (action : Action) (l : Ledger) → Keeps l (step action l)
  unfolding step
  step-Keeps (binding thread_id turn_id) l = bind-Keeps thread_id turn_id l
  step-Keeps (observing v phase) l =
      of_Advances (observe-IsGood capability_name canonical_json parse_json v phase l).advances
  step-Keeps (claiming v) l =
      of_Advances (claim-IsGood capability_name canonical_json parse_json v l).advances
  step-Keeps (responding id text success) l =
      of_Advances (respond-IsGood id text success l).advances
  step-Keeps (writing id) l = of_Advances (mark_written-IsGood id l).advances
  step-Keeps finishing l = of_Advances (finish-IsGood l).advances

  pub run-Keeps : (actions : List Action) (l : Ledger) → Keeps l (run actions l)
  unfolding run
  run-Keeps [] l = Keeps-refl l
  run-Keeps (action ∷ actions) l =
      Keeps-trans l (step action l) (run actions (step action l)) (step-Keeps action l)
        (run-Keeps actions (step action l))

  -- Whatever is called on a new ledger, its calls are claimed before they are answered, answered
  -- before the answer is written, written before they are completed; they have one identifier
  -- each and are at most as many as the ledger was made for; and so the receipt counts.
  pub run-IsValid :
      (maximum_calls : Value) (l : Ledger) (actions : List Action)
      → new_ledger maximum_calls ≡ ok l
      → IsValid (run actions l)
        × ((receipt (run actions l)).completed ≤ (receipt (run actions l)).responses_written)
        × ((receipt (run actions l)).responses_written ≤ (receipt (run actions l)).claimed)
        × ((receipt (run actions l)).claimed ≤ (receipt (run actions l)).started)
        × ((receipt (run actions l)).started ≤ 1024)
  unfolding receipt
  run-IsValid maximum_calls l actions made =
      let (fresh, small) = new_ledger-IsValid maximum_calls l made in
      let kept = run-Keeps actions l in
      let valid = kept.valid fresh in
      let counts = counts_ordered (run actions l).calls valid.ordered in
      (valid, counts.0, counts.1, counts.2, omega (arith, valid.bounded, kept.maximum))

  -- A closed ledger is closed for good: nothing that is called on it changes it.
  pub run_closed : (l : Ledger) (actions : List Action) → l.closed ≡ true → run actions l ≡ l
  run_closed l actions shut = (run-Keeps actions l).stays_closed shut
