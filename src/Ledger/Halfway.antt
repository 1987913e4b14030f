-- ===== src/Ledger/Halfway.antt =====
-- What a call of `bind` of src/codex-managed-ledger.ts that throws halfway does to the ledger for good.
use mathlib.Core.Path.{subst}
use agentmixer.Prelude.{
  String, ◌≡◌, refl, sym, ◌∙◌, arith, Bool, true, false, not, ◌&&◌, is_some, Option, none, some,
  List, [], ◌∷◌,
}
use agentmixer.Prelude.Result.{Result, ok, err, require}
use agentmixer.Prelude.Exec.{proceed, pure, assert, get_state, ◌>>=◌, ◌>>◌}
use agentmixer.Prelude.Readers.{after_reader}
use agentmixer.Validation.Data.{Value, null, Fields, get}
use agentmixer.Validation.{identifier, as_object}
use agentmixer.Ledger.Outcomes.{Advances}
use agentmixer.Ledger.Steps.{
  observe-IsGood, claim-IsGood, respond-IsGood, mark_written-IsGood, finish-IsGood, IsReader-scope,
}
use agentmixer.Ledger.Trace.{
  Action, binding, observing, claiming, responding, writing, finishing, step, run,
}
use agentmixer.Ledger.{Ledger, Claimed, bind, scope, claim, claim_keys, is_field}

-- bound to a thread, but to no turn
pub record IsHalfBound (thread : String) (l : Ledger) : Type 0 where
  pub thread_of : l.thread_id ≡ some thread
  pub turn_of : l.turn_id ≡ none

advanced :
    (thread : String) (l m : Ledger) → Advances l m → IsHalfBound thread l → IsHalfBound thread m
advanced thread l m a h = record {
  thread_of = a.scope.0 ∙ h.thread_of;
  turn_of = a.scope.1 ∙ h.turn_of;
}

bind_again :
    (thread : String) (l : Ledger) (t u : Value)
    → IsHalfBound thread l
    → bind t u l ≡ (err "CODEX_MANAGED_DUPLICATE_TURN", l)
unfolding bind
bind_again thread l t u h = rw (h.thread_of) refl

bind_halves :
    (thread_id turn_id : Value) (thread e : String) (l : Ledger)
    → l.thread_id ≡ none
    → l.closed ≡ false
    → identifier thread_id ≡ ok thread
    → identifier turn_id ≡ err e
    → bind thread_id turn_id l ≡ (err e, record l { thread_id = some thread })
unfolding bind
bind_halves thread_id turn_id thread e l unbound is_open good bad =
    rw (unbound, is_open, good, bad) refl

-- `params.turnId === null`
null_field : (v : Value) → is_field v none ≡ true → v ≡ null
null_field null h = refl
null_field _ h = cc

-- a callback whose turn is null
pub record HasNoTurn (v : Value) : Type 0 where
  pub params : Fields
  pub is_closed : as_object v claim_keys ≡ ok params
  pub turn : get params "turnId" ≡ null

abbrev in_scope : Fields → Ledger → Bool
in_scope params l =
    not l.closed
    && is_some l.thread_id
    && is_field (get params "threadId") l.thread_id
    && is_field (get params "turnId") l.turn_id

last_test : (a b c d : Bool) → (a && b && c && d) ≡ true → d ≡ true
last_test a b c d h = ground arith

scope-HasNoTurn :
    (thread : String) (l : Ledger) (v : Value) (params : Fields)
    → IsHalfBound thread l
    → (scope v claim_keys l).0 ≡ ok params
    → HasNoTurn v
unfolding scope
scope-HasNoTurn thread l v params half h = by_fields (as_object v claim_keys) refl h
  where
    by_test :
        (b : Bool) (p : Fields)
        → (proceed (require b "CODEX_MANAGED_CALL_SCOPE_MISMATCH", l) (λ _. pure p)).0 ≡ ok params
        → b ≡ true
    by_test true p h = refl
    by_test false p h = cc

    by_fields :
        (r : Result Fields)
        → as_object v claim_keys ≡ r
        → (proceed
            (r, l)
            (λ p. get_state >>= λ ledger.
              assert (in_scope p ledger) "CODEX_MANAGED_CALL_SCOPE_MISMATCH" >> pure p)).0
          ≡ ok params
        → HasNoTurn v
    by_fields (err e) closed h = cc
    by_fields (ok p) closed h = record {
      params = p;
      is_closed = closed;
      turn = null_field (get p "turnId") (
          subst (λ o. is_field (get p "turnId") o ≡ true) half.turn_of
            (last_test (not l.closed) (is_some l.thread_id)
              (is_field (get p "threadId") l.thread_id) (is_field (get p "turnId") l.turn_id)
              (by_test (in_scope p l) p h)));
    }

module _ (capability_name : String → Option String) (canonical_json : Value → Result String)
    (parse_json : String → Value) where
  step-IsHalfBound :
      (thread : String) (action : Action) (l : Ledger)
      → IsHalfBound thread l
      → IsHalfBound thread (step capability_name canonical_json parse_json action l)
  unfolding step
  step-IsHalfBound thread (binding t u) l h =
      subst (λ (r : Result (Unit {0}) × Ledger). IsHalfBound thread r.1)
        (sym (bind_again thread l t u h)) h
  step-IsHalfBound thread (observing v phase) l h =
      advanced thread l _
        (observe-IsGood capability_name canonical_json parse_json v phase l).advances h
  step-IsHalfBound thread (claiming v) l h =
      advanced thread l _ (claim-IsGood capability_name canonical_json parse_json v l).advances h
  step-IsHalfBound thread (responding id text success) l h =
      advanced thread l _ (respond-IsGood id text success l).advances h
  step-IsHalfBound thread (writing id) l h =
      advanced thread l _ (mark_written-IsGood id l).advances h
  step-IsHalfBound thread finishing l h = advanced thread l _ (finish-IsGood l).advances h

  run-IsHalfBound :
      (thread : String) (actions : List Action) (l : Ledger)
      → IsHalfBound thread l
      → IsHalfBound thread (run capability_name canonical_json parse_json actions l)
  unfolding run
  run-IsHalfBound thread [] l h = h
  run-IsHalfBound thread (action ∷ actions) l h =
      run-IsHalfBound thread actions (step capability_name canonical_json parse_json action l)
        (step-IsHalfBound thread action l h)

  -- the outcome of a claim is a success only for a callback without a turn
  abbrev Denies : Value → Result Claimed × Ledger → Type 0
  Denies v out = (c : Claimed) → out.0 ≡ ok c → HasNoTurn v

  claim-HasNoTurn :
      (thread : String) (l : Ledger) (v : Value)
      → IsHalfBound thread l
      → Denies v (claim capability_name canonical_json parse_json v l)
  unfolding claim
  claim-HasNoTurn thread l v half =
      after_reader (Denies v) (scope v claim_keys) _ l (IsReader-scope v claim_keys)
        (λ e c h. absurd (cc h)) λ params scoped c h. scope-HasNoTurn thread l v params half scoped

  -- what is left of a ledger that was bound halfway, after some calls
  pub record IsDeadEnd (thread : String) (l : Ledger) : Type 0 where
    pub half : IsHalfBound thread l
    pub unbindable : (t u : Value) → bind t u l ≡ (err "CODEX_MANAGED_DUPLICATE_TURN", l)
    pub denied :
        (v : Value) (c : Claimed)
        → (claim capability_name canonical_json parse_json v l).0 ≡ ok c
        → HasNoTurn v

  stuck : (thread : String) (l : Ledger) → IsHalfBound thread l → IsDeadEnd thread l
  stuck thread l h = record {
    half = h;
    unbindable = λ t u. bind_again thread l t u h;
    denied = λ v. claim-HasNoTurn thread l v h;
  }

  -- When an open, unbound ledger is bound to a good thread and a bad turn, the call throws the error
  -- of the turn, and then, whatever is called afterwards, the ledger keeps the thread and no turn,
  -- every further `bind` is refused as a second turn and changes nothing, and no callback is admitted
  -- but one whose turn is null.
  pub bind_stuck :
      (thread_id turn_id : Value) (thread e : String) (l : Ledger) (actions : List Action)
      → l.thread_id ≡ none
      → l.turn_id ≡ none
      → l.closed ≡ false
      → identifier thread_id ≡ ok thread
      → identifier turn_id ≡ err e
      → ((bind thread_id turn_id l).0 ≡ err e)
        × IsDeadEnd thread
            (run capability_name canonical_json parse_json actions (bind thread_id turn_id l).1)
  bind_stuck thread_id turn_id thread e l actions unbound unturned is_open good bad =
      subst
        (λ (r : Result (Unit {0}) × Ledger).
          (r.0 ≡ err e)
          × IsDeadEnd thread (run capability_name canonical_json parse_json actions r.1))
        (sym (bind_halves thread_id turn_id thread e l unbound is_open good bad))
        (
          refl,
          stuck thread _ (
              run-IsHalfBound thread actions (record l { thread_id = some thread })
                (record { thread_of = refl; turn_of = unturned })),
        )
