-- ===== src/Capabilities/Steps.antt =====
-- The operations on a broker of src/capabilities.ts in any order.
use agentmixer.Prelude.{
  ℕ, ◌+◌, ◌≤◌, String, ◌≡◌, refl, ap, ◌∙◌, Bool, true, not, ◌&&◌, Option, none, some, List, [], ◌∷◌,
  Bool-cases, inl, inr, arith, length, length-append, leb, ltb,
}
use agentmixer.Prelude.Result.{Result, ok, err}
use agentmixer.Prelude.Exec.{lift, assert, ◌>>◌}
use agentmixer.Prelude.Readers.{after_reader}
use agentmixer.Validation.Data.{Value, Number}
use agentmixer.Capabilities.{
  Tool, Ticket, State, max_calls, max_pending, assert_active, tool_of, count_call, raw_of,
  fits_schema, enqueue, answer, admit_input, invoke, prepared, started, begin_next, begin, settled,
  finish_running, finish, revoke,
}

pub data Action : Type 0 where
  invoking : (active : Bool) (name input : Value) → Action
  beginning : (before after : Bool) → Action
  finishing : (active : Bool) → Option Value → Action
  revoking : Action

-- how many handlers have their turn
abbrev pub running_count : Option Ticket → ℕ
running_count none = 0
running_count (some t) = 1

-- The counts of a broker agree and are within its limits.
pub record IsValid (s : State) : Type 0 where
  pub pending : s.pending ≡ length s.waiting + running_count s.running
  pub few : s.pending ≤ max_pending
  pub counted : length s.executed + length s.waiting ≤ s.calls
  pub limited : length s.executed + length s.waiting ≤ max_calls

-- a call whose input fits the schema of its tool
abbrev pub Fits : Ticket → Type 0
Fits t = fits_schema t.tool t.raw ≡ true

-- What an operation does that does not give calls back: it keeps the limits; while the broker is
-- revoked it stays so, and no tool is executed.
pub record Moves (s t : State) : Type 0 where
  pub valid : IsValid s → IsValid t
  pub stays : s.revoked ≡ true → t.revoked ≡ true
  pub quiet : s.revoked ≡ true → t.executed ≡ s.executed

Moves-refl : (s : State) → Moves s s
Moves-refl s = record { valid = λ h. h; stays = λ h. h; quiet = λ h. refl }

-- `calls` has gone up, and nothing else has changed
abbrev called : State → State
called s = record s { calls = s.calls + 1 }

Moves-called : (s : State) → Moves s (called s)
Moves-called s = record {
  valid = λ h. record {
    pending = h.pending;
    few = h.few;
    counted = omega (arith, h.counted);
    limited = h.limited;
  };
  stays = λ h. h;
  quiet = λ h. refl;
}

Moves-enqueue :
    (t : Ticket) (s : State)
    → s.calls + 1 ≤ max_calls
    → s.pending + 1 ≤ max_pending
    → Moves s (enqueue t (called s))
Moves-enqueue t s few_calls few_pending = record {
  valid = λ h. record {
    pending = omega (arith, h.pending, length-append s.waiting (t ∷ []));
    few = few_pending;
    counted = omega (arith, h.counted, length-append s.waiting (t ∷ []));
    limited = omega (arith, h.counted, few_calls, length-append s.waiting (t ∷ []));
  };
  stays = λ h. h;
  quiet = λ h. refl;
}

room_lem :
    (t : Ticket) (rest : List Ticket) (s : State)
    → s.running ≡ none
    → s.waiting ≡ t ∷ rest
    → (length s.waiting ≡ length rest + 1) × (running_count s.running ≡ 0)
room_lem t rest s idle first = (ap length first ∙ omega arith, ap running_count idle)

Moves-start :
    (t : Ticket) (rest : List Ticket) (s : State) (r : Result Value)
    → s.running ≡ none
    → s.waiting ≡ t ∷ rest
    → (s.revoked ≡ true → r ≡ err "CAPABILITY_REVOKED")
    → Moves s (started t (record s { waiting = rest }) r)
Moves-start t rest s (ok v) idle first shut = record {
  valid = λ h. record {
    pending = omega (arith, h.pending, room_lem t rest s idle first);
    few = h.few;
    counted =
        omega (arith, h.counted, room_lem t rest s idle first, length-append s.executed (t ∷ []));
    limited =
        omega (arith, h.limited, room_lem t rest s idle first, length-append s.executed (t ∷ []));
  };
  stays = λ h. h;
  quiet = λ h. cc (shut h);
}
Moves-start t rest s (err e) idle first shut = record {
  valid = λ h. record {
    pending = omega (arith, h.pending, room_lem t rest s idle first);
    few = omega (arith, h.few);
    counted = omega (arith, h.counted, room_lem t rest s idle first);
    limited = omega (arith, h.limited, room_lem t rest s idle first);
  };
  stays = λ h. h;
  quiet = λ h. refl;
}

Moves-finish :
    (t : Ticket) (s : State) (r : Result Value)
    → s.running ≡ some t
    → Moves s (answer r (record s { running = none }))
Moves-finish t s r busy = record {
  valid = λ h. record {
    pending = omega (arith, h.pending, ap running_count busy);
    few = omega (arith, h.few);
    counted = h.counted;
    limited = h.limited;
  };
  stays = λ h. h;
  quiet = λ h. refl;
}

pub Moves-revoke : (s : State) → Moves s (revoke s)
Moves-revoke s = record {
  valid =
      λ h. record { pending = h.pending; few = h.few; counted = h.counted; limited = h.limited };
  stays = λ h. refl;
  quiet = λ h. refl;
}

module _ (quote : String → String) (show_number : Number → String) (tools : List Tool) where
  begin-Moves :
      (before after : Bool) (s : State) → Moves s (begin quote show_number tools before after s)
  unfolding begin
  begin-Moves before after s = go s.running refl s.waiting refl
    where
      go :
          (r : Option Ticket)
          → s.running ≡ r
          → (w : List Ticket) → s.waiting ≡ w
          → Moves s (begin_next quote show_number tools before after r w s)
      go (some t) busy w e = Moves-refl s
      go none idle [] e = Moves-refl s
      go none idle (t ∷ rest) e =
          Moves-start t rest s
            (prepared quote show_number tools (not s.revoked && before) (not s.revoked && after) t)
            idle e (λ shut. rw shut refl)

  pub finish-Moves :
      (active : Bool) (outcome : Option Value) (s : State)
      → Moves s (finish quote show_number tools active outcome s)
  unfolding finish
  finish-Moves active outcome s = go s.running refl
    where
      go :
          (r : Option Ticket)
          → s.running ≡ r
          → Moves s (finish_running quote show_number tools active outcome r s)
      go none idle = Moves-refl s
      go (some t) busy =
          Moves-finish t s (settled quote show_number tools (not s.revoked && active) outcome) busy

  -- what an outcome does to the broker
  MovesTo : State → Result (Unit {0}) × State → Type 0
  MovesTo s o = Moves s o.1

  admit-Moves :
      (tool : Tool) (input : Value) (s : State)
      → s.calls + 1 ≤ max_calls
      → s.pending + 1 ≤ max_pending
      → MovesTo s (admit_input quote show_number tools tool input (called s))
  unfolding admit_input MovesTo
  admit-Moves tool input s few_calls few_pending =
      after_reader (MovesTo s) (lift (raw_of quote show_number tools input)) _ (called s)
        (λ t. refl) (λ e. Moves-called s)
        λ raw _.
          after_reader (MovesTo s) (assert (fits_schema tool raw) "CAPABILITY_INPUT_INVALID") _
            (called s) (λ t. refl) (λ e. Moves-called s)
            λ u _. Moves-enqueue (record { tool = tool; raw = raw }) s few_calls few_pending

  count-Moves :
      (tool : Tool) (input : Value) (s : State)
      → MovesTo s ((count_call >> admit_input quote show_number tools tool input) s)
  unfolding MovesTo
  count-Moves tool input s =
      elim (Bool-cases (leb (s.calls + 1) max_calls && ltb s.pending max_pending)) [
        | inl room ↦ rw room (admit-Moves tool input s (ground arith) (ground arith))
        | inr full ↦ rw full (Moves-called s)
      ]

  invoke-Moves :
      (active : Bool) (name input : Value) (s : State)
      → MovesTo s (invoke quote show_number tools active name input s)
  unfolding invoke MovesTo
  invoke-Moves active name input s =
      after_reader (MovesTo s) (assert_active active) _ s (λ t. refl) (λ e. Moves-refl s)
        λ u _.
          after_reader (MovesTo s) (lift (tool_of tools name)) _ s (λ t. refl) (λ e. Moves-refl s)
            λ tool _. count-Moves tool input s

  unfoldable pub step : Action → State → State
  step (invoking active name input) s = (invoke quote show_number tools active name input s).1
  step (beginning before after) s = begin quote show_number tools before after s
  step (finishing active outcome) s = finish quote show_number tools active outcome s
  step revoking s = revoke s

  unfoldable pub run : List Action → State → State
  run [] s = s
  run (action ∷ actions) s = run actions (step action s)

  step-Moves : (action : Action) (s : State) → Moves s (step action s)
  unfolding step MovesTo
  step-Moves (invoking active name input) s = invoke-Moves active name input s
  step-Moves (beginning before after) s = begin-Moves before after s
  step-Moves (finishing active outcome) s = finish-Moves active outcome s
  step-Moves revoking s = Moves-revoke s

  pub run-Moves : (actions : List Action) (s : State) → Moves s (run actions s)
  unfolding run
  run-Moves [] s = Moves-refl s
  run-Moves (action ∷ actions) s =
      let first = step-Moves action s in
      let others = run-Moves actions (step action s) in
      record {
        valid = λ h. others.valid (first.valid h);
        stays = λ h. others.stays (first.stays h);
        quiet = λ h. others.quiet (first.stays h) ∙ first.quiet h;
      }
