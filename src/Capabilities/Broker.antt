-- ===== src/Capabilities/Broker.antt =====
-- What a broker of src/capabilities.ts guarantees, whatever is done with it.
use agentmixer.Prelude.{
  ◌≤◌, String, ◌≡◌, refl, sym, ap, ◌∙◌, Bool, true, Option, none, some, List, [], ◌∷◌, arith,
  length, not, ◌&&◌,
}
use agentmixer.Prelude.Result.{err}
use mathlib.Core.Path.{subst}
use agentmixer.Validation.Data.{Value, Number}
use agentmixer.Capabilities.Steps.{
  Action, beginning, finishing, step, run, IsValid, run-Moves, running_count, finish-Moves,
  Moves-revoke,
}
use agentmixer.Capabilities.{
  Tool, Ticket, State, new_broker, begin, begin_next, started, prepared, answer, finish,
  finish_running, revoke,
}

new_broker-IsValid : IsValid new_broker
new_broker-IsValid = record {
  pending = omega arith;
  few = omega arith;
  counted = omega arith;
  limited = omega arith;
}

module _ (quote : String → String) (show_number : Number → String) (tools : List Tool) where
  -- Whatever is done with a new broker, the calls that it counts as pending are those that wait and
  -- the one that runs, at most 32; and at most 256 tools are executed over its life, and no more
  -- than calls were counted.
  pub broker_limits :
      (actions : List Action)
      → let s = run quote show_number tools actions new_broker in
        IsValid s × (s.pending ≤ 32) × (length s.executed ≤ 256) × (length s.executed ≤ s.calls)
  broker_limits actions =
      let valid = (run-Moves quote show_number tools actions new_broker).valid new_broker-IsValid in
      (valid, valid.few, omega (arith, valid.limited), omega (arith, valid.counted))

  -- Once a broker is revoked, whatever is done with it and whatever the host says, it stays revoked
  -- and no tool is executed any more.
  pub revoked_quiet :
      (actions : List Action) (s : State)
      → s.revoked ≡ true
      → let t = run quote show_number tools actions s in
        (t.revoked ≡ true) × (t.executed ≡ s.executed)
  revoked_quiet actions s shut =
      let moves = run-Moves quote show_number tools actions s in
      (moves.stays shut, moves.quiet shut)

  -- as many turns as there are calls that wait
  abbrev pub turns : List Ticket → List Action
  turns [] = []
  turns (t ∷ rest) = beginning true true ∷ turns rest

  -- A turn of a call on a revoked broker is an answer.
  begin_revoked :
      (t : Ticket) (rest : List Ticket) (s : State)
      → s.waiting ≡ t ∷ rest
      → s.running ≡ none
      → s.revoked ≡ true
      → begin quote show_number tools true true s
        ≡ answer (err "CAPABILITY_REVOKED") (record s { waiting = rest })
  unfolding begin
  begin_revoked t rest s e idle shut =
      ap (λ r. begin_next quote show_number tools true true r s.waiting s) idle
      ∙ ap (λ w. begin_next quote show_number tools true true none w s) e
      ∙ ap
          (λ b.
            started t (record s { waiting = rest })
              (prepared quote show_number tools (not b && true) (not b && true) t))
          shut

  drain_lem :
      (waiting : List Ticket) (s : State)
      → s.waiting ≡ waiting
      → s.running ≡ none
      → s.revoked ≡ true
      → let t = run quote show_number tools (turns waiting) s in
        (t.waiting ≡ []) × (t.running ≡ none)
  unfolding run step
  drain_lem [] s e idle shut = (e, idle)
  drain_lem (t ∷ rest) s e idle shut =
      let next = answer (err "CAPABILITY_REVOKED") (record s { waiting = rest }) in
      subst
        (λ (x : State).
          let u = run quote show_number tools (turns rest) x in
          (u.waiting ≡ []) × (u.running ≡ none))
        (sym (begin_revoked t rest s e idle shut)) (drain_lem rest next refl idle shut)

  -- When the tool that runs settles, nothing runs, and the calls that wait are the same.
  finish_idle :
      (active : Bool) (outcome : Option Value) (s : State)
      → ((finish quote show_number tools active outcome s).running ≡ none)
        × ((finish quote show_number tools active outcome s).waiting ≡ s.waiting)
  unfolding finish
  finish_idle active outcome s = go s.running refl
    where
      go :
          (r : Option Ticket)
          → s.running ≡ r
          → ((finish_running quote show_number tools active outcome r s).running ≡ none)
            × ((finish_running quote show_number tools active outcome r s).waiting ≡ s.waiting)
      go none e = (e, refl)
      go (some t) e = (refl, refl)

  -- Closing a broker joins: once the tool that runs has settled and each call that waits has had its
  -- turn, no call is pending, and no further tool was executed.
  pub close_joins :
      (active : Bool) (outcome : Option Value) (s : State)
      → IsValid s
      → let t =
          run quote show_number tools (finishing active outcome ∷ turns s.waiting) (revoke s) in
        (t.pending ≡ 0) × (t.executed ≡ s.executed)
  unfolding run step
  close_joins active outcome s valid =
      let actions = finishing active outcome ∷ turns s.waiting in
      let settled = finish quote show_number tools active outcome (revoke s) in
      let idle = finish_idle active outcome (revoke s) in
      let (empty, still) =
        drain_lem s.waiting settled idle.1 idle.0
          ((finish-Moves quote show_number tools active outcome (revoke s)).stays refl) in
      let moves = run-Moves quote show_number tools actions (revoke s) in
      (
        omega (
          arith,
          (moves.valid ((Moves-revoke s).valid valid)).pending,
          ap length empty,
          ap running_count still,
        ),
        moves.quiet refl,
      )
