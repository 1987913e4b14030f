-- ===== src/ToolBroker/Scope.antt =====
-- What the calls of a broker of src/broker.ts do to the host, in any order.
use agentmixer.Prelude.{
  ℕ, String, ◌≡◌, refl, sym, ap, ◌∙◌, ◌==◌, Bool, true, false, Option, none, some, List, [], ◌∷◌,
  ◌++◌, arith, All, if◌then◌else◌,
}
use agentmixer.Prelude.Result.{Result, ok, err}
use agentmixer.Prelude.Exec.{Exec, ◌>>=◌, proceed, lift, throw}
use agentmixer.Prelude.Readers.{after_reader, IsReader-bind}
use mathlib.Core.Path.{subst}
use agentmixer.Validation.Data.{Value, Fields, get}
use agentmixer.Validation.{as_object, bounded_text, identifier}
use agentmixer.ToolBroker.Paths.{Url, relative_file, public_https_url}
use agentmixer.ToolBroker.{
  Operation, text_message, reaction, attachment, Effect, reading, writing, fetching, staging,
  ToolBroker, World, Moments, assert_active, revoke, expected_revision, max_bytes_of, reaction_kind,
  perform, stage, read_file, write_file, fetch_web, propose_text, propose_reaction,
  propose_attachment, handle, allowed_name, dispatch, dispatch_copy, invoke,
}

pub data Action : Type 0 where
  calling : Moments → (name input : Value) → Action
  revoking : Action

module _ (host : Effect → Result Fields) (json_copy : Value → Option Value) (is_letter : ℕ → Bool)
    (parse_url : String → Option Url) (lower : String → String) (broker : ToolBroker) where
  -- a path that `relativeFile` lets through
  pub IsRelative : String → Type 0
  IsRelative path = (v : Value) × (relative_file is_letter v ≡ ok path)

  -- An operation on messages that names a path names a relative one.
  pub IsConfined : Operation → Type 0
  IsConfined (text_message text key) = Unit {0}
  IsConfined (reaction id kind key) = Unit {0}
  IsConfined (attachment path caption key) = IsRelative path

  -- the effects within the broker's workspace and run
  pub Belongs : Effect → Type 0
  Belongs (reading workspace path) = (workspace ≡ broker.workspace_id) × IsRelative path
  Belongs (writing workspace path text expected) =
      (workspace ≡ broker.workspace_id) × IsRelative path
  Belongs (fetching url max_bytes) = (v : Value) × (public_https_url parse_url lower v ≡ ok url)
  Belongs (staging workspace run operation) =
      (workspace ≡ broker.workspace_id) × (run ≡ broker.run_id) × IsConfined operation

  -- what a call does: nothing, or one effect that belongs to the broker, while it is not revoked
  data Did (w : World) : World → Type 0 where
    nothing : Did w w
    effect :
        (e : Effect)
        → Belongs e
        → w.revoked ≡ false
        → Did w (record w { effects = w.effects ++ e ∷ [] })

  DidTo : World → Result Value × World → Type 0
  DidTo w o = Did w o.1

  -- a check before the effect
  check_first :
      {A : Type 0} (r : Result A) (f : A → Exec World Value) (w : World)
      → ((a : A) → r ≡ ok a → DidTo w (f a w))
      → DidTo w ((lift r >>= f) w)
  unfolding DidTo
  check_first r f w went = after_reader (DidTo w) (lift r) f w (λ s. refl) (λ e. nothing) went

  active_lem :
      (b : Bool) (w : World) {u : Unit {0}} → (assert_active b w).0 ≡ ok u → w.revoked ≡ false
  active_lem b w h = ground arith

  -- the effect, and a rest that only checks
  perform_lem :
      (e : Effect) (f : Fields → Exec World Value) (w : World)
      → Belongs e
      → w.revoked ≡ false
      → ((reply : Fields) (v : World) → (f reply v).1 ≡ v)
      → DidTo w ((perform host json_copy is_letter parse_url lower broker e >>= f) w)
  unfolding DidTo
  perform_lem e f w belongs live reads = go (host e)
    where
      after : World
      after = record w { effects = w.effects ++ e ∷ [] }

      go :
          (r : Result Fields)
          → Did w
              (proceed {S = World} {A = Fields} {B = Value}
                (r, record w { effects = w.effects ++ e ∷ [] })
                f).1
      go (err c) = effect e belongs live
      go (ok reply) =
          subst (Did w) (sym (reads reply (record w { effects = w.effects ++ e ∷ [] })))
            (effect e belongs live)

  stage_lem :
      (at : Moments) (operation : Operation) (w : World)
      → IsConfined operation
      → DidTo w (stage host json_copy is_letter parse_url lower broker at operation w)
  unfolding stage DidTo Belongs
  stage_lem at operation w confined =
      after_reader (DidTo w) (assert_active at.staged) _ w (λ s. refl) (λ e. nothing)
        λ u live.
          perform_lem (staging broker.workspace_id broker.run_id operation) _ w
            (refl, refl, confined) (active_lem at.staged w live)
            λ reply v.
              after_reader (λ o. o.1 ≡ v) (lift (identifier (get reply "intentId"))) _ v (λ s. refl)
                (λ e. refl) (λ a _. refl)

  read_lem :
      (at : Moments) (raw : Value) (w : World)
      → w.revoked ≡ false
      → DidTo w (read_file host json_copy is_letter parse_url lower broker at raw w)
  unfolding read_file Belongs IsRelative
  read_lem at raw w live = check_first (as_object raw ("path" ∷ [])) _ w λ input _.
      check_first (relative_file is_letter (get input "path")) _ w λ path path_ok.
        perform_lem (reading broker.workspace_id path) _ w (refl, (get input "path", path_ok)) live
          λ reply v.
            IsReader-bind (assert_active at.after) _ (λ s. refl)
              (λ u.
                IsReader-bind (lift (bounded_text (get reply "text") 262144 true)) _ (λ s. refl)
                  (λ text.
                    IsReader-bind (lift (bounded_text (get reply "revision") 160 false)) _
                      (λ s. refl) (λ revision s. refl)))
              v

  write_lem :
      (at : Moments) (raw : Value) (w : World)
      → w.revoked ≡ false
      → DidTo w (write_file host json_copy is_letter parse_url lower broker at raw w)
  unfolding write_file Belongs IsRelative
  write_lem at raw w live =
      check_first (as_object raw ("path" ∷ "text" ∷ "expectedRevision" ∷ [])) _ w λ input _.
        check_first (expected_revision (get input "expectedRevision")) _ w λ expected _.
          check_first (relative_file is_letter (get input "path")) _ w λ path path_ok.
            check_first (bounded_text (get input "text") 262144 true) _ w λ text _.
              perform_lem (writing broker.workspace_id path text expected) _ w
                (refl, (get input "path", path_ok)) live
                λ reply v.
                  IsReader-bind (assert_active at.after) _ (λ s. refl)
                    (λ u.
                      IsReader-bind (lift (bounded_text (get reply "revision") 160 false)) _
                        (λ s. refl) (λ revision s. refl))
                    v

  fetch_lem :
      (at : Moments) (raw : Value) (w : World)
      → w.revoked ≡ false
      → DidTo w (fetch_web host json_copy is_letter parse_url lower broker at raw w)
  unfolding fetch_web Belongs
  fetch_lem at raw w live = check_first (as_object raw ("url" ∷ "maxBytes" ∷ [])) _ w λ input _.
      check_first (public_https_url parse_url lower (get input "url")) _ w λ url url_ok.
        check_first (max_bytes_of (get input "maxBytes")) _ w λ max_bytes _.
          perform_lem (fetching url max_bytes) _ w (get input "url", url_ok) live
            λ reply v.
              IsReader-bind (assert_active at.after) _ (λ s. refl)
                (λ u.
                  IsReader-bind (lift (bounded_text (get reply "text") max_bytes true)) _
                    (λ s. refl)
                    (λ text.
                      IsReader-bind (lift (public_https_url parse_url lower (get reply "url"))) _
                        (λ s. refl) (λ final s. refl)))
                v

  text_lem :
      (at : Moments) (raw : Value) (w : World)
      → DidTo w (propose_text host json_copy is_letter parse_url lower broker at raw w)
  unfolding propose_text IsConfined
  text_lem at raw w = check_first (as_object raw ("text" ∷ "idempotencyKey" ∷ [])) _ w λ input _.
      check_first (bounded_text (get input "text") 16384 false) _ w λ text _.
        check_first (identifier (get input "idempotencyKey")) _ w
          λ key _. stage_lem at (text_message text key) w tt

  reaction_lem :
      (at : Moments) (raw : Value) (w : World)
      → DidTo w (propose_reaction host json_copy is_letter parse_url lower broker at raw w)
  unfolding propose_reaction IsConfined
  reaction_lem at raw w =
      check_first (as_object raw ("messageId" ∷ "reaction" ∷ "idempotencyKey" ∷ [])) _ w λ input _.
        check_first (reaction_kind (get input "reaction")) _ w λ kind _.
          check_first (identifier (get input "messageId")) _ w λ id _.
            check_first (identifier (get input "idempotencyKey")) _ w
              λ key _. stage_lem at (reaction id kind key) w tt

  attachment_lem :
      (at : Moments) (raw : Value) (w : World)
      → DidTo w (propose_attachment host json_copy is_letter parse_url lower broker at raw w)
  unfolding propose_attachment IsConfined IsRelative
  attachment_lem at raw w =
      check_first (as_object raw ("path" ∷ "caption" ∷ "idempotencyKey" ∷ [])) _ w λ input _.
        check_first (relative_file is_letter (get input "path")) _ w λ path path_ok.
          check_first (bounded_text (get input "caption") 16384 true) _ w λ caption _.
            check_first (identifier (get input "idempotencyKey")) _ w
              λ key _. stage_lem at (attachment path caption key) w (get input "path", path_ok)

  thrown_lem : (code : String) (w : World) → DidTo w (throw code w)
  unfolding DidTo
  thrown_lem code w = nothing

  choose_lem :
      (b : Bool) (m k : Exec World Value) (w : World)
      → DidTo w (m w)
      → DidTo w (k w)
      → DidTo w ((if b then m else k) w)
  choose_lem true m k w h g = h
  choose_lem false m k w h g = g

  handle_lem :
      (at : Moments) (name : String) (raw : Value) (w : World)
      → w.revoked ≡ false
      → DidTo w (handle host json_copy is_letter parse_url lower broker at name raw w)
  unfolding handle
  handle_lem at name raw w live = choose_lem (name == "files.read") _ _ w (read_lem at raw w live) (
      choose_lem (name == "files.write") _ _ w (write_lem at raw w live) (
        choose_lem (name == "web.fetch") _ _ w (fetch_lem at raw w live) (
          choose_lem (name == "messages.propose_text") _ _ w (text_lem at raw w) (
            choose_lem (name == "messages.propose_reaction") _ _ w (reaction_lem at raw w) (
              choose_lem (name == "messages.propose_attachment") _ _ w (attachment_lem at raw w)
                (thrown_lem "TOOL_DENIED" w))))))

  dispatch_lem :
      (at : Moments) (name raw : Value) (w : World)
      → DidTo w (dispatch host json_copy is_letter parse_url lower broker at name raw w)
  unfolding dispatch DidTo
  dispatch_lem at name raw w =
      after_reader (DidTo w) (assert_active at.before) _ w (λ s. refl) (λ e. nothing)
        λ u live.
          check_first (allowed_name host json_copy is_letter parse_url lower broker name) _ w
            λ tool _. handle_lem at tool raw w (active_lem at.before w live)

  invoke_lem :
      (at : Moments) (name input : Value) (w : World)
      → DidTo w (invoke host json_copy is_letter parse_url lower broker at name input w)
  unfolding invoke
  invoke_lem at name input w = go (json_copy input)
    where
      go :
          (o : Option Value)
          → DidTo w (dispatch_copy host json_copy is_letter parse_url lower broker at name o w)
      go none = thrown_lem "INVALID_TOOL_INPUT" w
      go (some raw) = dispatch_lem at name raw w

  unfoldable pub step : Action → World → World
  step (calling at name input) w =
      (invoke host json_copy is_letter parse_url lower broker at name input w).1
  step revoking w = revoke w

  unfoldable pub run : List Action → World → World
  run [] w = w
  run (action ∷ actions) w = run actions (step action w)

  All-append :
      (es : List Effect) (e : Effect) → All Belongs es → Belongs e → All Belongs (es ++ e ∷ [])
  All-append [] e h k = (k, tt)
  All-append (d ∷ es) e h k = (h.0, All-append es e h.1 k)

  Did-scoped : (w v : World) → Did w v → All Belongs w.effects → All Belongs v.effects
  Did-scoped w _ nothing h = h
  Did-scoped w _ (effect e belongs live) h = All-append w.effects e h belongs

  step_scoped :
      (action : Action) (w : World) → All Belongs w.effects → All Belongs (step action w).effects
  unfolding step DidTo
  step_scoped (calling at name input) w h = Did-scoped w _ (invoke_lem at name input w) h
  step_scoped revoking w h = h

  -- Whatever is called, every effect on the host is within the broker's own workspace and run: files
  -- of that workspace under relative paths, public addresses, and messages staged for that run.
  pub run_scoped :
      (actions : List Action) (w : World)
      → All Belongs w.effects
      → All Belongs (run actions w).effects
  unfolding run
  run_scoped [] w h = h
  run_scoped (action ∷ actions) w h = run_scoped actions (step action w) (step_scoped action w h)

  Did-quiet : (w v : World) → Did w v → w.revoked ≡ true → v ≡ w
  Did-quiet w _ nothing h = refl
  Did-quiet w _ (effect e belongs live) h = absurd (cc (h, live))

  step_quiet : (action : Action) (w : World) → w.revoked ≡ true → step action w ≡ w
  unfolding step DidTo
  step_quiet (calling at name input) w h = Did-quiet w _ (invoke_lem at name input w) h
  step_quiet revoking w h = ap (λ b. record w { revoked = b }) (sym h)

  -- Once the broker is revoked, whatever is called and whatever the host says, there is no further
  -- effect.
  pub revoked_silent : (actions : List Action) (w : World) → w.revoked ≡ true → run actions w ≡ w
  unfolding run
  revoked_silent [] w h = refl
  revoked_silent (action ∷ actions) w h =
      ap (run actions) (step_quiet action w h) ∙ revoked_silent actions w h
