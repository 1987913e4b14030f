-- ===== src/Judge/Vaulted.antt =====
-- Where the judges of src/judge.ts send the key of the private state root.
use agentmixer.Prelude.{
  String, ◌≡◌, refl, ◌∙◌, sym, ap, true, false, not, Option, some, none, eq_iff, arith,
}
use agentmixer.Prelude.Result.{ok, err, require, require-eq-ok, after_ok, ok_injective, ◌>>=◌, ◌>>◌}
use mathlib.Core.Path.{subst}
use agentmixer.Validation.Data.{Value, string}
use agentmixer.Validation.{bounded_text}
use agentmixer.Judge.Names.{join, check_name}
use agentmixer.Judge.Questions.{check_state, check_questions}
use agentmixer.Judge.Keys.{
  Vault, Key, vault, vault_source, vault_key, env_key, resolve_key, valid_token,
}
use agentmixer.Judge.Targets.{
  Url, system_one_url, is_clean, or_default, has_control, parse_endpoint, check_target,
}
use agentmixer.Judge.Backend.{
  Options, Judge, Request, Resolution, or_else, timeout_of, create_judge, keyed_judge,
  resolve_judge, request_of,
}

module _ (stringify : Value → Option String) where
  -- a request that goes to the judge's endpoint with its token
  abbrev pub IsOf : Judge → Request → Type 0
  IsOf judge r = (r.endpoint ≡ judge.endpoint) × (r.authorization ≡ join "Bearer " judge.token)

  request_of-IsOf :
      (judge : Judge) (state questions : Value) (r : Request)
      → request_of stringify judge state questions ≡ ok r
      → IsOf judge r
  unfolding request_of
  request_of-IsOf judge state questions r h = after_ok (check_state stringify state) _ h λ u _ h.
      after_ok (check_questions questions) _ h
        λ u _ last. subst (IsOf judge) (ok_injective last) (refl, refl)

module _ (parse_url : String → Option Url) where
  clean_url_lem :
      (o : Option Url) (url : Url)
      → elim o [
        | none ↦ err "JUDGE_ENDPOINT_INVALID"
        | some url ↦ (do require (is_clean url) "JUDGE_ENDPOINT_INVALID"; ok url)
      ]
        ≡ ok url
      → is_clean url ≡ true
  clean_url_lem none url h = cc
  clean_url_lem (some x) url h = after_ok (require (is_clean x) _) _ h λ u clean last.
      subst (λ (y : Url). is_clean y ≡ true) (ok_injective last) (require-eq-ok _ _ clean)

  parse_endpoint-is_clean :
      (text : String) (url : Url) → parse_endpoint parse_url text ≡ ok url → is_clean url ≡ true
  unfolding parse_endpoint
  parse_endpoint-is_clean text url h = after_ok (bounded_text (string text) 1024 false) _ h λ u _ h.
      after_ok (require (not (has_control text)) _) _ h
        λ u _ h. clean_url_lem (parse_url text) url h

  -- a judge of those options
  record Created (options : Options) (judge : Judge) : Type 0 where
    token : judge.token ≡ options.token
    url : Url
    is_parsed : parse_endpoint parse_url (or_default options.endpoint system_one_url) ≡ ok url
    endpoint : judge.endpoint ≡ url.text

  create_judge-Created :
      (options : Options) (judge : Judge)
      → create_judge parse_url options ≡ ok judge
      → Created options judge
  unfolding create_judge
  create_judge-Created options judge h =
      after_ok (require (valid_token options.token) _) _ h λ u _ h.
        after_ok (parse_endpoint parse_url (or_default options.endpoint system_one_url)) _ h
          λ url parsed h.
            after_ok (check_name (or_default options.model "jev-latest")) _ h λ model _ h.
              after_ok (timeout_of options.timeout) _ h λ timeout _ last. record {
                token = cc (ok_injective last);
                url = url;
                is_parsed = parsed;
                endpoint = cc (ok_injective last);
              }

  -- the endpoint of System One
  pub record IsSystemOne (endpoint : String) : Type 0 where
    pub own : Url
    pub is_own : parse_endpoint parse_url system_one_url ≡ ok own
    pub is_clean_url : is_clean own ≡ true
    pub is_endpoint : endpoint ≡ own.text

  check_target-IsSystemOne :
      (endpoint : Option String) (url : Url) {u : Unit {0}}
      → check_target parse_url vault endpoint ≡ ok u
      → parse_endpoint parse_url (or_default endpoint system_one_url) ≡ ok url
      → IsSystemOne url.text
  unfolding check_target
  check_target-IsSystemOne endpoint url h parsed =
      after_ok (parse_endpoint parse_url (or_default endpoint system_one_url)) _ h λ x x_parsed h.
        after_ok (parse_endpoint parse_url system_one_url) _ h λ own is_own last. record {
          own = own;
          is_own = is_own;
          is_clean_url = parse_endpoint-is_clean system_one_url own is_own;
          is_endpoint =
              ap Url.text (ok_injective (sym parsed ∙ x_parsed))
              ∙ (eq_iff x.text own.text).0 (require-eq-ok _ _ last);
        }

  judge_same : {x y : Judge} → ok (some x) ≡ ok (some y) → x ≡ y
  judge_same h = cc

  keyed_judge-IsSystemOne :
      (options : Resolution) (lookup : String → Option String) (key : Key) (judge : Judge)
      → key.source ≡ vault
      → keyed_judge parse_url options lookup (some key) ≡ ok (some judge)
      → (judge.token ≡ key.token) × IsSystemOne judge.endpoint
  keyed_judge-IsSystemOne options lookup key judge e h =
      let endpoint = or_else options.endpoint (lookup "XCB_JEV_URL") in
      after_ok (check_target parse_url key.source endpoint) _ h λ u checked h.
        after_ok (create_judge parse_url _) _ h λ x created last.
          let c = create_judge-Created _ x created in
          subst (λ (y : Judge). (y.token ≡ key.token) × IsSystemOne y.endpoint) (judge_same last)
            (
              c.token,
              subst IsSystemOne (sym c.endpoint) (
                  check_target-IsSystemOne endpoint c.url
                    (subst (λ s. check_target parse_url s endpoint ≡ ok u) e checked) c.is_parsed),
            )

  unkeyed :
      (v : Vault) (lookup : String → Option String)
      → env_key lookup ≡ none
      → resolve_key v lookup ≡ (do token ← vault_key v; ok (vault_source token))
  unfolding resolve_key vault_key
  unkeyed v lookup e = rw (e, resolve_key) refl

  enabled_lem :
      (options : Resolution) (v : Vault) (lookup : String → Option String) (judge : Judge)
      → resolve_judge parse_url options v lookup ≡ ok (some judge)
      → (resolve_key v lookup >>= keyed_judge parse_url options lookup) ≡ ok (some judge)
  unfolding resolve_judge
  enabled_lem options v lookup judge h = ground arith

  vaulted_judge :
      (options : Resolution) (v : Vault) (lookup : String → Option String) (judge : Judge)
      → env_key lookup ≡ none
      → resolve_judge parse_url options v lookup ≡ ok (some judge)
      → (vault_key v ≡ ok (some judge.token)) × IsSystemOne judge.endpoint
  vaulted_judge options v lookup judge e h =
      after_ok (resolve_key v lookup) _ (enabled_lem options v lookup judge h) λ key key_ok h.
        after_ok (vault_key v) _ (sym (unkeyed v lookup e) ∙ key_ok) λ token token_ok last.
          from_token token token_ok (
            subst (λ k. keyed_judge parse_url options lookup k ≡ ok (some judge))
              (sym (ok_injective last)) h)
    where
      from_token :
          (token : Option String)
          → vault_key v ≡ ok token
          → keyed_judge parse_url options lookup (vault_source token) ≡ ok (some judge)
          → (vault_key v ≡ ok (some judge.token)) × IsSystemOne judge.endpoint
      from_token none t h = cc
      from_token (some token) t h =
          let (same, target) = keyed_judge-IsSystemOne options lookup _ judge refl h in
          (t ∙ ap (λ x. ok (some x)) (sym same), target)

-- what a request of a judge with the key of the vault is
pub record IsVaulted (parse_url : String → Option Url) (v : Vault) (r : Request) : Type 0 where
  pub token : String
  pub is_stored : vault_key v ≡ ok (some token)
  pub authorization : r.authorization ≡ join "Bearer " token
  pub endpoint : IsSystemOne parse_url r.endpoint

-- A judge that is resolved without a usable key in the environment sends every request with the key of
-- the vault's file, and sends it to the endpoint of System One, which is a clean https address, whatever
-- endpoint the options or the environment name.
pub request_of-IsVaulted :
    (parse_url : String → Option Url) (stringify : Value → Option String) (options : Resolution)
    (v : Vault) (lookup : String → Option String) (judge : Judge) (state questions : Value)
    (r : Request)
    → env_key lookup ≡ none
    → resolve_judge parse_url options v lookup ≡ ok (some judge)
    → request_of stringify judge state questions ≡ ok r
    → IsVaulted parse_url v r
request_of-IsVaulted parse_url stringify options v lookup judge state questions r e h asked =
    let (stored, own) = vaulted_judge parse_url options v lookup judge e h in
    let (endpoint, authorization) = request_of-IsOf stringify judge state questions r asked in
    record {
      token = judge.token;
      is_stored = stored;
      authorization = authorization;
      endpoint = subst (IsSystemOne parse_url) (sym endpoint) own;
    }
