-- ===== src/ManagedAccount/Sessions.antt =====
-- The browser sessions that logins of src/managed-account.ts are driven in, and their challenges.
use agentmixer.Prelude.{
  ℕ, String, ◌≡◌, sym, ap, ◌∙◌, Bool, true, false, arith, if◌then◌else◌, Bool-cases, inl, inr,
}
use agentmixer.Prelude.Result.{Result, ok, require, require-eq-ok, after_ok, ok_injective}
use mathlib.Core.Path.{subst}
use agentmixer.Validation.Data.{Value, string, Fields, get, is_string}
use agentmixer.Validation.{identifier, provider, safe_integer, max_safe_integer}
use agentmixer.Validation.Laws.{
  is_string_lem, provider_name, provider-provider_name, identifier_lem,
}
use agentmixer.ManagedAccount.Data.{Binding, Method, provider_native, browser_session, Settings}
use agentmixer.ManagedAccount.Parsing.{
  record_of, session_fields, session_binding, is_own_session, native_method, session_method,
  method_of, clean_text,
}

session_binding_lem :
    (bound : Fields) (b : Binding)
    → session_binding bound ≡ ok b
    → (provider (get bound "provider") ≡ ok b.provider)
      × (identifier (get bound "accountId") ≡ ok b.account_id)
      × (identifier (get bound "owner") ≡ ok b.owner)
unfolding session_binding
session_binding_lem bound b h = after_ok (provider (get bound "provider")) _ h λ p p_ok h.
    after_ok (identifier (get bound "accountId")) _ h λ account account_ok h.
      after_ok (identifier (get bound "owner")) _ h λ owner owner_ok h.
        after_ok (safe_integer (get bound "leaseGeneration") 1 max_safe_integer) _ h λ l _ h.
          after_ok (safe_integer (get bound "processGeneration") 1 max_safe_integer) _ h λ g _ last.
            subst
              (λ (x : Binding).
                (provider (get bound "provider") ≡ ok x.provider)
                × (identifier (get bound "accountId") ≡ ok x.account_id)
                × (identifier (get bound "owner") ≡ ok x.owner))
              (ok_injective last) (p_ok, account_ok, owner_ok)

same_text : (v : Value) (s t : String) → identifier v ≡ ok s → v ≡ string t → s ≡ t
same_text v s t h e = cc (identifier_lem v s h, e)

-- a session of the account that the settings name
abbrev pub IsOwn : Settings → Binding → Type 0
IsOwn settings b =
    (b.provider ≡ settings.provider)
    × (b.account_id ≡ settings.account_id)
    × (b.owner ≡ settings.owner)

session_binding-IsOwn :
    (settings : Settings) (bound : Fields) (b : Binding)
    → is_own_session settings bound ≡ true
    → session_binding bound ≡ ok b
    → IsOwn settings b
session_binding-IsOwn settings bound b own h =
    let (p, account, owner) = session_binding_lem bound b h in
    let e = is_string_lem (get bound "provider") (provider_name settings.provider) (ground arith) in
    (
      sym (ok_injective (sym (provider-provider_name settings.provider) ∙ ap provider (sym e) ∙ p)),
      same_text (get bound "accountId") b.account_id settings.account_id account
          (is_string_lem (get bound "accountId") settings.account_id (ground arith)),
      same_text (get bound "owner") b.owner settings.owner owner
          (is_string_lem (get bound "owner") settings.owner (ground arith)),
    )

abbrev SessionOf : Settings → Method → Type 0
SessionOf settings (provider_native method) = Unit
SessionOf settings (browser_session b) = IsOwn settings b

abbrev branch : Bool → Result Method → Result Method → Result Method
branch test x y = if test then x else y

-- the branch that a test has picked
picked :
    (b : Bool) (test : Bool) (x y : Result Method) {m : Method}
    → test ≡ b
    → branch test x y ≡ ok m
    → branch b x y ≡ ok m
picked b test x y e h = ap (λ t. branch t x y) (sym e) ∙ h

module _ (is_control : ℕ → Bool) (settings : Settings) where
  native-SessionOf :
      (fields : Fields) (m : Method) → native_method is_control fields ≡ ok m → SessionOf settings m
  native-SessionOf fields m h =
      after_ok (clean_text is_control (get fields "method") 64) _ h
        λ text _ last. subst (SessionOf settings) (ok_injective last) tt

  session-SessionOf :
      (fields : Fields) (m : Method)
      → session_method is_control settings fields ≡ ok m
      → SessionOf settings m
  session-SessionOf fields m h =
      after_ok (session_fields "MANAGED_ACCOUNT_SESSION_INVALID" (get fields "session")) _ h
        λ bound _ h.
          after_ok (require (is_own_session settings bound) "MANAGED_ACCOUNT_SESSION_MISMATCH") _ h
            λ u own h. after_ok (session_binding bound) _ h λ b b_ok last.
              subst (SessionOf settings) (ok_injective last) (
                session_binding-IsOwn settings bound b
                  (require-eq-ok (is_own_session settings bound) _ own) b_ok)

  method-SessionOf :
      (raw : Value) (m : Method) → method_of is_control settings raw ≡ ok m → SessionOf settings m
  unfolding method_of
  method-SessionOf raw m h = after_ok (record_of raw) _ h λ fields _ h.
      elim (Bool-cases (is_string (get fields "type") "provider-native")) [
        | inl native ↦ native-SessionOf fields m (picked true _ _ _ native h)
        | inr other ↦ elim (Bool-cases (is_string (get fields "type") "browser-session")) [
          | inl browser ↦
              session-SessionOf fields m (picked true _ _ _ browser (picked false _ _ _ other h))
          | inr neither ↦ let never = picked false _ _ _ neither (picked false _ _ _ other h) in cc
        ]
      ]

  -- A login that is driven in a browser session is admitted only with a session of the controller's
  -- own account: of its provider, its account identifier and its owner.
  pub method_of-IsOwn :
      (raw : Value) (b : Binding)
      → method_of is_control settings raw ≡ ok (browser_session b)
      → IsOwn settings b
  method_of-IsOwn raw b h = method-SessionOf raw (browser_session b) h
