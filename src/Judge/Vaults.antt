-- ===== src/Judge/Vaults.antt =====
-- The key's file of src/judge.ts: what `storeJudgeKey` puts there and `vaultKey` reads.
use Prim.Native.Char.{code}
use agentmixer.Prelude.{
  ℕ, ◌≤◌, String, ◌≡◌, ◌≢◌, refl, ap, arith, true, false, &&-true_iff, some, [], ◌∷◌,
}
use agentmixer.Prelude.Result.{ok, require, require-eq-ok, after_ok, ok_injective}
use mathlib.Core.Path.{subst}
use agentmixer.Validation.{is_space, is_blank, is_alphanumeric, byte_length}
use agentmixer.Judge.Keys.{
  trim, trim_end, valid_token, are_token_codes, is_token_code, Vault, Entry, absent, present,
  refused, new_file, new_stat, is_safe, is_unchanged, remove_key, read_entry, is_absent, read_size,
  vault_key, store_key, private_root,
}

token_code-no_space : (c : ℕ) → is_token_code c ≡ true → is_space c ≡ false
unfolding is_space is_alphanumeric
token_code-no_space c h = ground arith

token-trim_end : (s : String) → are_token_codes s ≡ true → trim_end s ≡ s
unfolding are_token_codes trim_end is_blank
token-trim_end String.[] h = refl
token-trim_end (String.◌∷◌ c s) h =
    let (hc, hs) = (&&-true_iff (is_token_code (code c)) (are_token_codes s)).0 h in
    rw (token_code-no_space (code c) hc) (ap (String.◌∷◌ c) (token-trim_end s hs))

-- a token has no space to trim
token-trim : (s : String) → are_token_codes s ≡ true → trim s ≡ s
unfolding are_token_codes trim trim_end
token-trim String.[] h = refl
token-trim (String.◌∷◌ c s) h =
    let (hc, hs) = (&&-true_iff (is_token_code (code c)) (are_token_codes s)).0 h in
    rw (token_code-no_space (code c) hc) (token-trim_end (String.◌∷◌ c s) h)

valid_token_lem :
    (s : String)
    → valid_token s ≡ true
    → (1 ≤ byte_length s) × (byte_length s ≤ 512) × (are_token_codes s ≡ true)
unfolding valid_token
valid_token_lem s h = ground arith

safe_new : (n ino now : ℕ) → n ≤ 512 → is_safe (new_stat n ino now) ≡ true
safe_new n ino now h = ground arith

whole_size : (n : ℕ) → 1 ≤ n → read_size 0 (n ∷ []) ≡ n
unfolding read_size
whole_size n h = ground arith

unchanged_new :
    (n ino now : ℕ)
    → 1 ≤ n
    → n ≤ 512
    → is_unchanged n (new_stat n ino now) (new_stat n ino now) ≡ true
unchanged_new n ino now low high = ground arith

read_new :
    (token : String) (ino now : ℕ)
    → valid_token token ≡ true
    → read_entry (present (new_file token ino now)) ≡ ok (some token)
read_new token ino now h =
    let (low, high, codes) = valid_token_lem token h in
    rw (safe_new (byte_length token) ino now high) (
      rw (whole_size (byte_length token) low) (
        rw (unchanged_new (byte_length token) ino now low high)
          (rw (token-trim token codes) (rw h refl))))

absent_lem : (e : Entry) → is_absent e ≡ true → absent ≡ e
absent_lem absent h = refl
absent_lem (refused is_file) h = cc
absent_lem (present file) h = cc

-- what a vault with a new file does
pub record Holds (token : String) (v w : Vault) : Type 0 where
  pub is_read : vault_key w ≡ ok (some token)
  pub is_valid : valid_token token ≡ true
  pub is_kept : (other : String) (i n : ℕ) (x : Vault) → store_key other i n w ≢ ok x
  pub is_removed : remove_key w ≡ ok (true, v)

-- A key that is stored is read again: after a store that succeeds, the vault gives the key without the
-- spaces around it, and that text is a valid token; storing a second key is refused, and removing
-- the file succeeds and leaves the vault without a key.
pub store-vault_key :
    (key : String) (ino now : ℕ) (v w : Vault)
    → store_key key ino now v ≡ ok w
    → Holds (trim key) v w
unfolding vault_key store_key remove_key
store-vault_key key ino now v w h = after_ok (require (valid_token (trim key)) _) _ h λ u valid h.
    after_ok (private_root v.root) _ h λ root rooted h.
      after_ok (require (is_absent v.entry) _) _ h λ u free h.
        after_ok (require root.is_writable _) _ h λ u writable last.
          subst (Holds (trim key) v) (ok_injective last) (record {
            is_read = rw rooted (read_new (trim key) ino now (require-eq-ok _ _ valid));
            is_valid = require-eq-ok _ _ valid;
            is_kept = λ other i n x again.
                after_ok (require (valid_token (trim other)) _) _ again
                  λ u valid again. after_ok (private_root v.root) _ again λ root rooted again. cc;
            is_removed = rw rooted (
                ap (λ e. ok (true, record v { entry = e }))
                  (absent_lem v.entry (require-eq-ok _ _ free)));
          })
