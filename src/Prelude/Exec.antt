-- ===== src/Prelude/Exec.antt =====
-- Stateful code that may throw. What was written before a throw stays written.
use Prim.Native.String.{String}
use mathlib.Core.Path.{◌≡◌}
use mathlib.Core.Bool.{Bool}
use agentmixer.Prelude.Result.{Result, ok, err, require}

abbrev pub Exec {ℓ} : Type ℓ → Type ℓ → Type ℓ
Exec S A = S → Result A × S

-- the rest of a block runs only after a returned value
abbrev pub proceed {ℓ} : {S A B : Type ℓ} → Result A × S → (A → Exec S B) → Result B × S
proceed (ok a, s) f = f a s
proceed (err e, s) f = (err e, s)

infixl 5 ◌>>=◌ ◌>>◌
abbrev pub ◌>>=◌ {ℓ} : {S A B : Type ℓ} → Exec S A → (A → Exec S B) → Exec S B
◌>>=◌ m f s = proceed (m s) f

abbrev pub ◌>>◌ {ℓ} : {S A B : Type ℓ} → Exec S A → Exec S B → Exec S B
m >> k = m >>= λ _. k

abbrev pub pure {ℓ} : {S A : Type ℓ} → A → Exec S A
pure a s = (ok a, s)

abbrev pub throw {ℓ} : {S A : Type ℓ} → String → Exec S A
throw code s = (err code, s)

abbrev pub lift {ℓ} : {S A : Type ℓ} → Result A → Exec S A
lift r s = (r, s)

abbrev pub get_state {ℓ} : {S : Type ℓ} → Exec S S
get_state s = (ok s, s)

abbrev pub modify : {S : Type 0} → (S → S) → Exec S (Unit {0})
modify f s = (ok tt, f s)

abbrev pub assert : {S : Type 0} → Bool → String → Exec S (Unit {0})
assert test code s = (require test code, s)

-- A block goes on with the value that its first step returned.
pub proceed-ok {ℓ} :
    {S A B : Type ℓ} (o : Result A × S) (f : A → Exec S B) {a : A}
    → o.0 ≡ ok a
    → proceed o f ≡ f a o.1
proceed-ok (ok b, s) f h = cc
proceed-ok (err e, s) f h = cc
