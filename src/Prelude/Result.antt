-- ===== src/Prelude/Result.antt =====
-- Fallible code: a value, or a thrown `Error` with its message.
use Prim.Native.String.{String}
use mathlib.Core.Path.{◌≡◌, refl}
use mathlib.Core.Bool.{Bool, true, false}

pub data Result {ℓ} (A : Type ℓ) : Type ℓ where
  err : (message : String) → Result A
  ok : (value : A) → Result A

-- `if (!test) throw Error(code)`
abbrev pub require : Bool → String → Result (Unit {0})
require false code = err code
require true code = ok tt

infixl 5 ◌>>=◌ ◌>>◌
abbrev pub ◌>>=◌ {κ ℓ} : {B : Type κ} {A : Type ℓ} → Result A → (A → Result B) → Result B
err message >>= rest = err message
ok value >>= rest = rest value

abbrev pub ◌>>◌ {κ ℓ} : {B : Type κ} {A : Type ℓ} → Result A → Result B → Result B
step >> rest = step >>= λ _. rest

pub require-eq-ok : (b : Bool) (code : String) {u : Unit {0}} → require b code ≡ ok u → b ≡ true
require-eq-ok true code h = refl
require-eq-ok false code h = cc

-- What follows from each value that the first step may have returned follows from the success of
-- the chain.
pub after_ok {ℓ κ} :
    {A : Type ℓ} {B R : Type κ} (m : Result A) (f : A → Result B) {b : B}
    → (m >>= f) ≡ ok b
    → ((a : A) → m ≡ ok a → f a ≡ ok b → R)
    → R
after_ok (ok a) f h k = k a refl h
after_ok (err e) f h k = cc

pub ok_injective {ℓ} : {A : Type ℓ} {a b : A} → ok a ≡ ok b → a ≡ b
ok_injective h = cc
