-- ===== src/Prelude/Readers.antt =====
-- Actions that read the state and do not change it, and what follows for the block that goes on.
use mathlib.Core.Path.{◌≡◌, refl, sym, subst}
use Prim.Native.String.{String}
use agentmixer.Prelude.Result.{Result, ok, err}
use agentmixer.Prelude.Exec.{Exec, proceed, ◌>>=◌}

module _ {S : Type 0} where
  abbrev pub IsReader : {A : Type 0} → Exec S A → Type 0
  IsReader m = (s : S) → (m s).1 ≡ s

module _ {S A B : Type 0} where
  proceed_lem :
      (R : Result B × S → Type 0) (o : Result A × S) (f : A → Exec S B) (s : S)
      → o.1 ≡ s
      → ((e : String) → R (err e, s))
      → ((a : A) → o.0 ≡ ok a → R (f a s))
      → R (proceed o f)
  proceed_lem R (ok a, s') f s same failed went =
      subst (λ (t : S). R (f a t)) (sym same) (went a refl)
  proceed_lem R (err e, s') f s same failed went =
      subst (λ (t : S). R (err e, t)) (sym same) (failed e)

  -- What holds of a failure in the state `s`, and of the rest of the block run in `s` on whatever
  -- was read, holds of the block.
  pub after_reader :
      (R : Result B × S → Type 0) (m : Exec S A) (f : A → Exec S B) (s : S)
      → IsReader m
      → ((e : String) → R (err e, s))
      → ((a : A) → (m s).0 ≡ ok a → R (f a s))
      → R ((m >>= f) s)
  after_reader R m f s reads failed went = proceed_lem R (m s) f s (reads s) failed went

  pub IsReader-bind :
      (m : Exec S A) (f : A → Exec S B)
      → IsReader m
      → ((a : A) → IsReader (f a))
      → IsReader (m >>= f)
  IsReader-bind m f reads rest s =
      after_reader (λ o. o.1 ≡ s) m f s reads (λ e. refl) (λ a _. rest a s)

-- What holds of every failure, and of the rest of the block run from each outcome of its first step,
-- holds of the block.
pub after_step :
    {S A B : Type 0} (R : Result B × S → Type 0) (m : Exec S A) (f : A → Exec S B) (s : S)
    → ((e : String) (t : S) → R (err e, t))
    → ((a : A) (t : S) → m s ≡ (ok a, t) → R (f a t))
    → R ((m >>= f) s)
after_step {S = S} {A = A} R m f s failed went = go (m s) refl
  where
    go : (o : Result A × S) → m s ≡ o → R (proceed o f)
    go (ok a, t) e = went a t e
    go (err c, t) e = failed c t
