-- ===== src/Runtime/Providers.antt =====
-- Which lists of adapters the constructor of src/runtime.ts accepts.
use agentmixer.Prelude.{◌≡◌, ◌≢◌, ◌↔◌, refl, false, List, [], ◌∷◌, arith, any, All}
use agentmixer.Prelude.Result.{ok}
use agentmixer.Validation.Data.{Provider, provider_eq, provider_eq_iff}
use agentmixer.Runtime.Adapters.{Adapter}
use agentmixer.Runtime.Admission.{new_runtime, has_duplicate, providers}

-- no two providers of the list are equal
pub IsDistinct : List Provider → Type 0
IsDistinct [] = Unit {0}
IsDistinct (p ∷ ps) = All (λ q. p ≢ q) ps × IsDistinct ps

any_iff :
    (p : Provider) (ps : List Provider) → (any (provider_eq p) ps ≡ false) ↔ All (λ q. p ≢ q) ps
any_iff p [] = (λ h. tt, λ h. refl)
any_iff p (q ∷ ps) = ground (arith, provider_eq_iff p q, any_iff p ps)

has_duplicate_iff : (ps : List Provider) → (has_duplicate ps ≡ false) ↔ IsDistinct ps
unfolding has_duplicate IsDistinct
has_duplicate_iff [] = (λ h. tt, λ h. refl)
has_duplicate_iff (p ∷ ps) = ground (arith, any_iff p ps, has_duplicate_iff ps)

-- The constructor accepts a list of adapters if and only if no two of them have one provider.
pub new_runtime_iff :
    (adapters : List Adapter)
    → (new_runtime adapters ≡ ok adapters) ↔ IsDistinct (providers adapters)
unfolding new_runtime
new_runtime_iff adapters = ground (arith, has_duplicate_iff (providers adapters))
