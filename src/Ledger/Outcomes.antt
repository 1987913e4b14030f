-- ===== src/Ledger/Outcomes.antt =====
-- What every operation of src/codex-managed-ledger.ts but `bind` keeps, whether it returns or throws.
use mathlib.Core.Path.{subst}
use agentmixer.Prelude.{
  ◌≤◌, ◌<◌, String, ◌≡◌, refl, sym, ap, ◌∙◌, ◌==◌, eq_iff, Bool, true, false, none, some, [], ◌∷◌,
  arith, length, length-append, Bool-cases, inl, inr, if◌then◌else◌,
}
use agentmixer.Prelude.Result.{Result, ok, err}
use agentmixer.Prelude.Exec.{Exec, ◌>>=◌, ◌>>◌, lift, assert}
use agentmixer.Prelude.Readers.{IsReader, after_reader}
use agentmixer.Ledger.Calls.{Call, find_call, add_call, change_call}
use agentmixer.Ledger.CallLaws.{
  IsOrdered, IsLater, IsLater-refl, AllOrdered, HasDistinctIds, or_call, find_call-change_call,
  find_call-add_call, length-change_call, AllOrdered-change_call, AllOrdered-add_call,
  HasDistinctIds-change_call, HasDistinctIds-add_call,
}
use agentmixer.Ledger.{Ledger}

-- The calls of a ledger are ordered, have one identifier each, and are at most as many as allowed.
pub record IsValid (l : Ledger) : Type 0 where
  pub ordered : AllOrdered l.calls
  pub distinct : HasDistinctIds l.calls
  pub bounded : length l.calls ≤ l.maximum_calls

-- What an operation may do to a ledger.
pub record Advances (l m : Ledger) : Type 0 where
  pub valid : IsValid l → IsValid m
  pub maximum : m.maximum_calls ≡ l.maximum_calls
  pub scope : (m.thread_id ≡ l.thread_id) × (m.turn_id ≡ l.turn_id)
  pub stays_closed : l.closed ≡ true → m ≡ l
  pub later :
      (id : String) (c : Call)
      → find_call id l.calls ≡ some c
      → (d : Call) × (find_call id m.calls ≡ some d) × IsLater c d

-- The outcome of an operation: it has advanced the ledger, or it has thrown and left it.
pub record IsGood {A : Type 0} (l : Ledger) (out : Result A × Ledger) : Type 0 where
  pub advances : Advances l out.1
  pub unchanged : (e : String) → out.0 ≡ err e → out.1 ≡ l

pub Advances-refl : (l : Ledger) → Advances l l
Advances-refl l = record {
  valid = λ h. h;
  maximum = refl;
  scope = (refl, refl);
  stays_closed = λ _. refl;
  later = λ id c found. (c, found, IsLater-refl c);
}

pub IsGood-err : {A : Type 0} (l : Ledger) (e : String) → IsGood {A = A} l (err e, l)
IsGood-err l e = record { advances = Advances-refl l; unchanged = λ _ _. refl }

pub IsGood-ok : {A : Type 0} (l m : Ledger) (a : A) → Advances l m → IsGood {A = A} l (ok a, m)
IsGood-ok l m a h = record { advances = h; unchanged = λ e k. absurd (cc k) }

module _ (l : Ledger) (id : String) (open_ledger : l.closed ≡ false) where
  IsLater-change :
      (change : Call → Call) (c : Call)
      → find_call id l.calls ≡ some c
      → IsLater c (change c)
      → (j : String) (d : Call) → find_call j l.calls ≡ some d
      → (d' : Call) × (find_call j (change_call id change l.calls) ≡ some d') × IsLater d d'
  IsLater-change change c found is_later j d found' = elim (Bool-cases (id == j)) [
    | inl same ↦ (
      change c,
      find_call-change_call id j change l.calls ∙ rw (same, found),
      subst (λ (x : Call). IsLater x (change c)) (same_call j d same found') is_later,
    )
    | inr other ↦ (d, find_call-change_call id j change l.calls ∙ rw other found', IsLater-refl d)
  ]
    where
      same_call : (j : String) (d : Call) → (id == j) ≡ true → find_call j l.calls ≡ some d → c ≡ d
      same_call j d same found' = cc (found, found', (eq_iff id j).0 same)

  -- A change that takes a call forward, in order, advances the ledger.
  pub Advances-change :
      (change : Call → Call) (c : Call)
      → find_call id l.calls ≡ some c
      → (IsOrdered c → IsOrdered (change c))
      → IsLater c (change c)
      → Advances l (record l { calls = change_call id change l.calls })
  Advances-change change c found keeps is_later = record {
    valid = λ h. record {
      ordered =
          AllOrdered-change_call id change l.calls
            (λ d found' k.
              subst (λ x. IsOrdered (change x)) (one_call d found')
                (keeps (subst IsOrdered (sym (one_call d found')) k)))
            h.ordered;
      distinct = HasDistinctIds-change_call id change l.calls h.distinct;
      bounded = rw (length-change_call id change l.calls) h.bounded;
    };
    maximum = refl;
    scope = (refl, refl);
    stays_closed = λ shut. absurd (cc (shut, open_ledger));
    later = IsLater-change change c found is_later;
  }
    where
      one_call : (d : Call) → find_call id l.calls ≡ some d → c ≡ d
      one_call d found' = cc (found, found')

  -- So does a new call under a new identifier, while there is room.
  pub Advances-add :
      (new : Call)
      → find_call id l.calls ≡ none
      → length l.calls < l.maximum_calls
      → IsOrdered new
      → Advances l (record l { calls = add_call id new l.calls })
  Advances-add new absent room ordered = record {
    valid = λ h. record {
      ordered = AllOrdered-add_call id new l.calls ordered h.ordered;
      distinct = HasDistinctIds-add_call id new l.calls absent h.distinct;
      bounded = omega (arith, length-append l.calls ((id, new) ∷ []));
    };
    maximum = refl;
    scope = (refl, refl);
    stays_closed = λ shut. absurd (cc (shut, open_ledger));
    later = λ j d found. (
      d,
      find_call-add_call id j new l.calls
          ∙ ap (λ o. or_call o (if id == j then some new else none)) found,
      IsLater-refl d,
    );
  }

pub Advances-close : (l : Ledger) → l.closed ≡ false → Advances l (record l { closed = true })
Advances-close l open_ledger = record {
  valid = λ h. record { ordered = h.ordered; distinct = h.distinct; bounded = h.bounded };
  maximum = refl;
  scope = (refl, refl);
  stays_closed = λ shut. absurd (cc (shut, open_ledger));
  later = λ id c found. (c, found, IsLater-refl c);
}

-- the rules for a block: a check, a result, an action that only reads
pub IsGood-assert :
    {A : Type 0} (b : Bool) (code : String) (k : Exec Ledger A) (l : Ledger)
    → (b ≡ true → IsGood l (k l))
    → IsGood l ((assert b code >> k) l)
IsGood-assert true code k l h = h refl
IsGood-assert false code k l h = IsGood-err l code

pub IsGood-lift :
    {A B : Type 0} (r : Result A) (f : A → Exec Ledger B) (l : Ledger)
    → ((a : A) → r ≡ ok a → IsGood l (f a l))
    → IsGood l ((lift r >>= f) l)
IsGood-lift (ok a) f l h = h a refl
IsGood-lift (err e) f l h = IsGood-err l e

pub IsGood-read :
    {A B : Type 0} (m : Exec Ledger A) (f : A → Exec Ledger B) (l : Ledger)
    → IsReader m
    → ((a : A) → (m l).0 ≡ ok a → IsGood l (f a l))
    → IsGood l ((m >>= f) l)
IsGood-read m f l reads h = after_reader (IsGood l) m f l reads (IsGood-err l) h
