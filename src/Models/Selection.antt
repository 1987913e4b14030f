-- ===== src/Models/Selection.antt =====
-- What `selectClassifierModel` of src/models.ts selects.
use agentmixer.Prelude.{
  All, ◌&&◌, ◌<◌, ◌^◌, ◌/◌, zero, suc, ltb, Bool-cases, ℕ, ◌*◌, ◌+◌, ◌≤◌, String, ◌≡◌, ◌⊎◌, inl,
  inr, refl, sym, ap, ◌∙◌, arith, Bool, true, false, Option, some, none, List, [], ◌∷◌,
  if◌then◌else◌,
}
use agentmixer.Prelude.Result.{ok, after_ok}
use mathlib.Core.Path.{subst}
use agentmixer.Validation.Data.{Value}
use agentmixer.Models.Catalog.{
  Entry, units, spacing, nearest, is_eligible, eligible_entries, catalog_entries, first, cost,
  is_before, insert, sort, select_model,
}

abbrev pub Among : Entry → List Entry → Type 0
Among e [] = ⊥
Among e (x ∷ xs) = (x ≡ e) ⊎ Among e xs

abbrev head : List Entry → Option Entry
head [] = none
head (e ∷ entries) = some e

kept_or_not :
    (e x : Entry) (xs ys : List Entry) (b : Bool)
    → is_eligible x ≡ b
    → (Among e ys → Among e xs × (is_eligible e ≡ true))
    → Among e (if b then x ∷ ys else ys)
    → Among e (x ∷ xs) × (is_eligible e ≡ true)
kept_or_not e x xs ys true t later (inl same) =
    (inl same, subst (λ (w : Entry). is_eligible w ≡ true) same t)
kept_or_not e x xs ys true t later (inr m) =
    let (among, eligible) = later m in (inr among, eligible)
kept_or_not e x xs ys false t later m = let (among, eligible) = later m in (inr among, eligible)

eligible_lem :
    (e : Entry) (xs : List Entry)
    → Among e (eligible_entries xs)
    → Among e xs × (is_eligible e ≡ true)
unfolding eligible_entries
eligible_lem e [] m = elim m [ ]
eligible_lem e (x ∷ xs) m =
    kept_or_not e x xs (eligible_entries xs) (is_eligible x) refl (eligible_lem e xs) m

-- what a workload of 2000 tokens of input and 128 of output costs, in double arithmetic
abbrev pub workload : Entry → ℕ
workload e = nearest (nearest (units e.input * 2000) + nearest (units e.output * 128))

cost-eq-workload : (e : Entry) → cost e ≡ workload e
unfolding cost
cost-eq-workload e = refl

-- So many places are enough: the number has then at most 53 bits before the spacing.
spacing_enough : (places x : ℕ) → x < 2 ^ 53 * 2 ^ places → x < 2 ^ 53 * spacing places x
unfolding spacing
spacing_enough zero x h = omega (arith, h)
spacing_enough (suc places) x h = elim (Bool-cases (ltb x (2 ^ 53))) [
  | inl small ↦ rw small (ground arith)
  | inr large ↦ rw large (omega (arith, spacing_enough places (x / 2) (omega (arith, h))))
]

-- a model that costs no more than another, unless the other lacks a capability
abbrev pub Beats : Entry → Entry → Type 0
Beats e x =
    ((x.is_structured && x.is_available && x.is_classifier) ≡ false) ⊎ (workload e ≤ workload x)

-- a model that costs no more than any of the list
abbrev Cheapest : Entry → List Entry → Type 0
Cheapest e [] = Unit
Cheapest e (x ∷ xs) = (cost e ≤ cost x) × Cheapest e xs

cheaper : (e x : Entry) (xs : List Entry) → cost e ≤ cost x → Cheapest x xs → Cheapest e xs
cheaper e x [] h c = tt
cheaper e x (y ∷ xs) h c = (omega (arith, h, c.0), cheaper e x xs h c.1)

compared_by_test :
    (e x : Entry) (xs ys : List Entry) (b : Bool)
    → is_eligible x ≡ b
    → (Cheapest e ys → All (Beats e) xs)
    → Cheapest e (if b then x ∷ ys else ys)
    → All (Beats e) (x ∷ xs)
compared_by_test e x xs ys true t later (c, cs) = (
  inr (
      subst (λ n. n ≤ workload x) (cost-eq-workload e)
        (subst (λ n. cost e ≤ n) (cost-eq-workload x) c)),
  later cs,
)
compared_by_test e x xs ys false t later cs = (inl t, later cs)

Cheapest-Beats : (e : Entry) (xs : List Entry) → Cheapest e (eligible_entries xs) → All (Beats e) xs
unfolding eligible_entries
Cheapest-Beats e [] c = tt
Cheapest-Beats e (x ∷ xs) c =
    compared_by_test e x xs (eligible_entries xs) (is_eligible x) refl (Cheapest-Beats e xs) c

three_tests : (a b c : Bool) → (a && b && c) ≡ true → (a ≡ true) × (b ≡ true) × (c ≡ true)
three_tests a b c h = ground arith

-- a model of the catalog that has all capabilities, and no other that has them costs less
pub record IsChosen (value now max_age : Value) (e : Entry) : Type 0 where
  pub entries : List Entry
  pub are_read : catalog_entries value now max_age ≡ ok entries
  pub is_listed : Among e entries
  pub is_able : (e.is_structured ≡ true) × (e.is_available ≡ true) × (e.is_classifier ≡ true)
  pub is_cheapest : All (Beats e) entries

module _ (locale_before : String → String → Bool) where
  abbrev pick : Entry → Option Entry → Entry
  pick e none = e
  pick e (some x) = if is_before locale_before x e then x else e

  abbrev least : List Entry → Option Entry
  least [] = none
  least (e ∷ entries) = some (pick e (least entries))

  head-insert :
      (e : Entry) (xs : List Entry) → head (insert locale_before e xs) ≡ some (pick e (head xs))
  unfolding insert
  head-insert e [] = refl
  head-insert e (x ∷ xs) = by_test (is_before locale_before x e) (insert locale_before e xs)
    where
      by_test :
          (b : Bool) (rest : List Entry)
          → head (if b then x ∷ rest else e ∷ x ∷ xs) ≡ some (if b then x else e)
      by_test true rest = refl
      by_test false rest = refl

  head-sort : (xs : List Entry) → head (sort locale_before xs) ≡ least xs
  unfolding sort
  head-sort [] = refl
  head-sort (e ∷ xs) =
      head-insert e (sort locale_before xs) ∙ ap (λ o. some (pick e o)) (head-sort xs)

  first_lem : (xs : List Entry) (e : Entry) → first xs ≡ ok e → head xs ≡ some e
  first_lem [] e h = cc
  first_lem (x ∷ xs) e h = cc

  pick_lem :
      (e z : Entry)
      → ((pick e (some z) ≡ z) × (cost z ≤ cost e)) ⊎ ((pick e (some z) ≡ e) × (cost e ≤ cost z))
  pick_lem e z = ground arith

  some_same : {a b : Entry} → some a ≡ some b → a ≡ b
  some_same h = cc

  least_lem : (xs : List Entry) (e : Entry) → least xs ≡ some e → Among e xs × Cheapest e xs
  least_lem [] e h = cc
  least_lem (x ∷ []) e h =
      subst (λ w. Among w (x ∷ []) × Cheapest w (x ∷ [])) (some_same h)
        (inl refl, (omega arith, tt))
  least_lem (x ∷ y ∷ xs) e h =
      let z = pick y (least xs) in
      let (among, cheapest) = least_lem (y ∷ xs) z refl in
      subst (λ w. Among w (x ∷ y ∷ xs) × Cheapest w (x ∷ y ∷ xs)) (some_same h)
        (elim (pick_lem x z) [
          | inl (p, c) ↦
              subst (λ w. Among w (x ∷ y ∷ xs) × Cheapest w (x ∷ y ∷ xs)) (sym p)
                (inr among, (c, cheapest))
          | inr (p, c) ↦
              subst (λ w. Among w (x ∷ y ∷ xs) × Cheapest w (x ∷ y ∷ xs)) (sym p)
                (inl refl, (omega arith, cheaper x z (y ∷ xs) c cheapest))
        ])

  -- The model that is selected is a model of the fresh catalog, it is available, eligible for
  -- classification and has structured output, and 2000 tokens of input and 128 of output cost no
  -- more with it than with any other model of the catalog that is so, in double arithmetic.
  pub select_model-IsChosen :
      (value now max_age : Value) (e : Entry)
      → select_model locale_before value now max_age ≡ ok e
      → IsChosen value now max_age e
  unfolding select_model
  select_model-IsChosen value now max_age e h =
      after_ok (catalog_entries value now max_age) _ h λ entries read last.
        let candidates = eligible_entries entries in
        let (among, cheapest) =
          least_lem candidates e
            (sym (head-sort candidates) ∙ first_lem (sort locale_before candidates) e last) in
        let (listed, eligible) = eligible_lem e entries among in
        record {
          entries = entries;
          are_read = read;
          is_listed = listed;
          is_able = three_tests e.is_structured e.is_available e.is_classifier eligible;
          is_cheapest = Cheapest-Beats e entries cheapest;
        }
