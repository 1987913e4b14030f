-- ===== src/Capabilities/Counting.antt =====
-- The counts of `snapshot` of src/capabilities.ts are those of the copy that it returns.
use Prim.Native.Char.{code}
use Prim.Native.String.{◌++◌}
use text.Mathlib.TextLemmas.{nil-append, cons-append}
use agentmixer.Prelude.{
  ℕ, zero, suc, ◌+◌, ◌≤◌, String, ◌≡◌, refl, ap, Bool, true, false, List, [], ◌∷◌, arith, leb, not,
  any, nat_eq, length, ◌&&◌, Bool-cases, inl, inr,
}
use agentmixer.Prelude.Result.{Result, ok, err, ok_injective}
use agentmixer.Prelude.Exec.{Exec, ◌>>=◌, proceed, assert}
use agentmixer.Validation.Data.{
  Value, Items, nil, hole, item, field, enumerable, Fields, end, Number, Proto, plain, exotic,
}
use agentmixer.Validation.{byte_length}
use agentmixer.Capabilities.Json.{
  Budget, Snapshot, add, count_node, Property, properties, sorted, add_comma, comma_text, max_nodes,
  max_depth, max_array_items, max_object_keys, item_count, index_count, is_data, is_symbolic,
  visit_items, visit_fields, visit_array, visit_object, visit_value, leaf, visit, snapshot,
}

byte_length-append : (s t : String) → byte_length (s ++ t) ≡ byte_length s + byte_length t
unfolding byte_length
byte_length-append String.[] t = rw (nil-append t) (omega arith)
byte_length-append (String.◌∷◌ c s) t =
    rw (cons-append c s t) (omega (arith, byte_length-append s t))

no_bytes : 0 ≡ byte_length ""
unfolding byte_length
no_bytes = refl

-- the text between two brackets
bracketed :
    (open_text text close_text : String)
    → byte_length (open_text ++ (text ++ close_text))
      ≡ (byte_length open_text + byte_length text) + byte_length close_text
bracketed open_text text close_text =
    omega
      (arith, byte_length-append open_text (text ++ close_text), byte_length-append text close_text)

module _ (quote : String → String) (show_number : Number → String) (maximum : ℕ) where
  -- `n` bytes of text were added on the way from one budget to another, within the limits
  record IsCounted (b : Budget) (n : ℕ) (c : Budget) : Type 0 where
    bytes : c.bytes ≡ b.bytes + n
    within : b.bytes ≤ maximum → c.bytes ≤ maximum
    nodes : b.nodes ≤ max_nodes → c.nodes ≤ max_nodes

  -- the outcome, if it is a value, has added the bytes that the value has
  Counts : {A : Type 0} → (A → ℕ) → Budget → Result A × Budget → Type 0
  Counts size b (ok a, c) = IsCounted b (size a) c
  Counts size b (err e, c) = Unit {0}

  add_lem : (text : String) (b : Budget) → Counts byte_length b (add maximum text b)
  unfolding add Counts
  add_lem text b = elim (Bool-cases (leb (b.bytes + byte_length text) maximum)) [
    | inl fits ↦ rw fits (record { bytes = refl; within = λ h. ground arith; nodes = λ h. h })
    | inr over ↦ rw over tt
  ]

  start-IsCounted : (b : Budget) → IsCounted b 0 b
  start-IsCounted b = record { bytes = omega arith; within = λ h. h; nodes = λ h. h }

  -- A block that has added `n` bytes goes on with what its next step adds.
  step-Counts :
      {A B : Type 0} (size : A → ℕ) (whole : B → ℕ) (m : Exec Budget A) (f : A → Exec Budget B)
      (b c : Budget) (n : ℕ)
      → IsCounted b n c
      → Counts size c (m c)
      → ((a : A) (d : Budget) → IsCounted b (n + size a) d → Counts whole b (f a d))
      → Counts whole b ((m >>= f) c)
  unfolding Counts
  step-Counts {A = A} {B = B} size whole m f b c n before next rest = go (m c) next
    where
      go :
          (o : Result A × Budget)
          → Counts size c o
          → Counts whole b (proceed {S = Budget} {A = A} {B = B} o f)
      go (ok a, d) h = rest a d record {
        bytes = omega (arith, before.bytes, h.bytes);
        within = λ fits. h.within (before.within fits);
        nodes = λ few. h.nodes (before.nodes few);
      }
      go (err e, d) h = tt

  -- counting from a budget to which nothing has been added
  resume-Counts :
      {A : Type 0} (size : A → ℕ) (b c : Budget) (n : ℕ) (o : Result A × Budget)
      → IsCounted b n c
      → n ≡ 0
      → Counts size c o
      → Counts size b o
  unfolding Counts
  resume-Counts size b c n (ok a, d) h none_yet k = record {
    bytes = omega (arith, h.bytes, k.bytes, none_yet);
    within = λ fits. k.within (h.within fits);
    nodes = λ few. k.nodes (h.nodes few);
  }
  resume-Counts size b c n (err e, d) h none_yet k = tt

  -- a check adds nothing
  assert_lem :
      (test : Bool) (code : String) (b : Budget)
      → Counts (λ (u : Unit {0}). 0) b (assert test code b)
  unfolding Counts
  assert_lem true code b = start-IsCounted b
  assert_lem false code b = tt

  -- A block that starts with a check counts as what follows the check does.
  after_assert :
      {B : Type 0} (whole : B → ℕ) (test : Bool) (code : String) (f : Unit {0} → Exec Budget B)
      (b : Budget)
      → Counts whole b (f tt b)
      → Counts whole b ((assert test code >>= f) b)
  unfolding Counts
  after_assert whole true code f b h = h
  after_assert whole false code f b h = tt

  done-Counts :
      {A : Type 0} (whole : A → ℕ) (a : A) (b c : Budget) (n : ℕ)
      → IsCounted b n c
      → n ≡ whole a
      → Counts whole b (ok a, c)
  unfolding Counts
  done-Counts whole a b c n h e = record {
    bytes = omega (arith, h.bytes, e);
    within = h.within;
    nodes = h.nodes;
  }

  add_text :
      (text : String) (b : Budget)
      → Counts (λ (written : String). byte_length text) b (add maximum text b)
  unfolding add Counts
  add_text text b = elim (Bool-cases (leb (b.bytes + byte_length text) maximum)) [
    | inl fits ↦ rw fits (record { bytes = refl; within = λ h. ground arith; nodes = λ h. h })
    | inr over ↦ rw over tt
  ]

  comma_size : Bool → ℕ
  comma_size true = 0
  comma_size false = byte_length ","

  comma_lem :
      (first : Bool) (b : Budget)
      → Counts (λ (u : Unit {0}). comma_size first) b (add_comma maximum first b)
  unfolding comma_size
  comma_lem true b = done-Counts (λ u. 0) tt b b 0 (start-IsCounted b) refl
  comma_lem false b =
      step-Counts (λ written. byte_length ",") (λ u. byte_length ",") (add maximum ",") _ b b 0
        (start-IsCounted b) (add_text "," b)
        λ written c h. done-Counts (λ u. byte_length ",") tt b c _ h (omega arith)

  comma_text_size :
      (first : Bool) (text : String)
      → byte_length (comma_text first text) ≡ comma_size first + byte_length text
  unfolding comma_size
  comma_text_size true text = omega arith
  comma_text_size false text = byte_length-append "," text

  size_of : Snapshot → ℕ
  size_of s = byte_length s.text

  IsCounter : (Value → Exec Budget Snapshot) → Type 0
  IsCounter visitor = (v : Value) (b : Budget) → Counts size_of b (visitor v b)

  leaf_lem :
      (v : Value) (text : String) (b : Budget)
      → Counts size_of b (leaf quote show_number maximum v text b)
  unfolding leaf
  leaf_lem v text b =
      step-Counts byte_length size_of (add maximum text) _ b b 0 (start-IsCounted b)
        (add_lem text b)
        λ written c h.
          done-Counts size_of (record { value = v; text = written }) b c _ h
            (unfold size_of in omega arith)

  items_lem :
      (visitor : Value → Exec Budget Snapshot)
      → IsCounter visitor
      → (first : Bool) (values : Items) (b : Budget)
      → Counts
          (λ (copy : Items × String). byte_length copy.1)
          b
          (visit_items quote show_number maximum visitor first values b)
  unfolding visit_items IsCounter
  items_lem visitor counter first nil b =
      done-Counts (λ (copy : Items × String). byte_length copy.1) (nil, "") b b 0
        (start-IsCounted b) no_bytes
  items_lem visitor counter first (hole rest) b = unfold Counts in tt
  items_lem visitor counter first (item a v rest) b =
      after_assert (λ (copy : Items × String). byte_length copy.1) (is_data a)
        "CAPABILITY_JSON_INVALID" _ b
        (step-Counts (λ u. comma_size first) _ (add_comma maximum first) _ b b 0 (start-IsCounted b)
          (comma_lem first b)
          λ u c h. step-Counts size_of _ (visitor v) _ b c _ h (counter v c) λ next d k.
            step-Counts (λ (copy : Items × String). byte_length copy.1) _
              (visit_items quote show_number maximum visitor false rest) _ b d _ k
              (items_lem visitor counter false rest d)
              λ others e l.
                done-Counts (λ (copy : Items × String). byte_length copy.1)
                  (item enumerable next.value others.0, comma_text first next.text ++ others.1) b e
                  _ l
                  (unfold size_of in
                    omega (
                      arith,
                      byte_length-append (comma_text first next.text) others.1,
                      comma_text_size first next.text,
                    )))

  fields_lem :
      (visitor : Value → Exec Budget Snapshot)
      → IsCounter visitor
      → (first : Bool) (own : List Property) (b : Budget)
      → Counts
          (λ (copy : Fields × String). byte_length copy.1)
          b
          (visit_fields quote show_number maximum visitor first own b)
  unfolding visit_fields IsCounter
  fields_lem visitor counter first [] b =
      done-Counts (λ (copy : Fields × String). byte_length copy.1) (end, "") b b 0
        (start-IsCounted b) no_bytes
  fields_lem visitor counter first (p ∷ ps) b =
      after_assert (λ (copy : Fields × String). byte_length copy.1) (is_data p.attr)
        "CAPABILITY_JSON_INVALID" _ b
        (after_assert (λ (copy : Fields × String). byte_length copy.1)
          (leb (byte_length p.key) 1024) "CAPABILITY_JSON_LIMIT" _ b
          (step-Counts (λ u. comma_size first) _ (add_comma maximum first) _ b b 0
            (start-IsCounted b) (comma_lem first b)
            λ u c h.
              step-Counts byte_length _ (add maximum (quote p.key)) _ b c _ h
                (add_lem (quote p.key) c)
                λ encoded d k.
                  step-Counts (λ written. byte_length ":") _ (add maximum ":") _ b d _ k
                    (add_text ":" d)
                    λ colon e l.
                      step-Counts size_of _ (visitor p.value) _ b e _ l (counter p.value e)
                        λ next f m.
                          step-Counts (λ (copy : Fields × String). byte_length copy.1) _
                            (visit_fields quote show_number maximum visitor false ps) _ b f _ m
                            (fields_lem visitor counter false ps f)
                            λ others g n.
                              done-Counts (λ (copy : Fields × String). byte_length copy.1)
                                (
                                  field p.key enumerable next.value others.0,
                                  comma_text first (encoded ++ (":" ++ next.text)) ++ others.1,
                                )
                                b g _ n
                                (unfold size_of in
                                  omega (
                                    arith,
                                    byte_length-append
                                        (comma_text first (encoded ++ (":" ++ next.text))) others.1,
                                    comma_text_size first (encoded ++ (":" ++ next.text)),
                                    byte_length-append encoded (":" ++ next.text),
                                    byte_length-append ":" next.text,
                                  ))))

  array_lem :
      (visitor : Value → Exec Budget Snapshot)
      → IsCounter visitor
      → (p : Proto) (values : Items) (b : Budget)
      → Counts size_of b (visit_array quote show_number maximum visitor p values b)
  unfolding visit_array
  array_lem visitor counter exotic values b = unfold Counts in tt
  array_lem visitor counter plain values b =
      after_assert size_of
        (leb (item_count values) max_array_items && nat_eq (index_count values) (item_count values))
        "CAPABILITY_JSON_LIMIT" _ b
        (step-Counts (λ written. byte_length "[") _ (add maximum "[") _ b b 0 (start-IsCounted b)
          (add_text "[" b)
          λ left c h.
            step-Counts (λ (copy : Items × String). byte_length copy.1) _
              (visit_items quote show_number maximum visitor true values) _ b c _ h
              (items_lem visitor counter true values c)
              λ copy d k.
                step-Counts (λ written. byte_length "]") _ (add maximum "]") _ b d _ k
                  (add_text "]" d)
                  λ right e l.
                    done-Counts size_of
                      (record { value = Value.array plain copy.0; text = "[" ++ (copy.1 ++ "]") }) b
                      e _ l (unfold size_of in omega (arith, bracketed "[" copy.1 "]")))

  object_lem :
      (visitor : Value → Exec Budget Snapshot)
      → IsCounter visitor
      → (p : Proto) (fields : Fields) (b : Budget)
      → Counts size_of b (visit_object quote show_number maximum visitor p fields b)
  unfolding visit_object
  object_lem visitor counter exotic fields b = unfold Counts in tt
  object_lem visitor counter plain fields b =
      after_assert size_of (not (any is_symbolic (properties fields))) "CAPABILITY_JSON_INVALID" _ b
        (after_assert size_of (leb (length (properties fields)) max_object_keys)
          "CAPABILITY_JSON_LIMIT" _ b
          (step-Counts (λ written. byte_length "{") _ (add maximum "{") _ b b 0 (start-IsCounted b)
            (add_text "{" b)
            λ left c h.
              step-Counts (λ (copy : Fields × String). byte_length copy.1) _
                (visit_fields quote show_number maximum visitor true (sorted (properties fields))) _
                b c _ h (fields_lem visitor counter true (sorted (properties fields)) c)
                λ copy d k.
                  step-Counts (λ written. byte_length "}") _ (add maximum "}") _ b d _ k
                    (add_text "}" d)
                    λ right e l.
                      done-Counts size_of
                        (record {
                          value = Value.object plain copy.0;
                          text = "{" ++ (copy.1 ++ "}");
                        })
                        b e _ l (unfold size_of in omega (arith, bracketed "{" copy.1 "}"))))

  value_lem :
      (visitor : Value → Exec Budget Snapshot)
      → IsCounter visitor
      → (v : Value) (b : Budget)
      → Counts size_of b (visit_value quote show_number maximum visitor v b)
  unfolding visit_value Counts
  value_lem visitor counter Value.undefined b = tt
  value_lem visitor counter Value.null b = leaf_lem Value.null "null" b
  value_lem visitor counter (Value.boolean true) b = leaf_lem (Value.boolean true) "true" b
  value_lem visitor counter (Value.boolean false) b = leaf_lem (Value.boolean false) "false" b
  value_lem visitor counter (Value.number (Number.finite s m e)) b = leaf_lem _ _ b
  value_lem visitor counter (Value.number (Number.infinite s)) b = tt
  value_lem visitor counter (Value.number Number.nan) b = tt
  value_lem visitor counter (Value.string s) b = elim (Bool-cases (leb (byte_length s) maximum)) [
    | inl fits ↦ rw fits (leaf_lem (Value.string s) (quote s) b)
    | inr over ↦ rw over tt
  ]
  value_lem visitor counter (Value.array p values) b = array_lem visitor counter p values b
  value_lem visitor counter (Value.object p fields) b = object_lem visitor counter p fields b
  value_lem visitor counter Value.opaque b = tt

  node_lem : (b : Budget) → Counts (λ (u : Unit {0}). 0) b (count_node b)
  unfolding count_node Counts
  node_lem b = elim (Bool-cases (leb (b.nodes + 1) max_nodes)) [
    | inl fits ↦
        rw fits (record { bytes = omega arith; within = λ h. h; nodes = λ h. ground arith })
    | inr over ↦ rw over tt
  ]

  visit_lem :
      (levels : ℕ) (v : Value) (b : Budget)
      → Counts size_of b (visit quote show_number maximum levels v b)
  unfolding visit IsCounter
  visit_lem zero v b = unfold Counts in tt
  visit_lem (suc levels) v b =
      step-Counts (λ u. 0) size_of count_node _ b b 0 (start-IsCounted b) (node_lem b)
        λ u c h.
          resume-Counts size_of b c _ _ h (omega arith)
            (value_lem (visit quote show_number maximum levels) (λ w d. visit_lem levels w d) v c)

  -- The text of a copy that `snapshot` makes has at most the bytes that were allowed.
  pub snapshot_bounded :
      (input : Value) (s : Snapshot)
      → snapshot quote show_number maximum input ≡ ok s
      → byte_length s.text ≤ maximum
  unfolding snapshot size_of Counts
  snapshot_bounded input s h =
      go (visit quote show_number maximum (suc max_depth) input empty)
        (visit_lem (suc max_depth) input empty) h
    where
      empty : Budget
      empty = record { nodes = 0; bytes = 0 }

      go :
          (o : Result Snapshot × Budget)
          → Counts size_of (record { nodes = 0; bytes = 0 }) o
          → o.0 ≡ ok s
          → byte_length s.text ≤ maximum
      go (ok a, c) counted is =
          let same : a ≡ s = ok_injective is in
          omega (
            arith,
            counted.bytes,
            counted.within (omega arith),
            ap (λ (x : Snapshot). byte_length x.text) same,
          )
      go (err e, c) counted is = cc
