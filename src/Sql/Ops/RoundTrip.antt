-- ===== src/Sql/Ops/RoundTrip.antt =====
-- What src/frontends/sql/ops/merge_op.cc and tag_transform_op.cc read back from the operations that they
-- create.
use raksha.Common.{
  All, ap₂, some_of_die_if_null, ℕ, suc, ◌+◌, ◌≤◌, ◌<◌, String, true, false, not, ◌||◌, ◌&&◌, List,
  [], ◌∷◌, ◌++◌, map, none, some, ok, check, die_if_null, ltb, leb, length, is_empty, ◌==◌,
  string_eq, ◌≡◌, refl, sym, ◌∙◌, ap, arith, append_assoc, append-nil, length-append, length-map,
  take-append, drop-append, get_elem?-append_length, >>=-eq-ok, ok-injective, true_of_check, subst,
  beq_refl,
}
use raksha.Common.Maps.{
  find, insert_new, keys, contains-keys_of_find, find_of_contains-keys, try_insert-append,
  keys-append, insert_new-eq-ok,
}
use raksha.Common.Sets.{contains}
use raksha.Ir.Values.{Value}
use raksha.Ir.Attributes.{
  pos, int64_attribute, string_attribute, NamedAttributeMap, get_if_int64, get_if_string,
}
use raksha.Ir.Modules.{Operator, Operation, get_input_value}
use raksha.Ir.Context.{IrContext, get_operator}
use raksha.Sql.Ops.{
  merge_op, get_direct_inputs, get_control_inputs, get_control_input_start_index, to_size,
  tag_transform_op, add_preconditions, precondition_index, add_precondition_indices,
  get_precondition_input_indices, values_at, get_preconditions, get_rule_name,
  get_transformed_value, get_transformed_value_index, max_int64, rule_name_attribute,
  tag_transform_name, merge_name,
}

-- A merge that is created gives back its direct inputs and its control inputs, and has at least one
-- input.
pub merge_op-inputs :
    (address : ℕ) (context : IrContext) (direct_inputs control_inputs : List Value) (o : Operation)
    → merge_op address context direct_inputs control_inputs ≡ ok o
    → (get_direct_inputs o ≡ ok direct_inputs)
      × (get_control_inputs o ≡ ok control_inputs)
      × ((is_empty direct_inputs && is_empty control_inputs) ≡ false)
unfolding merge_op get_direct_inputs get_control_inputs get_control_input_start_index find
    get_if_int64 to_size
merge_op-inputs address context direct_inputs control_inputs o h =
    let (_, some_input, h1) =
      >>=-eq-ok (check (not (is_empty direct_inputs) || not (is_empty control_inputs))) _ h in
    let (_, fits, h2) = >>=-eq-ok (check (ltb (length direct_inputs) max_int64)) _ h1 in
    let (op, _, h3) = >>=-eq-ok (die_if_null (get_operator context merge_name)) _ h2 in
    let in_range : leb (length direct_inputs) (length (direct_inputs ++ control_inputs)) ≡ true =
      ground (arith, length-append direct_inputs control_inputs) in
    let given = true_of_check _ some_input in
    rw (sym (ok-injective h3)) (
      rw in_range (ap ok (take-append direct_inputs control_inputs)),
      rw in_range (ap ok (drop-append direct_inputs control_inputs)),
      ground (arith, given),
    )

-- The names of preconditions are distinct, and differ from those that were seen.
abbrev pub Distinct : List String → List (String × Value) → Type 0
Distinct seen [] = Unit
Distinct seen ((name, _) ∷ ps) = (contains seen name ≡ false) × Distinct (seen ++ name ∷ []) ps

-- The attributes and the indices of preconditions, from an index on.
pub indexed : ℕ → List (String × Value) → NamedAttributeMap
indexed i [] = []
indexed i ((name, _) ∷ ps) = (name, int64_attribute (pos i)) ∷ indexed (suc i) ps

indices : ℕ → List (String × Value) → List (String × ℕ)
indices i [] = []
indices i ((name, _) ∷ ps) = (name, i) ∷ indices (suc i) ps

pub values : List (String × Value) → List Value
values = map (λ p. p.1)

add_preconditions_lem :
    (i : ℕ) (ps : List (String × Value)) (attributes attributes' : NamedAttributeMap)
    (inputs inputs' : List Value)
    → add_preconditions i ps attributes inputs ≡ ok (attributes', inputs')
    → Distinct (keys attributes) ps
      × (attributes' ≡ attributes ++ indexed i ps)
      × (inputs' ≡ inputs ++ values ps)
unfolding add_preconditions indexed values
add_preconditions_lem i [] attributes attributes' inputs inputs' h =
    let same = ok-injective h in
    (
      tt,
      sym (ap (λ r. r.0) same) ∙ sym (append-nil attributes),
      sym (ap (λ r. r.1) same) ∙ sym (append-nil inputs),
    )
add_preconditions_lem i ((name, value) ∷ ps) attributes attributes' inputs inputs' h =
    let (mid, inserted, rest) =
      >>=-eq-ok (insert_new attributes name (int64_attribute (pos i))) _ h in
    let (new, is_mid) = insert_new-eq-ok attributes mid name (int64_attribute (pos i)) inserted in
    let (distinct, all, ins) =
      add_preconditions_lem (suc i) ps mid attributes' (inputs ++ value ∷ []) inputs' rest in
    let names : keys mid ≡ keys attributes ++ name ∷ [] = rw is_mid (keys-append attributes _) in
    (
      (contains-keys_of_find attributes name new, subst (λ seen. Distinct seen ps) names distinct),
      all ∙ ap (λ m. m ++ indexed (suc i) ps) is_mid ∙ append_assoc attributes _ _,
      ins ∙ append_assoc inputs _ _,
    )

precondition_index_pos :
    (size i : ℕ)
    → 1 ≤ i
    → i < size
    → size ≤ max_int64
    → precondition_index size (int64_attribute (pos i)) ≡ ok i
unfolding precondition_index get_if_int64
precondition_index_pos size i low high small =
    let in_range : (leb 1 i && ltb i size && leb size max_int64) ≡ true = ground arith in
    rw in_range refl

-- The reader finds the indices again, however many it has found before.
add_precondition_indices_lem :
    (size i : ℕ) (ps : List (String × Value)) (result : List (String × ℕ))
    → Distinct (rule_name_attribute ∷ keys result) ps
    → 1 ≤ i
    → i + length ps ≤ size
    → size ≤ max_int64
    → add_precondition_indices size (indexed i ps) result ≡ ok (result ++ indices i ps)
unfolding add_precondition_indices indexed indices contains
add_precondition_indices_lem size i [] result d low high small = rw append-nil refl
add_precondition_indices_lem size i ((name, value) ∷ ps) result (new, d) low high small =
    let other : (name == rule_name_attribute) ≡ false = ground (
      arith,
      new,
      string_eq.beq_iff name rule_name_attribute,
      string_eq.beq_iff rule_name_attribute name,
    ) in
    let unseen : find result name ≡ none =
      find_of_contains-keys result name (ground (arith, new)) in
    let rest =
      add_precondition_indices_lem size (suc i) ps (result ++ (name, i) ∷ [])
        (subst (λ seen. Distinct (rule_name_attribute ∷ seen) ps) (sym (keys-append result _)) d)
        (omega arith) (omega arith) small in
    rw
      (
        other,
        precondition_index_pos size i low (omega arith) small,
        try_insert-append result name i unseen,
      )
      (rest ∙ ap ok (append_assoc result _ _))

values_at-indices :
    (before : List Value) (ps : List (String × Value))
    → values_at (before ++ values ps) (indices (length before) ps) ≡ ok ps
unfolding values_at values indices
values_at-indices before [] = refl
values_at-indices before ((name, value) ∷ ps) =
    let shorter : length (before ++ value ∷ []) ≡ suc (length before) =
      omega (arith, length-append before (value ∷ [])) in
    let rest : values_at (before ++ value ∷ values ps) (indices (suc (length before)) ps) ≡ ok ps =
      subst (λ n. values_at (before ++ value ∷ values ps) (indices n ps) ≡ ok ps) shorter
        (subst (λ xs. values_at xs (indices (length (before ++ value ∷ [])) ps) ≡ ok ps)
          (append_assoc before (value ∷ []) (values ps))
          (values_at-indices (before ++ value ∷ []) ps)) in
    rw (get_elem?-append_length before value (values ps), rest) refl

-- The operation that is created.
abbrev pub created : ℕ → Operator → String → Value → List (String × Value) → Operation
created address op rule_name transformed_value preconditions = record {
  address = address;
  op = op;
  attributes = (rule_name_attribute, string_attribute rule_name) ∷ indexed 1 preconditions;
  inputs = transformed_value ∷ values preconditions;
}

pub tag_transform_op-eq-ok :
    (address : ℕ) (context : IrContext) (rule_name : String) (transformed_value : Value)
    (preconditions : List (String × Value)) (o : Operation)
    → tag_transform_op address context rule_name transformed_value preconditions ≡ ok o
    → (op : Operator) × (get_operator context tag_transform_name ≡ some op)
      × (o ≡ created address op rule_name transformed_value preconditions)
      × Distinct (rule_name_attribute ∷ []) preconditions
      × (length preconditions < max_int64)
unfolding tag_transform_op
tag_transform_op-eq-ok address context rule_name transformed_value preconditions o h =
    let (_, small, h1) = >>=-eq-ok (check (ltb (length preconditions) max_int64)) _ h in
    let ((attributes, inputs), run, h2) =
      >>=-eq-ok
        (add_preconditions 1 preconditions ((rule_name_attribute, string_attribute rule_name) ∷ [])
          (transformed_value ∷ []))
        _ h1 in
    let (op, found, h3) = >>=-eq-ok (die_if_null (get_operator context tag_transform_name)) _ h2 in
    let (distinct, is_attributes, is_inputs) =
      add_preconditions_lem 1 preconditions _ attributes (transformed_value ∷ []) inputs run in
    let less = true_of_check _ small in
    (
      op,
      some_of_die_if_null _ found,
      sym (ok-injective h3)
          ∙ ap₂ (λ a i. record { address = address; op = op; attributes = a; inputs = i })
              is_attributes is_inputs,
      distinct,
      ground (arith, less),
    )

get_preconditions-created :
    (address : ℕ) (op : Operator) (rule_name : String) (transformed_value : Value)
    (preconditions : List (String × Value))
    → Distinct (rule_name_attribute ∷ []) preconditions
    → length preconditions < max_int64
    → get_preconditions (created address op rule_name transformed_value preconditions)
      ≡ ok preconditions
unfolding get_preconditions get_precondition_input_indices values indices
get_preconditions-created address op rule_name transformed_value preconditions distinct small =
    let size = suc (length (map (λ p. p.1) preconditions)) in
    let is_size : size ≡ suc (length preconditions) =
      ap suc (length-map (λ p. p.1) preconditions) in
    let found : add_precondition_indices size (indexed 1 preconditions) []
        ≡ ok (indices 1 preconditions) =
      add_precondition_indices_lem size 1 preconditions [] distinct (omega arith) (omega arith)
        (omega arith) in
    let first : add_precondition_indices size
          ((rule_name_attribute, string_attribute rule_name) ∷ indexed 1 preconditions) []
        ≡ ok (indices 1 preconditions) =
      unfold add_precondition_indices in rw (beq_refl rule_name_attribute) found in
    rw first (values_at-indices (transformed_value ∷ []) preconditions)

-- A tag transform that is created gives back its rule name, the transformed value, and the
-- preconditions with their names.
pub tag_transform_op-inputs :
    (address : ℕ) (context : IrContext) (rule_name : String) (transformed_value : Value)
    (preconditions : List (String × Value)) (o : Operation)
    → tag_transform_op address context rule_name transformed_value preconditions ≡ ok o
    → (get_rule_name o ≡ ok rule_name)
      × (get_transformed_value o ≡ ok transformed_value)
      × (get_preconditions o ≡ ok preconditions)
unfolding get_rule_name get_transformed_value get_transformed_value_index get_input_value find
    get_if_string
tag_transform_op-inputs address context rule_name transformed_value preconditions o h =
    let (op, _, is_o, distinct, small) =
      tag_transform_op-eq-ok address context rule_name transformed_value preconditions o h in
    rw is_o (
      refl,
      refl,
      get_preconditions-created address op rule_name transformed_value preconditions distinct small,
    )

pub All-values :
    (P : Value → Type 0) (ps : List (String × Value)) → All (λ p. P p.1) ps → All P (values ps)
unfolding values
All-values P [] all = tt
All-values P (p ∷ ps) (h, all) = (h, All-values P ps all)
