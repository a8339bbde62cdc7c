-- ===== src/Sql/Decode/Placed.antt =====
-- Each operation that src/frontends/sql/ops creates stands at its place, if its inputs stand before it.
use raksha.Common.{
  ℕ, String, List, [], ◌∷◌, ◌++◌, some, ok, check, die_if_null, length, ◌≡◌, refl, sym, ◌∙◌, arith,
  All, All-append, >>=-eq-ok, ok-injective, subst, length-append, some_of_die_if_null, not, ◌||◌,
  ltb, is_empty, string_eq, some-injective, ap,
}
use raksha.Common.Maps.{find}
use raksha.Ir.Values.{Value}
use raksha.Ir.Attributes.{get_if_int64, string_attribute, int64_attribute, pos}
use raksha.Ir.Modules.{Operator, Operation}
use raksha.Ir.Context.{IrContext, get_operator}
use raksha.Sql.Ops.{
  literal_string_attr_name, control_input_start_index, literal_op, merge_op, tag_transform_op,
  sql_output_op, literal_name, merge_name, tag_transform_name, sql_output_name, is_op,
  get_control_input_start_index, to_size, max_int64,
}
use raksha.Sql.Ops.RoundTrip.{tag_transform_op-eq-ok, created, All-values}
use raksha.Ir.Modules.{make_operator}
use raksha.Sql.Context.Wired.{IsPlaced, IsMade}

module _ (n : ℕ) (c : IrContext) where
  -- The operator that the context returns.
  abbrev Has : String → Type 0
  Has name = get_operator c name ≡ some (make_operator name)

  found_operator :
      (name : String) (op : Operator)
      → Has name
      → die_if_null (get_operator c name) ≡ ok op
      → make_operator name ≡ op
  found_operator name op has h =
      some-injective _ _ (sym has ∙ some_of_die_if_null (get_operator c name) h)

  pub literal_op-IsPlaced :
      (s : String) (o : Operation) → Has literal_name → literal_op n c s ≡ ok o → IsPlaced n o
  unfolding literal_op is_op
  literal_op-IsPlaced s o has h =
      let (op, run, e) = >>=-eq-ok (die_if_null (get_operator c literal_name)) _ h in
      subst (IsPlaced n) (ok-injective e) (
        subst
          (λ op. IsPlaced n (record {
            address = n;
            op = op;
            attributes = (literal_string_attr_name, string_attribute s) ∷ [];
            inputs = [];
          }))
          (found_operator literal_name op has run)
          (record { place = refl; inputs = tt; outputs = refl; merge = λ h. cc }))

  pub sql_output_op-IsPlaced :
      (v : Value) (o : Operation)
      → Has sql_output_name
      → IsMade n v
      → sql_output_op n c v ≡ ok o
      → IsPlaced n o
  unfolding sql_output_op is_op
  sql_output_op-IsPlaced v o has made h =
      let (op, run, e) = >>=-eq-ok (die_if_null (get_operator c sql_output_name)) _ h in
      subst (IsPlaced n) (ok-injective e) (
        subst (λ op. IsPlaced n (record { address = n; op = op; attributes = []; inputs = v ∷ [] }))
          (found_operator sql_output_name op has run)
          (record { place = refl; inputs = (made, tt); outputs = refl; merge = λ h. cc }))

  pub merge_op-IsPlaced :
      (direct control : List Value) (o : Operation)
      → Has merge_name
      → All (IsMade n) direct
      → All (IsMade n) control
      → merge_op n c direct control ≡ ok o
      → IsPlaced n o
  unfolding merge_op is_op get_control_input_start_index find get_if_int64 to_size
  merge_op-IsPlaced direct control o has d k h =
      let (_, _, h1) = >>=-eq-ok (check (not (is_empty direct) || not (is_empty control))) _ h in
      let (_, _, h2) = >>=-eq-ok (check (ltb (length direct) max_int64)) _ h1 in
      let (op, run, e) = >>=-eq-ok (die_if_null (get_operator c merge_name)) _ h2 in
      subst (IsPlaced n) (ok-injective e) (
        subst
          (λ op. IsPlaced n (record {
            address = n;
            op = op;
            attributes = (control_input_start_index, int64_attribute (pos (length direct))) ∷ [];
            inputs = direct ++ control;
          }))
          (found_operator merge_name op has run)
          (record {
            place = refl;
            inputs = All-append _ direct control d k;
            outputs = refl;
            merge = λ _. (length direct, refl, omega (arith, length-append direct control));
          }))

  pub tag_transform_op-IsPlaced :
      (rule_name : String) (v : Value) (preconditions : List (String × Value)) (o : Operation)
      → Has tag_transform_name
      → IsMade n v
      → All (λ p. IsMade n p.1) preconditions
      → tag_transform_op n c rule_name v preconditions ≡ ok o
      → IsPlaced n o
  unfolding is_op
  tag_transform_op-IsPlaced rule_name v preconditions o has made all h =
      let (op, run, is_o, _, _) = tag_transform_op-eq-ok n c rule_name v preconditions o h in
      subst (IsPlaced n) (sym is_o) (
        subst (λ op. IsPlaced n (created n op rule_name v preconditions))
          (some-injective _ _ (sym has ∙ run))
          (record {
            place = refl;
            inputs = (made, All-values _ preconditions all);
            outputs = refl;
            merge = λ h. cc;
          }))

  pub sql_output_op-name :
      (v : Value) (o : Operation)
      → Has sql_output_name
      → sql_output_op n c v ≡ ok o
      → o.op.name ≡ sql_output_name
  unfolding sql_output_op
  sql_output_op-name v o has h =
      let (op, run, e) = >>=-eq-ok (die_if_null (get_operator c sql_output_name)) _ h in
      sym (ap (λ o. o.op.name) (ok-injective e))
      ∙ sym (ap (λ op. op.name) (found_operator sql_output_name op has run))
