-- ===== src/Sql/Ops.antt =====
-- src/frontends/sql/ops: the operations of the SQL frontend. A `Create` takes the address of the new
-- object.
pub mod RoundTrip
use raksha.Common.{
  ℕ, suc, String, Bool, not, ◌||◌, ◌&&◌, List, [], ◌∷◌, ◌++◌, Outcome, ok, fatal, ◌>>=◌, ◌>>◌,
  check, die_if_null, ltb, leb, length, take, drop, get_elem?, is_empty, ◌==◌, string_eq,
  if◌then◌else◌,
}
use raksha.Common.Maps.{find, try_insert, insert_new}
use raksha.Ir.Values.{Value}
use raksha.Ir.Attributes.{
  ℤ, pos, negsuc, Attribute, int64_attribute, string_attribute, NamedAttributeMap, get_if_int64,
  get_if_string,
}
use raksha.Ir.Modules.{Operation, get_input_value}
use raksha.Ir.Context.{IrContext, get_operator}

abbrev pub literal_name : String
literal_name = "sql.literal"

abbrev pub merge_name : String
merge_name = "sql.merge"

abbrev pub tag_transform_name : String
tag_transform_name = "sql.tag_transform"

abbrev pub sql_output_name : String
sql_output_name = "sql.sql_output"

abbrev pub literal_string_attr_name : String
literal_string_attr_name = "literal_string"

abbrev pub control_input_start_index : String
control_input_start_index = "control_input_start_index"

abbrev pub rule_name_attribute : String
rule_name_attribute = "rule_name"

-- `std::numeric_limits<int64_t>::max()`
abbrev pub max_int64 : ℕ
max_int64 = 9223372036854775807

-- `SqlOp::GetIf` for the operator of a name.
unfoldable pub is_op : String → Operation → Bool
is_op name o = name == o.op.name

unfoldable pub literal_op : ℕ → IrContext → String → Outcome Operation
unfolding get_operator
literal_op address context literal = do
  op ← die_if_null (get_operator context literal_name)
  ok (record {
    address = address;
    op = op;
    attributes = (literal_string_attr_name, string_attribute literal) ∷ [];
    inputs = [];
  })

unfoldable pub get_literal_string : Operation → Outcome String
get_literal_string o = do
  literal ← die_if_null (find o.attributes literal_string_attr_name)
  die_if_null (get_if_string literal)

unfoldable pub merge_op : ℕ → IrContext → List Value → List Value → Outcome Operation
unfolding get_operator
merge_op address context direct_inputs control_inputs = do
  check (not (is_empty direct_inputs) || not (is_empty control_inputs))
  check (ltb (length direct_inputs) max_int64)
  op ← die_if_null (get_operator context merge_name)
  ok (record {
    address = address;
    op = op;
    attributes = (control_input_start_index, int64_attribute (pos (length direct_inputs))) ∷ [];
    inputs = direct_inputs ++ control_inputs;
  })

-- `CHECK(value >= 0)` and the cast to `size_t`.
unfoldable pub to_size : ℤ → Outcome ℕ
to_size (pos n) = ok n
to_size (negsuc n) = fatal

unfoldable pub get_control_input_start_index : Operation → Outcome ℕ
unfolding to_size get_if_int64
get_control_input_start_index o = do
  attribute ← die_if_null (find o.attributes control_input_start_index)
  index ← die_if_null (get_if_int64 attribute)
  to_size index

-- A range past the end of the inputs, which the code does not test for, stops the run.
unfoldable pub get_direct_inputs : Operation → Outcome (List Value)
unfolding get_control_input_start_index
get_direct_inputs o = do
  n ← get_control_input_start_index o
  check (leb n (length o.inputs))
  ok (take n o.inputs)

unfoldable pub get_control_inputs : Operation → Outcome (List Value)
unfolding get_control_input_start_index
get_control_inputs o = do
  n ← get_control_input_start_index o
  check (leb n (length o.inputs))
  ok (drop n o.inputs)

-- The loop over the preconditions, the next one being the input at `index`.
unfoldable pub add_preconditions :
    ℕ
    → List (String × Value)
    → NamedAttributeMap
    → List Value
    → Outcome (NamedAttributeMap × List Value)
add_preconditions index [] attributes inputs = ok (attributes, inputs)
add_preconditions index ((name, value) ∷ preconditions) attributes inputs = do
  attributes' ← insert_new attributes name (int64_attribute (pos index))
  add_preconditions (suc index) preconditions attributes' (inputs ++ value ∷ [])

unfoldable pub tag_transform_op :
    ℕ → IrContext → String → Value → List (String × Value) → Outcome Operation
unfolding add_preconditions get_operator
tag_transform_op address context rule_name transformed_value preconditions = do
  check (ltb (length preconditions) max_int64)
  (attributes, inputs) ←
      add_preconditions 1 preconditions ((rule_name_attribute, string_attribute rule_name) ∷ [])
        (transformed_value ∷ [])
  op ← die_if_null (get_operator context tag_transform_name)
  ok (record { address = address; op = op; attributes = attributes; inputs = inputs })

unfoldable pub get_transformed_value_index : Operation → Outcome ℕ
get_transformed_value_index o = do check (not (is_empty o.inputs)); ok 0

unfoldable pub get_transformed_value : Operation → Outcome Value
unfolding get_transformed_value_index
get_transformed_value o = do i ← get_transformed_value_index o; get_input_value o i

-- The index that the attribute of a precondition gives, behind its bounds check. The size is cast to
-- a signed number, which is negative from 2 ^ 63 on.
unfoldable pub precondition_index : ℕ → Attribute → Outcome ℕ
unfolding get_if_int64
precondition_index size attribute = do
  value ← die_if_null (get_if_int64 attribute)
  elim value [
    | pos i ↦ (do check (leb 1 i && ltb i size && leb size max_int64); ok i)
    | negsuc i ↦ fatal
  ]

unfoldable pub add_precondition_indices :
    ℕ → NamedAttributeMap → List (String × ℕ) → Outcome (List (String × ℕ))
unfolding precondition_index
add_precondition_indices size [] result = ok result
add_precondition_indices size ((name, attribute) ∷ attributes) result =
    let here = precondition_index size attribute in
    let skip = add_precondition_indices size attributes result in
    if name == rule_name_attribute
    then skip
    else (here >>= λ i. add_precondition_indices size attributes (try_insert result name i))

unfoldable pub get_precondition_input_indices : Operation → Outcome (List (String × ℕ))
unfolding add_precondition_indices
get_precondition_input_indices o = add_precondition_indices (length o.inputs) o.attributes []

-- `input_values[input_index]`
unfoldable pub values_at : List Value → List (String × ℕ) → Outcome (List (String × Value))
values_at inputs [] = ok []
values_at inputs ((name, i) ∷ indices) = do
  value ← die_if_null (get_elem? inputs i)
  rest ← values_at inputs indices
  ok ((name, value) ∷ rest)

unfoldable pub get_preconditions : Operation → Outcome (List (String × Value))
unfolding get_precondition_input_indices values_at
get_preconditions o = do indices ← get_precondition_input_indices o; values_at o.inputs indices

unfoldable pub get_rule_name : Operation → Outcome String
unfolding get_if_string
get_rule_name o = do
  attribute ← die_if_null (find o.attributes rule_name_attribute)
  die_if_null (get_if_string attribute)

unfoldable pub sql_output_op : ℕ → IrContext → Value → Outcome Operation
unfolding get_operator
sql_output_op address context value = do
  op ← die_if_null (get_operator context sql_output_name)
  ok (record { address = address; op = op; attributes = []; inputs = value ∷ [] })
