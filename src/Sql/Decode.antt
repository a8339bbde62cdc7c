-- ===== src/Sql/Decode.antt =====
-- src/frontends/sql/decode.cc and sql_ir.proto: the expressions of an arena, and their decoding.
pub mod Placed
pub mod Sound
use raksha.Common.{
  ℕ, String, not, List, [], ◌∷◌, Option, none, some, Outcome, ok, fatal, ◌>>=◌, ◌>>◌, check,
  die_if_null, ◌==◌, nat_eq, string_eq, is_empty,
}
use raksha.Ir.Values.{Value, stored_value}
use raksha.Sql.Context.{
  DecoderContext, wrap_operation_result_value, register_value, get_or_create_storage,
  make_literal_operation, make_merge_operation, make_tag_transform_operation,
  make_sql_output_operation,
}

pub record MergeOperation : Type 0 where
  pub inputs : List ℕ
  pub control_inputs : List ℕ

pub record TagTransform : Type 0 where
  pub transformed_node : ℕ
  pub transform_rule_name : String
  pub tag_preconditions : List (String × ℕ)

-- The names of expressions are not read.
pub data Expression : Type 0 where
  expr_variant_not_set : Expression
  source_table_column literal : String → Expression
  merge_operation : MergeOperation → Expression
  tag_transform : TagTransform → Expression

-- A policy rule, which src/frontends/sql/decode_sql_policy_rules.cc reads.
pub data Action : Type 0 where
  unknown add_confidentiality remove_confidentiality add_integrity : Action

pub record Precondition : Type 0 where
  pub argument : String
  pub required_integrity_tag : String

pub record SqlPolicyRule : Type 0 where
  pub name : String
  pub action : Action
  pub tag : String
  pub preconditions : List Precondition

pub record ExpressionArena : Type 0 where
  pub id_expression_pairs : List (ℕ × Expression)
  pub sql_policy_rules : List SqlPolicyRule

unfoldable pub decode_source_table_column :
    String → DecoderContext → Outcome (DecoderContext × Value)
unfolding get_or_create_storage
decode_source_table_column column_path d = do
  check (not (column_path == ""))
  (d, storage) ← get_or_create_storage d column_path
  ok (d, stored_value storage.address)

unfoldable pub decode_literal : String → DecoderContext → Outcome (DecoderContext × Value)
unfolding make_literal_operation
decode_literal literal_str d = do
  check (not (literal_str == ""))
  (d, o) ← make_literal_operation d literal_str
  ok (d, wrap_operation_result_value o)

unfoldable pub decode_merge_operation :
    MergeOperation → DecoderContext → Outcome (DecoderContext × Value)
unfolding make_merge_operation
decode_merge_operation merge d = do
  check (not (is_empty merge.inputs))
  (d, o) ← make_merge_operation d merge.inputs merge.control_inputs
  ok (d, wrap_operation_result_value o)

unfoldable pub decode_tag_transform :
    TagTransform → DecoderContext → Outcome (DecoderContext × Value)
unfolding make_tag_transform_operation
decode_tag_transform transform d = do
  check (not (transform.transformed_node == 0))
  check (not (transform.transform_rule_name == ""))
  (d, o) ←
      make_tag_transform_operation d transform.transformed_node transform.transform_rule_name
        transform.tag_preconditions
  ok (d, wrap_operation_result_value o)

unfoldable pub decode_expression : Expression → DecoderContext → Outcome (DecoderContext × Value)
unfolding decode_source_table_column decode_literal decode_merge_operation decode_tag_transform
decode_expression expr_variant_not_set d = fatal
decode_expression (source_table_column path) d = decode_source_table_column path d
decode_expression (literal s) d = decode_literal s d
decode_expression (merge_operation merge) d = decode_merge_operation merge d
decode_expression (tag_transform transform) d = decode_tag_transform transform d

-- The loop over the pairs, with the value of the last one.
unfoldable pub decode_pairs :
    List (ℕ × Expression) → DecoderContext → Option Value → Outcome (DecoderContext × Option Value)
unfolding decode_expression register_value
decode_pairs [] d top_level_value = ok (d, top_level_value)
decode_pairs ((id, expr) ∷ pairs) d top_level_value = do
  (d, value) ← decode_expression expr d
  d ← register_value d id value
  decode_pairs pairs d (some value)

unfoldable pub decode_expression_arena :
    ExpressionArena → DecoderContext → Outcome (DecoderContext × Value)
unfolding decode_pairs make_sql_output_operation
decode_expression_arena arena d = do
  (d, top_level_value) ← decode_pairs arena.id_expression_pairs d none
  value ← die_if_null top_level_value
  (d, o) ← make_sql_output_operation d value
  ok (d, wrap_operation_result_value o)
