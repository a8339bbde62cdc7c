-- ===== src/Tests/Sql.antt =====
-- A query of src/frontends/sql that merges two columns, and declares the result to be trusted if the
-- merge is.
use raksha.Common.Text.{to_string}
use raksha.Taint.Builder.{
  get_or_create_tag_id, make_builder, mark_operation_as_action, add_output_rules_for_action, build,
}
use raksha.Analysis.Fixpoint.{find_operation}
use raksha.Sql.Analysis.{sql_analysis_total}
use raksha.Tests.Programs.{begin_of, begin_of_member}
use raksha.Sql.PolicyRules.InRange.{NamesInRange, decode_sql_policy_rules-NamesInRange}
use raksha.Sql.Decode.Sound.{decode_expression_arena-Wired}
use raksha.Sql.Ops.RoundTrip.{merge_op-inputs, tag_transform_op-inputs}
use raksha.Policy.Checker.{ValueStateMap, compute_ifc_tags}
use raksha.Sql.Context.Wired.{Wired, block_of}
use raksha.Sql.PolicyRules.{decode_sql_policy_rules, union_itag_rule}
use raksha.Common.Maps.{insert_new, find, assign}
use raksha.Common.{ℕ, List, [], ◌∷◌, ◌++◌, false, Option, some, ok, ◌≡◌, refl, All, arith}
use raksha.Ir.BlockBuilder.{make_block_builder}
use raksha.Ir.Types.{make_primitive_type}
use raksha.Ir.Modules.{make_module}
use raksha.Ir.Values.{operation_result, stored_value}
use raksha.Ir.Attributes.{string_attribute, int64_attribute, pos}
use raksha.Ir.Modules.{Operation, Module, operations_of, operations_of_blocks, get_input_value}
use raksha.Ir.Context.{IrContext, make_ir_context}
use raksha.Taint.Rules.{
  InferenceRules, merge_integrity_tags, MergeKind, copy_input, modify_tag, ModifyKind,
}
use raksha.Sql.Ops.{
  merge_name, merge_op, control_input_start_index, get_direct_inputs, get_rule_name, literal_name,
  sql_output_name, tag_transform_name, get_control_inputs, get_transformed_value,
  rule_name_attribute, get_preconditions, is_op, get_control_input_start_index,
  get_precondition_input_indices, tag_transform_op,
}
use raksha.Sql.Context.{
  DecoderContext, build_top_level_block, make_decoder_context, wrap_operation_result_value,
}
use raksha.Ir.Modules.{make_operator}
use raksha.Sql.Decode.{
  ExpressionArena, source_table_column, merge_operation, tag_transform, decode_expression_arena,
  Action,
}

abbrev arena : ExpressionArena
arena = record {
  id_expression_pairs =
      (1, source_table_column "t.a")
      ∷ (2, source_table_column "t.b")
      ∷ (3, merge_operation (record { inputs = 1 ∷ 2 ∷ []; control_inputs = 2 ∷ [] }))
      ∷ (
        4,
        tag_transform (record {
          transformed_node = 3;
          transform_rule_name = union_itag_rule;
          tag_preconditions = [];
        }),
      )
      ∷ (
        5,
        tag_transform (record {
          transformed_node = 4;
          transform_rule_name = "Trust";
          tag_preconditions = ("merged", 3) ∷ [];
        }),
      )
      ∷ [];
  sql_policy_rules =
      record {
        name = "Trust";
        action = Action.add_integrity;
        tag = "Trusted";
        preconditions = record { argument = "merged"; required_integrity_tag = "Checked" } ∷ [];
      }
      ∷ [];
}

abbrev context : IrContext
context = record {
  type_factory = record { schemas = [] };
  operators =
      (literal_name, make_operator literal_name)
      ∷ (merge_name, make_operator merge_name)
      ∷ (tag_transform_name, make_operator tag_transform_name)
      ∷ (sql_output_name, make_operator sql_output_name)
      ∷ [];
  storages = [];
}

abbrev start : DecoderContext
start = record {
  ir_context = context;
  id_to_value = [];
  global_module = make_module;
  top_level_block = make_block_builder 0;
}

abbrev merge : Operation
merge = record {
  address = 0;
  op = make_operator merge_name;
  attributes = (control_input_start_index, int64_attribute (pos 2)) ∷ [];
  inputs = stored_value 0 ∷ stored_value 1 ∷ stored_value 1 ∷ [];
}

abbrev unite : Operation
unite = record {
  address = 1;
  op = make_operator tag_transform_name;
  attributes = (rule_name_attribute, string_attribute union_itag_rule) ∷ [];
  inputs = operation_result 0 0 ∷ [];
}

abbrev trust : Operation
trust = record {
  address = 2;
  op = make_operator tag_transform_name;
  attributes =
      (rule_name_attribute, string_attribute "Trust") ∷ ("merged", int64_attribute (pos 1)) ∷ [];
  inputs = operation_result 1 0 ∷ operation_result 0 0 ∷ [];
}

abbrev output : Operation
output = record {
  address = 3;
  op = make_operator sql_output_name;
  attributes = [];
  inputs = operation_result 2 0 ∷ [];
}

abbrev operations : List Operation
operations = merge ∷ unite ∷ trust ∷ output ∷ []

abbrev query : Module
query = record { blocks = block_of operations ∷ []; named_storage_map = [] }

abbrev decoded : DecoderContext
decoded = record {
  ir_context = record context {
    storages =
        ("t.a", record { address = 0; name = "t.a"; type = make_primitive_type; input_values = [] })
        ∷ (
          "t.b",
          record { address = 1; name = "t.b"; type = make_primitive_type; input_values = [] },
        )
        ∷ [];
  };
  id_to_value =
      (1, stored_value 0)
      ∷ (2, stored_value 1)
      ∷ (3, operation_result 0 0)
      ∷ (4, operation_result 1 0)
      ∷ (5, operation_result 2 0)
      ∷ [];
  global_module = make_module;
  top_level_block = some (block_of operations);
}

abbrev rules : InferenceRules
rules = record {
  action_rules =
      (
        "##raksha_internal#union_itag_rule_0",
        (
          0,
          record { conclusion = merge_integrity_tags MergeKind.union (0 ∷ 1 ∷ []); premises = [] }
              ∷ [],
        )
            ∷ [],
      )
      ∷ (
        "Trust_0",
        (
          0,
          record { conclusion = copy_input 0; premises = [] }
              ∷ record {
                conclusion = modify_tag ModifyKind.add_integrity 1;
                premises = record { input_index = 1; tag = 0 } ∷ [];
              }
              ∷ [],
        )
            ∷ [],
      )
      ∷ [];
  actions = (0, "##raksha_internal#union_itag_rule_0") ∷ (2, "Trust_0") ∷ [];
  tags = ("Checked", 0) ∷ ("Trusted", 1) ∷ [];
  tag_names = "Checked" ∷ "Trusted" ∷ [];
}

started : make_decoder_context make_ir_context ≡ ok start
unfolding make_decoder_context insert_new
started = refl

decode_expression_arena-arena :
    decode_expression_arena arena start ≡ ok (decoded, operation_result 3 0)
unfolding decode_expression_arena find insert_new
decode_expression_arena-arena = refl

block_built :
    build_top_level_block decoded
    ≡ ok (record decoded { global_module = query; top_level_block = Option.none })
unfolding build_top_level_block
block_built = refl

rules_decoded : decode_sql_policy_rules arena query ("Checked" ∷ []) ≡ ok rules
unfolding decode_sql_policy_rules find insert_new find_operation operations_of operations_of_blocks
    get_or_create_tag_id make_builder mark_operation_as_action add_output_rules_for_action is_op
    get_rule_name get_transformed_value get_input_value get_control_input_start_index
    get_precondition_input_indices to_string assign build
rules_decoded = refl

merge_op-inputs_example :
    (get_direct_inputs merge ≡ ok (stored_value 0 ∷ stored_value 1 ∷ []))
    × (get_control_inputs merge ≡ ok (stored_value 1 ∷ []))
    × (false ≡ false)
unfolding merge_op find
merge_op-inputs_example =
    merge_op-inputs 0 context (stored_value 0 ∷ stored_value 1 ∷ []) (stored_value 1 ∷ []) merge
      refl

tag_transform_op-inputs_example :
    (get_rule_name trust ≡ ok "Trust")
    × (get_transformed_value trust ≡ ok (operation_result 1 0))
    × (get_preconditions trust ≡ ok (("merged", operation_result 0 0) ∷ []))
unfolding tag_transform_op insert_new
tag_transform_op-inputs_example =
    tag_transform_op-inputs 2 context "Trust" (operation_result 1 0)
      (("merged", operation_result 0 0) ∷ []) trust refl

decode_expression_arena-Wired_example :
    (os : List Operation) × (o : Operation) × (decoded.top_level_block
      ≡ some (block_of (os ++ o ∷ [])))
    × Wired 0 (os ++ o ∷ [])
    × (o.op.name ≡ sql_output_name)
    × (operation_result 3 0 ≡ wrap_operation_result_value o)
decode_expression_arena-Wired_example =
    decode_expression_arena-Wired make_ir_context start decoded arena (operation_result 3 0) started
      decode_expression_arena-arena

decode_sql_policy_rules-NamesInRange_example : All (NamesInRange 2 rules) (operations_of query)
unfolding operations_of operations_of_blocks find_operation find is_op get_control_input_start_index
decode_sql_policy_rules-NamesInRange_example =
    decode_sql_policy_rules-NamesInRange arena query ("Checked" ∷ []) rules
      (
        record { outputs = omega arith; merge = λ _. (2, refl, omega arith) },
        (
          record { outputs = omega arith; merge = λ h. cc },
          (
            record { outputs = omega arith; merge = λ h. cc },
            (record { outputs = omega arith; merge = λ h. cc }, tt),
          ),
        ),
      )
      (refl, (refl, (refl, (refl, tt)))) rules_decoded

sql_analysis_total_example :
    (fuel : ℕ) × (states : ValueStateMap) × (compute_ifc_tags rules begin_of fuel query
      ≡ ok (some states))
sql_analysis_total_example =
    sql_analysis_total make_ir_context start decoded
      (record decoded { global_module = query; top_level_block = Option.none }) arena
      (operation_result 3 0) ("Checked" ∷ []) rules begin_of started decode_expression_arena-arena
      block_built rules_decoded begin_of_member
