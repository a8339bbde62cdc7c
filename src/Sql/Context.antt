-- ===== src/Sql/Context.antt =====
-- src/frontends/sql/decoder_context.{h,cc}: the state of the decoder.
pub mod Wired
use raksha.Common.{
  ℕ, String, not, List, [], ◌∷◌, ◌++◌, Option, none, some, Outcome, ok, fatal, ◌>>=◌, ◌>>◌, check,
  die_if_null, map_m, length, ◌==◌, nat_eq, string_eq, if◌then◌else◌,
}
use raksha.Common.Maps.{find, insert_new}
use raksha.Ir.Types.{make_primitive_type}
use raksha.Ir.Storages.{Storage}
use raksha.Ir.BlockBuilder.{BlockBuilder, make_block_builder, add_created_operation, build_block}
use raksha.Ir.Modules.{make_module, add_block, make_operator}
use raksha.Ir.Values.{Value, operation_result}
use raksha.Ir.Modules.{Operator, Operation, Module}
use raksha.Ir.Context.{
  IrContext, register_operator, register_storage, get_storage, is_registered_storage,
}
use raksha.Sql.Ops.{
  literal_name, merge_name, tag_transform_name, sql_output_name, literal_op, merge_op,
  tag_transform_op, sql_output_op,
}

pub record DecoderContext : Type 0 where
  pub ir_context : IrContext
  pub id_to_value : List (ℕ × Value)
  pub global_module : Module
  pub top_level_block : BlockBuilder

unfoldable pub make_decoder_context : IrContext → Outcome DecoderContext
unfolding register_operator
make_decoder_context c = do
  c ← register_operator c (make_operator literal_name)
  c ← register_operator c (make_operator merge_name)
  c ← register_operator c (make_operator tag_transform_name)
  c ← register_operator c (make_operator sql_output_name)
  ok (record {
    ir_context = c;
    id_to_value = [];
    global_module = make_module;
    top_level_block = make_block_builder 0;
  })

-- `WrapOperationResultValue`
abbrev pub wrap_operation_result_value : Operation → Value
wrap_operation_result_value o = operation_result o.address 0

unfoldable pub register_value : DecoderContext → ℕ → Value → Outcome DecoderContext
register_value d id value = do
  id_to_value' ← insert_new d.id_to_value id value
  ok (record d { id_to_value = id_to_value' })

unfoldable pub get_value : DecoderContext → ℕ → Outcome Value
get_value d id = do check (not (id == 0)); die_if_null (find d.id_to_value id)

-- The address of a new storage is the number of the storages before it.
unfoldable pub get_or_create_storage : DecoderContext → String → Outcome (DecoderContext × Storage)
unfolding is_registered_storage get_storage register_storage
get_or_create_storage d name =
    if is_registered_storage d.ir_context name
    then (do storage ← die_if_null (get_storage d.ir_context name); ok (d, storage))
    else (do
      let storage : Storage = record {
        address = length d.ir_context.storages;
        name = name;
        type = make_primitive_type;
        input_values = [];
      }
      c ← register_storage d.ir_context storage
      ok (record d { ir_context = c }, storage))

unfoldable pub add_operation :
    DecoderContext → (ℕ → Outcome Operation) → Outcome (DecoderContext × Operation)
unfolding add_created_operation
add_operation d create = do
  (builder, o) ← add_created_operation d.top_level_block create
  ok (record d { top_level_block = builder }, o)

unfoldable pub make_literal_operation :
    DecoderContext → String → Outcome (DecoderContext × Operation)
unfolding add_operation literal_op
make_literal_operation d literal_str =
    add_operation d (λ address. literal_op address d.ir_context literal_str)

unfoldable pub make_merge_operation :
    DecoderContext → List ℕ → List ℕ → Outcome (DecoderContext × Operation)
unfolding add_operation merge_op get_value
make_merge_operation d direct_input_ids control_input_ids = do
  direct_inputs ← map_m (get_value d) direct_input_ids
  control_inputs ← map_m (get_value d) control_input_ids
  add_operation d (λ address. merge_op address d.ir_context direct_inputs control_inputs)

unfoldable pub precondition_value : DecoderContext → String × ℕ → Outcome (String × Value)
unfolding get_value
precondition_value d (name, id) = do value ← get_value d id; ok (name, value)

unfoldable pub make_tag_transform_operation :
    DecoderContext → ℕ → String → List (String × ℕ) → Outcome (DecoderContext × Operation)
unfolding add_operation tag_transform_op precondition_value
make_tag_transform_operation d transformed_value_id rule_name tag_preconditions = do
  preconditions ← map_m (precondition_value d) tag_preconditions
  transformed_value ← get_value d transformed_value_id
  add_operation d
      (λ address. tag_transform_op address d.ir_context rule_name transformed_value preconditions)

unfoldable pub make_sql_output_operation :
    DecoderContext → Value → Outcome (DecoderContext × Operation)
unfolding add_operation sql_output_op
make_sql_output_operation d value =
    add_operation d (λ address. sql_output_op address d.ir_context value)

unfoldable pub build_top_level_block : DecoderContext → Outcome DecoderContext
unfolding build_block add_block
build_top_level_block d = do
  (builder, block) ← build_block d.top_level_block
  ok (record d { top_level_block = builder; global_module = add_block d.global_module block })
