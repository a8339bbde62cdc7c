-- ===== src/Ir/ProtoToIr.antt =====
-- src/ir/proto_to_ir.{h,cc}: the module of a message. A pointer that was moved from is `none`.
pub mod Results
pub mod Undeclared
pub mod Tables
pub mod Readable
pub mod Visiting
pub mod Filling
pub mod Filled
pub mod Placing
pub mod Reading
pub mod Placed
pub mod RoundTrip
pub mod Copies
pub mod Writable
use raksha.Common.{
  ℕ, ◌+◌, String, List, [], ◌∷◌, Option, none, some, Outcome, ok, fatal, ◌>>=◌, ◌>>◌, die_if_null,
  fold_m, check, nat_eq, string_eq, if◌then◌else◌,
}
use raksha.Common.Maps.{find, try_insert, assign}
use raksha.Ir.Values.{Value, operation_result, block_argument, any}
use raksha.Ir.Attributes.{Attribute, int64_attribute, string_attribute, float_attribute}
use raksha.Ir.Modules.{
  Operation, Module, make_module, make_operator, add_block, add_input, add_attribute,
}
use raksha.Ir.BlockBuilder.{
  BlockBuilder, make_block_builder, add_given_operation, add_result, build_block, get_block_ptr,
  is_built,
}
use raksha.Ir.Context.{IrContext, get_operator, is_registered_operator, register_operator}
use raksha.Ir.SsaNames.{
  SsaNames, make_ssa_names, get_or_create_block_id, get_or_create_module_id, get_or_create_value_id,
}
use raksha.Ir.Proto.{
  ValueProto, value_not_set, any_value, operation_result_value, block_argument_value,
  AttributePayload, payload_not_set, int64_payload, string_payload, float_payload, OperationProto,
  OperationWithId, BlockProto, BlockWithId, ModuleProto, IrTranslationUnit,
}

-- `allocated` counts the objects that were made; a new one takes it for its address.
pub record ProtoToIr : Type 0 where
  pub context : IrContext
  pub ssa_names : SsaNames
  pub operations : List (ℕ × Option Operation)
  pub blocks : List (ℕ × BlockBuilder)
  pub allocated : ℕ

abbrev pub make_proto_to_ir : IrContext → ProtoToIr
make_proto_to_ir context = record {
  context = context;
  ssa_names = make_ssa_names;
  operations = [];
  blocks = [];
  allocated = 0;
}

abbrev pub name_value : ProtoToIr → Value → ProtoToIr
name_value s v = record s { ssa_names = (get_or_create_value_id s.ssa_names v).0 }

-- `PreVisit` and `PostVisit` of a value.
unfoldable pub visit_value : ValueProto → Outcome (Unit {0})
visit_value value_not_set = fatal
visit_value _ = ok tt

unfoldable pub visit_values : List ValueProto → Outcome (Unit {0})
unfolding visit_value
visit_values [] = ok tt
visit_values (v ∷ vs) = visit_value v >> visit_values vs

unfoldable pub visit_results : List (String × ValueProto) → Outcome (Unit {0})
unfolding visit_value
visit_results [] = ok tt
visit_results ((name, v) ∷ rs) = visit_value v >> visit_results rs

-- `PreVisit` and `PostVisit` of an operation.
unfoldable pub visit_operation : OperationProto → Outcome (Unit {0})
unfolding visit_values
visit_operation o = visit_values o.inputs

-- The body of the loop over the operations. An id that was used before keeps its operation.
unfoldable pub pre_visit_operation_with_id : ProtoToIr → OperationWithId → Outcome ProtoToIr
unfolding get_operator visit_operation
pre_visit_operation_with_id s o = do
  op ← die_if_null (get_operator s.context o.operation.operator_name)
  let operation : Operation = record {
    address = s.allocated;
    op = op;
    attributes = [];
    inputs = [];
  }
  let s = name_value s (operation_result operation.address 0)
  let s : ProtoToIr = record s {
    operations = try_insert s.operations o.id (some operation);
    allocated = s.allocated + 1;
  }
  visit_operation o.operation
  ok s

unfoldable pub pre_visit_block : ProtoToIr → BlockProto → Outcome ProtoToIr
unfolding pre_visit_operation_with_id visit_results
pre_visit_block s b = do
  s ← fold_m pre_visit_operation_with_id s b.operations
  visit_results b.results
  ok s

unfoldable pub pre_visit_block_with_id : ProtoToIr → BlockWithId → Outcome ProtoToIr
unfolding pre_visit_block
pre_visit_block_with_id s b =
    pre_visit_block
      (record s {
        blocks = try_insert s.blocks b.id (make_block_builder s.allocated);
        allocated = s.allocated + 1;
      })
      b.block

unfoldable pub pre_visit_module : ProtoToIr → ModuleProto → Outcome ProtoToIr
unfolding pre_visit_block_with_id
pre_visit_module s m = fold_m pre_visit_block_with_id s m.blocks

-- The value of a message, before it gets a name.
unfoldable pub value_of_proto : ProtoToIr → ValueProto → Outcome Value
unfolding get_block_ptr
value_of_proto s value_not_set = fatal
value_of_proto s any_value = ok any
value_of_proto s (operation_result_value id index) = do
  pointer ← die_if_null (find s.operations id)
  operation ← die_if_null pointer
  ok (operation_result operation.address index)
value_of_proto s (block_argument_value id index) = do
  builder ← die_if_null (find s.blocks id)
  block ← get_block_ptr builder
  ok (block_argument block index)

unfoldable pub to_ir_value : ProtoToIr → ValueProto → Outcome (ProtoToIr × Value)
unfolding value_of_proto
to_ir_value s p = do value ← value_of_proto s p; ok (name_value s value, value)

unfoldable pub to_ir_attribute : AttributePayload → Outcome Attribute
to_ir_attribute payload_not_set = fatal
to_ir_attribute (float_payload f) = ok (float_attribute f)
to_ir_attribute (int64_payload i) = ok (int64_attribute i)
to_ir_attribute (string_payload t) = ok (string_attribute t)

unfoldable pub add_input_of_proto :
    ProtoToIr × Operation → ValueProto → Outcome (ProtoToIr × Operation)
unfolding to_ir_value add_input
add_input_of_proto (s, operation) p = do
  (s, value) ← to_ir_value s p
  ok (s, add_input operation value)

unfoldable pub add_attribute_of_proto : Operation → String × AttributePayload → Outcome Operation
unfolding to_ir_attribute add_attribute
add_attribute_of_proto operation (name, payload) = do
  attribute ← to_ir_attribute payload
  ok (add_attribute operation name attribute)

unfoldable pub to_ir_operation :
    ProtoToIr → Operation → OperationProto → Outcome (ProtoToIr × Operation)
unfolding add_input_of_proto add_attribute_of_proto
to_ir_operation s operation p = do
  (s, operation) ← fold_m add_input_of_proto (s, operation) p.inputs
  operation ← fold_m add_attribute_of_proto operation p.attributes
  ok (s, operation)

-- The body of the loop over the results of the block with the id.
unfoldable pub add_result_of_proto : ℕ → ProtoToIr → String × ValueProto → Outcome ProtoToIr
unfolding to_ir_value add_result
add_result_of_proto block_id s (name, p) = do
  (s, value) ← to_ir_value s p
  builder ← die_if_null (find s.blocks block_id)
  builder ← add_result builder name value
  ok (record s { blocks = assign s.blocks block_id builder })

unfoldable pub to_ir_operation_with_id : ProtoToIr → OperationWithId → Outcome ProtoToIr
unfolding to_ir_operation
to_ir_operation_with_id s o = do
  pointer ← die_if_null (find s.operations o.id)
  operation ← die_if_null pointer
  (s, operation) ← to_ir_operation s operation o.operation
  ok (record s { operations = assign s.operations o.id (some operation) })

unfoldable pub to_ir_block : ProtoToIr → BlockWithId → Outcome ProtoToIr
unfolding add_result_of_proto to_ir_operation_with_id
to_ir_block s b = do
  builder ← die_if_null (find s.blocks b.id)
  s ← fold_m (add_result_of_proto b.id) s b.block.results
  fold_m to_ir_operation_with_id s b.block.operations

unfoldable pub to_ir_module : ProtoToIr → ModuleProto → Outcome ProtoToIr
unfolding to_ir_block
to_ir_module s m = fold_m to_ir_block s m.blocks

-- The operation is moved to the block. A second move of it is a null pointer.
unfoldable pub post_visit_operation_with_id :
    ProtoToIr × BlockBuilder → OperationWithId → Outcome (ProtoToIr × BlockBuilder)
unfolding visit_operation add_given_operation
post_visit_operation_with_id (s, builder) o = do
  pointer ← die_if_null (find s.operations o.id)
  let s : ProtoToIr = record s { operations = assign s.operations o.id none }
  visit_operation o.operation
  operation ← die_if_null pointer
  builder ← add_given_operation builder operation
  ok (s, builder)

unfoldable pub post_visit_block :
    ProtoToIr → BlockBuilder → BlockProto → Outcome (ProtoToIr × BlockBuilder)
unfolding post_visit_operation_with_id visit_results get_block_ptr
post_visit_block s builder b = do
  (s, builder) ← fold_m post_visit_operation_with_id (s, builder) b.operations
  visit_results b.results
  block ← get_block_ptr builder
  ok (record s { ssa_names = (get_or_create_block_id s.ssa_names block).0 }, builder)

unfoldable pub post_visit_block_with_id :
    ProtoToIr × Module → BlockWithId → Outcome (ProtoToIr × Module)
unfolding post_visit_block build_block add_block
post_visit_block_with_id (s, m) b = do
  builder ← die_if_null (find s.blocks b.id)
  (s, builder) ← post_visit_block s builder b.block
  (builder, block) ← build_block builder
  ok (record s { blocks = assign s.blocks b.id builder }, add_block m block)

-- The identity of the module, which is made before the first block, is 0.
unfoldable pub post_visit_module : ProtoToIr → Module → ModuleProto → Outcome (ProtoToIr × Module)
unfolding post_visit_block_with_id
post_visit_module s m p = do
  (s, m) ← fold_m post_visit_block_with_id (s, m) p.blocks
  ok (record s { ssa_names = (get_or_create_module_id s.ssa_names 0).0 }, m)

-- The new operators are registered.
unfoldable pub register_operator_of_proto : IrContext → String → Outcome IrContext
unfolding is_registered_operator register_operator
register_operator_of_proto context name =
    if is_registered_operator context name
    then ok context
    else register_operator context (make_operator name)

-- Every block was built.
unfoldable pub check_blocks : List (ℕ × BlockBuilder) → Outcome (Unit {0})
check_blocks [] = ok tt
check_blocks ((id, builder) ∷ rest) = check (is_built builder) >> check_blocks rest

-- Every operation was moved.
unfoldable pub check_operations : List (ℕ × Option Operation) → Outcome (Unit {0})
check_operations [] = ok tt
check_operations ((id, none) ∷ rest) = check_operations rest
check_operations ((id, some o) ∷ rest) = fatal

pub record Result : Type 0 where
  pub module_ : Module
  pub ssa_names : SsaNames

-- The context, which the caller keeps, and the result.
unfoldable pub convert_from_proto : IrContext → IrTranslationUnit → Outcome (IrContext × Result)
unfolding register_operator_of_proto pre_visit_module to_ir_module post_visit_module check_blocks
    check_operations
convert_from_proto context root = do
  context ← fold_m register_operator_of_proto context root.operators
  s ← pre_visit_module (make_proto_to_ir context) root.top_level_module
  s ← to_ir_module s root.top_level_module
  (s, m) ← post_visit_module s make_module root.top_level_module
  check_blocks s.blocks
  check_operations s.operations
  ok (context, record { module_ = m; ssa_names = s.ssa_names })
