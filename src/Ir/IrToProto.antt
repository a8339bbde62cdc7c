-- ===== src/Ir/IrToProto.antt =====
-- src/ir/ir_to_proto.{h,cc}: the message of a module.
pub mod Ids
pub mod Named
use raksha.Common.{
  string_eq, ℕ, ◌+◌, ◌%◌, ◌^◌, String, List, [], ◌∷◌, some, none, Outcome, ok, fatal, ◌>>=◌, map,
  nat_eq, map_state, Eq, ◌==◌, ◌≡◌, ◌↔◌, Bool, true, false, arith,
}
use raksha.Common.Maps.{find, try_insert, keys}
use raksha.Ir.Values.{Value, operation_result, block_argument, stored_value, any}
use raksha.Ir.Attributes.{Attribute, int64_attribute, string_attribute, float_attribute}
use raksha.Ir.Modules.{Operation, Block, Module}
use raksha.Ir.Context.{IrContext}
use raksha.Ir.Proto.{
  ValueProto, any_value, operation_result_value, block_argument_value, AttributePayload,
  int64_payload, string_payload, float_payload, OperationProto, OperationWithId, BlockProto,
  BlockWithId, ModuleProto, IrTranslationUnit,
}

-- The address of an object.
pub data Pointer : Type 0 where
  to_block to_operation : ℕ → Pointer

pub pointer_beq : Pointer → Pointer → Bool
pointer_beq (to_block a) (to_block b) = a == b
pointer_beq (to_operation a) (to_operation b) = a == b
pointer_beq _ _ = false

pub pointer_beq_iff : (p q : Pointer) → (pointer_beq p q ≡ true) ↔ (p ≡ q)
unfolding pointer_beq
pointer_beq_iff p q = ground arith

instance unfoldable pub pointer_eq : Eq Pointer
unfolding pointer_beq
pointer_eq = record { beq = pointer_beq; beq_iff = pointer_beq_iff }

pub record IrToProto : Type 0 where
  pub used_ids : List (Pointer × ℕ)
  pub last_used_id : ℕ

unfoldable pub get_id : IrToProto → Pointer → IrToProto × ℕ
get_id s ptr = elim (find s.used_ids ptr) [
  | some id ↦ (s, id)
  | none ↦
      let id = (s.last_used_id + 1) % 2 ^ 64 in
      (record { used_ids = try_insert s.used_ids ptr id; last_used_id = id }, id)
]

unfoldable pub value_to_proto : IrToProto → Value → Outcome (IrToProto × ValueProto)
unfolding get_id
value_to_proto s any = ok (s, any_value)
value_to_proto s (operation_result o i) =
    let r = get_id s (to_operation o) in ok (r.0, operation_result_value r.1 i)
value_to_proto s (block_argument b i) =
    let r = get_id s (to_block b) in ok (r.0, block_argument_value r.1 i)
value_to_proto s (stored_value storage) = fatal

unfoldable pub attribute_to_proto : Attribute → AttributePayload
attribute_to_proto (float_attribute f) = float_payload f
attribute_to_proto (int64_attribute i) = int64_payload i
attribute_to_proto (string_attribute t) = string_payload t

unfoldable pub named_attribute_to_proto : String × Attribute → String × AttributePayload
unfolding attribute_to_proto
named_attribute_to_proto (name, attribute) = (name, attribute_to_proto attribute)

unfoldable pub operation_to_proto : IrToProto → Operation → Outcome (IrToProto × OperationProto)
unfolding value_to_proto named_attribute_to_proto
operation_to_proto s o = do
  (s, inputs) ← map_state value_to_proto s o.inputs
  ok (
    s,
    record {
      operator_name = o.op.name;
      inputs = inputs;
      attributes = map named_attribute_to_proto o.attributes;
    },
  )

-- The body of the loop over the operations of a block: the id is taken after the operation is converted.
unfoldable pub operation_with_id : IrToProto → Operation → Outcome (IrToProto × OperationWithId)
unfolding operation_to_proto get_id
operation_with_id s o = do
  (s, operation) ← operation_to_proto s o
  let r = get_id s (to_operation o.address)
  ok (r.0, record { id = r.1; operation = operation })

unfoldable pub named_value_to_proto :
    IrToProto → String × Value → Outcome (IrToProto × (String × ValueProto))
unfolding value_to_proto
named_value_to_proto s (name, value) = do
  (s, result) ← value_to_proto s value
  ok (s, (name, result))

unfoldable pub block_to_proto : IrToProto → Block → Outcome (IrToProto × BlockProto)
unfolding operation_with_id named_value_to_proto
block_to_proto s b = do
  (s, operations) ← map_state operation_with_id s b.operations
  (s, results) ← map_state named_value_to_proto s b.results
  ok (s, record { operations = operations; results = results })

unfoldable pub block_with_id : IrToProto → Block → Outcome (IrToProto × BlockWithId)
unfolding block_to_proto get_id
block_with_id s b = do
  (s, block) ← block_to_proto s b
  let r = get_id s (to_block b.address)
  ok (r.0, record { id = r.1; block = block })

unfoldable pub module_to_proto : IrToProto → Module → Outcome (IrToProto × ModuleProto)
unfolding block_with_id
module_to_proto s m = do
  (s, blocks) ← map_state block_with_id s m.blocks
  ok (s, record { blocks = blocks })

abbrev pub make_ir_to_proto : IrToProto
make_ir_to_proto = record { used_ids = []; last_used_id = 0 }

unfoldable pub convert_to_proto : IrContext → Module → Outcome IrTranslationUnit
unfolding module_to_proto
convert_to_proto context root = do
  (s, m) ← module_to_proto make_ir_to_proto root
  ok (record {
    top_level_module = m;
    frontend = "Raksha.IRToProto";
    operators = keys context.operators;
  })
