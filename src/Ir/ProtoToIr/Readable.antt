-- ===== src/Ir/ProtoToIr/Readable.antt =====
-- Messages that src/ir/proto_to_ir.cc reads: what `PreVisit` and `PostVisit` check of them.
use raksha.Common.{
  true, nat_eq, string_eq, ℕ, String, List, [], ◌∷◌, ◌++◌, some, ok, ◌≡◌, refl, All, map,
}
use raksha.Common.Sets.{contains}
use raksha.Common.Entries.{Distinct}
use raksha.Common.Maps.{keys}
use raksha.Ir.Context.{IrContext, get_operator}
use raksha.Ir.Modules.{Operator}
use raksha.Ir.Proto.{
  ValueProto, value_not_set, any_value, operation_result_value, block_argument_value,
  AttributePayload, payload_not_set, OperationWithId, BlockWithId, ModuleProto,
}
use raksha.Ir.ProtoToIr.{visit_value, visit_values}

-- The value names one of the operations or blocks.
abbrev pub ValueIn : List ℕ → List ℕ → ValueProto → Type 0
ValueIn os bs value_not_set = ⊥
ValueIn os bs any_value = Unit
ValueIn os bs (operation_result_value id i) = contains os id ≡ true
ValueIn os bs (block_argument_value id i) = contains bs id ≡ true

abbrev pub HasPayload : String × AttributePayload → Type 0
HasPayload (name, payload_not_set) = ⊥
HasPayload (name, _) = Unit

abbrev pub OperationIn : IrContext → List ℕ → List ℕ → OperationWithId → Type 0
OperationIn c os bs o =
    ((op : Operator) × (get_operator c o.operation.operator_name ≡ some op))
    × All (ValueIn os bs) o.operation.inputs
    × All HasPayload o.operation.attributes
    × Distinct (keys o.operation.attributes)

abbrev pub operation_id : OperationWithId → ℕ
operation_id o = o.id

abbrev pub block_id : BlockWithId → ℕ
block_id b = b.id

abbrev pub message_operations : List BlockWithId → List OperationWithId
message_operations [] = []
message_operations (b ∷ bs) = b.block.operations ++ message_operations bs

-- The ids are distinct, every value names an object of the module, every operator is registered,
-- every attribute has a payload, and no block has a result.
abbrev pub IsReadable : IrContext → ModuleProto → Type 0
IsReadable c m =
    let os = map operation_id (message_operations m.blocks) in
    let bs = map block_id m.blocks in
    Distinct os
    × Distinct bs
    × All (OperationIn c os bs) (message_operations m.blocks)
    × All (λ b. b.block.results ≡ []) m.blocks

pub visit_values-ok :
    (os bs : List ℕ) (ps : List ValueProto) → All (ValueIn os bs) ps → visit_values ps ≡ ok tt
unfolding visit_values visit_value
visit_values-ok os bs [] all = refl
visit_values-ok os bs (value_not_set ∷ ps) (h, all) = absurd h
visit_values-ok os bs (any_value ∷ ps) (h, all) = visit_values-ok os bs ps all
visit_values-ok os bs (operation_result_value id i ∷ ps) (h, all) = visit_values-ok os bs ps all
visit_values-ok os bs (block_argument_value id i ∷ ps) (h, all) = visit_values-ok os bs ps all
