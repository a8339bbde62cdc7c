-- ===== src/Ir/ProtoToIr/Tables.antt =====
-- The addresses of the objects that src/ir/proto_to_ir.cc makes for the ids of a message.
use raksha.Common.{
  ℕ, ◌+◌, ◌<◌, List, [], Option, none, some, ◌≡◌, refl, arith, ◌==◌, nat_eq, if◌then◌else◌,
  AllPairs, ok, map, some-injective,
}
use raksha.Common.Maps.{find}
use raksha.Ir.Values.{Value, any, operation_result, block_argument}
use raksha.Ir.Modules.{Operation, Block}
use raksha.Ir.Context.{IrContext, get_operator}
use raksha.Ir.BlockBuilder.{BlockBuilder, get_block_ptr}
use raksha.Ir.IrToProto.{named_attribute_to_proto}
use raksha.Ir.Proto.{
  ValueProto, value_not_set, any_value, operation_result_value, block_argument_value,
  OperationWithId, BlockWithId,
}
use raksha.Ir.ProtoToIr.{ProtoToIr, value_of_proto}

abbrev pub Table : Type 0
Table = ℕ → Option ℕ

abbrev pub address_of_operation : Option (Option Operation) → Option ℕ
address_of_operation none = none
address_of_operation (some none) = none
address_of_operation (some (some operation)) = some operation.address

abbrev pub address_of_block : Option BlockBuilder → Option ℕ
address_of_block none = none
address_of_block (some none) = none
address_of_block (some (some block)) = some block.address

abbrev pub operation_table : List (ℕ × Option Operation) → Table
operation_table m id = address_of_operation (find m id)

abbrev pub block_table : List (ℕ × BlockBuilder) → Table
block_table m id = address_of_block (find m id)

-- Two ids have distinct addresses, which are below the bound.
abbrev pub IsDistinct : ℕ → Table → Type 0
IsDistinct bound f =
    ((i a : ℕ) → f i ≡ some a → a < bound) × ((i j a : ℕ) → f i ≡ some a → f j ≡ some a → i ≡ j)

pub IsDistinct-new :
    (bound : ℕ) (f g : Table) (k : ℕ)
    → IsDistinct bound f
    → ((i : ℕ) → g i ≡ (if k == i then some bound else f i))
    → IsDistinct (bound + 1) g
IsDistinct-new bound f g k (low, inj) at_ = (
  λ i a h. ground (arith, at_ i, low i a, h),
  λ i j a h h'. ground (
    arith,
    at_ i,
    at_ j,
    low i a,
    low j a,
    inj i j a,
    h,
    h',
    nat_eq.beq_iff k i,
    nat_eq.beq_iff k j,
  ),
)

pub IsDistinct-later : (bound : ℕ) (f : Table) → IsDistinct bound f → IsDistinct (bound + 1) f
IsDistinct-later bound f (low, inj) = (λ i a h. let l = low i a h in omega (arith, l), inj)

-- What a value is read as.
abbrev pub ValueRead : Table → Table → ValueProto → Value → Type 0
ValueRead f g any_value any = Unit
ValueRead f g (operation_result_value id i) (operation_result a j) = (f id ≡ some a) × (j ≡ i)
ValueRead f g (block_argument_value id i) (block_argument a j) = (g id ≡ some a) × (j ≡ i)
ValueRead f g p v = ⊥

-- A value that names an object which was made.
abbrev pub ValueKnown : Table → Table → ValueProto → Type 0
ValueKnown f g value_not_set = ⊥
ValueKnown f g any_value = Unit
ValueKnown f g (operation_result_value id i) = (a : ℕ) × (f id ≡ some a)
ValueKnown f g (block_argument_value id i) = (a : ℕ) × (g id ≡ some a)

pub operation_of_address :
    (o : Option (Option Operation)) (a : ℕ)
    → address_of_operation o ≡ some a
    → (x : Operation) × (o ≡ some (some x)) × (x.address ≡ a)
operation_of_address none a h = cc
operation_of_address (some none) a h = cc
operation_of_address (some (some x)) a h = (x, refl, some-injective _ _ h)

pub block_of_address :
    (o : Option BlockBuilder) (a : ℕ)
    → address_of_block o ≡ some a
    → (x : Block) × (o ≡ some (some x)) × (x.address ≡ a)
block_of_address none a h = cc
block_of_address (some none) a h = cc
block_of_address (some (some x)) a h = (x, refl, some-injective _ _ h)

pub value_of_proto-ValueRead :
    (s : ProtoToIr) (p : ValueProto)
    → ValueKnown (operation_table s.operations) (block_table s.blocks) p
    → (v : Value) × (value_of_proto s p ≡ ok v)
      × ValueRead (operation_table s.operations) (block_table s.blocks) p v
unfolding value_of_proto get_block_ptr
value_of_proto-ValueRead s value_not_set h = absurd h
value_of_proto-ValueRead s any_value h = (any, refl, tt)
value_of_proto-ValueRead s (operation_result_value id i) (a, h) =
    let (x, there, e) = operation_of_address (find s.operations id) a h in
    (operation_result a i, rw (there, e), (h, refl))
value_of_proto-ValueRead s (block_argument_value id i) (a, h) =
    let (x, there, e) = block_of_address (find s.blocks id) a h in
    (block_argument a i, rw (there, e), (h, refl))

-- What an operation and a block are read as.
abbrev pub OperationRead : IrContext → Table → Table → OperationWithId → Operation → Type 0
OperationRead c f g p o =
    (f p.id ≡ some o.address)
    × (get_operator c p.operation.operator_name ≡ some o.op)
    × AllPairs (ValueRead f g) p.operation.inputs o.inputs
    × (map named_attribute_to_proto o.attributes ≡ p.operation.attributes)

abbrev pub BlockRead : IrContext → Table → Table → BlockWithId → Block → Type 0
BlockRead c f g p b =
    (g p.id ≡ some b.address)
    × (b.results ≡ [])
    × AllPairs (OperationRead c f g) p.block.operations b.operations
