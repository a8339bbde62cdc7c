-- ===== src/Ir/Modules.antt =====
-- src/ir/operator.h and src/ir/module.h: operators, operations, blocks and modules.
use raksha.Common.{
  ◌>>=◌, string_eq, ℕ, String, List, [], ◌∷◌, ◌++◌, none, some, get_elem?, Outcome, ok, fatal, ltb,
  check, ◌>>◌, Option, die_if_null, length,
}
use raksha.Common.Maps.{find, assign, insert_new, try_insert}
use raksha.Ir.Types.{IrType}
use raksha.Ir.Storages.{Storage, add_input_value}
use raksha.Ir.Attributes.{Attribute, NamedAttributeMap}
use raksha.Ir.Values.{Value, operation_result}

pub record Operator : Type 0 where
  pub name : String
  pub number_of_return_values : ℕ

-- `Operator(name)`, with one return value.
abbrev pub make_operator : String → Operator
make_operator name = record { name = name; number_of_return_values = 1 }

-- `address` stands for the identity of the object.
pub record Operation : Type 0 where
  pub address : ℕ
  pub op : Operator
  pub attributes : NamedAttributeMap
  pub inputs : List Value

-- A second declaration of a name is fatal.
abbrev pub DataDeclCollection : Type 0
DataDeclCollection = List (String × IrType)

unfoldable pub add_decl : DataDeclCollection → String → IrType → Outcome DataDeclCollection
add_decl decls name type = insert_new decls name type

unfoldable pub find_decl : DataDeclCollection → String → Option IrType
find_decl decls name = find decls name

pub record Block : Type 0 where
  pub address : ℕ
  pub inputs : DataDeclCollection
  pub outputs : DataDeclCollection
  pub operations : List Operation
  pub results : List (String × Value)

pub record Module : Type 0 where
  pub blocks : List Block
  pub named_storage_map : List (String × Storage)

abbrev pub make_module : Module
make_module = record { blocks = []; named_storage_map = [] }

unfoldable pub add_block : Module → Block → Module
add_block m b = record m { blocks = m.blocks ++ b ∷ [] }

-- A new storage takes the number of the storages before it for its address.
unfoldable pub create_storage : Module → String → IrType → Outcome Module
create_storage m name type = do
  let storage : Storage = record {
    address = length m.named_storage_map;
    name = name;
    type = type;
    input_values = [];
  }
  map' ← insert_new m.named_storage_map name storage
  ok (record m { named_storage_map = map' })

unfoldable pub get_module_storage : Module → String → Outcome Storage
get_module_storage m name = die_if_null (find m.named_storage_map name)

unfoldable pub add_input_value_to_storage : Module → String → Value → Outcome Module
unfolding add_input_value
add_input_value_to_storage m name value = do
  s ← die_if_null (find m.named_storage_map name)
  ok (record m { named_storage_map = assign m.named_storage_map name (add_input_value s value) })

-- The operations in the order in which `IRTraversingVisitor` reaches them.
unfoldable pub operations_of_blocks : List Block → List Operation
operations_of_blocks [] = []
operations_of_blocks (b ∷ bs) = b.operations ++ operations_of_blocks bs

unfoldable pub operations_of : Module → List Operation
unfolding operations_of_blocks
operations_of m = operations_of_blocks m.blocks

abbrev pub number_of_outputs : Operation → ℕ
number_of_outputs o = o.op.number_of_return_values

unfoldable pub get_input_value : Operation → ℕ → Outcome Value
get_input_value o i = elim (get_elem? o.inputs i) [ some v ↦ ok v | none ↦ fatal ]

unfoldable pub get_output_value : Operation → ℕ → Outcome Value
get_output_value o i = do check (ltb i (number_of_outputs o)); ok (operation_result o.address i)

unfoldable pub add_input : Operation → Value → Operation
add_input o v = record o { inputs = o.inputs ++ v ∷ [] }

-- `emplace` leaves an attribute alone that is there.
unfoldable pub add_attribute : Operation → String → Attribute → Operation
add_attribute o name value = record o { attributes = try_insert o.attributes name value }
