-- ===== src/Ir/BlockBuilder.antt =====
-- src/ir/block_builder.h. A builder without a block is one whose block was built.
use raksha.Common.{
  ℕ, String, [], ◌∷◌, ◌++◌, Option, none, some, Outcome, ok, ◌>>=◌, die_if_null, Bool, true, false,
  length, string_eq,
}
use raksha.Common.Maps.{try_insert}
use raksha.Ir.Types.{IrType}
use raksha.Ir.Values.{Value}
use raksha.Ir.Modules.{Operation, Block, add_decl, find_decl}

abbrev pub BlockBuilder : Type 0
BlockBuilder = Option Block

-- The builder of a new block, which has the address.
abbrev pub make_block_builder : ℕ → BlockBuilder
make_block_builder address =
    some (record { address = address; inputs = []; outputs = []; operations = []; results = [] })

abbrev pub is_built : BlockBuilder → Bool
is_built none = true
is_built (some block) = false

unfoldable pub add_block_input : BlockBuilder → String → IrType → Outcome BlockBuilder
unfolding add_decl
add_block_input builder name type = do
  block ← die_if_null builder
  inputs' ← add_decl block.inputs name type
  ok (some (record block { inputs = inputs' }))

unfoldable pub add_output : BlockBuilder → String → IrType → Outcome BlockBuilder
unfolding add_decl
add_output builder name type = do
  block ← die_if_null builder
  outputs' ← add_decl block.outputs name type
  ok (some (record block { outputs = outputs' }))

-- A second result of a name is left out.
unfoldable pub add_result : BlockBuilder → String → Value → Outcome BlockBuilder
unfolding find_decl
add_result builder name output = do
  block ← die_if_null builder
  type ← die_if_null (find_decl block.outputs name)
  ok (some (record block { results = try_insert block.results name output }))

unfoldable pub add_given_operation : BlockBuilder → Operation → Outcome BlockBuilder
add_given_operation builder op = do
  block ← die_if_null builder
  ok (some (record block { operations = block.operations ++ op ∷ [] }))

-- `AddOperation<T>`: the address of a new operation is the number of the operations before it.
unfoldable pub add_created_operation :
    BlockBuilder → (ℕ → Outcome Operation) → Outcome (BlockBuilder × Operation)
add_created_operation builder create = do
  block ← die_if_null builder
  o ← create (length block.operations)
  ok (some (record block { operations = block.operations ++ o ∷ [] }), o)

unfoldable pub build_block : BlockBuilder → Outcome (BlockBuilder × Block)
build_block builder = do block ← die_if_null builder; ok (none, block)

unfoldable pub get_block_ptr : BlockBuilder → Outcome ℕ
get_block_ptr builder = do block ← die_if_null builder; ok block.address
