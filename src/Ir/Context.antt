-- ===== src/Ir/Context.antt =====
-- src/ir/ir_context.h: the registries of operators and storages, and the factory of types.
use raksha.Common.{
  String, Bool, true, false, List, Option, none, some, Outcome, ok, ◌>>=◌, fold_m, string_eq, [],
}
use raksha.Common.Maps.{find, insert_new}
use raksha.Ir.Storages.{Storage}
use raksha.Ir.Types.{TypeFactory}
use raksha.Ir.Modules.{Operator}

abbrev pub NamedIrNodeRegistry : Type 0 → Type 0
NamedIrNodeRegistry A = List (String × A)

module _ {A : Type 0} where
  -- A second node of one name is fatal.
  unfoldable pub register_node :
      NamedIrNodeRegistry A → String → A → Outcome (NamedIrNodeRegistry A)
  register_node nodes name node = insert_new nodes name node

  unfoldable pub get_node : NamedIrNodeRegistry A → String → Option A
  get_node nodes name = find nodes name

  unfoldable pub is_registered_node : NamedIrNodeRegistry A → String → Bool
  is_registered_node nodes name = elim (find nodes name) [ some _ ↦ true | none ↦ false ]

pub record IrContext : Type 0 where
  pub type_factory : TypeFactory
  pub operators : NamedIrNodeRegistry Operator
  pub storages : NamedIrNodeRegistry Storage

abbrev pub make_ir_context : IrContext
make_ir_context = record { type_factory = record { schemas = [] }; operators = []; storages = [] }

unfoldable pub register_operator : IrContext → Operator → Outcome IrContext
unfolding register_node
register_operator c op = do
  operators' ← register_node c.operators op.name op
  ok (record c { operators = operators' })

unfoldable pub get_operator : IrContext → String → Option Operator
unfolding get_node
get_operator c name = get_node c.operators name

unfoldable pub is_registered_operator : IrContext → String → Bool
unfolding is_registered_node
is_registered_operator c name = is_registered_node c.operators name

unfoldable pub register_storage : IrContext → Storage → Outcome IrContext
unfolding register_node
register_storage c storage = do
  storages' ← register_node c.storages storage.name storage
  ok (record c { storages = storages' })

unfoldable pub get_storage : IrContext → String → Option Storage
unfolding get_node
get_storage c name = get_node c.storages name

unfoldable pub is_registered_storage : IrContext → String → Bool
unfolding is_registered_node
is_registered_storage c name = is_registered_node c.storages name

-- A context with some operators and storages.
unfoldable pub make_seeded_ir_context : List Operator → List Storage → Outcome IrContext
unfolding register_operator register_storage
make_seeded_ir_context ops storages = do
  c ← fold_m register_operator make_ir_context ops
  fold_m register_storage c storages
