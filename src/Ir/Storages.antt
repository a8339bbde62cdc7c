-- ===== src/Ir/Storages.antt =====
-- src/ir/storage.h. The identity of a storage is a number.
use raksha.Common.{ℕ, String, List}
use raksha.Common.Sets.{insert}
use raksha.Ir.Values.{Value, value_eq}
use raksha.Ir.Types.{IrType}

pub record Storage : Type 0 where
  pub address : ℕ
  pub name : String
  pub type : IrType
  pub input_values : List Value

unfoldable pub add_input_value : Storage → Value → Storage
unfolding value_eq
add_input_value s value = record s { input_values = insert s.input_values value }
