-- ===== src/Ir/Values.antt =====
-- src/ir/value.h: the values of the IR. An address of an operation, a block or a storage is a
-- number here, since the code only compares them.
use raksha.Common.{ℕ, Bool, true, false, ◌&&◌, ◌≡◌, ◌↔◌, Eq, ◌==◌, nat_eq, string_eq, arith}

-- `kDefaultValueIndex` of src/ir/value.h
abbrev pub default_value_index : ℕ
default_value_index = 0

pub data Value : Type 0 where
  block_argument : ℕ → ℕ → Value
  operation_result : ℕ → ℕ → Value
  stored_value : ℕ → Value
  any : Value

-- `operator==` of the variant: the same alternative with the same address and index.
unfoldable pub value_beq : Value → Value → Bool
value_beq (block_argument b i) (block_argument c j) = b == c && i == j
value_beq (operation_result o i) (operation_result p j) = o == p && i == j
value_beq (stored_value s) (stored_value t) = s == t
value_beq any any = true
value_beq _ _ = false

pub value_beq_iff : (v w : Value) → (value_beq v w ≡ true) ↔ (v ≡ w)
unfolding value_beq
value_beq_iff v w = ground arith

instance unfoldable pub value_eq : Eq Value
unfolding value_beq
value_eq = record { beq = value_beq; beq_iff = value_beq_iff }

-- `MakeDefaultOperationResultValue`, for the operation at an address.
abbrev pub make_default_operation_result_value : ℕ → Value
make_default_operation_result_value op = operation_result op default_value_index

-- `If<value::OperationResult>() != nullptr`
abbrev pub is_operation_result : Value → Bool
is_operation_result (operation_result o i) = true
is_operation_result _ = false
