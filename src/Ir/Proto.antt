-- ===== src/Ir/Proto.antt =====
-- The messages of src/ir/proto/raksha_ir.proto. The results of an operation are neither written nor read.
use raksha.Common.{ℕ, String, List}
use raksha.Ir.Attributes.{ℤ}

pub data ValueProto : Type 0 where
  value_not_set any_value : ValueProto
  operation_result_value block_argument_value : ℕ → ℕ → ValueProto

pub data AttributePayload : Type 0 where
  payload_not_set : AttributePayload
  int64_payload : ℤ → AttributePayload
  string_payload : String → AttributePayload
  float_payload : ℕ → AttributePayload

pub record OperationProto : Type 0 where
  pub operator_name : String
  pub inputs : List ValueProto
  pub attributes : List (String × AttributePayload)

pub record OperationWithId : Type 0 where
  pub id : ℕ
  pub operation : OperationProto

pub record BlockProto : Type 0 where
  pub operations : List OperationWithId
  pub results : List (String × ValueProto)

pub record BlockWithId : Type 0 where
  pub id : ℕ
  pub block : BlockProto

pub record ModuleProto : Type 0 where
  pub blocks : List BlockWithId

pub record IrTranslationUnit : Type 0 where
  pub top_level_module : ModuleProto
  pub frontend : String
  pub operators : List String
