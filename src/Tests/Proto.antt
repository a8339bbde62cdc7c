-- ===== src/Tests/Proto.antt =====
-- A module of two operations, its message, and what the message becomes.
use raksha.Ir.ProtoToIr.Writable.{IsWritable}
use raksha.Ir.ProtoToIr.Copies.{IsCopy, convert_from_proto-convert_to_proto}
use raksha.Ir.ProtoToIr.Readable.{IsReadable}
use raksha.Ir.ProtoToIr.Reading.{IsReadFrom, convert_from_proto-reads}
use raksha.Common.Sets.{contains}
use raksha.Common.Maps.{find, try_insert, insert_new, assign}
use raksha.Ir.IrToProto.Ids.{Names}
use raksha.Ir.ProtoToIr.Results.{convert_from_proto-results}
use raksha.Ir.IrToProto.Named.{BlockNamed, module_to_proto-Named}
use raksha.Ir.ProtoToIr.{convert_from_proto, Result, register_operator_of_proto}
use raksha.Ir.Context.{IrContext, make_ir_context, get_operator}
use raksha.Ir.IrToProto.{
  IrToProto, convert_to_proto, module_to_proto, make_ir_to_proto, to_block, to_operation, Pointer,
  pointer_eq,
}
use raksha.Common.{
  sym, ◌∙◌, arith, subst, ok-injective, [], ◌∷◌, ok, refl, ◌≡◌, inl, List, String, fatal, AllPairs,
  Outcome, length, ◌>>=◌, ◌<◌, ◌^◌, ℕ, Returns, fold_m,
}
use raksha.Ir.Values.{operation_result, block_argument, any}
use raksha.Ir.Attributes.{string_attribute}
use raksha.Ir.Modules.{Operation, Block, Module, make_operator, operations_of_blocks}
use raksha.Ir.Proto.{
  ModuleProto, IrTranslationUnit, any_value, operation_result_value, block_argument_value,
  string_payload, ValueProto,
}

abbrev source : Operation
source = record {
  address = 10;
  op = make_operator "source";
  attributes = ("kind", string_attribute "disk") ∷ [];
  inputs = any ∷ block_argument 5 1 ∷ [];
}

abbrev sink : Operation
sink = record {
  address = 11;
  op = make_operator "sink";
  attributes = [];
  inputs = operation_result 10 0 ∷ [];
}

abbrev body : Block
body = record {
  address = 5;
  inputs = [];
  outputs = [];
  operations = source ∷ sink ∷ [];
  results = [];
}

abbrev with_result : Block
with_result = record body { results = ("out", operation_result 11 0) ∷ [] }

abbrev module_of : Block → Module
module_of b = record { blocks = b ∷ []; named_storage_map = [] }

abbrev message : List (String × ValueProto) → ModuleProto
message results = record {
  blocks =
      record {
        id = 1;
        block = record {
          operations =
              record {
                id = 2;
                operation = record {
                  operator_name = "source";
                  inputs = any_value ∷ block_argument_value 1 1 ∷ [];
                  attributes = ("kind", string_payload "disk") ∷ [];
                };
              }
              ∷ record {
                id = 3;
                operation = record {
                  operator_name = "sink";
                  inputs = operation_result_value 2 0 ∷ [];
                  attributes = [];
                };
              }
              ∷ [];
          results = results;
        };
      }
      ∷ [];
}

abbrev out : List (String × ValueProto)
out = ("out", operation_result_value 3 0) ∷ []

abbrev ids : IrToProto
ids = record {
  used_ids = (to_block 5, 1) ∷ (to_operation 10, 2) ∷ (to_operation 11, 3) ∷ [];
  last_used_id = 3;
}

module_to_proto-with_result :
    module_to_proto make_ir_to_proto (module_of with_result) ≡ ok (ids, message out)
unfolding module_to_proto find try_insert pointer_eq
module_to_proto-with_result = refl

abbrev unit : List (String × ValueProto) → IrTranslationUnit
unit results = record {
  top_level_module = message results;
  frontend = "Raksha.IRToProto";
  operators = "source" ∷ "sink" ∷ [];
}

abbrev context : IrContext
context = record make_ir_context {
  operators = ("source", make_operator "source") ∷ ("sink", make_operator "sink") ∷ [];
}

convert_to_proto-body : convert_to_proto context (module_of body) ≡ ok (unit [])
unfolding convert_to_proto find try_insert pointer_eq
convert_to_proto-body = refl

convert_to_proto-with_result : convert_to_proto context (module_of with_result) ≡ ok (unit out)
unfolding convert_to_proto find try_insert pointer_eq
convert_to_proto-with_result = refl

-- The module as it is made anew: the block is the first object.
abbrev made_body : Block
made_body = record {
  address = 0;
  inputs = [];
  outputs = [];
  operations =
      record source { address = 1; inputs = any ∷ block_argument 0 1 ∷ [] }
      ∷ record sink { address = 2; inputs = operation_result 1 0 ∷ [] }
      ∷ [];
  results = [];
}

abbrev module_made : Outcome (IrContext × Result) → Outcome Module
module_made r = r >>= λ r. ok r.1.module_

convert_from_proto-unit :
    module_made (convert_from_proto make_ir_context (unit [])) ≡ ok (module_of made_body)
unfolding convert_from_proto find insert_new assign
convert_from_proto-unit = refl

module_to_proto-Named_example :
    AllPairs (BlockNamed ids) (with_result ∷ []) (message out).blocks
    × (length ids.used_ids < 2 ^ 64
        → (a b : Pointer) (i : ℕ) → Names ids a i
        → Names ids b i
        → a ≡ b)
module_to_proto-Named_example =
    module_to_proto-Named (module_of with_result) ids (message out) module_to_proto-with_result

convert_from_proto-results_example : convert_from_proto make_ir_context (unit out) ≡ fatal
convert_from_proto-results_example =
    convert_from_proto-results context make_ir_context (module_of with_result) with_result
      (unit out) (inl refl) (λ h. cc) convert_to_proto-with_result

operators_registered :
    fold_m register_operator_of_proto make_ir_context (unit []).operators ≡ ok context
unfolding register_operator_of_proto find insert_new
operators_registered = refl

message-IsReadable : IsReadable context (message [])
unfolding contains get_operator find
message-IsReadable = (
  (refl, (refl, tt)),
  (refl, tt),
  (
    ((make_operator "source", refl), (tt, (refl, tt)), (tt, tt), (refl, tt)),
    (((make_operator "sink", refl), (refl, tt), tt, tt), tt),
  ),
  (refl, tt),
)

convert_from_proto-reads_example :
    Returns
      (λ r. (r.0 ≡ context) × IsReadFrom context (message []).blocks r.1.module_)
      (convert_from_proto make_ir_context (unit []))
convert_from_proto-reads_example =
    convert_from_proto-reads make_ir_context context (unit []) operators_registered
      message-IsReadable

module_to_proto-body : module_to_proto make_ir_to_proto (module_of body) ≡ ok (ids, message [])
unfolding module_to_proto find try_insert pointer_eq
module_to_proto-body = refl

few_objects :
    (s : IrToProto) (p : ModuleProto)
    → module_to_proto make_ir_to_proto (module_of body) ≡ ok (s, p)
    → length s.used_ids < 2 ^ 64
few_objects s p h =
    subst (λ r. length r.0.used_ids < 2 ^ 64) (ok-injective (sym module_to_proto-body ∙ h))
      (omega arith)

body-IsWritable : IsWritable context (module_of body)
unfolding contains get_operator find operations_of_blocks
body-IsWritable = (
  (refl, (refl, tt)),
  (refl, tt),
  (
    ((make_operator "source", refl), (tt, (refl, tt)), (refl, tt)),
    (((make_operator "sink", refl), (refl, tt), tt), tt),
  ),
  (refl, tt),
)

convert_from_proto-convert_to_proto_example :
    Returns
      (λ r. (r.0 ≡ context) × IsCopy context (module_of body) r.1.module_)
      (convert_from_proto make_ir_context (unit []))
convert_from_proto-convert_to_proto_example =
    convert_from_proto-convert_to_proto context make_ir_context context (module_of body) (unit [])
      convert_to_proto-body operators_registered body-IsWritable few_objects
