-- ===== src/Ir/IrToProto/Named.antt =====
-- The message of a module says of each object what the module does, by the ids of src/ir/ir_to_proto.h.
use raksha.Ir.IrToProto.Ids.{Before, HasDistinctIds, Names, get_id_lem, Before-refl, Before-trans}
use raksha.Common.{
  ℕ, ◌<◌, ◌^◌, String, List, Outcome, ok, map, map_state, map_state-AllPairs, AllPairs,
  AllPairs-map, ◌≡◌, refl, subst, length, >>=-eq-ok, ok-injective,
}
use raksha.Common.Maps.{find}
use raksha.Ir.Values.{Value, operation_result, block_argument, stored_value, any}
use raksha.Ir.Modules.{Operation, Block, Module}
use raksha.Ir.Proto.{
  ValueProto, any_value, value_not_set, operation_result_value, block_argument_value,
  OperationWithId, OperationProto, BlockProto, BlockWithId, ModuleProto,
}
use raksha.Ir.IrToProto.{
  Pointer, pointer_eq, to_block, to_operation, IrToProto, make_ir_to_proto, block_with_id,
  module_to_proto, named_attribute_to_proto, named_value_to_proto, operation_with_id,
  value_to_proto, block_to_proto, operation_to_proto,
}

abbrev pub ValueNamed : IrToProto → Value → ValueProto → Type 0
ValueNamed s any any_value = Unit
ValueNamed s (operation_result o i) (operation_result_value id j) =
    Names s (to_operation o) id × (j ≡ i)
ValueNamed s (block_argument b i) (block_argument_value id j) = Names s (to_block b) id × (j ≡ i)
ValueNamed s v p = ⊥

abbrev pub ContentsNamed : IrToProto → Operation → OperationProto → Type 0
ContentsNamed s o p =
    (p.operator_name ≡ o.op.name)
    × AllPairs (ValueNamed s) o.inputs p.inputs
    × (p.attributes ≡ map named_attribute_to_proto o.attributes)

abbrev pub OperationNamed : IrToProto → Operation → OperationWithId → Type 0
OperationNamed s o p = Names s (to_operation o.address) p.id × ContentsNamed s o p.operation

abbrev pub ResultNamed : IrToProto → String × Value → String × ValueProto → Type 0
ResultNamed s r p = (p.0 ≡ r.0) × ValueNamed s r.1 p.1

abbrev pub BodyNamed : IrToProto → Block → BlockProto → Type 0
BodyNamed s b p =
    AllPairs (OperationNamed s) b.operations p.operations
    × AllPairs (ResultNamed s) b.results p.results

abbrev pub BlockNamed : IrToProto → Block → BlockWithId → Type 0
BlockNamed s b p = Names s (to_block b.address) p.id × BodyNamed s b p.block

ValueNamed-kept :
    (s t : IrToProto) (v : Value) (p : ValueProto)
    → Before s t
    → ValueNamed s v p
    → ValueNamed t v p
ValueNamed-kept s t any any_value before h = tt
ValueNamed-kept s t (operation_result o i) (operation_result_value id j) (keep, _) (n, e) =
    (keep _ id n, e)
ValueNamed-kept s t (block_argument b i) (block_argument_value id j) (keep, _) (n, e) =
    (keep _ id n, e)
ValueNamed-kept s t any value_not_set before h = absurd h
ValueNamed-kept s t any (operation_result_value id j) before h = absurd h
ValueNamed-kept s t any (block_argument_value id j) before h = absurd h
ValueNamed-kept s t (operation_result o i) value_not_set before h = absurd h
ValueNamed-kept s t (operation_result o i) any_value before h = absurd h
ValueNamed-kept s t (operation_result o i) (block_argument_value id j) before h = absurd h
ValueNamed-kept s t (block_argument b i) value_not_set before h = absurd h
ValueNamed-kept s t (block_argument b i) any_value before h = absurd h
ValueNamed-kept s t (block_argument b i) (operation_result_value id j) before h = absurd h
ValueNamed-kept s t (stored_value u) p before h = absurd h

value_to_proto-ValueNamed :
    (s : IrToProto) (v : Value) (t : IrToProto) (p : ValueProto)
    → value_to_proto s v ≡ ok (t, p)
    → Before s t × ValueNamed t v p
unfolding value_to_proto
value_to_proto-ValueNamed s any t p h =
    subst (λ r. Before s r.0 × ValueNamed r.0 any r.1) (ok-injective h) (Before-refl s, tt)
value_to_proto-ValueNamed s (operation_result o i) t p h =
    let (before, named) = get_id_lem s (to_operation o) in
    subst (λ r. Before s r.0 × ValueNamed r.0 (operation_result o i) r.1) (ok-injective h)
      (before, (named, refl))
value_to_proto-ValueNamed s (block_argument b i) t p h =
    let (before, named) = get_id_lem s (to_block b) in
    subst (λ r. Before s r.0 × ValueNamed r.0 (block_argument b i) r.1) (ok-injective h)
      (before, (named, refl))
value_to_proto-ValueNamed s (stored_value u) t p h = cc

-- The steps of the loops.
module _ {A B : Type 0} (R : IrToProto → A → B → Type 0) where
  loop-Named :
      (f : IrToProto → A → Outcome (IrToProto × B)) (s : IrToProto) (xs : List A) (t : IrToProto)
      (ys : List B)
      → ((s t : IrToProto) (x : A) (y : B) → Before s t → R s x y → R t x y)
      → ((s : IrToProto) (x : A) (t : IrToProto) (y : B) → f s x ≡ ok (t, y) → Before s t × R t x y)
      → map_state f s xs ≡ ok (t, ys)
      → Before s t × AllPairs (R t) xs ys
  loop-Named f s xs t ys keep step h =
      map_state-AllPairs Before R f s xs t ys Before-refl Before-trans keep step h

OperationNamed-kept :
    (s t : IrToProto) (o : Operation) (p : OperationWithId)
    → Before s t
    → OperationNamed s o p
    → OperationNamed t o p
OperationNamed-kept s t o p before (named, (same, inputs, attributes)) = (
  before.0 _ p.id named,
  (
    same,
    AllPairs-map _ _ o.inputs p.operation.inputs (λ v q h. ValueNamed-kept s t v q before h) inputs,
    attributes,
  ),
)

operation_with_id-Named :
    (s : IrToProto) (o : Operation) (t : IrToProto) (p : OperationWithId)
    → operation_with_id s o ≡ ok (t, p)
    → Before s t × OperationNamed t o p
unfolding operation_with_id operation_to_proto
operation_with_id-Named s o t p h =
    let ((s1, q), run, e) = >>=-eq-ok (operation_to_proto s o) _ h in
    let ((s2, inputs), run1, e1) = >>=-eq-ok (map_state value_to_proto s o.inputs) _ run in
    let (before, named) =
      loop-Named ValueNamed value_to_proto s o.inputs s2 inputs ValueNamed-kept
        value_to_proto-ValueNamed run1 in
    let contents : Before s s1 × ContentsNamed s1 o q =
      subst (λ r. Before s r.0 × ContentsNamed r.0 o r.1) (ok-injective e1)
        (before, (refl, named, refl)) in
    let (after, id_is) = get_id_lem s1 (to_operation o.address) in
    let (_, (same, inputs_named, attributes)) = contents in
    subst (λ r. Before s r.0 × OperationNamed r.0 o r.1) (ok-injective e)
      (
        Before-trans s s1 _ contents.0 after,
        (
          id_is,
          (
            same,
            AllPairs-map _ _ o.inputs q.inputs (λ v q h. ValueNamed-kept s1 _ v q after h)
                inputs_named,
            attributes,
          ),
        ),
      )

named_value_to_proto-Named :
    (s : IrToProto) (r : String × Value) (t : IrToProto) (p : String × ValueProto)
    → named_value_to_proto s r ≡ ok (t, p)
    → Before s t × ResultNamed t r p
unfolding named_value_to_proto
named_value_to_proto-Named s (name, v) t p h =
    let ((s1, q), run, e) = >>=-eq-ok (value_to_proto s v) _ h in
    let (before, named) = value_to_proto-ValueNamed s v s1 q run in
    subst (λ r. Before s r.0 × ResultNamed r.0 (name, v) r.1) (ok-injective e)
      (before, (refl, named))

BodyNamed-kept :
    (s t : IrToProto) (b : Block) (p : BlockProto) → Before s t → BodyNamed s b p → BodyNamed t b p
BodyNamed-kept s t b p before (operations, results) = (
  AllPairs-map _ _ b.operations p.operations (λ o q h. OperationNamed-kept s t o q before h)
      operations,
  AllPairs-map _ _ b.results p.results
      (λ r q (same, h). (same, ValueNamed-kept s t r.1 q.1 before h)) results,
)

block_with_id-Named :
    (s : IrToProto) (b : Block) (t : IrToProto) (p : BlockWithId)
    → block_with_id s b ≡ ok (t, p)
    → Before s t × BlockNamed t b p
unfolding block_with_id block_to_proto
block_with_id-Named s b t p h =
    let ((s1, q), run, e) = >>=-eq-ok (block_to_proto s b) _ h in
    let ((s2, operations), run2, rest) =
      >>=-eq-ok (map_state operation_with_id s b.operations) _ run in
    let ((s3, results), run3, e3) =
      >>=-eq-ok (map_state named_value_to_proto s2 b.results) _ rest in
    let (before2, named2) =
      loop-Named OperationNamed operation_with_id s b.operations s2 operations OperationNamed-kept
        operation_with_id-Named run2 in
    let (before3, named3) =
      loop-Named ResultNamed named_value_to_proto s2 b.results s3 results
        (λ s t r q before (same, h). (same, ValueNamed-kept s t r.1 q.1 before h))
        named_value_to_proto-Named run3 in
    let body : Before s s1 × BodyNamed s1 b q =
      subst (λ r. Before s r.0 × BodyNamed r.0 b r.1) (ok-injective e3)
        (
          Before-trans s s2 s3 before2 before3,
          (
            AllPairs-map _ _ b.operations operations
                (λ o q h. OperationNamed-kept s2 s3 o q before3 h) named2,
            named3,
          ),
        ) in
    let (after, id_is) = get_id_lem s1 (to_block b.address) in
    subst (λ r. Before s r.0 × BlockNamed r.0 b r.1) (ok-injective e)
      (Before-trans s s1 _ body.0 after, (id_is, BodyNamed-kept s1 _ b q after body.1))

no_ids : HasDistinctIds make_ir_to_proto
unfolding find
no_ids small = (refl, λ p i h. cc, λ p q i h. cc)

-- When a module is written as a message, each block and each operation has the id that its object
-- has in the end, with the operators, the attributes and the named results of the objects in order,
-- and each value that is written names its operation or block by that id, with the index; and while
-- there are fewer than 2 ^ 64 objects, two objects have distinct ids.
pub module_to_proto-Named :
    (m : Module) (s : IrToProto) (p : ModuleProto)
    → module_to_proto make_ir_to_proto m ≡ ok (s, p)
    → AllPairs (BlockNamed s) m.blocks p.blocks
      × (length s.used_ids < 2 ^ 64 → (a b : Pointer) (i : ℕ) → Names s a i → Names s b i → a ≡ b)
unfolding module_to_proto
module_to_proto-Named m s p h =
    let ((t, blocks), run, e) = >>=-eq-ok (map_state block_with_id make_ir_to_proto m.blocks) _ h in
    let ((_, distinct), named) =
      loop-Named BlockNamed block_with_id make_ir_to_proto m.blocks t blocks
        (λ s t b q before (id_is, body).
          (before.0 _ q.id id_is, BodyNamed-kept s t b q.block before body))
        block_with_id-Named run in
    subst
      (λ r.
        AllPairs (BlockNamed r.0) m.blocks r.1.blocks
        × (length r.0.used_ids < 2 ^ 64
            → (a b : Pointer) (i : ℕ) → Names r.0 a i
            → Names r.0 b i
            → a ≡ b))
      (ok-injective e) (named, λ small. (distinct no_ids small).2)
