-- ===== src/Ir/ProtoToIr/RoundTrip.antt =====
-- The message that src/ir/ir_to_proto.cc writes for a module is one that src/ir/proto_to_ir.cc reads.
use raksha.Common.{
  true, nat_eq, string_eq, ℕ, ◌<◌, ◌^◌, length, String, List, [], ◌∷◌, some-injective, ok, ◌≡◌,
  refl, sym, ◌∙◌, ap, subst, All, AllPairs, map,
}
use raksha.Common.Maps.{keys}
use raksha.Common.Sets.{contains}
use raksha.Common.Entries.{Distinct}
use raksha.Ir.Attributes.{Attribute, float_attribute, int64_attribute, string_attribute}
use raksha.Ir.Values.{Value, any, operation_result, block_argument, stored_value}
use raksha.Ir.Context.{IrContext, get_operator}
use raksha.Ir.Modules.{Operation, Module, Block, operations_of_blocks}
use raksha.Ir.Proto.{
  ValueProto, value_not_set, any_value, operation_result_value, block_argument_value,
  OperationWithId, BlockWithId, ModuleProto,
}
use raksha.Ir.IrToProto.{
  IrToProto, Pointer, pointer_eq, to_block, to_operation, make_ir_to_proto, module_to_proto,
  named_attribute_to_proto,
}
use raksha.Ir.IrToProto.Ids.{Names}
use raksha.Ir.IrToProto.Named.{
  ValueNamed, OperationNamed, BlockNamed, ResultNamed, module_to_proto-Named,
}
use raksha.Ir.ProtoToIr.Readable.{
  IsReadable, ValueIn, HasPayload, OperationIn, operation_id, block_id, message_operations,
}
use raksha.Ir.ProtoToIr.Writable.{
  address_of, block_address_of, IsValueOf, IsOperationOf, IsWritable, id_of_address, Distinct-ids,
  named_operations,
}

values_in :
    (s : IrToProto) (os bs ids bids : List ℕ) (vs : List Value) (ps : List ValueProto)
    → ((a i : ℕ) → Names s (to_operation a) i → contains os a ≡ true → contains ids i ≡ true)
    → ((a i : ℕ) → Names s (to_block a) i → contains bs a ≡ true → contains bids i ≡ true)
    → AllPairs (ValueNamed s) vs ps
    → All (IsValueOf os bs) vs
    → All (ValueIn ids bids) ps
values_in s os bs ids bids [] [] fo fb all h = tt
values_in s os bs ids bids [] (p ∷ ps) fo fb all h = absurd all
values_in s os bs ids bids (v ∷ vs) [] fo fb all h = absurd all
values_in s os bs ids bids (v ∷ vs) (p ∷ ps) fo fb (named, all) (here, later) =
    (value_in v p named here, values_in s os bs ids bids vs ps fo fb all later)
  where
    value_in :
        (v : Value) (p : ValueProto) → ValueNamed s v p → IsValueOf os bs v → ValueIn ids bids p
    value_in any any_value named h = tt
    value_in (operation_result o i) (operation_result_value id j) named h = fo o id named.0 h
    value_in (block_argument b i) (block_argument_value id j) named h = fb b id named.0 h
    value_in any value_not_set named h = named
    value_in any (operation_result_value id j) named h = absurd named
    value_in any (block_argument_value id j) named h = absurd named
    value_in (operation_result o i) value_not_set named h = named
    value_in (operation_result o i) any_value named h = tt
    value_in (operation_result o i) (block_argument_value id j) named h = absurd named
    value_in (block_argument b i) value_not_set named h = named
    value_in (block_argument b i) any_value named h = tt
    value_in (block_argument b i) (operation_result_value id j) named h = absurd named
    value_in (stored_value t) p named h = absurd h

attributes_written :
    (attributes : List (String × Attribute))
    → All HasPayload (map named_attribute_to_proto attributes)
      × (keys (map named_attribute_to_proto attributes) ≡ keys attributes)
unfolding named_attribute_to_proto
attributes_written [] = (tt, refl)
attributes_written ((name, float_attribute f) ∷ rest) =
    let (all, e) = attributes_written rest in ((tt, all), ap (◌∷◌ name) e)
attributes_written ((name, int64_attribute f) ∷ rest) =
    let (all, e) = attributes_written rest in ((tt, all), ap (◌∷◌ name) e)
attributes_written ((name, string_attribute f) ∷ rest) =
    let (all, e) = attributes_written rest in ((tt, all), ap (◌∷◌ name) e)

operations_in :
    (c : IrContext) (s : IrToProto) (os bs ids bids : List ℕ) (xs : List Operation)
    (ps : List OperationWithId)
    → ((a i : ℕ) → Names s (to_operation a) i → contains os a ≡ true → contains ids i ≡ true)
    → ((a i : ℕ) → Names s (to_block a) i → contains bs a ≡ true → contains bids i ≡ true)
    → AllPairs (OperationNamed s) xs ps
    → All (IsOperationOf c os bs) xs
    → All (OperationIn c ids bids) ps
operations_in c s os bs ids bids [] [] fo fb all h = tt
operations_in c s os bs ids bids [] (p ∷ ps) fo fb all h = absurd all
operations_in c s os bs ids bids (x ∷ xs) [] fo fb all h = absurd all
operations_in c s os bs ids bids (x ∷ xs) (p ∷ ps) fo fb ((_, (name, inputs, attributes)), all)
      (((op, found), values, distinct), later) =
    let (payloads, same_keys) = attributes_written x.attributes in
    (
      (
        (op, ap (get_operator c) name ∙ found),
        values_in s os bs ids bids x.inputs p.operation.inputs fo fb inputs values,
        subst (All HasPayload) (sym attributes) payloads,
        subst Distinct (sym (ap keys attributes ∙ same_keys)) distinct,
      ),
      operations_in c s os bs ids bids xs ps fo fb all later,
    )

results_in :
    (s : IrToProto) (bs : List Block) (ps : List BlockWithId)
    → AllPairs (BlockNamed s) bs ps
    → All (λ b. b.results ≡ []) bs
    → All (λ b. b.block.results ≡ []) ps
results_in s [] [] all h = tt
results_in s [] (p ∷ ps) all h = absurd all
results_in s (b ∷ bs) [] all h = absurd all
results_in s (b ∷ bs) (p ∷ ps) ((_, (_, results)), all) (here, later) = (
  none_of p.block.results (subst (λ l. AllPairs (ResultNamed s) l p.block.results) here results),
  results_in s bs ps all later,
)
  where
    none_of : (rs : List (String × ValueProto)) → AllPairs (ResultNamed s) [] rs → rs ≡ []
    none_of [] all = refl
    none_of (r ∷ rs) all = absurd all

pub to_operation-injective : {a b : ℕ} → to_operation a ≡ to_operation b → a ≡ b
to_operation-injective h = cc

pub to_block-injective : {a b : ℕ} → to_block a ≡ to_block b → a ≡ b
to_block-injective h = cc

pub module_to_proto-IsReadable :
    (c : IrContext) (m : Module) (s : IrToProto) (p : ModuleProto)
    → module_to_proto make_ir_to_proto m ≡ ok (s, p)
    → length s.used_ids < 2 ^ 64
    → IsWritable c m
    → IsReadable c p
module_to_proto-IsReadable c m s p run small (distinct, bdistinct, all, no_results) =
    let (named, inj) = module_to_proto-Named m s p run in
    let operations = named_operations s m.blocks p.blocks named in
    let unique : (q : Pointer) (i j : ℕ) → Names s q i → Names s q j → i ≡ j =
      λ q i j h h'. some-injective _ _ (sym h ∙ h') in
    let os = operations_of_blocks m.blocks in
    let ps = message_operations p.blocks in
    let O : ℕ → ℕ → Type 0 = λ a i. Names s (to_operation a) i in
    let B : ℕ → ℕ → Type 0 = λ a i. Names s (to_block a) i in
    (
      Distinct-ids address_of operation_id (OperationNamed s) O (λ x y h. h.0) os ps
          (λ a b i h h'.
            to_operation-injective (inj small (to_operation a) (to_operation b) i h h'))
          operations distinct,
      Distinct-ids block_address_of block_id (BlockNamed s) B (λ x y h. h.0) m.blocks p.blocks
          (λ a b i h h'. to_block-injective (inj small (to_block a) (to_block b) i h h')) named
          bdistinct,
      operations_in c s (map address_of os) (map block_address_of m.blocks) (map operation_id ps)
          (map block_id p.blocks) os ps
          (λ a i h there.
            id_of_address address_of operation_id (OperationNamed s) O (λ x y h. h.0) os ps a i
              (λ a i j. unique (to_operation a) i j) operations h there)
          (λ a i h there.
            id_of_address block_address_of block_id (BlockNamed s) B (λ x y h. h.0) m.blocks
              p.blocks a i (λ a i j. unique (to_block a) i j) named h there)
          operations all,
      results_in s m.blocks p.blocks named no_results,
    )
