-- ===== src/Ir/ProtoToIr/Copies.antt =====
-- The module that src/ir/proto_to_ir.cc makes of what src/ir/ir_to_proto.cc writes for a module.
use raksha.Ir.ProtoToIr.Readable.{IsReadable}
use raksha.Common.{
  nat_eq, string_eq, ℕ, ◌<◌, ◌^◌, length, String, List, [], ◌∷◌, some, some-injective, ok,
  ok-injective, >>=-eq-ok, ◌≡◌, refl, sym, ◌∙◌, ap, subst, AllPairs, map, fold_m, Returns,
  Returns-weaken,
}
use raksha.Ir.Attributes.{Attribute, float_attribute, int64_attribute, string_attribute}
use raksha.Ir.Values.{Value, any, operation_result, block_argument, stored_value}
use raksha.Ir.Context.{IrContext, get_operator}
use raksha.Ir.Modules.{Operation, Module, Block}
use raksha.Ir.Proto.{
  ValueProto, value_not_set, any_value, operation_result_value, block_argument_value,
  AttributePayload, payload_not_set, float_payload, int64_payload, string_payload, OperationWithId,
  BlockWithId, ModuleProto, IrTranslationUnit,
}
use raksha.Ir.IrToProto.{
  IrToProto, Pointer, pointer_eq, to_block, to_operation, make_ir_to_proto, module_to_proto,
  convert_to_proto, named_attribute_to_proto,
}
use raksha.Ir.IrToProto.Ids.{Names}
use raksha.Ir.IrToProto.Named.{ValueNamed, OperationNamed, BlockNamed, module_to_proto-Named}
use raksha.Ir.ProtoToIr.{convert_from_proto, register_operator_of_proto}
use raksha.Ir.ProtoToIr.Tables.{Table, ValueRead, OperationRead, BlockRead}
use raksha.Ir.ProtoToIr.Reading.{convert_from_proto-reads}
use raksha.Ir.ProtoToIr.RoundTrip.{
  module_to_proto-IsReadable, to_operation-injective, to_block-injective,
}
use raksha.Ir.ProtoToIr.Writable.{IsWritable}

-- The new value is of the object that corresponds to that of the old one.
abbrev pub ValueCopied : (ℕ → ℕ → Type 0) → (ℕ → ℕ → Type 0) → Value → Value → Type 0
ValueCopied A B any any = Unit
ValueCopied A B (operation_result o i) (operation_result p j) = A o p × (j ≡ i)
ValueCopied A B (block_argument b i) (block_argument p j) = B b p × (j ≡ i)
ValueCopied A B v w = ⊥

abbrev pub OperationCopied :
    IrContext → (ℕ → ℕ → Type 0) → (ℕ → ℕ → Type 0) → Operation → Operation → Type 0
OperationCopied c A B o p =
    A o.address p.address
    × (get_operator c o.op.name ≡ some p.op)
    × AllPairs (ValueCopied A B) o.inputs p.inputs
    × (p.attributes ≡ o.attributes)

abbrev pub BlockCopied : IrContext → (ℕ → ℕ → Type 0) → (ℕ → ℕ → Type 0) → Block → Block → Type 0
BlockCopied c A B b p =
    B b.address p.address
    × (p.results ≡ [])
    × AllPairs (OperationCopied c A B) b.operations p.operations

-- Each address corresponds to at most one, in both directions.
abbrev pub IsOneToOne : (ℕ → ℕ → Type 0) → Type 0
IsOneToOne A = ((a b c : ℕ) → A a b → A a c → b ≡ c) × ((a b c : ℕ) → A a c → A b c → a ≡ b)

-- The modules agree up to the addresses of operations and of blocks.
abbrev pub IsCopy : IrContext → Module → Module → Type 1
IsCopy c m n =
    (A : ℕ → ℕ → Type 0) × (B : ℕ → ℕ → Type 0) × AllPairs (BlockCopied c A B) m.blocks n.blocks
    × IsOneToOne A
    × IsOneToOne B

AllPairs-compose :
    {X Y Z : Type 0} (R : X → Y → Type 0) (S : Y → Z → Type 0) (T : X → Z → Type 0) (xs : List X)
    (ys : List Y) (zs : List Z)
    → ((x : X) (y : Y) (z : Z) → R x y → S y z → T x z)
    → AllPairs R xs ys
    → AllPairs S ys zs
    → AllPairs T xs zs
AllPairs-compose R S T [] [] [] step r s = tt
AllPairs-compose R S T [] [] (z ∷ zs) step r s = absurd s
AllPairs-compose R S T [] (y ∷ ys) zs step r s = absurd r
AllPairs-compose R S T (x ∷ xs) [] zs step r s = absurd r
AllPairs-compose R S T (x ∷ xs) (y ∷ ys) [] step r s = absurd s
AllPairs-compose R S T (x ∷ xs) (y ∷ ys) (z ∷ zs) step (r, rs) (s, ss) =
    (step x y z r s, AllPairs-compose R S T xs ys zs step rs ss)

attribute_of : String × AttributePayload → String × Attribute
attribute_of (name, payload_not_set) = (name, string_attribute "")
attribute_of (name, float_payload f) = (name, float_attribute f)
attribute_of (name, int64_payload i) = (name, int64_attribute i)
attribute_of (name, string_payload t) = (name, string_attribute t)

attributes_back :
    (as_ : List (String × Attribute)) → map attribute_of (map named_attribute_to_proto as_) ≡ as_
unfolding attribute_of named_attribute_to_proto
attributes_back [] = refl
attributes_back ((name, float_attribute f) ∷ rest) =
    ap (◌∷◌ (name, float_attribute f)) (attributes_back rest)
attributes_back ((name, int64_attribute i) ∷ rest) =
    ap (◌∷◌ (name, int64_attribute i)) (attributes_back rest)
attributes_back ((name, string_attribute t) ∷ rest) =
    ap (◌∷◌ (name, string_attribute t)) (attributes_back rest)

module _ (c : IrContext) (s : IrToProto) (f g : Table) where
  abbrev SameOperation : ℕ → ℕ → Type 0
  SameOperation a b = (i : ℕ) × Names s (to_operation a) i × (f i ≡ some b)

  abbrev SameBlock : ℕ → ℕ → Type 0
  SameBlock a b = (i : ℕ) × Names s (to_block a) i × (g i ≡ some b)

  value_copied :
      (v : Value) (p : ValueProto) (w : Value)
      → ValueNamed s v p
      → ValueRead f g p w
      → ValueCopied SameOperation SameBlock v w
  value_copied any any_value any h k = tt
  value_copied (operation_result o i) (operation_result_value id j) (operation_result q l) (n, e)
        (r, e') =
      ((id, n, r), e' ∙ e)
  value_copied (block_argument o i) (block_argument_value id j) (block_argument q l) (n, e)
        (r, e') =
      ((id, n, r), e' ∙ e)
  value_copied any value_not_set w h k = absurd h
  value_copied any any_value (operation_result q l) h k = absurd k
  value_copied any any_value (block_argument q l) h k = absurd k
  value_copied any any_value (stored_value q) h k = absurd k
  value_copied any (operation_result_value id j) w h k = absurd h
  value_copied any (block_argument_value id j) w h k = absurd h
  value_copied (operation_result o i) value_not_set w h k = absurd h
  value_copied (operation_result o i) any_value w h k = absurd h
  value_copied (operation_result o i) (operation_result_value id j) any h k = absurd k
  value_copied (operation_result o i) (operation_result_value id j) (block_argument q l) h k =
      absurd k
  value_copied (operation_result o i) (operation_result_value id j) (stored_value q) h k = absurd k
  value_copied (operation_result o i) (block_argument_value id j) w h k = absurd h
  value_copied (block_argument o i) value_not_set w h k = absurd h
  value_copied (block_argument o i) any_value w h k = absurd h
  value_copied (block_argument o i) (operation_result_value id j) w h k = absurd h
  value_copied (block_argument o i) (block_argument_value id j) any h k = absurd k
  value_copied (block_argument o i) (block_argument_value id j) (operation_result q l) h k =
      absurd k
  value_copied (block_argument o i) (block_argument_value id j) (stored_value q) h k = absurd k
  value_copied (stored_value t) p w h k = absurd h

  operation_copied :
      (o : Operation) (p : OperationWithId) (q : Operation)
      → OperationNamed s o p
      → OperationRead c f g p q
      → OperationCopied c SameOperation SameBlock o q
  operation_copied o p q (n, (name, inputs, attributes)) (r, found, reads, named) = (
    (p.id, n, r),
    ap (get_operator c) (sym name) ∙ found,
    AllPairs-compose (ValueNamed s) (ValueRead f g) (ValueCopied SameOperation SameBlock) o.inputs
        p.operation.inputs q.inputs value_copied inputs reads,
    sym (attributes_back q.attributes)
        ∙ ap (map attribute_of) (named ∙ attributes)
        ∙ attributes_back o.attributes,
  )

  block_copied :
      (b : Block) (p : BlockWithId) (q : Block)
      → BlockNamed s b p
      → BlockRead c f g p q
      → BlockCopied c SameOperation SameBlock b q
  block_copied b p q (n, (operations, _)) (r, no_results, reads) = (
    (p.id, n, r),
    no_results,
    AllPairs-compose (OperationNamed s) (OperationRead c f g)
        (OperationCopied c SameOperation SameBlock) b.operations p.block.operations q.operations
        operation_copied operations reads,
  )

-- Addresses that go with one id correspond one to one.
IsOneToOne-through :
    (s : IrToProto) (at_ : ℕ → Pointer) (f : Table)
    → ((a b i : ℕ) → Names s (at_ a) i → Names s (at_ b) i → a ≡ b)
    → ((i j a : ℕ) → f i ≡ some a → f j ≡ some a → i ≡ j)
    → IsOneToOne (λ a b. (i : ℕ) × Names s (at_ a) i × (f i ≡ some b))
IsOneToOne-through s at_ f inj inj' = (
  λ a b c (i, h, k) (j, h', k').
      some-injective _ _ (sym k ∙ ap f (some-injective _ _ (sym h ∙ h')) ∙ k'),
  λ a b c (i, h, k) (j, h', k'). inj a b i h (subst (Names s (at_ b)) (sym (inj' i j c k k')) h'),
)

-- A module that is written as a message and read again comes back without a failed CHECK, as a
-- copy: blocks and operations in the same order, with the same attributes, the registered operators
-- of the same names, and inputs that are results and arguments of the corresponding objects at the
-- same indices, where addresses correspond one to one; if the operators of the message are
-- registered, the objects of the module have distinct addresses, its values are of its own objects,
-- its operators are registered, attributes have distinct names, no block has a result, and fewer
-- than 2 ^ 64 ids are taken.
pub convert_from_proto-convert_to_proto :
    (c c' c'' : IrContext) (m : Module) (root : IrTranslationUnit)
    → convert_to_proto c m ≡ ok root
    → fold_m register_operator_of_proto c' root.operators ≡ ok c''
    → IsWritable c'' m
    → ((s : IrToProto) (p : ModuleProto)
        → module_to_proto make_ir_to_proto m ≡ ok (s, p)
        → length s.used_ids < 2 ^ 64)
    → Returns (λ r. (r.0 ≡ c'') × IsCopy c'' m r.1.module_) (convert_from_proto c' root)
unfolding convert_to_proto
convert_from_proto-convert_to_proto c c' c'' m root written registered writable few =
    let ((s, p), run, e) = >>=-eq-ok (module_to_proto make_ir_to_proto m) _ written in
    let small = few s p run in
    let p_is : p ≡ root.top_level_module = ap (λ r. r.top_level_module) (ok-injective e) in
    let (named, inj) = module_to_proto-Named m s p run in
    let readable : IsReadable c'' root.top_level_module =
      subst (IsReadable c'') p_is (module_to_proto-IsReadable c'' m s p run small writable) in
    let named' : AllPairs (BlockNamed s) m.blocks root.top_level_module.blocks =
      subst (λ p. AllPairs (BlockNamed s) m.blocks p.blocks) p_is named in
    Returns-weaken (convert_from_proto-reads c' c'' root registered readable)
      (λ r (context, (f, g, reads, finj, ginj)). (
        context,
        (
          SameOperation c'' s f g,
          SameBlock c'' s f g,
          AllPairs-compose (BlockNamed s) (BlockRead c'' f g)
              (BlockCopied c'' (SameOperation c'' s f g) (SameBlock c'' s f g)) m.blocks
              root.top_level_module.blocks r.1.module_.blocks (block_copied c'' s f g) named' reads,
          IsOneToOne-through s to_operation f
              (λ a b i h h'.
                to_operation-injective (inj small (to_operation a) (to_operation b) i h h'))
              finj,
          IsOneToOne-through s to_block g
              (λ a b i h h'. to_block-injective (inj small (to_block a) (to_block b) i h h')) ginj,
        ),
      ))
