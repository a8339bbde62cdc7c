-- ===== src/Ir/ProtoToIr/Reading.antt =====
-- The module that src/ir/proto_to_ir.cc makes of a message.
use raksha.Common.{
  true, nat_eq, ℕ, List, [], ◌∷◌, ◌++◌, some, none, ok, ◌≡◌, refl, sym, ◌∙◌, ap, ap₂, subst, All,
  All-map, AllPairs, map, append_assoc, append-nil, fold_m, Returns, returns, Returns-bind, Option,
  ◌==◌, Bool-cases, inl, inr,
}
use raksha.Common.Maps.{find, keys}
use raksha.Common.Sets.{contains}
use raksha.Common.Entries.{Distinct, find-middle, find-before}
use raksha.Ir.Context.{IrContext}
use raksha.Ir.Modules.{Operation, Module, make_module}
use raksha.Ir.BlockBuilder.{BlockBuilder, make_block_builder}
use raksha.Ir.Proto.{
  ValueProto, value_not_set, any_value, operation_result_value, block_argument_value,
  OperationWithId, BlockWithId, IrTranslationUnit, ModuleProto,
}
use raksha.Ir.ProtoToIr.{
  ProtoToIr, make_proto_to_ir, convert_from_proto, register_operator_of_proto, pre_visit_module,
  to_ir_module, post_visit_module, check_blocks, check_operations,
}
use raksha.Ir.ProtoToIr.Tables.{
  Table, operation_table, block_table, address_of_block, ValueKnown, BlockRead,
}
use raksha.Ir.ProtoToIr.Readable.{
  IsReadable, ValueIn, OperationIn, operation_id, block_id, message_operations,
}
use raksha.Ir.ProtoToIr.Visiting.{Fresh, FreshBlock, keys-Fresh, visit_blocks}
use raksha.Ir.ProtoToIr.Filled.{OperationKnown, fill_blocks, Filled}
use raksha.Ir.ProtoToIr.Placing.{IsNone, InputsIn}
use raksha.Ir.ProtoToIr.Placed.{Placeable, place_blocks, PlacedModule}

operation_known :
    (c : IrContext) (os : List OperationWithId) (es : List (ℕ × Option Operation)) (id : ℕ)
    → AllPairs (Fresh c) os es
    → contains (map operation_id os) id ≡ true
    → (a : ℕ) × (operation_table es id ≡ some a)
unfolding contains find
operation_known c [] es id fresh there = cc
operation_known c (o ∷ os) [] id fresh there = absurd fresh
operation_known c (o ∷ os) (e ∷ es) id ((x, e_is, _, _, _), fresh) there =
    elim (Bool-cases (o.id == id)) [
      | inl same ↦ (x.address, rw (e_is, same))
      | inr differ ↦ rw (e_is, differ) (operation_known c os es id fresh (rw differ at there))
    ]

keys-FreshBlock :
    (bs : List BlockWithId) (es : List (ℕ × BlockBuilder))
    → AllPairs FreshBlock bs es
    → keys es ≡ map block_id bs
keys-FreshBlock [] [] all = refl
keys-FreshBlock [] (e ∷ es) all = absurd all
keys-FreshBlock (b ∷ bs) [] all = absurd all
keys-FreshBlock (b ∷ bs) ((i, x) ∷ es) ((_, e), all) =
    ap₂ ◌∷◌ (ap (λ e. e.0) e) (keys-FreshBlock bs es all)

block_known :
    (bs : List BlockWithId) (es : List (ℕ × BlockBuilder)) (id : ℕ)
    → AllPairs FreshBlock bs es
    → contains (map block_id bs) id ≡ true
    → (a : ℕ) × (block_table es id ≡ some a)
unfolding contains find
block_known [] es id fresh there = cc
block_known (b ∷ bs) [] id fresh there = absurd fresh
block_known (b ∷ bs) (e ∷ es) id ((a, e_is), fresh) there = elim (Bool-cases (b.id == id)) [
  | inl same ↦ (a, rw (e_is, same))
  | inr differ ↦ rw (e_is, differ) (block_known bs es id fresh (rw differ at there))
]

blocks-Placeable :
    (bs : List BlockWithId) (m before es : List (ℕ × BlockBuilder))
    → m ≡ before ++ es
    → Distinct (keys m)
    → AllPairs FreshBlock bs es
    → AllPairs (Placeable (block_table m)) bs es
blocks-Placeable [] m before [] e distinct fresh = tt
blocks-Placeable [] m before (_ ∷ es) e distinct fresh = absurd fresh
blocks-Placeable (b ∷ bs) m before [] e distinct fresh = absurd fresh
blocks-Placeable (b ∷ bs) m before (z ∷ es) e distinct ((a, z_is), fresh) =
    let e' : m ≡ before ++ (b.id, make_block_builder a) ∷ es =
      e ∙ ap (λ z. before ++ z ∷ es) z_is in
    let new =
      find-before before es b.id (make_block_builder a)
        (subst (λ m. Distinct (keys m)) e' distinct) in
    let there : find m b.id ≡ some (make_block_builder a) =
      rw e' (find-middle before es b.id (make_block_builder a) new) in
    (
      (a, z_is, ap address_of_block there),
      blocks-Placeable bs m (before ++ z ∷ []) es (e ∙ sym (append_assoc before (z ∷ []) es))
          distinct fresh,
    )

blocks_found :
    (g : Table) (bs : List BlockWithId) (es : List (ℕ × BlockBuilder))
    → AllPairs (Placeable g) bs es
    → All (λ b. b.block.results ≡ []) bs
    → All (λ b. (b.block.results ≡ []) × ((a : ℕ) × (g b.id ≡ some a))) bs
blocks_found g [] es placeable no_results = tt
blocks_found g (b ∷ bs) [] placeable no_results = absurd placeable
blocks_found g (b ∷ bs) (e ∷ es) ((a, _, named), placeable) (here, later) =
    ((here, (a, named)), blocks_found g bs es placeable later)

check_blocks-ok : (es : List (ℕ × BlockBuilder)) → All IsNone es → check_blocks es ≡ ok tt
unfolding check_blocks
check_blocks-ok [] all = refl
check_blocks-ok ((i, b) ∷ es) (h, all) = rw h (check_blocks-ok es all)

check_operations-ok :
    (es : List (ℕ × Option Operation)) → All IsNone es → check_operations es ≡ ok tt
unfolding check_operations
check_operations-ok [] all = refl
check_operations-ok ((i, none) ∷ es) (h, all) = check_operations-ok es all
check_operations-ok ((i, some x) ∷ es) (h, all) = cc

ValueKnown-of_in :
    (os bs : List ℕ) (f g : Table)
    → ((id : ℕ) → contains os id ≡ true → (a : ℕ) × (f id ≡ some a))
    → ((id : ℕ) → contains bs id ≡ true → (a : ℕ) × (g id ≡ some a))
    → (p : ValueProto) → ValueIn os bs p
    → ValueKnown f g p
ValueKnown-of_in os bs f g fs gs value_not_set h = absurd h
ValueKnown-of_in os bs f g fs gs any_value h = tt
ValueKnown-of_in os bs f g fs gs (operation_result_value id i) h = fs id h
ValueKnown-of_in os bs f g fs gs (block_argument_value id i) h = gs id h

post_visit :
    (c : IrContext) (f g : Table) (ids bids : List ℕ) (s : ProtoToIr) (p : ModuleProto)
    (es : List (ℕ × Option Operation)) (bes : List (ℕ × BlockBuilder))
    → s.operations ≡ es
    → AllPairs (Filled c f g) (message_operations p.blocks) es
    → Distinct (keys s.operations)
    → All (InputsIn ids bids) (message_operations p.blocks)
    → s.blocks ≡ bes
    → AllPairs (Placeable g) p.blocks bes
    → Distinct (keys s.blocks)
    → All (λ b. b.block.results ≡ []) p.blocks
    → Returns (PlacedModule c f g p.blocks [] [] make_module) (post_visit_module s make_module p)
unfolding post_visit_module
post_visit c f g ids bids s p es bes e filled distinct inputs be placeable bdistinct no_results =
    Returns-bind
      (place_blocks c f g ids bids s make_module p.blocks es [] bes [] e filled distinct inputs be
        placeable bdistinct no_results)
      (λ r h. returns h)

-- The module was made for the blocks, and two objects of the message have distinct addresses.
abbrev pub IsReadFrom : IrContext → List BlockWithId → Module → Type 0
IsReadFrom c bs m =
    (f : Table) × (g : Table) × AllPairs (BlockRead c f g) bs m.blocks
    × ((i j a : ℕ) → f i ≡ some a → f j ≡ some a → i ≡ j)
    × ((i j a : ℕ) → g i ≡ some a → g j ≡ some a → i ≡ j)

-- When the operators of a message are registered and the message is readable (its ids are distinct,
-- its values name objects of it, its operators are registered, its attributes have payloads with
-- distinct names, and no block has a result), it is read without a failed CHECK; the module has for
-- each block and each operation of the message one in the same place, with the operator, the
-- attributes and the values of the message, where each id stands for the address of the object that
-- was made for it; and two ids have distinct addresses.
pub convert_from_proto-reads :
    (c c' : IrContext) (root : IrTranslationUnit)
    → fold_m register_operator_of_proto c root.operators ≡ ok c'
    → IsReadable c' root.top_level_module
    → Returns
        (λ r. (r.0 ≡ c') × IsReadFrom c' root.top_level_module.blocks r.1.module_)
        (convert_from_proto c root)
unfolding convert_from_proto pre_visit_module to_ir_module find
convert_from_proto-reads c c' root registered (distinct, bdistinct, all, no_results) =
    let bs = root.top_level_module.blocks in
    let ids = map operation_id (message_operations bs) in
    let bids = map block_id bs in
    let s = make_proto_to_ir c' in
    rw registered (
      Returns-bind
        (visit_blocks ids bids s bs all no_results distinct bdistinct
          (((λ i a h. cc, λ i j a h h'. cc)), (λ i a h. cc, λ i j a h h'. cc)))
        (λ s1
            (es, bes, operations, fresh, blocks, fresh_blocks, context, ((low, inj), (blow, binj))).
          let f = operation_table s1.operations in
          let g = block_table s1.blocks in
          let distinct1 : Distinct (keys s1.operations) =
            rw (operations, keys-Fresh c' (message_operations bs) es fresh) distinct in
          let bdistinct1 : Distinct (keys s1.blocks) =
            rw (blocks, keys-FreshBlock bs bes fresh_blocks) bdistinct in
          let placeable = blocks-Placeable bs s1.blocks [] bes blocks bdistinct1 fresh_blocks in
          let known : All (OperationKnown f g) (message_operations bs) =
            All-map (OperationIn c' ids bids) (OperationKnown f g) (message_operations bs)
              (λ o (_, inputs, set, names). (
                All-map (ValueIn ids bids) (ValueKnown f g) o.operation.inputs
                    (ValueKnown-of_in ids bids f g
                      (λ id h.
                        rw operations (operation_known c' (message_operations bs) es id fresh h))
                      (λ id h. rw blocks (block_known bs bes id fresh_blocks h)))
                    inputs,
                set,
                names,
              ))
              all in
          Returns-bind
            (fill_blocks c' f g s1 bs es [] [] (operations ∙ sym (append-nil es)) fresh distinct1
              (refl, refl) known (blocks_found g bs bes placeable no_results))
            (λ s2 (es2, operations2, filled, blocks2, keys2, tables2).
              Returns-bind
                (post_visit c' f g ids bids s2 root.top_level_module es2 bes
                  (operations2 ∙ append-nil es2) filled (subst Distinct (sym keys2) distinct1)
                  (All-map (OperationIn c' ids bids) (InputsIn ids bids) (message_operations bs)
                    (λ o (_, inputs, _, _). inputs) all)
                  (blocks2 ∙ blocks) placeable (rw blocks2 bdistinct1) no_results)
                (λ (s3, m3) (es3, bes3, ys, operations3, moved, blocks3, built, made, reads).
                  rw
                    (
                      blocks3,
                      operations3,
                      check_blocks-ok bes3 built,
                      check_operations-ok es3 moved,
                    )
                    (returns (refl, (f, g, rw made reads, inj, binj)))))))
