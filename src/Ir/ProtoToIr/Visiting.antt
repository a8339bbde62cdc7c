-- ===== src/Ir/ProtoToIr/Visiting.antt =====
-- The objects that `PreVisit` of src/ir/proto_to_ir.cc makes.
use raksha.Common.{
  if◌then◌else◌, ◌==◌, false, Bool, true, nat_eq, string_eq, ℕ, ◌+◌, List, [], ◌∷◌, ◌++◌, some,
  none, ok, ◌≡◌, refl, sym, ◌∙◌, ap, subst, All, AllPairs, map, append_assoc, append-nil, fold_m,
  Returns, returns, Option, Returns-weaken, ◌==◌, ap₂, Returns-bind, All-split, map-append,
  AllPairs-append,
}
use raksha.Common.Maps.{
  find, try_insert, try_insert-append, find-try_insert_new, keys, keys-append,
  find_of_contains-keys,
}
use raksha.Common.Entries.{Distinct, contains-before, Distinct-left}
use raksha.Ir.Context.{IrContext, get_operator}
use raksha.Ir.Modules.{Operation, Operator}
use raksha.Ir.Values.{operation_result}
use raksha.Ir.BlockBuilder.{BlockBuilder, make_block_builder}
use raksha.Ir.Proto.{OperationWithId, BlockWithId}
use raksha.Ir.ProtoToIr.{
  ProtoToIr, name_value, pre_visit_operation_with_id, visit_operation, pre_visit_block_with_id,
  pre_visit_block, visit_results,
}
use raksha.Ir.ProtoToIr.Tables.{
  IsDistinct, IsDistinct-new, IsDistinct-later, operation_table, block_table, address_of_block,
  address_of_operation,
}
use raksha.Ir.ProtoToIr.Readable.{
  OperationIn, operation_id, visit_values-ok, message_operations, block_id,
}

abbrev pub Fresh : IrContext → OperationWithId → ℕ × Option Operation → Type 0
Fresh c o e =
    (x : Operation) × (e ≡ (o.id, some x))
    × (get_operator c o.operation.operator_name ≡ some x.op)
    × (x.attributes ≡ [])
    × (x.inputs ≡ [])

abbrev pub FreshBlock : BlockWithId → ℕ × BlockBuilder → Type 0
FreshBlock b e = (a : ℕ) × (e ≡ (b.id, make_block_builder a))

abbrev pub HasDistinctAddresses : ProtoToIr → Type 0
HasDistinctAddresses s =
    IsDistinct s.allocated (operation_table s.operations)
    × IsDistinct s.allocated (block_table s.blocks)

abbrev new_operation : ProtoToIr → Operator → Operation
new_operation s op = record { address = s.allocated; op = op; attributes = []; inputs = [] }

abbrev with_operation : ProtoToIr → OperationWithId → Operator → ProtoToIr
with_operation s o op = record (name_value s (operation_result s.allocated 0)) {
  operations = try_insert s.operations o.id (some (new_operation s op));
  allocated = s.allocated + 1;
}

pre_visit_operation_with_id-ok :
    (os bs : List ℕ) (s : ProtoToIr) (o : OperationWithId) (op : Operator)
    → OperationIn s.context os bs o
    → get_operator s.context o.operation.operator_name ≡ some op
    → pre_visit_operation_with_id s o ≡ ok (with_operation s o op)
unfolding pre_visit_operation_with_id visit_operation
pre_visit_operation_with_id-ok os bs s o op (_, inputs, _, _) found =
    rw (found, visit_values-ok os bs o.operation.inputs inputs)

address_of_operation-if :
    (b : Bool) (x y : Option (Option Operation))
    → address_of_operation (if b then x else y)
      ≡ (if b then address_of_operation x else address_of_operation y)
address_of_operation-if true x y = refl
address_of_operation-if false x y = refl

address_of_block-if :
    (b : Bool) (x y : Option BlockBuilder)
    → address_of_block (if b then x else y) ≡ (if b then address_of_block x else address_of_block y)
address_of_block-if true x y = refl
address_of_block-if false x y = refl

HasDistinctAddresses-with_operation :
    (s : ProtoToIr) (o : OperationWithId) (op : Operator)
    → find s.operations o.id ≡ none
    → HasDistinctAddresses s
    → HasDistinctAddresses (with_operation s o op)
HasDistinctAddresses-with_operation s o op new (operations, blocks) = (
  IsDistinct-new s.allocated (operation_table s.operations) _ o.id operations (λ i.
      ap address_of_operation
        (find-try_insert_new s.operations o.id (some (new_operation s op)) i new)
      ∙ address_of_operation-if (o.id == i) _ _),
  IsDistinct-later s.allocated (block_table s.blocks) blocks,
)

abbrev Visited : ProtoToIr → List OperationWithId → ProtoToIr → Type 0
Visited s os t =
    (es : List (ℕ × Option Operation)) × (t.operations ≡ s.operations ++ es)
    × AllPairs (Fresh s.context) os es
    × (t.context ≡ s.context)
    × (t.blocks ≡ s.blocks)
    × HasDistinctAddresses t

visit_operations :
    (ids bs : List ℕ) (s : ProtoToIr) (os : List OperationWithId)
    → All (OperationIn s.context ids bs) os
    → Distinct (keys s.operations ++ map operation_id os)
    → HasDistinctAddresses s
    → Returns (Visited s os) (fold_m pre_visit_operation_with_id s os)
visit_operations ids bs s [] all distinct addresses =
    returns ([], sym (append-nil s.operations), tt, refl, refl, addresses)
visit_operations ids bs s (o ∷ os) (here, later) distinct addresses =
    let (op, found) = here.0 in
    let new : find s.operations o.id ≡ none =
      find_of_contains-keys s.operations o.id
        (contains-before (keys s.operations) _ o.id distinct) in
    let s' = with_operation s o op in
    let more : s'.operations ≡ s.operations ++ (o.id, some (new_operation s op)) ∷ [] =
      try_insert-append s.operations o.id _ new in
    let ids' : keys s'.operations ++ map operation_id os
        ≡ keys s.operations ++ map operation_id (o ∷ os) =
      rw (more, keys-append) (append_assoc (keys s.operations) (o.id ∷ []) (map operation_id os)) in
    rw (pre_visit_operation_with_id-ok ids bs s o op here found) (
      Returns-weaken
        (visit_operations ids bs s' os later (subst Distinct (sym ids') distinct)
          (HasDistinctAddresses-with_operation s o op new addresses))
        (λ t (es, operations, fresh, context, blocks, addresses'). (
          (o.id, some (new_operation s op)) ∷ es,
          operations
              ∙ ap (◌++ es) more
              ∙ append_assoc s.operations ((o.id, some (new_operation s op)) ∷ []) es,
          ((new_operation s op, refl, found, refl, refl), fresh),
          context,
          blocks,
          addresses',
        )))

pub keys-Fresh :
    (c : IrContext) (os : List OperationWithId) (es : List (ℕ × Option Operation))
    → AllPairs (Fresh c) os es
    → keys es ≡ map operation_id os
keys-Fresh c [] [] all = refl
keys-Fresh c [] (e ∷ es) all = absurd all
keys-Fresh c (o ∷ os) [] all = absurd all
keys-Fresh c (o ∷ os) ((i, x) ∷ es) ((_, e, _, _, _), all) =
    ap₂ ◌∷◌ (ap (λ e. e.0) e) (keys-Fresh c os es all)

abbrev with_block : ProtoToIr → BlockWithId → ProtoToIr
with_block s b = record s {
  blocks = try_insert s.blocks b.id (make_block_builder s.allocated);
  allocated = s.allocated + 1;
}

HasDistinctAddresses-with_block :
    (s : ProtoToIr) (b : BlockWithId)
    → find s.blocks b.id ≡ none
    → HasDistinctAddresses s
    → HasDistinctAddresses (with_block s b)
HasDistinctAddresses-with_block s b new (operations, blocks) = (
  IsDistinct-later s.allocated (operation_table s.operations) operations,
  IsDistinct-new s.allocated (block_table s.blocks) _ b.id blocks (λ i.
      ap address_of_block (find-try_insert_new s.blocks b.id (make_block_builder s.allocated) i new)
      ∙ address_of_block-if (b.id == i) _ _),
)

pre_visit_block_with_id-Visited :
    (ids bs : List ℕ) (s : ProtoToIr) (b : BlockWithId)
    → All (OperationIn s.context ids bs) b.block.operations
    → b.block.results ≡ []
    → Distinct (keys s.operations ++ map operation_id b.block.operations)
    → HasDistinctAddresses (with_block s b)
    → Returns (Visited (with_block s b) b.block.operations) (pre_visit_block_with_id s b)
unfolding pre_visit_block_with_id pre_visit_block visit_results
pre_visit_block_with_id-Visited ids bs s b all no_results distinct addresses = rw no_results (
    Returns-bind
      (visit_operations ids bs (with_block s b) b.block.operations all distinct addresses)
      (λ t h. returns h))

abbrev pub VisitedModule : ProtoToIr → List BlockWithId → ProtoToIr → Type 0
VisitedModule s bs t =
    (es : List (ℕ × Option Operation)) × (bes : List (ℕ × BlockBuilder)) × (t.operations
      ≡ s.operations ++ es)
    × AllPairs (Fresh s.context) (message_operations bs) es
    × (t.blocks ≡ s.blocks ++ bes)
    × AllPairs FreshBlock bs bes
    × (t.context ≡ s.context)
    × HasDistinctAddresses t

pub visit_blocks :
    (ids bids : List ℕ) (s : ProtoToIr) (bs : List BlockWithId)
    → All (OperationIn s.context ids bids) (message_operations bs)
    → All (λ b. b.block.results ≡ []) bs
    → Distinct (keys s.operations ++ map operation_id (message_operations bs))
    → Distinct (keys s.blocks ++ map block_id bs)
    → HasDistinctAddresses s
    → Returns (VisitedModule s bs) (fold_m pre_visit_block_with_id s bs)
visit_blocks ids bids s [] all no_results distinct distinct' addresses =
    returns
      ([], [], sym (append-nil s.operations), tt, sym (append-nil s.blocks), tt, refl, addresses)
visit_blocks ids bids s (b ∷ bs) all (none_here, none_later) distinct distinct' addresses =
    let (here, later) =
      All-split (OperationIn s.context ids bids) b.block.operations (message_operations bs) all in
    let new : find s.blocks b.id ≡ none =
      find_of_contains-keys s.blocks b.id (contains-before (keys s.blocks) _ b.id distinct') in
    let ids_split : keys s.operations ++ map operation_id (message_operations (b ∷ bs))
        ≡ (keys s.operations ++ map operation_id b.block.operations)
          ++ map operation_id (message_operations bs) =
      ap (λ l. keys s.operations ++ l)
        (map-append operation_id b.block.operations (message_operations bs))
      ∙ sym (append_assoc (keys s.operations) _ _) in
    let split = subst Distinct ids_split distinct in
    Returns-bind
      (pre_visit_block_with_id-Visited ids bids s b here none_here
        (Distinct-left _ (map operation_id (message_operations bs)) split)
        (HasDistinctAddresses-with_block s b new addresses))
      (λ t (es, operations, fresh, context, blocks, addresses').
        let made : t.blocks ≡ s.blocks ++ (b.id, make_block_builder s.allocated) ∷ [] =
          blocks ∙ try_insert-append s.blocks b.id _ new in
        Returns-weaken
          (visit_blocks ids bids t bs
            (subst (λ c. All (OperationIn c ids bids) (message_operations bs)) (sym context) later)
            none_later
            (rw (operations, keys-append, keys-Fresh s.context b.block.operations es fresh) split)
            (rw (made, keys-append)
              (subst Distinct (sym (append_assoc (keys s.blocks) (b.id ∷ []) (map block_id bs)))
                distinct'))
            addresses')
          (λ u (es', bes, operations', fresh', blocks', fresh_blocks, context', last). (
            es ++ es',
            (b.id, make_block_builder s.allocated) ∷ bes,
            operations' ∙ ap (◌++ es') operations ∙ append_assoc s.operations es es',
            AllPairs-append (Fresh s.context) b.block.operations (message_operations bs) es es'
                fresh (subst (λ c. AllPairs (Fresh c) (message_operations bs) es') context fresh'),
            blocks'
                ∙ ap (◌++ bes) made
                ∙ append_assoc s.blocks ((b.id, make_block_builder s.allocated) ∷ []) bes,
            ((s.allocated, refl), fresh_blocks),
            context' ∙ context,
            last,
          )))
