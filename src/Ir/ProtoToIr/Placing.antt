-- ===== src/Ir/ProtoToIr/Placing.antt =====
-- What `PostVisit` of src/ir/proto_to_ir.cc moves into blocks and into the module.
use raksha.Common.{
  nat_eq, string_eq, ℕ, String, List, [], ◌∷◌, ◌++◌, some, none, ok, ◌≡◌, refl, sym, ◌∙◌, ap, subst,
  All, AllPairs, append_assoc, append-nil, fold_m, Returns, returns, Returns-bind, Returns-weaken,
  Option,
}
use raksha.Common.Maps.{find, assign, keys}
use raksha.Common.Entries.{Distinct, find-middle, find-before, assign-middle, keys-middle}
use raksha.Ir.Context.{IrContext}
use raksha.Ir.Modules.{Operation, Module, Block, add_block}
use raksha.Ir.BlockBuilder.{BlockBuilder, add_given_operation, build_block, get_block_ptr}
use raksha.Ir.Proto.{OperationWithId, BlockWithId, BlockProto, ValueProto}
use raksha.Ir.ProtoToIr.{
  ProtoToIr, post_visit_operation_with_id, post_visit_block, post_visit_block_with_id,
  visit_operation, visit_results,
}
use raksha.Ir.ProtoToIr.Tables.{Table, OperationRead}
use raksha.Ir.ProtoToIr.Readable.{ValueIn, visit_values-ok}
use raksha.Ir.ProtoToIr.Filled.{Filled}

abbrev pub IsNone : {A : Type 0} → ℕ × Option A → Type 0
IsNone e = e.1 ≡ none

abbrev pub InputsIn : List ℕ → List ℕ → OperationWithId → Type 0
InputsIn ids bids o = All (ValueIn ids bids) o.operation.inputs

abbrev Placed :
    IrContext
    → Table
    → Table
    → List OperationWithId
    → List (ℕ × Option Operation)
    → List (ℕ × Option Operation)
    → ProtoToIr
    → Block
    → ProtoToIr × BlockBuilder
    → Type 0
Placed c f g os before after s b r =
    (es : List (ℕ × Option Operation)) × (xs : List Operation) × (r.0.operations
      ≡ before ++ (es ++ after))
    × All IsNone es
    × (keys r.0.operations ≡ keys s.operations)
    × (r.0.blocks ≡ s.blocks)
    × (r.1 ≡ some (record b { operations = b.operations ++ xs }))
    × AllPairs (OperationRead c f g) os xs

place_operations :
    (c : IrContext) (f g : Table) (ids bids : List ℕ) (s : ProtoToIr) (b : Block)
    (os : List OperationWithId) (es before after : List (ℕ × Option Operation))
    → s.operations ≡ before ++ (es ++ after)
    → AllPairs (Filled c f g) os es
    → Distinct (keys s.operations)
    → All (InputsIn ids bids) os
    → Returns
        (Placed c f g os before after s b)
        (fold_m post_visit_operation_with_id (s, some b) os)
unfolding post_visit_operation_with_id visit_operation add_given_operation
place_operations c f g ids bids s b [] [] before after e filled distinct inputs = returns (
  [],
  [],
  e,
  tt,
  refl,
  refl,
  ap (λ l. some (record b { operations = l })) (sym (append-nil b.operations)),
  tt,
)
place_operations c f g ids bids s b [] (_ ∷ es) before after e filled distinct inputs =
    absurd filled
place_operations c f g ids bids s b (o ∷ os) [] before after e filled distinct inputs =
    absurd filled
place_operations c f g ids bids s b (o ∷ os) (z ∷ es) before after e ((x, z_is, read), later)
      distinct (here, rest) =
    let e' : s.operations ≡ before ++ (o.id, some x) ∷ (es ++ after) =
      e ∙ ap (λ z. before ++ z ∷ (es ++ after)) z_is in
    let new : find before o.id ≡ none =
      find-before before (es ++ after) o.id (some x) (subst (λ m. Distinct (keys m)) e' distinct) in
    let there : find s.operations o.id ≡ some (some x) =
      rw e' (find-middle before (es ++ after) o.id (some x) new) in
    let moved : assign s.operations o.id none ≡ before ++ (o.id, none) ∷ (es ++ after) =
      ap (λ m. assign m o.id none) e' ∙ assign-middle before (es ++ after) o.id (some x) none new in
    let same_keys : keys (assign s.operations o.id none) ≡ keys s.operations =
      ap keys moved ∙ keys-middle before (es ++ after) o.id none (some x) ∙ ap keys (sym e') in
    rw (there, visit_values-ok ids bids o.operation.inputs here)
      (Returns-weaken
        (place_operations c f g ids bids (record s { operations = assign s.operations o.id none })
          (record b { operations = b.operations ++ x ∷ [] }) os es (before ++ (o.id, none) ∷ [])
          after (moved ∙ sym (append_assoc before ((o.id, none) ∷ []) (es ++ after))) later
          (subst Distinct (sym same_keys) distinct) rest)
        (λ r (es', xs, operations, none_left, keys', blocks, built, reads). (
          (o.id, none) ∷ es',
          x ∷ xs,
          operations ∙ append_assoc before ((o.id, none) ∷ []) (es' ++ after),
          (refl, none_left),
          keys' ∙ same_keys,
          blocks,
          built
              ∙ ap (λ l. some (record b { operations = l }))
                  (append_assoc b.operations (x ∷ []) xs),
          (read, reads),
        )))

visit_results-none : (rs : List (String × ValueProto)) → rs ≡ [] → visit_results rs ≡ ok tt
unfolding visit_results
visit_results-none [] h = refl
visit_results-none (r ∷ rs) h = absurd (cons_not_nil h)
  where
    cons_not_nil : r ∷ rs ≡ [] → ⊥
    cons_not_nil h = cc

place_block :
    (c : IrContext) (f g : Table) (ids bids : List ℕ) (s : ProtoToIr) (b : Block) (p : BlockProto)
    (es before after : List (ℕ × Option Operation))
    → s.operations ≡ before ++ (es ++ after)
    → AllPairs (Filled c f g) p.operations es
    → Distinct (keys s.operations)
    → All (InputsIn ids bids) p.operations
    → p.results ≡ []
    → Returns (Placed c f g p.operations before after s b) (post_visit_block s (some b) p)
unfolding post_visit_block get_block_ptr
place_block c f g ids bids s b p es before after e filled distinct inputs no_results =
    Returns-bind
      (place_operations c f g ids bids s b p.operations es before after e filled distinct inputs)
      (λ (t, b') (es', xs, operations, none_left, keys', blocks, built, reads).
        rw (visit_results-none p.results no_results, built)
          (returns (es', xs, operations, none_left, keys', blocks, refl, reads)))

abbrev pub PlacedBlock :
    IrContext
    → Table
    → Table
    → BlockWithId
    → Block
    → List (ℕ × Option Operation)
    → List (ℕ × Option Operation)
    → ProtoToIr
    → Module
    → ProtoToIr × Module
    → Type 0
PlacedBlock c f g p b before after s m r =
    (es : List (ℕ × Option Operation)) × (xs : List Operation) × (r.0.operations
      ≡ before ++ (es ++ after))
    × All IsNone es
    × (keys r.0.operations ≡ keys s.operations)
    × (r.0.blocks ≡ assign s.blocks p.id none)
    × (r.1 ≡ add_block m (record b { operations = b.operations ++ xs }))
    × AllPairs (OperationRead c f g) p.block.operations xs

pub place_block_with_id :
    (c : IrContext) (f g : Table) (ids bids : List ℕ) (s : ProtoToIr) (m : Module) (b : Block)
    (p : BlockWithId) (es before after : List (ℕ × Option Operation))
    → s.operations ≡ before ++ (es ++ after)
    → AllPairs (Filled c f g) p.block.operations es
    → Distinct (keys s.operations)
    → All (InputsIn ids bids) p.block.operations
    → p.block.results ≡ []
    → find s.blocks p.id ≡ some (some b)
    → Returns (PlacedBlock c f g p b before after s m) (post_visit_block_with_id (s, m) p)
unfolding post_visit_block_with_id build_block
place_block_with_id c f g ids bids s m b p es before after e filled distinct inputs no_results
      there =
    rw there (
      Returns-bind
        (place_block c f g ids bids s b p.block es before after e filled distinct inputs no_results)
        (λ (t, b') (es', xs, operations, none_left, keys', blocks, built, reads). rw built (
          returns (
            es',
            xs,
            operations,
            none_left,
            keys',
            ap (λ m. assign m p.id none) blocks,
            refl,
            reads,
          ))))
