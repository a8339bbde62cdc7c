-- ===== src/Ir/ProtoToIr/Placed.antt =====
-- The module that `PostVisit` of src/ir/proto_to_ir.cc fills.
use raksha.Common.{
  nat_eq, string_eq, ℕ, List, [], ◌∷◌, ◌++◌, some, none, ◌≡◌, refl, sym, ◌∙◌, ap, subst, All,
  AllPairs, AllPairs-split, append_assoc, append-nil, fold_m, Returns, returns, Returns-bind,
  Returns-weaken, Option, All-split, All-append,
}
use raksha.Common.Maps.{find, assign, keys}
use raksha.Common.Entries.{Distinct, find-middle, find-before, assign-middle, keys-middle}
use raksha.Ir.Context.{IrContext}
use raksha.Ir.Modules.{Operation, Module, Block, add_block}
use raksha.Ir.BlockBuilder.{BlockBuilder, make_block_builder}
use raksha.Ir.Proto.{BlockWithId}
use raksha.Ir.ProtoToIr.{ProtoToIr, post_visit_block_with_id}
use raksha.Ir.ProtoToIr.Tables.{Table, BlockRead}
use raksha.Ir.ProtoToIr.Readable.{message_operations}
use raksha.Ir.ProtoToIr.Filled.{Filled}
use raksha.Ir.ProtoToIr.Placing.{IsNone, InputsIn, place_block_with_id}

-- The builder of the block has the address of the block.
abbrev pub Placeable : Table → BlockWithId → ℕ × BlockBuilder → Type 0
Placeable g b e = (a : ℕ) × (e ≡ (b.id, make_block_builder a)) × (g b.id ≡ some a)

abbrev pub PlacedModule :
    IrContext
    → Table
    → Table
    → List BlockWithId
    → List (ℕ × Option Operation)
    → List (ℕ × BlockBuilder)
    → Module
    → ProtoToIr × Module
    → Type 0
PlacedModule c f g bs before bbefore m r =
    (es : List (ℕ × Option Operation)) × (bes : List (ℕ × BlockBuilder)) × (ys : List Block)
    × (r.0.operations ≡ before ++ es)
    × All IsNone es
    × (r.0.blocks ≡ bbefore ++ bes)
    × All IsNone bes
    × (r.1 ≡ record m { blocks = m.blocks ++ ys })
    × AllPairs (BlockRead c f g) bs ys

pub place_blocks :
    (c : IrContext) (f g : Table) (ids bids : List ℕ) (s : ProtoToIr) (m : Module)
    (bs : List BlockWithId) (es before : List (ℕ × Option Operation))
    (bes bbefore : List (ℕ × BlockBuilder))
    → s.operations ≡ before ++ es
    → AllPairs (Filled c f g) (message_operations bs) es
    → Distinct (keys s.operations)
    → All (InputsIn ids bids) (message_operations bs)
    → s.blocks ≡ bbefore ++ bes
    → AllPairs (Placeable g) bs bes
    → Distinct (keys s.blocks)
    → All (λ b. b.block.results ≡ []) bs
    → Returns (PlacedModule c f g bs before bbefore m) (fold_m post_visit_block_with_id (s, m) bs)
unfolding add_block
place_blocks c f g ids bids s m [] [] before [] bbefore e filled distinct inputs be placeable
      bdistinct no_results =
    returns
      ([], [], [], e, tt, be, tt, ap (λ l. record m { blocks = l }) (sym (append-nil m.blocks)), tt)
place_blocks c f g ids bids s m [] (_ ∷ es) before bes bbefore e filled distinct inputs be placeable
      bdistinct no_results =
    absurd filled
place_blocks c f g ids bids s m [] [] before (_ ∷ bes) bbefore e filled distinct inputs be placeable
      bdistinct no_results =
    absurd placeable
place_blocks c f g ids bids s m (b ∷ bs) es before [] bbefore e filled distinct inputs be placeable
      bdistinct no_results =
    absurd placeable
place_blocks c f g ids bids s m (b ∷ bs) es before (z ∷ bes) bbefore e filled distinct inputs be
      ((a, z_is, named), placeable) bdistinct (none_here, none_later) =
    let (es1, es2, split, here, later) =
      AllPairs-split (Filled c f g) b.block.operations (message_operations bs) es filled in
    let (inputs1, inputs2) =
      All-split (InputsIn ids bids) b.block.operations (message_operations bs) inputs in
    let be' : s.blocks ≡ bbefore ++ (b.id, make_block_builder a) ∷ bes =
      be ∙ ap (λ z. bbefore ++ z ∷ bes) z_is in
    let new : find bbefore b.id ≡ none =
      find-before bbefore bes b.id (make_block_builder a)
        (subst (λ m. Distinct (keys m)) be' bdistinct) in
    let there : find s.blocks b.id ≡ some (make_block_builder a) =
      rw be' (find-middle bbefore bes b.id (make_block_builder a) new) in
    let made : Block = record {
      address = a;
      inputs = [];
      outputs = [];
      operations = [];
      results = [];
    } in
    Returns-bind
      (place_block_with_id c f g ids bids s m made b es1 before es2
        (e ∙ ap (λ l. before ++ l) split) here distinct inputs1 none_here there)
      (λ (t, n) (es1', xs, operations, none_left, keys', blocks, added, reads).
        let blocks' : t.blocks ≡ bbefore ++ (b.id, none) ∷ bes =
          blocks
          ∙ ap (λ m. assign m b.id none) be'
          ∙ assign-middle bbefore bes b.id (make_block_builder a) none new in
        let bkeys : keys t.blocks ≡ keys s.blocks =
          ap keys blocks'
          ∙ keys-middle bbefore bes b.id none (make_block_builder a)
          ∙ ap keys (sym be') in
        Returns-weaken
          (place_blocks c f g ids bids t n bs es2 (before ++ es1') bes
            (bbefore ++ (b.id, none) ∷ []) (operations ∙ sym (append_assoc before es1' es2)) later
            (subst Distinct (sym keys') distinct) inputs2
            (blocks' ∙ sym (append_assoc bbefore ((b.id, none) ∷ []) bes)) placeable
            (subst Distinct (sym bkeys) bdistinct) none_later)
          (λ r (es2', bes', ys, operations', none_left', placed, built, made_of, all). (
            es1' ++ es2',
            (b.id, none) ∷ bes',
            record made { operations = xs } ∷ ys,
            operations' ∙ append_assoc before es1' es2',
            All-append IsNone es1' es2' none_left none_left',
            placed ∙ append_assoc bbefore ((b.id, none) ∷ []) bes',
            (refl, built),
            made_of
                ∙ ap {A = Module} (λ n. record n { blocks = n.blocks ++ ys }) added
                ∙ ap (λ l. record m { blocks = l })
                    (append_assoc m.blocks (record made { operations = xs } ∷ []) ys),
            ((named, refl, reads), all),
          )))
