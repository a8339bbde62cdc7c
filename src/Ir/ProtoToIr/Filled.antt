-- ===== src/Ir/ProtoToIr/Filled.antt =====
-- The operations of the state after `ToIR` of src/ir/proto_to_ir.cc.
use raksha.Common.{
  nat_eq, string_eq, ℕ, List, [], ◌∷◌, ◌++◌, some, none, ◌≡◌, refl, sym, ◌∙◌, ap, subst, All,
  AllPairs, AllPairs-split, AllPairs-append, append_assoc, fold_m, Returns, returns, Returns-bind,
  Returns-weaken, Option, ◌==◌, Bool-cases, inl, inr, All-split, some-injective,
}
use raksha.Common.Maps.{find, assign, find-assign, keys}
use mathlib.Core.Path.{fun_ext}
use raksha.Common.Entries.{Distinct, find-middle, find-before, assign-middle, keys-middle}
use raksha.Ir.Context.{IrContext}
use raksha.Ir.Modules.{Operation}
use raksha.Ir.Proto.{OperationWithId, BlockWithId}
use raksha.Ir.ProtoToIr.{ProtoToIr, to_ir_operation_with_id, to_ir_block}
use raksha.Ir.ProtoToIr.Tables.{
  Table, operation_table, block_table, ValueKnown, OperationRead, address_of_operation,
  block_of_address,
}
use raksha.Ir.ProtoToIr.Readable.{HasPayload, message_operations}
use raksha.Ir.ProtoToIr.Visiting.{Fresh}
use raksha.Ir.ProtoToIr.Filling.{HasTables, to_ir_operation_lem}

abbrev pub OperationKnown : Table → Table → OperationWithId → Type 0
OperationKnown f g o =
    All (ValueKnown f g) o.operation.inputs
    × All HasPayload o.operation.attributes
    × Distinct (keys o.operation.attributes)

abbrev pub Filled : IrContext → Table → Table → OperationWithId → ℕ × Option Operation → Type 0
Filled c f g o e = (x : Operation) × (e ≡ (o.id, some x)) × OperationRead c f g o x

operation_table-assign :
    (m : List (ℕ × Option Operation)) (k : ℕ) (x y : Operation)
    → find m k ≡ some (some x)
    → y.address ≡ x.address
    → operation_table (assign m k (some y)) ≡ operation_table m
operation_table-assign m k x y there same = fun_ext at_
  where
    at_ : (i : ℕ) → operation_table (assign m k (some y)) i ≡ operation_table m i
    at_ i = elim (Bool-cases (k == i)) [
      | inl here ↦
          let k_is : k ≡ i = (nat_eq.beq_iff k i).0 here in
          let left : find (assign m k (some y)) i ≡ some (some y) = rw (find-assign, here) in
          let right : find m i ≡ some (some x) = subst (λ i. find m i ≡ some (some x)) k_is there in
          rw (left, right, same)
      | inr differ ↦ ap address_of_operation (find-assign m k (some y) i ∙ rw differ)
    ]

abbrev entry : OperationWithId → Operation → ℕ × Option Operation
entry o x = (o.id, some x)

fill_operation :
    (c : IrContext) (f g : Table) (s : ProtoToIr) (o : OperationWithId) (x : Operation)
    (before after : List (ℕ × Option Operation))
    → s.operations ≡ before ++ entry o x ∷ after
    → Fresh c o (entry o x)
    → Distinct (keys s.operations)
    → HasTables f g s
    → OperationKnown f g o
    → Returns
        (λ t.
          (y : Operation) × (t.operations ≡ before ++ entry o y ∷ after)
          × OperationRead c f g o y
          × (t.blocks ≡ s.blocks)
          × HasTables f g t)
        (to_ir_operation_with_id s o)
unfolding to_ir_operation_with_id
fill_operation c f g s o x before after e (x', same, registered, no_attributes, no_inputs) distinct
      tables (known, set, distinct_names) =
    let x_is : x' ≡ x = sym (some-injective _ _ (ap (λ e. e.1) same)) in
    let new : find before o.id ≡ none =
      find-before before after o.id (some x) (subst (λ m. Distinct (keys m)) e distinct) in
    let there : find s.operations o.id ≡ some (some x) =
      rw e (find-middle before after o.id (some x) new) in
    rw there (
      Returns-bind
        (to_ir_operation_lem f g s x o.operation tables known set distinct_names
          (ap (λ x. x.inputs) (sym x_is) ∙ no_inputs)
          (ap (λ x. x.attributes) (sym x_is) ∙ no_attributes))
        (λ (t, y) ((operations, blocks), address, op, reads, named). returns (
          y,
          ap (λ m. assign m o.id (some y)) (operations ∙ e)
              ∙ assign-middle before after o.id (some x) (some y) new,
          (
            ap (λ f. f o.id) (sym tables.0) ∙ ap address_of_operation there ∙ ap some (sym address),
            registered ∙ ap (λ x. some x.op) x_is ∙ ap some (sym op),
            reads,
            named,
          ),
          blocks,
          (
            ap (λ m. operation_table (assign m o.id (some y))) operations
                ∙ operation_table-assign s.operations o.id x y there address
                ∙ tables.0,
            ap block_table blocks ∙ tables.1,
          ),
        )))

abbrev AllFilled :
    IrContext
    → Table
    → Table
    → List OperationWithId
    → List (ℕ × Option Operation)
    → List (ℕ × Option Operation)
    → ProtoToIr
    → ProtoToIr
    → Type 0
AllFilled c f g os before after s t =
    (es : List (ℕ × Option Operation)) × (t.operations ≡ before ++ (es ++ after))
    × AllPairs (Filled c f g) os es
    × (t.blocks ≡ s.blocks)
    × (keys t.operations ≡ keys s.operations)
    × HasTables f g t

fill_operations :
    (c : IrContext) (f g : Table) (s : ProtoToIr) (os : List OperationWithId)
    (es before after : List (ℕ × Option Operation))
    → s.operations ≡ before ++ (es ++ after)
    → AllPairs (Fresh c) os es
    → Distinct (keys s.operations)
    → HasTables f g s
    → All (OperationKnown f g) os
    → Returns (AllFilled c f g os before after s) (fold_m to_ir_operation_with_id s os)
fill_operations c f g s [] [] before after e fresh distinct tables known =
    returns ([], e, tt, refl, refl, tables)
fill_operations c f g s [] (_ ∷ es) before after e fresh distinct tables known = absurd fresh
fill_operations c f g s (o ∷ os) [] before after e fresh distinct tables known = absurd fresh
fill_operations c f g s (o ∷ os) (z ∷ es) before after e (here, later) distinct tables
      (known, rest) =
    let x = here.0 in
    let z_is = here.1 in
    let e' : s.operations ≡ before ++ entry o x ∷ (es ++ after) =
      e ∙ ap (λ z. before ++ z ∷ (es ++ after)) z_is in
    Returns-bind
      (fill_operation c f g s o x before (es ++ after) e' (subst (Fresh c o) z_is here) distinct
        tables known)
      (λ t (y, operations, read, blocks, tables').
        let same_keys : keys t.operations ≡ keys s.operations =
          ap keys operations
          ∙ keys-middle before (es ++ after) o.id (some y) (some x)
          ∙ ap keys (sym e') in
        Returns-weaken
          (fill_operations c f g t os es (before ++ entry o y ∷ []) after
            (operations ∙ sym (append_assoc before (entry o y ∷ []) (es ++ after))) later
            (subst Distinct (sym same_keys) distinct) tables' rest)
          (λ u (es', operations', filled, blocks', keys', tables''). (
            entry o y ∷ es',
            operations' ∙ append_assoc before (entry o y ∷ []) (es' ++ after),
            ((y, refl, read), filled),
            blocks' ∙ blocks,
            keys' ∙ same_keys,
            tables'',
          )))

pub fill_blocks :
    (c : IrContext) (f g : Table) (s : ProtoToIr) (bs : List BlockWithId)
    (es before after : List (ℕ × Option Operation))
    → s.operations ≡ before ++ (es ++ after)
    → AllPairs (Fresh c) (message_operations bs) es
    → Distinct (keys s.operations)
    → HasTables f g s
    → All (OperationKnown f g) (message_operations bs)
    → All (λ b. (b.block.results ≡ []) × ((a : ℕ) × (g b.id ≡ some a))) bs
    → Returns (AllFilled c f g (message_operations bs) before after s) (fold_m to_ir_block s bs)
unfolding to_ir_block
fill_blocks c f g s [] [] before after e fresh distinct tables known found =
    returns ([], e, tt, refl, refl, tables)
fill_blocks c f g s [] (_ ∷ es) before after e fresh distinct tables known found = absurd fresh
fill_blocks c f g s (b ∷ bs) es before after e fresh distinct tables known
      ((no_results, (a, named)), found) =
    let (es1, es2, split, here, later) =
      AllPairs-split (Fresh c) b.block.operations (message_operations bs) es fresh in
    let (known1, known2) =
      All-split (OperationKnown f g) b.block.operations (message_operations bs) known in
    let (block, there, _) =
      block_of_address (find s.blocks b.id) a (ap (λ g. g b.id) tables.1 ∙ named) in
    let e' : s.operations ≡ before ++ (es1 ++ (es2 ++ after)) =
      e
      ∙ ap (λ l. before ++ (l ++ after)) split
      ∙ ap (λ l. before ++ l) (append_assoc es1 es2 after) in
    rw (there, no_results)
      (Returns-bind
        (fill_operations c f g s b.block.operations es1 before (es2 ++ after) e' here distinct
          tables known1)
        (λ t (es1', operations, filled, blocks, keys', tables').
          Returns-weaken
            (fill_blocks c f g t bs es2 (before ++ es1') after
              (operations ∙ sym (append_assoc before es1' (es2 ++ after))) later
              (subst Distinct (sym keys') distinct) tables' known2 found)
            (λ u (es2', operations', filled', blocks', keys'', tables''). (
              es1' ++ es2',
              operations'
                  ∙ append_assoc before es1' (es2' ++ after)
                  ∙ ap (λ l. before ++ l) (sym (append_assoc es1' es2' after)),
              AllPairs-append (Filled c f g) b.block.operations (message_operations bs) es1' es2'
                  filled filled',
              blocks' ∙ blocks,
              keys'' ∙ keys',
              tables'',
            ))))
