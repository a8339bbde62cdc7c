-- ===== src/Ir/ProtoToIr/Undeclared.antt =====
-- Blocks that src/ir/proto_to_ir.cc makes declare no output, so that `AddResult` fails on them.
use raksha.Common.{
  nat_eq, string_eq, List, [], ◌∷◌, String, ℕ, none, some, ok, die_if_null, fold_m, fold_m-All,
  >>=-eq-ok, ok-injective, some_of_die_if_null, All, ◌≡◌, refl, subst, ap,
}
use raksha.Common.Maps.{find, All-try_insert, All-find}
use raksha.Ir.Values.{Value}
use raksha.Ir.Modules.{find_decl}
use raksha.Ir.BlockBuilder.{BlockBuilder, add_result, make_block_builder}
use raksha.Ir.Proto.{
  ValueProto, OperationWithId, BlockWithId, BlockProto, ModuleProto, IrTranslationUnit,
}
use raksha.Ir.ProtoToIr.{
  ProtoToIr, make_proto_to_ir, pre_visit_operation_with_id, pre_visit_block,
  pre_visit_block_with_id, pre_visit_module, to_ir_value, add_input_of_proto, to_ir_operation,
  add_result_of_proto, to_ir_operation_with_id, to_ir_block, to_ir_module, convert_from_proto,
  IrContext, Result, add_attribute_of_proto, get_operator, register_operator_of_proto,
  value_of_proto, visit_results, visit_operation,
}

abbrev NoOutputs : BlockBuilder → Type 0
NoOutputs none = Unit
NoOutputs (some block) = block.outputs ≡ []

-- No block of the state has declared an output.
abbrev Undeclared : ProtoToIr → Type 0
Undeclared s = All (λ p. NoOutputs p.1) s.blocks

pre_visit_operation_with_id-blocks :
    (s : ProtoToIr) (o : OperationWithId) (t : ProtoToIr)
    → pre_visit_operation_with_id s o ≡ ok t
    → s.blocks ≡ t.blocks
unfolding pre_visit_operation_with_id
pre_visit_operation_with_id-blocks s o t h =
    let (_, _, h1) =
      >>=-eq-ok (die_if_null (get_operator s.context o.operation.operator_name)) _ h in
    let (_, _, h2) = >>=-eq-ok (visit_operation o.operation) _ h1 in
    ap (λ s. s.blocks) (ok-injective h2)

pre_visit_block-Undeclared :
    (s : ProtoToIr) (b : BlockProto) (t : ProtoToIr)
    → Undeclared s
    → pre_visit_block s b ≡ ok t
    → Undeclared t
unfolding pre_visit_block
pre_visit_block-Undeclared s b t u h =
    let (s1, run, h1) = >>=-eq-ok (fold_m pre_visit_operation_with_id s b.operations) _ h in
    let (_, _, h2) = >>=-eq-ok (visit_results b.results) _ h1 in
    let (_, kept) =
      fold_m-All Undeclared (λ _. Unit {0}) pre_visit_operation_with_id s s1 b.operations
        (λ s o t u run.
          (tt, subst (All (λ p. NoOutputs p.1)) (pre_visit_operation_with_id-blocks s o t run) u))
        u run in
    subst Undeclared (ok-injective h2) kept

pre_visit_module-Undeclared :
    (s : ProtoToIr) (m : ModuleProto) (t : ProtoToIr)
    → Undeclared s
    → pre_visit_module s m ≡ ok t
    → Undeclared t
unfolding pre_visit_module pre_visit_block_with_id
pre_visit_module-Undeclared s m t u h =
    (fold_m-All Undeclared (λ _. Unit {0}) pre_visit_block_with_id s t m.blocks
      (λ s b t u run. (
        tt,
        pre_visit_block-Undeclared _ b.block t
            (All-try_insert (λ p. NoOutputs p.1) s.blocks b.id (make_block_builder s.allocated) u
              refl)
            run,
      ))
      u h).1

to_ir_value-blocks :
    (s : ProtoToIr) (p : ValueProto) (t : ProtoToIr) (v : Value)
    → to_ir_value s p ≡ ok (t, v)
    → s.blocks ≡ t.blocks
unfolding to_ir_value
to_ir_value-blocks s p t v h =
    let (_, _, h1) = >>=-eq-ok (value_of_proto s p) _ h in ap (λ r. r.0.blocks) (ok-injective h1)

to_ir_operation_with_id-Undeclared :
    (s : ProtoToIr) (o : OperationWithId) (t : ProtoToIr)
    → Undeclared s
    → to_ir_operation_with_id s o ≡ ok t
    → Undeclared t
unfolding to_ir_operation_with_id to_ir_operation add_input_of_proto
to_ir_operation_with_id-Undeclared s o t u h =
    let (pointer, _, h1) = >>=-eq-ok (die_if_null (find s.operations o.id)) _ h in
    let (operation, _, h2) = >>=-eq-ok (die_if_null pointer) _ h1 in
    let ((s3, o3), run, h3) = >>=-eq-ok (to_ir_operation s operation o.operation) _ h2 in
    let ((s4, o4), inputs, h4) =
      >>=-eq-ok (fold_m add_input_of_proto (s, operation) o.operation.inputs) _ run in
    let (o5, _, h5) = >>=-eq-ok (fold_m add_attribute_of_proto o4 o.operation.attributes) _ h4 in
    let (_, kept) =
      fold_m-All (λ r. Undeclared r.0) (λ _. Unit {0}) add_input_of_proto (s, operation) (s4, o4)
        o.operation.inputs
        (λ r p r' u run.
          let ((s', v), value, e) = >>=-eq-ok (to_ir_value r.0 p) _ run in
          (
            tt,
            subst (λ r. Undeclared r.0) (ok-injective e)
                (subst (All (λ p. NoOutputs p.1)) (to_ir_value-blocks r.0 p s' v value) u),
          ))
        u inputs in
    let kept' : Undeclared s3 = subst (λ r. Undeclared r.0) (ok-injective h5) kept in
    subst Undeclared (ok-injective h3) kept'

-- `AddResult` asks for an output that no block has.
add_result_of_proto-fails :
    (id : ℕ) (s : ProtoToIr) (r : String × ValueProto) (t : ProtoToIr)
    → Undeclared s
    → add_result_of_proto id s r ≡ ok t
    → ⊥
unfolding add_result_of_proto add_result find_decl find
add_result_of_proto-fails id s (name, p) t u h =
    let ((s1, v), run, h1) = >>=-eq-ok (to_ir_value s p) _ h in
    let (builder, found, h2) = >>=-eq-ok (die_if_null (find s1.blocks id)) _ h1 in
    let (builder', added, _) = >>=-eq-ok (add_result builder name v) _ h2 in
    let (block, there, h3) = >>=-eq-ok (die_if_null builder) _ added in
    let (type, declared, _) = >>=-eq-ok (die_if_null (find_decl block.outputs name)) _ h3 in
    let none_of : NoOutputs builder =
      All-find NoOutputs s1.blocks id builder
        (subst (All (λ p. NoOutputs p.1)) (to_ir_value-blocks s p s1 v run) u)
        (some_of_die_if_null _ found) in
    let empty : block.outputs ≡ [] = subst NoOutputs (some_of_die_if_null builder there) none_of in
    let f : find block.outputs name ≡ some type = some_of_die_if_null _ declared in
    let f' : find [] name ≡ some type = rw empty at f in cc

to_ir_block-NoResults :
    (s : ProtoToIr) (b : BlockWithId) (t : ProtoToIr)
    → Undeclared s
    → to_ir_block s b ≡ ok t
    → (b.block.results ≡ []) × Undeclared t
unfolding to_ir_block
to_ir_block-NoResults s b t u h =
    let (_, _, h1) = >>=-eq-ok (die_if_null (find s.blocks b.id)) _ h in
    let (s2, results, h2) = >>=-eq-ok (fold_m (add_result_of_proto b.id) s b.block.results) _ h1 in
    let (none_there, same) = no_results b.block.results s2 results in
    (
      none_there,
      (fold_m-All Undeclared (λ _. Unit {0}) to_ir_operation_with_id s2 t b.block.operations
          (λ s o t u run. (tt, to_ir_operation_with_id-Undeclared s o t u run))
          (subst Undeclared same u) h2).1,
    )
  where
    no_results :
        (rs : List (String × ValueProto)) (t : ProtoToIr)
        → fold_m (add_result_of_proto b.id) s rs ≡ ok t
        → (rs ≡ []) × (s ≡ t)
    no_results [] t h = (refl, ok-injective h)
    no_results (r ∷ rs) t h =
        let (t', run, _) = >>=-eq-ok (add_result_of_proto b.id s r) _ h in
        absurd (add_result_of_proto-fails b.id s r t' u run)

pub convert_from_proto-NoResults :
    (c : IrContext) (root : IrTranslationUnit) (r : IrContext × Result)
    → convert_from_proto c root ≡ ok r
    → All (λ b. b.block.results ≡ []) root.top_level_module.blocks
unfolding convert_from_proto to_ir_module
convert_from_proto-NoResults c root r h =
    let (c', _, h1) = >>=-eq-ok (fold_m register_operator_of_proto c root.operators) _ h in
    let (s, made, h2) =
      >>=-eq-ok (pre_visit_module (make_proto_to_ir c') root.top_level_module) _ h1 in
    let (t, run, _) = >>=-eq-ok (to_ir_module s root.top_level_module) _ h2 in
    (fold_m-All Undeclared (λ b. b.block.results ≡ []) to_ir_block s t root.top_level_module.blocks
      to_ir_block-NoResults
      (pre_visit_module-Undeclared (make_proto_to_ir c') root.top_level_module s tt made) run).0
