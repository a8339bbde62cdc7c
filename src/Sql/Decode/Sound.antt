-- ===== src/Sql/Decode/Sound.antt =====
-- What src/frontends/sql/decode.cc builds from an arena.
use raksha.Common.{
  some-injective, ℕ, suc, String, List, [], ◌∷◌, ◌++◌, Option, none, some, Outcome, ok, check,
  die_if_null, length, ◌≡◌, refl, sym, ◌∙◌, ap, arith, >>=-eq-ok, ok-injective, subst,
  length-append, some_of_die_if_null, not, string_eq, nat_eq, map_m, map_m-All, ◌==◌, is_empty,
  Bool-cases, inl, inr,
}
use raksha.Common.Maps.{insert_new-find}
use raksha.Ir.Storages.{Storage}
use raksha.Ir.Types.{make_primitive_type}
use raksha.Ir.Values.{Value}
use raksha.Ir.Modules.{Operator, Operation}
use raksha.Ir.Context.{
  get_node, IrContext, get_operator, is_registered_storage, get_storage, register_storage,
  register_node, register_operator,
}
use raksha.Sql.Ops.{
  literal_name, merge_name, tag_transform_name, sql_output_name, literal_op, merge_op,
  tag_transform_op, sql_output_op,
}
use raksha.Sql.Context.{
  add_operation, DecoderContext, make_decoder_context, get_value, get_or_create_storage,
  add_operation, make_literal_operation, make_merge_operation, precondition_value,
  make_tag_transform_operation, make_sql_output_operation, register_value,
  wrap_operation_result_value,
}
use raksha.Ir.Modules.{make_operator}
use raksha.Sql.Context.Wired.{
  block_of, add_operation-create, IsMade, IsPlaced, Wired, IsSound, get_value-IsMade,
  register_value-IsSound, add_operation-IsSound,
}
use raksha.Sql.Decode.{
  Expression, expr_variant_not_set, source_table_column, literal, merge_operation, tag_transform,
  ExpressionArena, decode_source_table_column, decode_literal, decode_merge_operation,
  decode_tag_transform, decode_expression, decode_pairs, decode_expression_arena,
}
use raksha.Sql.Decode.Placed.{
  sql_output_op-name, literal_op-IsPlaced, merge_op-IsPlaced, tag_transform_op-IsPlaced,
  sql_output_op-IsPlaced,
}

-- A decoder that went on from a sound one, with a value.
abbrev Decoded : DecoderContext → Value → Type 0
Decoded d v = (os : List Operation) × IsSound d os × IsMade (length os) v

-- A new operation, and its result.
added :
    (d e : DecoderContext) (os : List Operation) (create : ℕ → Outcome Operation) (o : Operation)
    → IsSound d os
    → ((o : Operation) → create (length os) ≡ ok o → IsPlaced (length os) o)
    → add_operation d create ≡ ok (e, o)
    → Decoded e (wrap_operation_result_value o)
added d e os create o sound placed run =
    let (sound', here) = add_operation-IsSound d e os create o sound placed run in
    let longer : length (os ++ o ∷ []) ≡ suc (length os) =
      omega (arith, length-append os (o ∷ [])) in
    (os ++ o ∷ [], sound', (omega (arith, here.place, longer), refl))

get_or_create_storage-IsSound :
    (d d' : DecoderContext) (os : List Operation) (name : String) (storage : Storage)
    → IsSound d os
    → get_or_create_storage d name ≡ ok (d', storage)
    → IsSound d' os
unfolding get_or_create_storage register_storage get_operator
get_or_create_storage-IsSound d d' os name storage sound h =
    elim (Bool-cases (is_registered_storage d.ir_context name)) [
      | inl old ↦
          let (s, _, e) = >>=-eq-ok (die_if_null (get_storage d.ir_context name)) _ (rw old at h) in
          subst (λ d. IsSound d os) (ap (λ r. r.0) (ok-injective e)) sound
      | inr new ↦
          let made : Storage = record {
            address = length d.ir_context.storages;
            name = name;
            type = make_primitive_type;
            input_values = [];
          } in
          let (c, run, e) = >>=-eq-ok (register_storage d.ir_context made) _ (rw new at h) in
          let (storages, _, is_c) =
            >>=-eq-ok (register_node d.ir_context.storages name made) _ run in
          subst (λ d. IsSound d os) (ap (λ r. r.0) (ok-injective e))
            (subst (λ c. IsSound (record d { ir_context = c }) os) (ok-injective is_c)
              (record {
                block = sound.block;
                wired = sound.wired;
                values = sound.values;
                operators = sound.operators;
                blocks = sound.blocks;
              }))
    ]

precondition_value-IsMade :
    (d : DecoderContext) (os : List Operation) (p : String × ℕ) (q : String × Value)
    → IsSound d os
    → precondition_value d p ≡ ok q
    → IsMade (length os) q.1
unfolding precondition_value
precondition_value-IsMade d os (name, id) q sound h =
    let (v, run, e) = >>=-eq-ok (get_value d id) _ h in
    subst (λ q. IsMade (length os) q.1) (ok-injective e) (get_value-IsMade d os id v sound run)

decode_expression-Decoded :
    (expr : Expression) (d d' : DecoderContext) (os : List Operation) (v : Value)
    → IsSound d os
    → decode_expression expr d ≡ ok (d', v)
    → Decoded d' v
unfolding decode_expression decode_source_table_column decode_literal decode_merge_operation
    decode_tag_transform make_literal_operation make_merge_operation make_tag_transform_operation
decode_expression-Decoded expr_variant_not_set d d' os v sound h = cc
decode_expression-Decoded (source_table_column path) d d' os v sound h =
    let (_, _, h1) = >>=-eq-ok (check (not (path == ""))) _ h in
    let ((e, storage), run, same) = >>=-eq-ok (get_or_create_storage d path) _ h1 in
    subst (λ r. Decoded r.0 r.1) (ok-injective same)
      (os, get_or_create_storage-IsSound d e os path storage sound run, tt)
decode_expression-Decoded (literal s) d d' os v sound h =
    let (_, _, h1) = >>=-eq-ok (check (not (s == ""))) _ h in
    let ((e, o), run, same) = >>=-eq-ok (make_literal_operation d s) _ h1 in
    subst (λ r. Decoded r.0 r.1) (ok-injective same)
      (added d e os (λ address. literal_op address d.ir_context s) o sound
        (λ o. literal_op-IsPlaced (length os) d.ir_context s o sound.operators.0) run)
decode_expression-Decoded (merge_operation merge) d d' os v sound h =
    let (_, _, h1) = >>=-eq-ok (check (not (is_empty merge.inputs))) _ h in
    let ((e, o), run, same) =
      >>=-eq-ok (make_merge_operation d merge.inputs merge.control_inputs) _ h1 in
    let (direct, run1, rest) = >>=-eq-ok (map_m (get_value d) merge.inputs) _ run in
    let (control, run2, rest') = >>=-eq-ok (map_m (get_value d) merge.control_inputs) _ rest in
    let made = λ (id : ℕ) (v : Value). get_value-IsMade d os id v sound in
    subst (λ r. Decoded r.0 r.1) (ok-injective same)
      (added d e os (λ address. merge_op address d.ir_context direct control) o sound
        (λ o.
          merge_op-IsPlaced (length os) d.ir_context direct control o sound.operators.1.0
            (map_m-All _ (get_value d) merge.inputs direct made run1)
            (map_m-All _ (get_value d) merge.control_inputs control made run2))
        rest')
decode_expression-Decoded (tag_transform transform) d d' os v sound h =
    let (_, _, h1) = >>=-eq-ok (check (not (transform.transformed_node == 0))) _ h in
    let (_, _, h2) = >>=-eq-ok (check (not (transform.transform_rule_name == ""))) _ h1 in
    let ((e, o), run, same) =
      >>=-eq-ok
        (make_tag_transform_operation d transform.transformed_node transform.transform_rule_name
          transform.tag_preconditions)
        _ h2 in
    let (preconditions, run1, rest) =
      >>=-eq-ok (map_m (precondition_value d) transform.tag_preconditions) _ run in
    let (value, run2, rest') = >>=-eq-ok (get_value d transform.transformed_node) _ rest in
    subst (λ r. Decoded r.0 r.1) (ok-injective same)
      (added d e os
        (λ address.
          tag_transform_op address d.ir_context transform.transform_rule_name value preconditions)
        o sound
        (λ o.
          tag_transform_op-IsPlaced (length os) d.ir_context transform.transform_rule_name value
            preconditions o sound.operators.1.1.0
            (get_value-IsMade d os transform.transformed_node value sound run2)
            (map_m-All _ (precondition_value d) transform.tag_preconditions preconditions
              (λ p q. precondition_value-IsMade d os p q sound) run1))
        rest')

decode_pairs-Decoded :
    (pairs : List (ℕ × Expression)) (d d' : DecoderContext) (os : List Operation)
    (last : Option Value) (v : Value)
    → IsSound d os
    → ((v : Value) → last ≡ some v → IsMade (length os) v)
    → decode_pairs pairs d last ≡ ok (d', some v)
    → Decoded d' v
unfolding decode_pairs
decode_pairs-Decoded [] d d' os last v sound made h =
    let same = ok-injective h in
    subst (λ d. Decoded d v) (ap (λ r. r.0) same) (os, sound, made v (ap (λ r. r.1) same))
decode_pairs-Decoded ((id, expr) ∷ pairs) d d' os last v sound made h =
    let ((e, value), run, h1) = >>=-eq-ok (decode_expression expr d) _ h in
    let (os', sound', here) = decode_expression-Decoded expr d e os value sound run in
    let (f, registered, h2) = >>=-eq-ok (register_value e id value) _ h1 in
    decode_pairs-Decoded pairs f d' os' (some value) v
      (register_value-IsSound e f os' id value sound' here registered)
      (λ w same. subst (IsMade (length os')) (some-injective _ _ same) here) h2

register_operator_lem :
    (c c' : IrContext) (op : Operator)
    → register_operator c op ≡ ok c'
    → (get_operator c' op.name ≡ some op)
      × ((name : String) (p : Operator)
          → get_operator c name ≡ some p
          → get_operator c' name ≡ some p)
unfolding register_operator get_operator get_node register_node
register_operator_lem c c' op h =
    let (ops, run, e) = >>=-eq-ok (register_node c.operators op.name op) _ h in
    subst
      (λ c'.
        (get_operator c' op.name ≡ some op)
        × ((name : String) (p : Operator)
            → get_operator c name ≡ some p
            → get_operator c' name ≡ some p))
      (ok-injective e) (insert_new-find c.operators ops op.name op run)

make_decoder_context-IsSound :
    (c : IrContext) (d : DecoderContext) → make_decoder_context c ≡ ok d → IsSound d []
unfolding make_decoder_context
make_decoder_context-IsSound c d h =
    let (c1, r1, h1) = >>=-eq-ok (register_operator c (make_operator literal_name)) _ h in
    let (c2, r2, h2) = >>=-eq-ok (register_operator c1 (make_operator merge_name)) _ h1 in
    let (c3, r3, h3) = >>=-eq-ok (register_operator c2 (make_operator tag_transform_name)) _ h2 in
    let (c4, r4, h4) = >>=-eq-ok (register_operator c3 (make_operator sql_output_name)) _ h3 in
    let (f1, _) = register_operator_lem c c1 (make_operator literal_name) r1 in
    let (f2, k2) = register_operator_lem c1 c2 (make_operator merge_name) r2 in
    let (f3, k3) = register_operator_lem c2 c3 (make_operator tag_transform_name) r3 in
    let (f4, k4) = register_operator_lem c3 c4 (make_operator sql_output_name) r4 in
    subst (λ d. IsSound d []) (ok-injective h4)
      (record {
        block = refl;
        wired = tt;
        values = tt;
        operators = (k4 _ _ (k3 _ _ (k2 _ _ f1)), (k4 _ _ (k3 _ _ f2), (k4 _ _ f3, (f4, tt))));
        blocks = refl;
      })

pub arena-IsSound :
    (c : IrContext) (d d' : DecoderContext) (arena : ExpressionArena) (v : Value)
    → make_decoder_context c ≡ ok d
    → decode_expression_arena arena d ≡ ok (d', v)
    → (os : List Operation) × (o : Operation) × IsSound d' (os ++ o ∷ [])
      × (o.op.name ≡ sql_output_name)
      × (v ≡ wrap_operation_result_value o)
unfolding decode_expression_arena make_sql_output_operation
arena-IsSound c d d' arena v made h =
    let ((e, last), run, h1) = >>=-eq-ok (decode_pairs arena.id_expression_pairs d none) _ h in
    let (value, got, h2) = >>=-eq-ok (die_if_null last) _ h1 in
    let run' : decode_pairs arena.id_expression_pairs d none ≡ ok (e, some value) =
      run ∙ ap (λ l. ok (e, l)) (some_of_die_if_null last got) in
    let (os, sound, here) =
      decode_pairs-Decoded arena.id_expression_pairs d e [] none value
        (make_decoder_context-IsSound c d made) (λ v h. absurd (cc)) run' in
    let ((f, o), output, h3) = >>=-eq-ok (make_sql_output_operation e value) _ h2 in
    let create = λ (address : ℕ). sql_output_op address e.ir_context value in
    let has = sound.operators.1.1.1.0 in
    let (sound', _) =
      add_operation-IsSound e f os create o sound
        (λ o. sql_output_op-IsPlaced (length os) e.ir_context value o has here) output in
    let named =
      sql_output_op-name (length os) e.ir_context value o has
        (add_operation-create e f os create o sound.block output) in
    (
      os,
      o,
      subst (λ d. IsSound d (os ++ o ∷ [])) (ap (λ r. r.0) (ok-injective h3)) sound',
      named,
      sym (ap (λ r. r.1) (ok-injective h3)),
    )

-- When a new decoder decodes an arena, its block ends with an output operation, whose result is
-- returned; every operation of the block has its place as its address, one output, and inputs that
-- are columns or first outputs of earlier operations; and the direct inputs of every merge are
-- among its inputs.
pub decode_expression_arena-Wired :
    (c : IrContext) (d d' : DecoderContext) (arena : ExpressionArena) (v : Value)
    → make_decoder_context c ≡ ok d
    → decode_expression_arena arena d ≡ ok (d', v)
    → (os : List Operation) × (o : Operation) × (d'.top_level_block
        ≡ some (block_of (os ++ o ∷ [])))
      × Wired 0 (os ++ o ∷ [])
      × (o.op.name ≡ sql_output_name)
      × (v ≡ wrap_operation_result_value o)
unfolding decode_expression_arena make_sql_output_operation
decode_expression_arena-Wired c d d' arena v made h =
    let (os, o, sound, name, is_v) = arena-IsSound c d d' arena v made h in
    (os, o, sound.block, sound.wired, name, is_v)
