-- ===== src/Ir/ProtoToIr/Filling.antt =====
-- What `ToIR` of src/ir/proto_to_ir.cc puts into an operation.
use raksha.Common.{
  nat_eq, string_eq, String, List, [], ◌∷◌, ◌++◌, none, ok, ◌≡◌, refl, sym, ◌∙◌, ap, ap₂, subst,
  All, AllPairs, map, append_assoc, append-nil, fold_m, Returns, returns, Returns-bind,
  Returns-weaken,
}
use raksha.Common.Maps.{
  find, try_insert, try_insert-append, keys, keys-append, find_of_contains-keys,
}
use raksha.Common.Entries.{Distinct, contains-before}
use raksha.Ir.Attributes.{Attribute, float_attribute, int64_attribute, string_attribute}
use raksha.Ir.Modules.{Operation, add_input, add_attribute}
use raksha.Ir.Values.{Value}
use raksha.Ir.IrToProto.{named_attribute_to_proto}
use raksha.Ir.Proto.{
  ValueProto, AttributePayload, payload_not_set, float_payload, int64_payload, string_payload,
  OperationProto,
}
use raksha.Ir.ProtoToIr.{
  ProtoToIr, name_value, value_of_proto, to_ir_value, add_input_of_proto, add_attribute_of_proto,
  to_ir_attribute, to_ir_operation,
}
use raksha.Ir.ProtoToIr.Tables.{
  Table, operation_table, block_table, ValueRead, ValueKnown, value_of_proto-ValueRead,
}
use raksha.Ir.ProtoToIr.Readable.{HasPayload}

-- The addresses of the objects of the state.
abbrev pub HasTables : Table → Table → ProtoToIr → Type 0
HasTables f g s = (operation_table s.operations ≡ f) × (block_table s.blocks ≡ g)

abbrev pub SameObjects : ProtoToIr → ProtoToIr → Type 0
SameObjects s t = (t.operations ≡ s.operations) × (t.blocks ≡ s.blocks)

value_read :
    (f g : Table) (s : ProtoToIr) (p : ValueProto)
    → HasTables f g s
    → ValueKnown f g p
    → (v : Value) × (value_of_proto s p ≡ ok v) × ValueRead f g p v
value_read f g s p (ef, eg) known =
    subst (λ f. (v : Value) × (value_of_proto s p ≡ ok v) × ValueRead f g p v) ef
      (subst
        (λ g.
          (v : Value) × (value_of_proto s p ≡ ok v)
          × ValueRead (operation_table s.operations) g p v)
        eg
        (value_of_proto-ValueRead s p (
          subst (λ f. ValueKnown f (block_table s.blocks) p) (sym ef)
            (subst (λ g. ValueKnown f g p) (sym eg) known))))

abbrev InputsRead :
    Table → Table → ProtoToIr → Operation → List ValueProto → ProtoToIr × Operation → Type 0
InputsRead f g s x ps r =
    SameObjects s r.0
    × (vs : List Value) × (r.1 ≡ record x { inputs = x.inputs ++ vs })
    × AllPairs (ValueRead f g) ps vs

add_inputs :
    (f g : Table) (s : ProtoToIr) (x : Operation) (ps : List ValueProto)
    → HasTables f g s
    → All (ValueKnown f g) ps
    → Returns (InputsRead f g s x ps) (fold_m add_input_of_proto (s, x) ps)
unfolding add_input_of_proto to_ir_value add_input
add_inputs f g s x [] tables known =
    returns ((refl, refl), [], ap (λ l. record x { inputs = l }) (sym (append-nil x.inputs)), tt)
add_inputs f g s x (p ∷ ps) tables (here, later) =
    let (v, run, read) = value_read f g s p tables here in
    rw run (
      Returns-weaken (add_inputs f g (name_value s v) (add_input x v) ps tables later)
        (λ r ((operations, blocks), vs, same, reads). (
          (operations, blocks),
          v ∷ vs,
          same ∙ ap (λ l. record x { inputs = l }) (append_assoc x.inputs (v ∷ []) vs),
          (read, reads),
        )))

attribute_read :
    (a : String × AttributePayload)
    → HasPayload a
    → (b : Attribute) × (to_ir_attribute a.1 ≡ ok b) × (named_attribute_to_proto (a.0, b) ≡ a)
unfolding to_ir_attribute named_attribute_to_proto
attribute_read (name, payload_not_set) h = absurd h
attribute_read (name, float_payload x) h = (float_attribute x, refl, refl)
attribute_read (name, int64_payload x) h = (int64_attribute x, refl, refl)
attribute_read (name, string_payload x) h = (string_attribute x, refl, refl)

add_attributes :
    (x : Operation) (ps : List (String × AttributePayload))
    → All HasPayload ps
    → Distinct (keys x.attributes ++ keys ps)
    → Returns
        (λ r.
          (bs : List (String × Attribute)) × (r ≡ record x { attributes = x.attributes ++ bs })
          × (map named_attribute_to_proto bs ≡ ps))
        (fold_m add_attribute_of_proto x ps)
unfolding add_attribute_of_proto add_attribute
add_attributes x [] all distinct =
    returns ([], ap (λ l. record x { attributes = l }) (sym (append-nil x.attributes)), refl)
add_attributes x ((name, p) ∷ ps) (here, later) distinct =
    let (b, run, read) = attribute_read (name, p) here in
    let new : find x.attributes name ≡ none =
      find_of_contains-keys x.attributes name
        (contains-before (keys x.attributes) (keys ps) name distinct) in
    let more : try_insert x.attributes name b ≡ x.attributes ++ (name, b) ∷ [] =
      try_insert-append x.attributes name b new in
    rw run (
      Returns-weaken
        (add_attributes (add_attribute x name b) ps later (
          rw (more, keys-append)
            (subst Distinct (sym (append_assoc (keys x.attributes) (name ∷ []) (keys ps)))
              distinct)))
        (λ r (bs, same, reads). (
          (name, b) ∷ bs,
          same
              ∙ ap (λ l. record x { attributes = l })
                  (ap (◌++ bs) more ∙ append_assoc x.attributes ((name, b) ∷ []) bs),
          ap₂ ◌∷◌ read reads,
        )))

pub to_ir_operation_lem :
    (f g : Table) (s : ProtoToIr) (x : Operation) (p : OperationProto)
    → HasTables f g s
    → All (ValueKnown f g) p.inputs
    → All HasPayload p.attributes
    → Distinct (keys p.attributes)
    → x.inputs ≡ []
    → x.attributes ≡ []
    → Returns
        (λ r.
          SameObjects s r.0
          × (r.1.address ≡ x.address)
          × (r.1.op ≡ x.op)
          × AllPairs (ValueRead f g) p.inputs r.1.inputs
          × (map named_attribute_to_proto r.1.attributes ≡ p.attributes))
        (to_ir_operation s x p)
unfolding to_ir_operation
to_ir_operation_lem f g s x p tables known set distinct no_inputs no_attributes =
    Returns-bind (add_inputs f g s x p.inputs tables known) (λ (t, y) (same, vs, e, reads).
      let kept : y.attributes ≡ [] = ap (λ o. o.attributes) e ∙ no_attributes in
      Returns-bind
        (add_attributes y p.attributes set
          (subst (λ l. Distinct (keys l ++ keys p.attributes)) (sym kept) distinct))
        (λ z (bs, e', named). returns (
          same,
          ap (λ o. o.address) e' ∙ ap (λ o. o.address) e,
          ap (λ o. o.op) e' ∙ ap (λ o. o.op) e,
          subst (AllPairs (ValueRead f g) p.inputs)
              (sym (ap (λ o. o.inputs) e' ∙ ap (λ o. o.inputs) e ∙ ap (◌++ vs) no_inputs)) reads,
          ap (λ o. map named_attribute_to_proto o.attributes) e'
              ∙ ap (λ l. map named_attribute_to_proto (l ++ bs)) kept
              ∙ named,
        )))
