-- ===== src/Policy/Verdict.antt =====
-- The three loops of `IsModulePolicyCompliant` in
-- src/backends/policy_engine/abstract_interpretation/abstract_interpretation_policy_checker.cc against
-- two questions on the inputs of the egress operations.
use raksha.Common.{
  is_empty, inl, inr, Bool-cases, ap, any_of-append, not, ◌||◌, ◌&&◌, ◌∙◌, Bool, true, false, ◌≡◌,
  List, [], ◌∷◌, none, some, Outcome, ok, fatal, ◌>>=◌, fold_m, String, string_eq, if◌then◌else◌,
  any_of, arith, refl, not, ◌&&◌, ◌||◌, Bool-cases, any_of-append, ◌∙◌, ap, Option-cases,
}
use raksha.Common.Sets.{contains}
use raksha.Common.Maps.{find}
use raksha.Ir.Values.{Value, value_eq}
use raksha.Ir.Modules.{Operation, Block, Module, operations_of, operations_of_blocks}
use raksha.Taint.Tags.{
  secrecy_tags, AbstractIfcTags, bottom, tags, is_bottom, has_no_secrecy, secrecy_tags,
}
use raksha.Policy.Checker.{ValueStateMap, check_input, check_operation, is_module_policy_compliant}

-- The state of the value, if it has one, passes the test.
abbrev pub reads : (AbstractIfcTags → Bool) → ValueStateMap → Value → Bool
reads p states v = elim (find states v) [ none ↦ false | some s ↦ p s ]

abbrev pub has_some_secrecy : AbstractIfcTags → Bool
has_some_secrecy bottom = false
has_some_secrecy (tags x) = not (is_empty x.secrecy_tags)

-- An egress operation with such an input.
abbrev pub egress_reads : List String → (AbstractIfcTags → Bool) → ValueStateMap → Operation → Bool
egress_reads egress p states o = contains egress o.op.name && any_of (reads p states) o.inputs

abbrev pub verdict : Bool → Bool → Bool → Outcome Bool
verdict crash dirty b = if crash then fatal else ok (b && not dirty)

fold_verdict :
    {A : Type 0} (f : Bool → A → Outcome Bool) (p q : A → Bool)
    → ((b : Bool) (x : A) → f b x ≡ verdict (p x) (q x) b)
    → (b : Bool) (xs : List A) → fold_m f b xs ≡ verdict (any_of p xs) (any_of q xs) b
fold_verdict f p q h b [] = ground arith
fold_verdict f p q h b (x ∷ xs) = elim (Bool-cases (p x)) [
  | inl crash ↦ rw (h b x, crash) refl
  | inr fine ↦ rw (h b x, fine, fold_verdict f p q h (b && not (q x)) xs) (ground arith)
]

has_no_secrecy_lem :
    (s : AbstractIfcTags) (b : Bool)
    → (has_no_secrecy s >>= λ clean. ok (if clean then b else false))
      ≡ verdict (is_bottom s) (has_some_secrecy s) b
unfolding has_no_secrecy secrecy_tags
has_no_secrecy_lem bottom b = refl
has_no_secrecy_lem (tags x) b = ground arith

check_input_lem :
    (states : ValueStateMap) (b : Bool) (v : Value)
    → check_input states b v
      ≡ verdict (reads is_bottom states v) (reads has_some_secrecy states v) b
unfolding check_input
check_input_lem states b v = elim (Option-cases (find states v)) [
  | inl none_there ↦ rw (none_there, check_input) (ground arith)
  | inr (s, there) ↦ rw (there, check_input, reads) (has_no_secrecy_lem s b)
]

check_operation_lem :
    (egress : List String) (states : ValueStateMap) (b : Bool) (o : Operation)
    → check_operation egress states b o
      ≡ verdict
          (egress_reads egress is_bottom states o)
          (egress_reads egress has_some_secrecy states o)
          b
unfolding check_operation
check_operation_lem egress states b o =
    let folded =
      fold_verdict (check_input states) (reads is_bottom states) (reads has_some_secrecy states)
        (check_input_lem states) b o.inputs in
    elim (Bool-cases (contains egress o.op.name)) [
      | inl egress_op ↦ rw (egress_op, check_operation) folded
      | inr other ↦ rw (other, check_operation) (ground arith)
    ]

any_of-operations_of_blocks :
    (p : Operation → Bool) (bs : List Block)
    → any_of p (operations_of_blocks bs) ≡ any_of (λ b. any_of p b.operations) bs
unfolding operations_of_blocks
any_of-operations_of_blocks p [] = refl
any_of-operations_of_blocks p (b ∷ bs) =
    any_of-append p b.operations (operations_of_blocks bs)
    ∙ ap (λ r. any_of p b.operations || r) (any_of-operations_of_blocks p bs)

-- The check stops at a failed CHECK exactly if an input of an egress operation of the module has
-- the state bottom; otherwise it returns whether no input of an egress operation has a secrecy tag.
pub is_module_policy_compliant_lem :
    (egress : List String) (states : ValueStateMap) (m : Module)
    → is_module_policy_compliant egress states m ≡ (
        if any_of (egress_reads egress is_bottom states) (operations_of m)
        then fatal
        else ok (not (any_of (egress_reads egress has_some_secrecy states) (operations_of m))))
unfolding is_module_policy_compliant operations_of
is_module_policy_compliant_lem egress states m =
    let p = egress_reads egress is_bottom states in
    let q = egress_reads egress has_some_secrecy states in
    rw (any_of-operations_of_blocks p m.blocks, any_of-operations_of_blocks q m.blocks)
      (fold_verdict (λ compliant b. fold_m (check_operation egress states) compliant b.operations)
        (λ b. any_of p b.operations) (λ b. any_of q b.operations)
        (λ b k.
          fold_verdict (check_operation egress states) p q (check_operation_lem egress states) b
            k.operations)
        true m.blocks)
