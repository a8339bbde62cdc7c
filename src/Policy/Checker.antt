-- ===== src/Policy/Checker.antt =====
-- src/backends/policy_engine/abstract_interpretation/abstract_interpretation_policy_checker.{h,cc}:
-- the taint analysis of a module, and the check of its egress operations.
use raksha.Common.{
  ℕ, Bool, true, false, List, Option, none, some, Outcome, ok, ◌>>=◌, fold_m, String, string_eq,
  if◌then◌else◌,
}
use raksha.Common.Sets.{contains}
use raksha.Common.Maps.{find}
use raksha.Ir.Values.{Value, value_eq}
use raksha.Ir.Modules.{Operation, Module}
use raksha.Taint.Tags.{AbstractIfcTags, bottom, join, is_equivalent_to, has_no_secrecy}
use raksha.Taint.Rules.{InferenceRules}
use raksha.Taint.Semantics.{get_initial_state, apply_operation_transformer}
use raksha.Analysis.Fixpoint.{run, AbstractSemantics, initialize}

abbrev pub ValueStateMap : Type 0
ValueStateMap = List (Value × AbstractIfcTags)

-- `analysis::taint::AbstractSemantics`, the argument of the iterator.
abbrev pub taint_semantics : InferenceRules → AbstractSemantics
taint_semantics rules = record {
  State = AbstractIfcTags;
  bottom = bottom;
  join = join;
  is_equivalent_to = is_equivalent_to;
  get_initial_state = get_initial_state;
  apply_operation_transformer = apply_operation_transformer rules;
}

-- `ComputeIfcTags`, for a choice of the member of the worklist that comes first and for some fuel.
unfoldable pub compute_ifc_tags :
    InferenceRules → (List ℕ → ℕ) → ℕ → Module → Outcome (Option ValueStateMap)
unfolding run initialize
compute_ifc_tags rules first fuel m = do
  s ← initialize (taint_semantics rules) m
  result ← run (taint_semantics rules) m first fuel s
  ok (elim result [ none ↦ none | some t ↦ some t.value_states ])

-- The body of the innermost of the three loops: an input of an egress operation without a state is
-- passed over, and `HasNoSecrecy` is asked of the state otherwise.
unfoldable pub check_input : ValueStateMap → Bool → Value → Outcome Bool
unfolding has_no_secrecy
check_input states policy_compliant v = elim (find states v) [
  | none ↦ ok policy_compliant
  | some s ↦ has_no_secrecy s >>= λ clean. ok (if clean then policy_compliant else false)
]

unfoldable pub check_operation : List String → ValueStateMap → Bool → Operation → Outcome Bool
unfolding check_input
check_operation egress states policy_compliant o =
    if contains egress o.op.name
    then fold_m (check_input states) policy_compliant o.inputs
    else ok policy_compliant

unfoldable pub is_module_policy_compliant : List String → ValueStateMap → Module → Outcome Bool
unfolding check_operation
is_module_policy_compliant egress states m =
    fold_m (λ compliant b. fold_m (check_operation egress states) compliant b.operations) true
      m.blocks
