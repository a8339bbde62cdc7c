-- ===== src/Policy/Termination.antt =====
-- The taint analysis of src/backends/policy_engine/abstract_interpretation ends.
use raksha.Ir.Values.{Value}
use raksha.Analysis.Fixpoint.Initial.{initialize_total}
use raksha.Common.{ℕ, suc, ◌+◌, true, List, ◌∷◌, ◌≡◌, refl, ok, some, length, All, nat_eq}
use raksha.Common.Sets.{contains}
use raksha.Ir.Modules.{Module, operations_of}
use raksha.Taint.Tags.{TagId}
use raksha.Taint.Tags.Rank.{TagsIn, rank, rank_le, rank_lt, TagsIn-join}
use raksha.Taint.Rules.{InferenceRules}
use raksha.Taint.Semantics.{get_initial_state}
use raksha.Taint.Semantics.Universe.{RulesIn, apply_operation_transformer-TagsIn}
use raksha.Analysis.Fixpoint.{find_operation}
use raksha.Analysis.Fixpoint.Measure.{IsFinite}
use raksha.Analysis.Fixpoint.Termination.{run_total}
use raksha.Policy.Checker.{taint_semantics, compute_ifc_tags, ValueStateMap}
use raksha.Policy.Soundness.{find_operation-All}

pub initial-TagsIn : (universe : List TagId) (v : Value) → TagsIn universe (get_initial_state v)
unfolding get_initial_state contains
initial-TagsIn universe v = (λ t e. cc, λ t e. cc)

abbrev pub taint_finite :
    (universe : List TagId) (rules : InferenceRules) (m : Module)
    → All (λ o. RulesIn universe rules o (length o.inputs)) (operations_of m)
    → IsFinite (taint_semantics rules) m
taint_finite universe rules m fit = record {
  Fits = TagsIn universe;
  rank = rank universe;
  bound = suc (length universe + length universe);
  bottom_fits = tt;
  initial_fits = initial-TagsIn universe;
  join_fits = TagsIn-join universe;
  apply = λ a o inputs found size all.
      apply_operation_transformer-TagsIn universe rules o inputs
        (rw size (find_operation-All _ (operations_of m) a o fit found)) all;
  rank_le = λ a _. rank_le universe a;
  rank_lt = rank_lt universe;
}

-- The analysis of a module returns a state map for some fuel, whatever member of the worklist each
-- round takes, if the indices of the rules of its operations are in range, these rules add tags of
-- a given list only, and one operation has each address.
pub compute_ifc_tags_total :
    (universe : List TagId) (rules : InferenceRules) (m : Module) (first : List ℕ → ℕ)
    → All (λ o. RulesIn universe rules o (length o.inputs)) (operations_of m)
    → All (λ o. find_operation (operations_of m) o.address ≡ ok o) (operations_of m)
    → ((o : ℕ) (os : List ℕ) → contains (o ∷ os) (first (o ∷ os)) ≡ true)
    → (fuel : ℕ) × (states : ValueStateMap) × (compute_ifc_tags rules first fuel m
        ≡ ok (some states))
unfolding compute_ifc_tags
compute_ifc_tags_total universe rules m first fit unique member =
    let S = taint_semantics rules in
    let (s, h) = initialize_total S m in
    let (fuel, t, e) = run_total S m (taint_finite universe rules m fit) first s unique member h in
    (fuel, t.value_states, rw (h, e) refl)
