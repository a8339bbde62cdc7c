-- ===== src/Tests/Termination.antt =====
-- The iteration on a semantics with two states: whether a value depends on a stored value.
use raksha.Common.Maps.{find, try_insert, assign, insert_new}
use raksha.Analysis.Graph.{get_nodes, compute_adjacency_list, node_eq, get_uses}
use raksha.Common.{
  ℕ, suc, ◌≤◌, Bool, true, false, not, ◌||◌, refl, ok, some, List, [], ◌∷◌, ◌≡◌, arith, any_of,
  replicate, length-replicate, All-replicate, returns, nat_eq, beq_refl, pair_eq,
}
use raksha.Common.Sets.{contains, insert}
use raksha.Ir.Values.{is_operation_result, stored_value, value_eq}
use raksha.Ir.Modules.{number_of_outputs, operations_of}
use raksha.Analysis.Fixpoint.{AbstractSemantics, FixState, initialize, run, find_operation, graph}
use raksha.Analysis.Fixpoint.Measure.{IsFinite}
use raksha.Analysis.Fixpoint.Processing.{HasUniqueAddresses}
use raksha.Analysis.Fixpoint.Termination.{run_total}
use raksha.Tests.Programs.{program, begin_of}

abbrev same : Bool → Bool → Bool
same true b = b
same false b = not b

abbrev reaching : AbstractSemantics
reaching = record {
  State = Bool;
  bottom = false;
  join = λ a b. a || b;
  is_equivalent_to = same;
  get_initial_state = λ v. not (is_operation_result v);
  apply_operation_transformer =
      λ o inputs. ok (replicate (number_of_outputs o) (any_of (λ b. b) inputs));
}

abbrev rank : Bool → ℕ
rank true = 1
rank false = 0

rank_le : (a : Bool) → rank a ≤ 1
rank_le true = omega arith
rank_le false = omega arith

abbrev Raises : Bool → Bool → Type 0
Raises a b = same (a || b) a ≡ false → suc (rank a) ≤ rank (a || b)

rank_lt : (a b : Bool) → Raises a b
rank_lt true b h = cc
rank_lt false true h = omega arith
rank_lt false false h = cc

abbrev reaching_finite : IsFinite reaching program
reaching_finite = record {
  Fits = λ _. Unit;
  rank = rank;
  bound = 1;
  bottom_fits = tt;
  initial_fits = λ v. tt;
  join_fits = λ a b _ _. tt;
  apply = λ a o inputs _ _ _.
      returns
        (length-replicate (number_of_outputs o) _, All-replicate _ (number_of_outputs o) _ tt);
  rank_le = λ a _. rank_le a;
  rank_lt = λ a b _ _ h. rank_lt a b h;
}

program_unique : HasUniqueAddresses reaching program reaching_finite
unfolding find_operation operations_of
program_unique = (refl, (refl, (refl, tt)))

begin_of_is_member : (o : ℕ) (os : List ℕ) → contains (o ∷ os) (begin_of (o ∷ os)) ≡ true
unfolding contains
begin_of_is_member o os = rw (beq_refl o)

abbrev reaching_entry : FixState reaching
reaching_entry = record { value_states = (stored_value 7, true) ∷ []; worklist = 1 ∷ 2 ∷ [] }

initialize-reaching : initialize reaching program ≡ ok reaching_entry
unfolding initialize get_nodes graph compute_adjacency_list find try_insert node_eq value_eq assign
    find_operation insert_new get_uses insert pair_eq
initialize-reaching = refl

run_total_example :
    (fuel : ℕ) × (t : FixState reaching) × (run reaching program begin_of fuel reaching_entry
      ≡ ok (some t))
run_total_example =
    run_total reaching program reaching_finite begin_of reaching_entry program_unique
      begin_of_is_member initialize-reaching
