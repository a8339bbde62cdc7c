-- ===== src/Tests/Programs.antt =====
-- A module of three operations, with rules for its analysis.
use raksha.Taint.Semantics.{
  apply_default_operation_transformer, apply_operation_transformer, apply_output_rules, apply_rules,
  at, conclude, get_initial_state, interpret_inference_rule, interpret_merge_integrity_tags,
  join_all, premises_not_satisfied,
}
use raksha.Common.Sets.{contains, erase, insert, inter, set_eq, subset, union}
use raksha.Common.Maps.{assign, find, insert_new, try_insert}
use raksha.Analysis.Graph.{
  add_edge, add_node, compute_adjacency_list, get_adjacent_nodes, get_nodes, get_results, get_uses,
  node_beq, node_eq, pre_visit,
}
use raksha.Analysis.Fixpoint.{
  FixState, initialize, run, add_uses, find_operation, get_current_state, graph, operation_inputs,
  output_at, process, push_output,
}
use raksha.Common.{
  nat_eq, beq_refl, refl, refl, ℕ, List, [], ◌∷◌, ◌≡◌, ok, false, some, pair_eq, true, beq_refl,
}
use raksha.Ir.Values.{operation_result, stored_value, value_beq, value_eq}
use raksha.Ir.Modules.{make_module, Operation, Module, operations_of, operations_of_blocks}
use raksha.Taint.Tags.{
  AbstractIfcTags, make, clear_secrecy, has_integrity, integrity_tags, is_equivalent_to, join,
  set_integrity, set_secrecy,
}
use raksha.Taint.Rules.{
  InferenceRules, modify_tag, add_secrecy, get_output_rules_for_action,
  get_output_rules_for_operation,
}
use raksha.Policy.Checker.{compute_ifc_tags, is_module_policy_compliant, taint_semantics}

abbrev pub read : Operation
read = record {
  address = 1;
  op = record { name = "Read"; number_of_return_values = 1 };
  attributes = [];
  inputs = stored_value 7 ∷ [];
}

abbrev pub mix : Operation
mix = record {
  address = 2;
  op = record { name = "Mix"; number_of_return_values = 1 };
  attributes = [];
  inputs = operation_result 1 0 ∷ stored_value 7 ∷ [];
}

abbrev pub show : Operation
show = record {
  address = 3;
  op = record { name = "Show"; number_of_return_values = 0 };
  attributes = [];
  inputs = operation_result 2 0 ∷ [];
}

abbrev pub program : Module
program = record make_module {
  blocks =
      record {
        address = 0;
        inputs = [];
        outputs = [];
        operations = read ∷ mix ∷ show ∷ [];
        results = [];
      }
      ∷ [];
}

-- The output of `Read` is secret.
abbrev pub secret_rules : InferenceRules
secret_rules = record {
  action_rules =
      ("read", (0, record { conclusion = modify_tag add_secrecy 0; premises = [] } ∷ []) ∷ []) ∷ [];
  actions = (1, "read") ∷ [];
  tags = ("secret", 0) ∷ [];
  tag_names = "secret" ∷ [];
}

abbrev pub begin_of : List ℕ → ℕ
begin_of [] = 0
begin_of (o ∷ os) = o

pub begin_of_member : (o : ℕ) (os : List ℕ) → contains (o ∷ os) (begin_of (o ∷ os)) ≡ true
unfolding contains
begin_of_member o os = rw (beq_refl o)

abbrev pub secret : AbstractIfcTags
secret = make (0 ∷ []) []

abbrev pub entry : FixState (taint_semantics secret_rules)
entry = record { value_states = (stored_value 7, make [] []) ∷ []; worklist = 1 ∷ 2 ∷ [] }

abbrev pub final : FixState (taint_semantics secret_rules)
final = record {
  value_states =
      (stored_value 7, make [] [])
      ∷ (operation_result 1 0, secret)
      ∷ (operation_result 2 0, secret)
      ∷ [];
  worklist = [];
}

pub initialize-program : initialize (taint_semantics secret_rules) program ≡ ok entry
unfolding initialize get_nodes graph compute_adjacency_list find try_insert node_eq value_eq assign
    find_operation insert_new get_uses insert pair_eq get_initial_state
initialize-program = refl

pub run-entry : run (taint_semantics secret_rules) program begin_of 10 entry ≡ ok (some final)
unfolding run premises_not_satisfied add_uses get_current_state operation_inputs output_at process
    push_output add_edge add_node get_adjacent_nodes get_results node_beq pre_visit contains erase
    inter set_eq subset union operations_of operations_of_blocks value_beq
    get_output_rules_for_action apply_default_operation_transformer apply_output_rules apply_rules
    at conclude get_initial_state interpret_merge_integrity_tags join_all clear_secrecy
    has_integrity integrity_tags is_equivalent_to join set_integrity set_secrecy get_nodes graph
    compute_adjacency_list find try_insert node_eq value_eq assign find_operation insert_new
    get_uses insert pair_eq apply_operation_transformer get_output_rules_for_operation
    interpret_inference_rule
run-entry = refl

compute_ifc_tags-program :
    compute_ifc_tags secret_rules begin_of 10 program ≡ ok (some final.value_states)
unfolding compute_ifc_tags
compute_ifc_tags-program = rw (initialize-program, run-entry)

is_module_policy_compliant-program :
    is_module_policy_compliant ("Show" ∷ []) final.value_states program ≡ ok false
unfolding is_module_policy_compliant contains find value_eq
is_module_policy_compliant-program = refl
