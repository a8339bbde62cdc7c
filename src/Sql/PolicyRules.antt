-- ===== src/Sql/PolicyRules.antt =====
-- src/frontends/sql/decode_sql_policy_rules.cc: inference rules from the policy rules of an arena and
-- the operations of its module.
pub mod Ranges
pub mod Bounds
pub mod Fit
pub mod InRange
use raksha.Common.{
  ℕ, zero, suc, ◌+◌, ◌%◌, ◌^◌, String, ◌<>◌, ◌||◌, List, [], ◌∷◌, ◌++◌, Option, none, some, Outcome,
  ok, fatal, ◌>>=◌, ◌>>◌, check, die_if_null, fold_m, length, ◌==◌, nat_eq, string_eq,
  if◌then◌else◌,
}
use raksha.Common.Maps.{find, assign, insert_new}
use raksha.Common.Text.{to_string}
use raksha.Ir.Values.{Value, operation_result, block_argument, stored_value, any}
use raksha.Ir.Modules.{Operation, Module, operations_of}
use raksha.Analysis.Fixpoint.{find_operation}
use raksha.Taint.Rules.{
  InputHasIntegrity, MergeKind, ModifyKind, add_secrecy, remove_secrecy, copy_input, modify_tag,
  merge_integrity_tags, InferenceRule, InferenceRules,
}
use raksha.Taint.Builder.{
  InferenceRulesBuilder, make_builder, build, mark_operation_as_action, add_output_rules_for_action,
  get_or_create_tag_id,
}
use raksha.Sql.Ops.{
  merge_name, tag_transform_name, is_op, get_control_input_start_index, get_transformed_value_index,
  get_transformed_value, get_precondition_input_indices, get_rule_name,
}
use raksha.Sql.Decode.{
  Action, add_confidentiality, remove_confidentiality, Precondition, SqlPolicyRule, ExpressionArena,
}

abbrev pub intersect_itag_rule : String
intersect_itag_rule = "##raksha_internal#intersect_itag_rule"

abbrev pub union_itag_rule : String
union_itag_rule = "##raksha_internal#union_itag_rule"

unfoldable pub get_modify_tag_kind : Action → Outcome ModifyKind
get_modify_tag_kind add_confidentiality = ok add_secrecy
get_modify_tag_kind remove_confidentiality = ok remove_secrecy
get_modify_tag_kind Action.add_integrity = ok ModifyKind.add_integrity
get_modify_tag_kind Action.unknown = fatal

-- `absl::c_generate` of `n` numbers from `i` on. The counter of the source is an `int`, which holds
-- them as long as a merge has fewer than 2^31 direct inputs, more than a message can list.
unfoldable pub numbers_from : ℕ → ℕ → List ℕ
numbers_from i zero = []
numbers_from i (suc n) = i ∷ numbers_from (suc i) n

unfoldable pub add_inference_rule_for_merge :
    Operation → MergeKind → String → InferenceRulesBuilder → Outcome InferenceRulesBuilder
unfolding numbers_from
add_inference_rule_for_merge o kind action_name b = do
  n ← get_control_input_start_index o
  let rule : InferenceRule = record {
    conclusion = merge_integrity_tags kind (numbers_from 0 n);
    premises = [];
  }
  add_output_rules_for_action b action_name ((0, rule ∷ []) ∷ [])

unfoldable pub add_premises :
    List (String × ℕ)
    → List Precondition
    → InferenceRulesBuilder
    → List InputHasIntegrity
    → Outcome (InferenceRulesBuilder × List InputHasIntegrity)
add_premises input_indices [] b premises = ok (b, premises)
add_premises input_indices (p ∷ preconditions) b premises =
    let (b', tag) = get_or_create_tag_id b p.required_integrity_tag in
    (die_if_null (find input_indices p.argument) >>= λ index.
    add_premises input_indices preconditions b'
      (premises ++ record { input_index = index; tag = tag } ∷ []))

unfoldable pub add_inference_rule_for_tag_transform :
    SqlPolicyRule → Operation → String → InferenceRulesBuilder → Outcome InferenceRulesBuilder
unfolding add_premises get_modify_tag_kind
add_inference_rule_for_tag_transform rule o action_name b = do
  input_indices ← get_precondition_input_indices o
  (b, premises) ← add_premises input_indices rule.preconditions b []
  index ← get_transformed_value_index o
  kind ← get_modify_tag_kind rule.action
  let r = get_or_create_tag_id b rule.tag
  let copy_input_rule : InferenceRule = record { conclusion = copy_input index; premises = [] }
  let modify_tag_rule : InferenceRule = record {
    conclusion = modify_tag kind r.1;
    premises = premises;
  }
  add_output_rules_for_action r.0 action_name ((0, copy_input_rule ∷ modify_tag_rule ∷ []) ∷ [])

-- A second rule of one name is fatal.
unfoldable pub name_rules :
    List SqlPolicyRule → List (String × SqlPolicyRule) → Outcome (List (String × SqlPolicyRule))
name_rules rules named = fold_m (λ m rule. insert_new m rule.name rule) named rules

abbrev pub RuleCounts : Type 0
RuleCounts = List (String × ℕ)

-- `rule_counts[name]++`, on 64 bits: the count before, and the new counts.
unfoldable pub count_rule : RuleCounts → String → ℕ × RuleCounts
count_rule counts name =
    let n : ℕ = elim (find counts name) [ some n ↦ n | none ↦ 0 ] in
    (n, assign counts name ((n + 1) % 2 ^ 64))

-- `If<OperationResult>`
abbrev pub operation_result_of : Value → Option ℕ
operation_result_of (operation_result address i) = some address
operation_result_of (block_argument b i) = none
operation_result_of (stored_value s) = none
operation_result_of any = none

module _ (operations : List Operation) (sql_policy_rules : List (String × SqlPolicyRule)) where
  -- The branch of the rules that the engine defines.
  unfoldable pub decode_special_tag_transform :
      Operation → String → String → InferenceRulesBuilder → Outcome InferenceRulesBuilder
  unfolding add_inference_rule_for_merge
  decode_special_tag_transform o rule_name action_name b = do
    check (length o.inputs == 1)
    input ← get_transformed_value o
    address ← die_if_null (operation_result_of input)
    b ← mark_operation_as_action b address action_name
    merge ← find_operation operations address
    check (is_op merge_name merge)
    add_inference_rule_for_merge merge
        (if rule_name == union_itag_rule then MergeKind.union else MergeKind.intersect) action_name
        b

  -- The branch of the rules of the arena.
  unfoldable pub decode_policy_tag_transform :
      Operation → String → String → InferenceRulesBuilder → Outcome InferenceRulesBuilder
  unfolding add_inference_rule_for_tag_transform
  decode_policy_tag_transform o rule_name action_name b = do
    b ← mark_operation_as_action b o.address action_name
    rule ← die_if_null (find sql_policy_rules rule_name)
    add_inference_rule_for_tag_transform rule o action_name b

  unfoldable pub decode_tag_transform_op :
      RuleCounts × InferenceRulesBuilder → Operation → Outcome (RuleCounts × InferenceRulesBuilder)
  unfolding count_rule decode_special_tag_transform decode_policy_tag_transform
  decode_tag_transform_op (counts, b) o =
      if is_op tag_transform_name o
      then (do
        rule_name ← get_rule_name o
        let counted = count_rule counts rule_name
        let action_name = rule_name <> "_" <> to_string counted.0
        b' ←
            (if rule_name == intersect_itag_rule || rule_name == union_itag_rule
              then decode_special_tag_transform o rule_name action_name b
              else decode_policy_tag_transform o rule_name action_name b)
        ok (counted.1, b'))
      else ok (counts, b)

unfoldable pub decode_sql_policy_rules :
    ExpressionArena → Module → List String → Outcome InferenceRules
unfolding name_rules decode_tag_transform_op
decode_sql_policy_rules expr m seed_tags = do
  b ← make_builder seed_tags
  sql_policy_rules ← name_rules expr.sql_policy_rules []
  (counts, b) ←
      fold_m (decode_tag_transform_op (operations_of m) sql_policy_rules) ([], b) (operations_of m)
  ok (build b)
