-- ===== src/Taint/Rules.antt =====
-- src/analysis/taint/inference_rule.h and inference_rules.h: what a rule says, and which rules an
-- operation has.
use raksha.Common.{ℕ, String, List, Option, none, some, nat_eq, string_eq, list_eq, get_elem?}
use raksha.Common.Maps.{find}
use raksha.Taint.Tags.{TagId}

pub record InputHasIntegrity : Type 0 where
  pub input_index : ℕ
  pub tag : TagId

pub data MergeKind : Type 0 where
  union intersect : MergeKind

pub data ModifyKind : Type 0 where
  add_secrecy remove_secrecy add_integrity : ModifyKind

pub data Conclusion : Type 0 where
  copy_input : ℕ → Conclusion
  modify_tag : ModifyKind → TagId → Conclusion
  merge_integrity_tags : MergeKind → List ℕ → Conclusion

pub record InferenceRule : Type 0 where
  pub conclusion : Conclusion
  pub premises : List InputHasIntegrity

-- From an output's index to the rules for it, and from an action to such a map.
abbrev pub OutputRules : Type 0
OutputRules = List (ℕ × List InferenceRule)

abbrev pub ActionRules : Type 0
ActionRules = List (String × OutputRules)

-- `actions` is keyed by the address of an operation.
pub record InferenceRules : Type 0 where
  pub action_rules : ActionRules
  pub actions : List (ℕ × String)
  pub tags : List (String × TagId)
  pub tag_names : List String

unfoldable pub get_tag_id : InferenceRules → String → Option TagId
get_tag_id r name = find r.tags name

unfoldable pub get_tag_name : InferenceRules → TagId → Option String
get_tag_name r t = get_elem? r.tag_names t

unfoldable pub get_output_rules_for_action : InferenceRules → String → Option OutputRules
get_output_rules_for_action r action = find r.action_rules action

unfoldable pub get_output_rules_for_operation : InferenceRules → ℕ → Option OutputRules
unfolding get_output_rules_for_action
get_output_rules_for_operation r operation = elim (find r.actions operation) [
  | none ↦ none
  | some action ↦ get_output_rules_for_action r action
]
