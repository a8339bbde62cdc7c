-- ===== src/Taint/Builder.antt =====
-- src/analysis/taint/inference_rules_builder.h
pub mod Ids
use raksha.Common.{
  ℕ, String, List, [], ◌∷◌, ◌++◌, none, some, Outcome, ok, ◌>>=◌, length, string_eq, nat_eq,
}
use raksha.Common.Maps.{find, try_insert, insert_new}
use raksha.Taint.Tags.{TagId}
use raksha.Taint.Rules.{OutputRules, ActionRules, InferenceRules}

pub record InferenceRulesBuilder : Type 0 where
  pub tag_names : List String
  pub tags : List (String × TagId)
  pub action_rules : ActionRules
  pub actions : List (ℕ × String)

-- The loop of the constructor: the id of a seed is the number of the seeds before it.
unfoldable pub number_seeds : List String → List (String × TagId) → Outcome (List (String × TagId))
number_seeds [] table = ok table
number_seeds (name ∷ names) table = do
  table' ← insert_new table name (length table)
  number_seeds names table'

unfoldable pub make_builder : List String → Outcome InferenceRulesBuilder
unfolding number_seeds
make_builder seeds = do
  table ← number_seeds seeds []
  ok (record { tag_names = seeds; tags = table; action_rules = []; actions = [] })

unfoldable pub build : InferenceRulesBuilder → InferenceRules
build b = record {
  action_rules = b.action_rules;
  actions = b.actions;
  tags = b.tags;
  tag_names = b.tag_names;
}

unfoldable pub mark_operation_as_action :
    InferenceRulesBuilder → ℕ → String → Outcome InferenceRulesBuilder
mark_operation_as_action b operation action = do
  actions' ← insert_new b.actions operation action
  ok (record b { actions = actions' })

unfoldable pub add_output_rules_for_action :
    InferenceRulesBuilder → String → OutputRules → Outcome InferenceRulesBuilder
add_output_rules_for_action b action rule = do
  rules' ← insert_new b.action_rules action rule
  ok (record b { action_rules = rules' })

unfoldable pub get_or_create_tag_id : InferenceRulesBuilder → String → InferenceRulesBuilder × TagId
get_or_create_tag_id b tag = elim (find b.tags tag) [
  | some t ↦ (b, t)
  | none ↦
      let t = length b.tags in
      (record b { tag_names = b.tag_names ++ tag ∷ []; tags = try_insert b.tags tag t }, t)
]
