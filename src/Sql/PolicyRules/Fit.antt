-- ===== src/Sql/PolicyRules/Fit.antt =====
-- src/frontends/sql/decode_sql_policy_rules.cc gives each tag transform rules that fit its operation.
use raksha.Sql.PolicyRules.Ranges.{
  get_precondition_input_indices-lt, get_transformed_value_index-lt, numbers_from-All,
}
use raksha.Policy.Soundness.{find_operation-All}
use raksha.Taint.Builder.Ids.{Built, mark}
use raksha.Sql.PolicyRules.Bounds.{
  RulesSound, Grown, get_or_create_tag_id-Grown, add-RulesSound, Grown-trans, RulesBelow,
}
use raksha.Common.{
  Bool, false, if◌then◌else◌, ℕ, ◌≤◌, ◌<◌, String, true, List, [], ◌∷◌, ok, length, ◌==◌, ◌≡◌, refl,
  sym, ◌∙◌, arith, All, All-map, All-append, >>=-eq-ok, ok-injective, some_of_die_if_null, subst,
  die_if_null, check, string_eq, nat_eq, Bool-cases, inl, inr, true_of_check,
}
use raksha.Common.Maps.{find, All-find}
use raksha.Ir.Modules.{Operation, number_of_outputs}
use raksha.Taint.Rules.{
  MergeKind, copy_input, modify_tag, merge_integrity_tags, InferenceRule, OutputRules,
}
use raksha.Taint.Builder.{InferenceRulesBuilder}
use raksha.Sql.PolicyRules.{
  union_itag_rule, SqlPolicyRule, add_premises, is_op, Precondition,
  add_inference_rule_for_tag_transform, decode_special_tag_transform, decode_tag_transform_op,
  merge_name, InputHasIntegrity, add_inference_rule_for_merge, decode_policy_tag_transform,
  find_operation, get_control_input_start_index, RuleCounts, get_transformed_value,
  mark_operation_as_action, tag_transform_name, get_precondition_input_indices, get_rule_name,
  operation_result_of, get_transformed_value_index, get_modify_tag_kind, get_or_create_tag_id,
  numbers_from,
}

-- The operation has an output, and the direct inputs of a merge are among its inputs.
pub record HasRange (o : Operation) : Type 0 where
  pub outputs : 0 < number_of_outputs o
  pub merge :
      is_op merge_name o ≡ true
      → (k : ℕ) × (get_control_input_start_index o ≡ ok k) × (k ≤ length o.inputs)

-- The premise names one of `n` inputs and one of the tags of the builder.
abbrev PremiseIn : ℕ → InferenceRulesBuilder → InputHasIntegrity → Type 0
PremiseIn n b p = (p.input_index < n) × (p.tag < length b.tags)

PremiseIn-Grown :
    (n : ℕ) (b c : InferenceRulesBuilder) (premises : List InputHasIntegrity)
    → Grown b c
    → All (PremiseIn n b) premises
    → All (PremiseIn n c) premises
PremiseIn-Grown n b c premises g all =
    All-map (PremiseIn n b) (PremiseIn n c) premises
      (λ p (index, tag). (index, omega (arith, tag, g.size))) all

add_premises-Grown :
    (n : ℕ) (indices : List (String × ℕ)) (preconditions : List Precondition)
    (b c : InferenceRulesBuilder) (premises out : List InputHasIntegrity)
    → All (λ p. p.1 < n) indices
    → Built b
    → All (PremiseIn n b) premises
    → add_premises indices preconditions b premises ≡ ok (c, out)
    → Grown b c × All (PremiseIn n c) out
unfolding add_premises
add_premises-Grown n indices [] b c premises out low built all h =
    subst (λ r. Grown b r.0 × All (PremiseIn n r.0) r.1) (ok-injective h)
      (record { built = built; actions = refl; action_rules = refl; size = omega arith }, all)
add_premises-Grown n indices (p ∷ preconditions) b c premises out low built all h =
    let (g, below) = get_or_create_tag_id-Grown b p.required_integrity_tag built in
    let (index, run, rest) = >>=-eq-ok (die_if_null (find indices p.argument)) _ h in
    let lt = All-find (λ i. i < n) indices p.argument index low (some_of_die_if_null _ run) in
    let (g', all') =
      add_premises-Grown n indices preconditions _ c _ out low g.built
        (All-append _ premises _ (PremiseIn-Grown n b _ premises g all) ((lt, below), tt)) rest in
    (Grown-trans g g', all')

module _ (operations : List Operation) (policy_rules : List (String × SqlPolicyRule)) where
  -- The rules of the arena, for an operation that is marked.
  tag_transform-RulesSound :
      (rule : SqlPolicyRule) (o : Operation) (action : String) (b marked c : InferenceRulesBuilder)
      → 0 < number_of_outputs o
      → find_operation operations o.address ≡ ok o
      → RulesSound operations b
      → mark_operation_as_action b o.address action ≡ ok marked
      → add_inference_rule_for_tag_transform rule o action marked ≡ ok c
      → RulesSound operations c
  unfolding add_inference_rule_for_tag_transform
  tag_transform-RulesSound rule o action b marked c outputs unique sound mark_run h =
      let (indices, run1, h1) = >>=-eq-ok (get_precondition_input_indices o) _ h in
      let ((d, premises), run2, h2) =
        >>=-eq-ok (add_premises indices rule.preconditions marked []) _ h1 in
      let (index, run3, h3) = >>=-eq-ok (get_transformed_value_index o) _ h2 in
      let (kind, run4, h4) = >>=-eq-ok (get_modify_tag_kind rule.action) _ h3 in
      let (g, all) =
        add_premises-Grown (length o.inputs) indices rule.preconditions marked d [] premises
          (get_precondition_input_indices-lt o indices run1)
          (mark o.address action sound.built mark_run) tt run2 in
      let (g', below) = get_or_create_tag_id-Grown d rule.tag g.built in
      let lt = get_transformed_value_index-lt o index run3 in
      let all' =
        PremiseIn-Grown (length o.inputs) d (get_or_create_tag_id d rule.tag).0 premises g' all in
      let indices_in : All (λ p. p.input_index < length o.inputs) premises =
        All-map _ _ premises (λ p h. h.0) all' in
      let tags_in : All (λ p. p.tag < length (get_or_create_tag_id d rule.tag).0.tags) premises =
        All-map _ _ premises (λ p h. h.1) all' in
      let grown = get_or_create_tag_id d rule.tag in
      let copy_input_rule : InferenceRule = record {
        conclusion = copy_input index;
        premises = [];
      } in
      let modify_tag_rule : InferenceRule = record {
        conclusion = modify_tag kind grown.1;
        premises = premises;
      } in
      let output_rules : OutputRules = (0, copy_input_rule ∷ modify_tag_rule ∷ []) ∷ [] in
      let fit : RulesBelow (length grown.0.tags) o output_rules = (
        (
          outputs,
          (
            (record { conclusion = lt; premises = tt }, (tt, tt)),
            ((record { conclusion = tt; premises = indices_in }, (below, tags_in)), tt),
          ),
        ),
        tt,
      ) in
      add-RulesSound operations b marked grown.0 c o.address action output_rules sound mark_run
        (Grown-trans g g')
        (λ p found.
          subst (λ p. RulesBelow (length grown.0.tags) p output_rules)
            (ok-injective (sym unique ∙ found)) fit)
        h4

  special-RulesSound :
      (o : Operation) (rule_name action : String) (b c : InferenceRulesBuilder)
      → All HasRange operations
      → RulesSound operations b
      → decode_special_tag_transform operations policy_rules o rule_name action b ≡ ok c
      → RulesSound operations c
  unfolding decode_special_tag_transform add_inference_rule_for_merge
  special-RulesSound o rule_name action b c range sound h =
      let (_, _, h1) = >>=-eq-ok (check (length o.inputs == 1)) _ h in
      let (input, _, h2) = >>=-eq-ok (get_transformed_value o) _ h1 in
      let (address, _, h3) = >>=-eq-ok (die_if_null (operation_result_of input)) _ h2 in
      let (marked, mark_run, h4) = >>=-eq-ok (mark_operation_as_action b address action) _ h3 in
      let (merge, found, h5) = >>=-eq-ok (find_operation operations address) _ h4 in
      let (_, checked, h6) = >>=-eq-ok (check (is_op merge_name merge)) _ h5 in
      let (n, start_run, h7) = >>=-eq-ok (get_control_input_start_index merge) _ h6 in
      let has = find_operation-All HasRange operations address merge range found in
      let (k, start_is, le) = has.merge (true_of_check _ checked) in
      let n_le : n ≤ length merge.inputs =
        omega (arith, ok-injective (sym start_run ∙ start_is), le) in
      let kind = if rule_name == union_itag_rule then MergeKind.union else MergeKind.intersect in
      let rule : InferenceRule = record {
        conclusion = merge_integrity_tags kind (numbers_from 0 n);
        premises = [];
      } in
      let output_rules : OutputRules = (0, rule ∷ []) ∷ [] in
      let low = numbers_from-All 0 n (length merge.inputs) (omega (arith, n_le)) in
      let fit : RulesBelow (length marked.tags) merge output_rules =
        ((has.outputs, ((record { conclusion = low; premises = tt }, (tt, tt)), tt)), tt) in
      add-RulesSound operations b marked marked c address action output_rules sound mark_run
        (record {
          built = mark address action sound.built mark_run;
          actions = refl;
          action_rules = refl;
          size = omega arith;
        })
        (λ p there.
          subst (λ p. RulesBelow (length marked.tags) p output_rules)
            (ok-injective (sym found ∙ there)) fit)
        h7

  branch-RulesSound :
      (special : Bool) (o : Operation) (rule_name action : String) (b c : InferenceRulesBuilder)
      → All HasRange operations
      → 0 < number_of_outputs o
      → find_operation operations o.address ≡ ok o
      → RulesSound operations b
      → (if special
          then decode_special_tag_transform operations policy_rules o rule_name action b
          else decode_policy_tag_transform operations policy_rules o rule_name action b)
        ≡ ok c
      → RulesSound operations c
  unfolding decode_policy_tag_transform
  branch-RulesSound true o rule_name action b c range outputs unique sound h =
      special-RulesSound o rule_name action b c range sound h
  branch-RulesSound false o rule_name action b c range outputs unique sound h =
      let (marked, mark_run, h1) = >>=-eq-ok (mark_operation_as_action b o.address action) _ h in
      let (rule, _, h2) = >>=-eq-ok (die_if_null (find policy_rules rule_name)) _ h1 in
      tag_transform-RulesSound rule o action b marked c outputs unique sound mark_run h2

  pub step-RulesSound :
      (s : RuleCounts × InferenceRulesBuilder) (o : Operation)
      (t : RuleCounts × InferenceRulesBuilder)
      → All HasRange operations
      → 0 < number_of_outputs o
      → find_operation operations o.address ≡ ok o
      → RulesSound operations s.1
      → decode_tag_transform_op operations policy_rules s o ≡ ok t
      → RulesSound operations t.1
  unfolding decode_tag_transform_op
  step-RulesSound (counts, b) o t range outputs unique sound h =
      elim (Bool-cases (is_op tag_transform_name o)) [
        | inr other ↦
            subst (λ t. RulesSound operations t.1)
              (ok-injective (rw (other, decode_tag_transform_op) at h)) sound
        | inl is ↦
            let (rule_name, _, h1) =
              >>=-eq-ok (get_rule_name o) _ (rw (is, decode_tag_transform_op) at h) in
            let (c, run, h2) = >>=-eq-ok _ _ h1 in
            subst (λ t. RulesSound operations t.1) (ok-injective h2)
              (branch-RulesSound _ o rule_name _ b c range outputs unique sound run)
      ]
