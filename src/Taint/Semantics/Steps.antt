-- ===== src/Taint/Semantics/Steps.antt =====
-- From one conclusion to the whole transformer: what every rule keeps, every output satisfies.
use raksha.Common.{
  ℕ, true, false, List, [], ◌∷◌, ◌≡◌, arith, ◌<◌, length, set, All, All-set, All-replicate, Returns,
  returns, Returns-bind, length-set, length-replicate, ◌∙◌, lt→ltb, inl, inr, nat_eq, Option-cases,
  some,
}
use raksha.Ir.Modules.{Operation, number_of_outputs}
use raksha.Taint.Tags.{AbstractIfcTags}
use raksha.Taint.Rules.{InferenceRule, OutputRules, InferenceRules, get_output_rules_for_operation}
use raksha.Taint.Semantics.{
  conclude, interpret_inference_rule, apply_rules, apply_output_rules, apply_operation_transformer,
  apply_default_operation_transformer,
}
use raksha.Taint.Semantics.Bounds.{RuleFits, premises_not_satisfied_total}

module _ (inputs : List AbstractIfcTags) (P : AbstractIfcTags → Type 0) where
  -- The rule's indices are in range, and its conclusion leads from `P` to `P`.
  pub record Keeps (rule : InferenceRule) : Type 0 where
    pub fits : RuleFits (length inputs) rule
    pub step : (s : AbstractIfcTags) → P s → Returns P (conclude rule.conclusion inputs s)

  -- As many outputs as `n`, and rules that all keep `P`.
  abbrev pub AllKeep : ℕ → OutputRules → Type 0
  AllKeep n = All (λ (i, rules). (i < n) × All Keeps rules)

  pub interpret_inference_rule-Returns :
      (rule : InferenceRule) (s : AbstractIfcTags)
      → Keeps rule
      → P s
      → Returns P (interpret_inference_rule rule inputs s)
  unfolding interpret_inference_rule
  interpret_inference_rule-Returns rule s k h =
      Returns-bind (premises_not_satisfied_total inputs rule.premises k.fits.premises)
        (elim [ true ↦ λ _. returns h | false ↦ λ _. k.step s h ])

  pub apply_rules-Returns :
      (s : AbstractIfcTags) (rules : List InferenceRule)
      → All Keeps rules
      → P s
      → Returns P (apply_rules inputs s rules)
  unfolding apply_rules
  apply_rules-Returns s [] ks h = returns h
  apply_rules-Returns s (rule ∷ rules) (k, ks) h =
      Returns-bind (interpret_inference_rule-Returns rule s k h)
        λ s' h'. apply_rules-Returns s' rules ks h'

  apply_output_rules-Returns :
      (n : ℕ) (default : AbstractIfcTags) (results : List AbstractIfcTags) (rest : OutputRules)
      → AllKeep n rest
      → P default
      → length results ≡ n
      → All P results
      → Returns (λ r. (length r ≡ n) × All P r) (apply_output_rules inputs default results rest)
  unfolding apply_output_rules
  apply_output_rules-Returns n default results [] ks h size all = returns (size, all)
  apply_output_rules-Returns n default results ((i, rules) ∷ rest) ((lt, k), ks) h size all =
      rw (lt→ltb i (length results) (omega arith), apply_output_rules)
        (Returns-bind (apply_rules-Returns default rules k h) λ s p.
          apply_output_rules-Returns n default (set results i s) rest ks h
            (length-set results i s ∙ size) (All-set P results i s all p))

  -- If the default result satisfies `P` and each rule of the operation keeps it, the transformer
  -- returns a state for each output, and all satisfy `P`.
  pub apply_operation_transformer-Returns :
      (rules : InferenceRules) (o : Operation)
      → ((output_rules : OutputRules)
          → get_output_rules_for_operation rules o.address ≡ some output_rules
          → AllKeep (number_of_outputs o) output_rules)
      → P (apply_default_operation_transformer o inputs)
      → Returns
          (λ r. (length r ≡ number_of_outputs o) × All P r)
          (apply_operation_transformer rules o inputs)
  unfolding apply_operation_transformer
  apply_operation_transformer-Returns rules o ks h =
      let n = number_of_outputs o in
      let default = apply_default_operation_transformer o inputs in
      let size = length-replicate n default in
      let all = All-replicate P n default h in
      elim (Option-cases (get_output_rules_for_operation rules o.address)) [
        | inl e ↦ rw (e, apply_operation_transformer) (returns (size, all))
        | inr (output_rules, e) ↦
            rw (e, apply_operation_transformer)
              (apply_output_rules-Returns n default _ output_rules (ks output_rules e) h size all)
      ]
