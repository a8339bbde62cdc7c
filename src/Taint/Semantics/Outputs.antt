-- ===== src/Taint/Semantics/Outputs.antt =====
-- Each output of the transformer on its own.
use raksha.Common.{
  Option-cases, ◌∙◌, ℕ, true, false, List, [], ◌∷◌, ◌≡◌, arith, Outcome, ok, ◌<◌, length, set,
  get_elem?-set, get_elem?-replicate, >>=-eq-ok, check, Bool-cases, inl, inr, ltb, nat_eq, none,
  some, nat_beq, nat_beq_iff, subst, ok-injective, ap, sym, replicate, true_of_check,
}
use raksha.Common.Maps.{find, NodupKeys}
use raksha.Ir.Modules.{Operation, number_of_outputs}
use raksha.Taint.Tags.{AbstractIfcTags}
use raksha.Taint.Rules.{InferenceRule, OutputRules, InferenceRules, get_output_rules_for_operation}
use raksha.Taint.Semantics.{
  at, apply_rules, apply_output_rules, apply_operation_transformer,
  apply_default_operation_transformer,
}

module _ (inputs : List AbstractIfcTags) (default : AbstractIfcTags) where
  -- The state of output `j`: that of its rules if it has some, and else what stands there.
  abbrev output_state : List AbstractIfcTags → OutputRules → ℕ → Outcome AbstractIfcTags
  output_state results rest j = elim (find rest j) [
    | none ↦ at results j
    | some rules ↦ apply_rules inputs default rules
  ]

  at-set_self :
      (results : List AbstractIfcTags) (i : ℕ) (s : AbstractIfcTags)
      → ltb i (length results) ≡ true
      → at (set results i s) i ≡ ok s
  unfolding at
  at-set_self results i s h = ground (arith, get_elem?-set results i s i)

  at-set_ne :
      (results : List AbstractIfcTags) (i j : ℕ) (s : AbstractIfcTags)
      → ltb i (length results) ≡ true
      → nat_beq i j ≡ false
      → at (set results i s) j ≡ at results j
  unfolding at
  at-set_ne results i j s h n = ground (arith, get_elem?-set results i s j)

  apply_output_rules-at :
      (results r : List AbstractIfcTags) (rest : OutputRules) (j : ℕ)
      → NodupKeys rest
      → apply_output_rules inputs default results rest ≡ ok r
      → at r j ≡ output_state results rest j
  unfolding apply_output_rules find
  apply_output_rules-at results r [] j u h = ap (λ x. at x j) (sym (ok-injective h))
  apply_output_rules-at results r ((i, rules) ∷ rest) j (fresh, u) h =
      let (_, checked, h1) = >>=-eq-ok (check (ltb i (length results))) _ h in
      let in_range = true_of_check _ checked in
      let (s, run, h2) = >>=-eq-ok (apply_rules inputs default rules) _ h1 in
      let ih = apply_output_rules-at (set results i s) r rest j u h2 in
      elim (Bool-cases (nat_beq i j)) [
        | inl same ↦
            let e = (nat_beq_iff i j).0 same in
            let fresh' = subst (λ k. find rest k ≡ none) e fresh in
            let written =
              subst (λ k. at (set results i s) k ≡ ok s) e (at-set_self results i s in_range) in
            ground (arith, ih, fresh', written, run, same)
        | inr differ ↦ ground (arith, ih, at-set_ne results i j s in_range differ)
      ]

-- The rules of the operation for output `j`: none without an entry, or without rules for `j`.
abbrev pub rules_for_output : InferenceRules → Operation → ℕ → List InferenceRule
rules_for_output rules o j = elim (get_output_rules_for_operation rules o.address) [
  | none ↦ []
  | some output_rules ↦ elim (find output_rules j) [ none ↦ [] | some rs ↦ rs ]
]

-- As in a hash map, no output is listed twice.
abbrev pub ListsOnce : InferenceRules → Operation → Type 0
ListsOnce rules o =
    (output_rules : OutputRules)
    → get_output_rules_for_operation rules o.address ≡ some output_rules
    → NodupKeys output_rules

-- Each output holds what the rules for it make of the default result.
pub apply_operation_transformer-at :
    (rules : InferenceRules) (o : Operation) (inputs r : List AbstractIfcTags) (j : ℕ)
    → ListsOnce rules o
    → j < number_of_outputs o
    → apply_operation_transformer rules o inputs ≡ ok r
    → at r j
      ≡ apply_rules inputs
          (apply_default_operation_transformer o inputs)
          (rules_for_output rules o j)
unfolding apply_operation_transformer at apply_rules
apply_operation_transformer-at rules o inputs r j once lt h =
    let default = apply_default_operation_transformer o inputs in
    let results = replicate (number_of_outputs o) default in
    let there : at results j ≡ ok default =
      ground (arith, get_elem?-replicate (number_of_outputs o) default j lt) in
    elim (Option-cases (get_output_rules_for_operation rules o.address)) [
      | inl none_is ↦
          let same : results ≡ r = ok-injective (rw (none_is, apply_operation_transformer) at h) in
          rw (none_is, rules_for_output) (ap (λ r. at r j) (sym same) ∙ there)
      | inr (output_rules, e) ↦
          let run = rw (e, apply_operation_transformer) at h in
          let state =
            apply_output_rules-at inputs default results r output_rules j (once output_rules e)
              run in
          rw (e, rules_for_output)
            (elim (Option-cases (find output_rules j)) [
              | inl no_rules ↦ rw no_rules ((rw (no_rules, output_state) at state) ∙ there)
              | inr (rs, has) ↦ rw has (rw (has, output_state) at state)
            ])
    ]
