-- ===== src/Taint/Semantics/Verdicts.antt =====
-- The outputs of the transformer of src/analysis/taint/abstract_semantics.cc, tag by tag.
use raksha.Common.Maps.{find, All-find}
use raksha.Common.{
  length-map, nat_eq, ◌||◌, ℕ, Bool, false, List, [], ◌∷◌, map, length, ◌<◌, ◌≡◌, refl, sym, ◌∙◌,
  ap, arith, any_of, Returns, Returns-eq-ok, Returns-of_ok, All, Option-cases, inl, inr, subst,
  All-map, Returns-weaken,
}
use mathlib.Core.List.{foldl}
use raksha.Common.Sets.{contains, contains-union, union, inter}
use raksha.Ir.Modules.{Operation, number_of_outputs}
use raksha.Taint.Tags.{AbstractIfcTags, tags, join, TagId, IfcTags}
use raksha.Taint.Rules.{InferenceRules, get_output_rules_for_operation, OutputRules}
use raksha.Taint.Semantics.{
  at, apply_default_operation_transformer, apply_operation_transformer, get_initial_state, join_all,
  drop_integrity,
}
use raksha.Taint.Semantics.Bounds.{RuleFits}
use raksha.Taint.Semantics.Effects.{RulesFit, apply_operation_transformer_total}
use raksha.Taint.Semantics.Outputs.{rules_for_output, ListsOnce, apply_operation_transformer-at}
use raksha.Taint.Semantics.Said.{secrecy_said, integrity_said, last_vote, or_else}
use raksha.Taint.Semantics.Decided.{apply_rules-Decide}

foldl-join :
    (y : IfcTags) (xs : List IfcTags)
    → (z : IfcTags) × (foldl join (tags y) (map tags xs) ≡ tags z)
      × ((t : TagId)
          → contains z.secrecy_tags t
            ≡ (contains y.secrecy_tags t || any_of (λ x. contains x.secrecy_tags t) xs))
unfolding join
foldl-join y [] = (y, refl, λ t. ground arith)
foldl-join y (x ∷ xs) =
    let (z, e, secrecy) =
      foldl-join
        (record {
          secrecy_tags = union y.secrecy_tags x.secrecy_tags;
          integrity_tags = inter y.integrity_tags x.integrity_tags;
        })
        xs in
    (z, e, λ t. ground (arith, secrecy t, contains-union y.secrecy_tags x.secrecy_tags t))

-- The default result has the secrecy tags of the inputs and no integrity tag.
default_tags :
    (o : Operation) (xs : List IfcTags)
    → (y : IfcTags) × (apply_default_operation_transformer o (map tags xs) ≡ tags y)
      × ((t : TagId) → contains y.secrecy_tags t ≡ any_of (λ x. contains x.secrecy_tags t) xs)
      × ((t : TagId) → contains y.integrity_tags t ≡ false)
unfolding apply_default_operation_transformer get_initial_state join_all drop_integrity join
    contains
default_tags o [] = (_, refl, λ t. refl, λ t. refl)
default_tags o (x ∷ xs) =
    let (z, e, secrecy) = foldl-join x xs in (_, ap drop_integrity e, secrecy, λ t. refl)

rules_only :
    (n m : ℕ) (output_rules : OutputRules)
    → All (λ (i, rs). (i < m) × All (RuleFits n) rs) output_rules
    → All (λ p. All (RuleFits n) p.1) output_rules
rules_only n m output_rules = All-map _ _ output_rules (λ (i, rs) (lt, all). all)

rules_for_output-fit :
    (rules : InferenceRules) (o : Operation) (n j : ℕ)
    → RulesFit rules o n
    → All (RuleFits n) (rules_for_output rules o j)
rules_for_output-fit rules o n j fit =
    elim (Option-cases (get_output_rules_for_operation rules o.address)) [
      | inl no_entry ↦ rw (no_entry, All, rules_for_output) tt
      | inr (output_rules, e) ↦
          rw (e, All, rules_for_output)
            (elim (Option-cases (find output_rules j)) [
              | inl no_rules ↦ rw (no_rules, All) tt
              | inr (rs, has) ↦ rw has (
                  All-find (λ rs. All (RuleFits n) rs) output_rules j rs
                    (rules_only n _ output_rules (fit output_rules e)) has)
            ])
    ]

module _ (rules : InferenceRules) (o : Operation) (xs : List IfcTags) where
  -- How the transformer decides on the tag, for output `j`.
  abbrev pub secrecy_verdict : ℕ → TagId → Bool
  secrecy_verdict j t =
      or_else (last_vote xs (secrecy_said xs t) (rules_for_output rules o j))
        (any_of (λ x. contains x.secrecy_tags t) xs)

  abbrev pub integrity_verdict : ℕ → TagId → Bool
  integrity_verdict j t =
      or_else (last_vote xs (integrity_said xs t) (rules_for_output rules o j)) false

  abbrev pub AsRulesSay : ℕ → AbstractIfcTags → Type 0
  AsRulesSay j r =
      (z : IfcTags) × (r ≡ tags z)
      × ((t : TagId) → contains z.secrecy_tags t ≡ secrecy_verdict j t)
      × ((t : TagId) → contains z.integrity_tags t ≡ integrity_verdict j t)

  -- If no input is bottom, the indices of the rules of the operation are in range, and no output is
  -- listed twice among them, the transformer returns a state for each output, none bottom. A tag is
  -- in the state of an output as the last of the rules for that output says whose premises hold of
  -- the inputs and whose conclusion decides on the tag: a copy as the input has it, an added tag
  -- yes, a removed tag no, a merge as some input of its indices, or each of them if there are any,
  -- has it. Where no rule decides, a secrecy tag is in it exactly if some input has it, and an
  -- integrity tag is not. So also for an operation or an output without rules.
  pub apply_operation_transformer_lem :
      RulesFit rules o (length xs)
      → ListsOnce rules o
      → Returns
          (λ r.
            (length r ≡ number_of_outputs o)
            × ((j : ℕ) → j < number_of_outputs o → Returns (AsRulesSay j) (at r j)))
          (apply_operation_transformer rules o (map tags xs))
  apply_operation_transformer_lem fit once =
      let inputs = map tags xs in
      let (r, run, size) = Returns-eq-ok (
        apply_operation_transformer_total rules o inputs
          (subst (RulesFit rules o) (sym (length-map tags xs)) fit)) in
      let (y, default, secrecy, integrity) = default_tags o xs in
      Returns-of_ok run (
        size,
        λ j lt.
            rw (apply_operation_transformer-at rules o inputs r j once lt run, default)
              (Returns-weaken
                (apply_rules-Decide xs y (rules_for_output rules o j)
                  (rules_for_output-fit rules o (length xs) j fit))
                (λ r (z, e, s, i). (
                  z,
                  e,
                  λ t.
                      s t
                      ∙ ap (or_else (last_vote xs (secrecy_said xs t) (rules_for_output rules o j)))
                          (secrecy t),
                  λ t.
                      i t
                      ∙ ap
                          (or_else
                            (last_vote xs (integrity_said xs t) (rules_for_output rules o j)))
                          (integrity t),
                ))),
      )
