-- ===== src/Tests/Taint.antt =====
-- Instances of the theorems on tags, rules and the transformer.
use raksha.Taint.Semantics.Bounds.{RuleFits}
use raksha.Taint.Semantics.Outputs.{ListsOnce}
use raksha.Taint.Semantics.Verdicts.{AsRulesSay, apply_operation_transformer_lem}
use raksha.Common.Maps.{NodupKeys}
use raksha.Taint.Semantics.Effects.{
  apply_operation_transformer-bottom, apply_operation_transformer-holds_secrecy,
  apply_operation_transformer_total, RulesFit,
}
use raksha.Taint.Tags.Order.{Below, join-Below_iff, join-eq_iff_Below}
use raksha.Taint.Semantics.{
  at, apply_default_operation_transformer, apply_operation_transformer, apply_output_rules,
  apply_rules, interpret_inference_rule, premises_not_satisfied, conclude, join_all,
  interpret_merge_integrity_tags,
}
use raksha.Taint.Rules.{
  InferenceRule, modify_tag, remove_secrecy, merge_integrity_tags, MergeKind,
  get_output_rules_for_operation, get_output_rules_for_action, InferenceRules,
}
use raksha.Taint.Semantics.Defaults.{holds_secrecy, apply_default_operation_transformer_effect}
use raksha.Common.{
  refl, true, false, ok, [], ◌∷◌, ◌≡◌, ◌≢◌, string_eq, nat_eq, some, All, length, ◌↔◌, Returns,
  subst, ℕ, some-injective, ◌<◌, sym, ◌∙◌, List, arith,
}
use raksha.Common.Maps.{find}
use raksha.Common.Sets.{contains, union, inter, insert, erase}
use raksha.Tests.Programs.{read, mix, secret, secret_rules}
use raksha.Tests.Policy.{read_fits, mix-Carries}
use raksha.Taint.Tags.{
  join, AbstractIfcTags, bottom, make, has_integrity, is_bottom, is_equivalent_to, IfcTags, tags,
  clear_secrecy,
}

abbrev public : AbstractIfcTags
public = make [] (3 ∷ [])

join-Below_iff_example :
    Below (join secret public) secret ↔ (Below secret secret × Below public secret)
join-Below_iff_example = join-Below_iff secret public secret

join-eq_iff_Below_example :
    (is_equivalent_to (join secret (make [] [])) secret ≡ true) ↔ Below (make [] []) secret
join-eq_iff_Below_example = join-eq_iff_Below secret (make [] [])

apply_operation_transformer_total_example :
    Returns (λ r. length r ≡ 1) (apply_operation_transformer secret_rules read (public ∷ []))
apply_operation_transformer_total_example =
    apply_operation_transformer_total secret_rules read (public ∷ []) read_fits

apply_operation_transformer-bottom_example :
    Returns
      (λ r. (length r ≡ 1) × All (λ x. is_bottom x ≡ true) r)
      (apply_operation_transformer secret_rules read (bottom ∷ []))
apply_operation_transformer-bottom_example =
    apply_operation_transformer-bottom secret_rules read bottom [] read_fits refl

apply_operation_transformer-holds_secrecy_example :
    Returns
      (λ r. (length r ≡ 1) × All (λ x. holds_secrecy x 0 ≡ true) r)
      (apply_operation_transformer secret_rules mix (secret ∷ public ∷ []))
unfolding contains
apply_operation_transformer-holds_secrecy_example =
    apply_operation_transformer-holds_secrecy secret_rules mix secret (public ∷ []) 0 mix-Carries
      refl refl

abbrev mix_output_rules : List InferenceRule
mix_output_rules =
    (record {
      conclusion = modify_tag remove_secrecy 0;
      premises = record { input_index = 1; tag = 3 } ∷ [];
    })
    ∷ (record { conclusion = merge_integrity_tags MergeKind.intersect (0 ∷ 1 ∷ []); premises = [] })
    ∷ []

-- The output of `Mix` is not secret if its second input has integrity tag 3, and has the integrity
-- tags that both inputs have.
abbrev mix_rules : InferenceRules
mix_rules = record {
  action_rules = ("mix", (0, mix_output_rules) ∷ []) ∷ [];
  actions = (2, "mix") ∷ [];
  tags = ("secret", 0) ∷ [];
  tag_names = "secret" ∷ [];
}

mix_rules_found : get_output_rules_for_operation mix_rules 2 ≡ some ((0, mix_output_rules) ∷ [])
unfolding get_output_rules_for_operation get_output_rules_for_action find
mix_rules_found = refl

mix_fits : RulesFit mix_rules mix 2
mix_fits rs e =
    subst (All (λ (i, rules). (i < 1) × All (RuleFits 2) rules))
      (some-injective _ _ (sym mix_rules_found ∙ e))
      (
        (
          omega arith,
          (
            record { conclusion = tt; premises = (omega arith, tt) },
            (record { conclusion = (omega arith, (omega arith, tt)); premises = tt }, tt),
          ),
        ),
        tt,
      )

mix_rules-ListsOnce : ListsOnce mix_rules mix
unfolding find
mix_rules-ListsOnce rs e = subst NodupKeys (some-injective _ _ (sym mix_rules_found ∙ e)) (refl, tt)

abbrev secret_tags : IfcTags
secret_tags = record { secrecy_tags = 0 ∷ []; integrity_tags = 3 ∷ 4 ∷ [] }

abbrev public_tags : IfcTags
public_tags = record { secrecy_tags = []; integrity_tags = 3 ∷ [] }

apply_operation_transformer-mix :
    apply_operation_transformer mix_rules mix (tags secret_tags ∷ tags public_tags ∷ [])
    ≡ ok (make [] (3 ∷ []) ∷ [])
unfolding apply_operation_transformer apply_output_rules apply_rules interpret_inference_rule
    premises_not_satisfied conclude clear_secrecy apply_default_operation_transformer join_all join
    union inter get_output_rules_for_operation get_output_rules_for_action find insert contains
    has_integrity interpret_merge_integrity_tags erase
apply_operation_transformer-mix = refl

apply_operation_transformer_lem_example :
    Returns
      (λ r.
        (length r ≡ 1)
        × ((j : ℕ)
            → j < 1
            → Returns (AsRulesSay mix_rules mix (secret_tags ∷ public_tags ∷ []) j) (at r j)))
      (apply_operation_transformer mix_rules mix (tags secret_tags ∷ tags public_tags ∷ []))
apply_operation_transformer_lem_example =
    apply_operation_transformer_lem mix_rules mix (secret_tags ∷ public_tags ∷ []) mix_fits
      mix_rules-ListsOnce

apply_default_operation_transformer_effect_example :
    (is_bottom (apply_default_operation_transformer mix (secret ∷ bottom ∷ [])) ≡ false)
    × (holds_secrecy (apply_default_operation_transformer mix (secret ∷ bottom ∷ [])) 0 ≡ true)
    × (has_integrity (apply_default_operation_transformer mix (secret ∷ bottom ∷ [])) 0 ≢ ok true)
unfolding contains
apply_default_operation_transformer_effect_example =
    apply_default_operation_transformer_effect mix secret (bottom ∷ []) 0
