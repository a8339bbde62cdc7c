-- ===== src/Tests/Policy.antt =====
-- The analysis and the check of the module of Tests/Programs.
use raksha.Policy.Termination.{compute_ifc_tags_total}
use raksha.Taint.Semantics.Universe.{RulesIn, ConclusionIn}
use mathlib.Core.Option.{some-injective}
use raksha.Common.{
  ℕ, refl, true, false, ok, fatal, [], ◌∷◌, ◌≡◌, ◌≢◌, arith, string_eq, nat_eq, some, ◌==◌, All,
  length, any_of, if◌then◌else◌, not, ◌<◌, subst,
}
use raksha.Common.Sets.{contains}
use raksha.Common.Maps.{find}
use raksha.Ir.Values.{operation_result, value_eq}
use raksha.Ir.Modules.{Operation, operations_of}
use raksha.Taint.Tags.{is_bottom}
use raksha.Taint.Rules.{
  OutputRules, add_secrecy, modify_tag, get_output_rules_for_action, get_output_rules_for_operation,
}
use raksha.Taint.Semantics.Bounds.{RuleFits}
use raksha.Taint.Semantics.Effects.{RulesFit}
use raksha.Analysis.Fixpoint.{Reach, find_operation, get_current_state, start}
use raksha.Analysis.Fixpoint.Rounds.{Consistent}
use raksha.Analysis.Fixpoint.Soundness.{AboveInitial, Reach-post_fixpoint, run-Reach}
use raksha.Policy.Checker.{
  is_module_policy_compliant, taint_semantics, ValueStateMap, compute_ifc_tags,
}
use raksha.Policy.Flows.{Carries, Flows, here, through, is_module_policy_compliant-Flows}
use raksha.Policy.Soundness.{taint_order, taint_strict}
use raksha.Policy.Verdict.{egress_reads, has_some_secrecy, is_module_policy_compliant_lem}
use raksha.Tests.Programs.{
  begin_of, entry, final, initialize-program, mix, program, read, run-entry, secret_rules, show,
  begin_of_member,
}

Reach-entry : Reach (taint_semantics secret_rules) program entry
Reach-entry = start initialize-program

final-Reach : Reach (taint_semantics secret_rules) program final × (final.worklist ≡ [])
final-Reach =
    run-Reach (taint_semantics secret_rules) (taint_order secret_rules) program begin_of 10 entry
      final begin_of_member Reach-entry run-entry

no_rules : (o : Operation) (n : ℕ) → (1 == o.address) ≡ false → RulesFit secret_rules o n
unfolding get_output_rules_for_operation find
no_rules o n other rs e = absurd (let h = rw (other, get_output_rules_for_operation) at e in cc)

read_rules :
    (rs : OutputRules)
    → get_output_rules_for_operation secret_rules 1 ≡ some rs
    → (0, record { conclusion = modify_tag add_secrecy 0; premises = [] } ∷ []) ∷ [] ≡ rs
unfolding get_output_rules_for_operation get_output_rules_for_action find
read_rules rs e = some-injective _ _ e

pub read_fits : RulesFit secret_rules read 1
read_fits rs e =
    subst (All (λ (i, rules). (i < 1) × All (RuleFits 1) rules)) (read_rules rs e)
      ((omega arith, (record { conclusion = tt; premises = tt }, tt)), tt)

program_fits : All (λ o. RulesFit secret_rules o (length o.inputs)) (operations_of program)
unfolding operations_of
program_fits = (read_fits, (no_rules mix 2 refl, (no_rules show 1 refl, tt)))

Reach-post_fixpoint_example :
    ((a : ℕ) (o : Operation)
      → find_operation (operations_of program) a ≡ ok o
      → Consistent (taint_semantics secret_rules) (taint_order secret_rules) program final o)
    × AboveInitial (taint_semantics secret_rules) (taint_order secret_rules) program final
Reach-post_fixpoint_example =
    Reach-post_fixpoint (taint_semantics secret_rules) (taint_order secret_rules) program final
      (taint_strict secret_rules program program_fits) final-Reach.0 refl

pub mix-Carries : Carries secret_rules 0 mix 2
unfolding get_output_rules_for_operation find
mix-Carries rs e = absurd (cc)

mix-Flows : Flows secret_rules program final 0 (operation_result 1 0) (operation_result 2 0)
unfolding find_operation operations_of contains value_eq get_current_state find
mix-Flows = through 2 mix 0 (here (operation_result 1 0)) refl refl refl mix-Carries (omega arith)

is_module_policy_compliant-Flows_example :
    is_module_policy_compliant ("Show" ∷ []) final.value_states program ≢ ok true
unfolding contains operations_of value_eq get_current_state find
is_module_policy_compliant-Flows_example =
    is_module_policy_compliant-Flows secret_rules program final ("Show" ∷ []) 0
      (operation_result 1 0) (operation_result 2 0) program_fits final-Reach.0 refl refl mix-Flows
      refl

is_module_policy_compliant_lem_example :
    is_module_policy_compliant ("Show" ∷ []) final.value_states program ≡ (
      if any_of (egress_reads ("Show" ∷ []) is_bottom final.value_states) (operations_of program)
      then fatal
      else ok (
          not (
            any_of
              (egress_reads ("Show" ∷ []) has_some_secrecy final.value_states)
              (operations_of program))))
is_module_policy_compliant_lem_example =
    is_module_policy_compliant_lem ("Show" ∷ []) final.value_states program

read_adds : RulesIn (0 ∷ []) secret_rules read 1
unfolding contains
read_adds rs e =
    subst
      (All (λ (i, rules).
        (i < 1) × All (λ rule. RuleFits 1 rule × ConclusionIn (0 ∷ []) rule.conclusion) rules))
      (read_rules rs e) ((omega arith, ((record { conclusion = tt; premises = tt }, refl), tt)), tt)

adds_nothing :
    (o : Operation) (n : ℕ) → (1 == o.address) ≡ false → RulesIn (0 ∷ []) secret_rules o n
unfolding get_output_rules_for_operation find
adds_nothing o n other rs e = absurd (let h = rw (other, get_output_rules_for_operation) at e in cc)

program_adds : All (λ o. RulesIn (0 ∷ []) secret_rules o (length o.inputs)) (operations_of program)
unfolding operations_of
program_adds = (read_adds, (adds_nothing mix 2 refl, (adds_nothing show 1 refl, tt)))

program_addresses :
    All (λ o. find_operation (operations_of program) o.address ≡ ok o) (operations_of program)
unfolding find_operation operations_of
program_addresses = (refl, (refl, (refl, tt)))

compute_ifc_tags_total_example :
    (fuel : ℕ) × (states : ValueStateMap) × (compute_ifc_tags secret_rules begin_of fuel program
      ≡ ok (some states))
compute_ifc_tags_total_example =
    compute_ifc_tags_total (0 ∷ []) secret_rules program begin_of program_adds program_addresses
      begin_of_member
