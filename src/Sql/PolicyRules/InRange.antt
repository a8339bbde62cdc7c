-- ===== src/Sql/PolicyRules/InRange.antt =====
-- The rules of src/frontends/sql/decode_sql_policy_rules.cc meet what the transformer of
-- src/analysis/taint/abstract_semantics.cc checks.
use raksha.Sql.PolicyRules.Fit.{HasRange, step-RulesSound}
use raksha.Sql.PolicyRules.Ranges.{contains-numbers_from}
use raksha.Taint.Semantics.Universe.{ConclusionIn, RulesIn}
use raksha.Sql.PolicyRules.{
  decode_sql_policy_rules, numbers_from, ExpressionArena, find_operation, make_builder, name_rules,
  decode_tag_transform_op,
}
use raksha.Sql.PolicyRules.Bounds.{TagBelow, RulesSound, RulesBelow, make_builder-RulesSound}
use raksha.Common.{
  ℕ, ◌<◌, String, List, [], ok, length, ◌≡◌, sym, ◌∙◌, arith, All, All-map, >>=-eq-ok, ok-injective,
  subst, Option-cases, inl, inr, All-zip, fold_m, fold_m-invariant, nat_eq, string_eq,
  some-injective, some,
}
use raksha.Taint.Builder.{build, InferenceRulesBuilder}
use raksha.Common.Maps.{find}
use raksha.Ir.Modules.{Operation, number_of_outputs, operations_of, Module}
use raksha.Taint.Rules.{
  add_secrecy, remove_secrecy, add_integrity, Conclusion, copy_input, modify_tag,
  merge_integrity_tags, InferenceRules, get_output_rules_for_operation, get_output_rules_for_action,
  OutputRules,
}

-- The rules of the operation, if it has some, name only inputs and outputs that it has, and in their
-- conclusions and premises only the first `k` tags.
abbrev pub NamesInRange : ℕ → InferenceRules → Operation → Type 0
NamesInRange k rules o =
    (output_rules : OutputRules)
    → get_output_rules_for_operation rules o.address ≡ some output_rules
    → RulesBelow k o output_rules

in_first : (k : ℕ) (c : Conclusion) → TagBelow k c → ConclusionIn (numbers_from 0 k) c
in_first k (copy_input i) h = tt
in_first k (merge_integrity_tags kind indices) h = tt
in_first k (modify_tag add_secrecy t) h =
    contains-numbers_from 0 k t (omega arith) (omega (arith, h))
in_first k (modify_tag remove_secrecy t) h = tt
in_first k (modify_tag add_integrity t) h =
    contains-numbers_from 0 k t (omega arith) (omega (arith, h))

pub RulesIn-of_NamesInRange :
    (k : ℕ) (rules : InferenceRules) (o : Operation)
    → NamesInRange k rules o
    → RulesIn (numbers_from 0 k) rules o (length o.inputs)
RulesIn-of_NamesInRange k rules o names output_rules h =
    All-map _ _ output_rules
      (λ (i, rs) (lt, all). (
        lt,
        All-map _ _ rs (λ rule (fits, (below, _)). (fits, in_first k rule.conclusion below)) all,
      ))
      (names output_rules h)

rules_of_sound :
    (operations : List Operation) (b : InferenceRulesBuilder) (o : Operation)
    → RulesSound operations b
    → find_operation operations o.address ≡ ok o
    → NamesInRange (length b.tags) (build b) o
unfolding get_output_rules_for_operation get_output_rules_for_action build
rules_of_sound operations b o sound unique output_rules h =
    elim (Option-cases (find b.actions o.address)) [
      | inl unmarked ↦ absurd (let h' = rw (unmarked, get_output_rules_for_operation) at h in cc)
      | inr (action, marked) ↦
          let (r, has, fit) = sound.rules o.address action marked in
          let same : r ≡ output_rules =
            some-injective _ _ (sym has ∙ (rw (marked, get_output_rules_for_operation) at h)) in
          subst (RulesBelow (length b.tags) o) same (fit o unique)
    ]

-- When the policy rules are decoded for a module in which each operation has an output and one
-- operation has each address, and the direct inputs of each merge are among its inputs, then the
-- rules of each operation name only inputs that it has, outputs that it has, and, in their
-- conclusions of every kind and in their premises, tags with ids below the number of tags.
pub decode_sql_policy_rules-NamesInRange :
    (arena : ExpressionArena) (m : Module) (seeds : List String) (rules : InferenceRules)
    → All HasRange (operations_of m)
    → All (λ o. find_operation (operations_of m) o.address ≡ ok o) (operations_of m)
    → decode_sql_policy_rules arena m seeds ≡ ok rules
    → All (NamesInRange (length rules.tags) rules) (operations_of m)
unfolding decode_sql_policy_rules build
decode_sql_policy_rules-NamesInRange arena m seeds rules range unique h =
    let operations = operations_of m in
    let (b, run1, h1) = >>=-eq-ok (make_builder seeds) _ h in
    let (policy_rules, run2, h2) = >>=-eq-ok (name_rules arena.sql_policy_rules []) _ h1 in
    let ((counts, c), run3, h3) =
      >>=-eq-ok (fold_m (decode_tag_transform_op operations policy_rules) ([], b) operations) _
        h2 in
    let sound =
      fold_m-invariant (λ s. RulesSound operations s.1)
        (λ o. (0 < number_of_outputs o) × (find_operation operations o.address ≡ ok o))
        (decode_tag_transform_op operations policy_rules) ([], b) (counts, c) operations
        (λ s o t (outputs, one) sound run.
          step-RulesSound operations policy_rules s o t range outputs one sound run)
        (All-zip _ _ operations (All-map _ _ operations (λ o has. has.outputs) range) unique)
        (make_builder-RulesSound operations seeds b run1) run3 in
    subst (λ rules. All (NamesInRange (length rules.tags) rules) operations) (ok-injective h3)
      (All-map _ _ operations (λ o one. rules_of_sound operations c o sound one) unique)
