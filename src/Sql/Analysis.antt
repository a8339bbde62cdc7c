-- ===== src/Sql/Analysis.antt =====
-- src/frontends/sql with src/backends/policy_engine/abstract_interpretation: the analysis of the module
-- that an arena decodes to, with the rules that the arena decodes to.
use raksha.Sql.PolicyRules.InRange.{decode_sql_policy_rules-NamesInRange, RulesIn-of_NamesInRange}
use raksha.Policy.Termination.{compute_ifc_tags_total}
use raksha.Analysis.Fixpoint.{find_operation}
use raksha.Sql.Decode.Sound.{arena-IsSound}
use raksha.Sql.PolicyRules.{decode_sql_policy_rules, numbers_from}
use raksha.Sql.Decode.{ExpressionArena, decode_expression_arena}
use raksha.Sql.PolicyRules.Fit.{HasRange}
use raksha.Sql.Context.{DecoderContext, build_top_level_block, make_decoder_context}
use raksha.Sql.Context.Wired.{Wired, IsSound, Wired-find_operation, block_of}
use raksha.Common.{
  ℕ, suc, String, true, List, [], ◌∷◌, ◌++◌, some, ok, length, ◌≡◌, sym, ◌∙◌, ap, arith, All,
  All-map, >>=-eq-ok, ok-injective, subst, append-nil, die_if_null, nat_eq, some-injective,
  some_of_die_if_null,
}
use raksha.Common.Sets.{contains}
use raksha.Ir.Values.{Value}
use raksha.Ir.Context.{IrContext}
use raksha.Ir.BlockBuilder.{build_block}
use raksha.Ir.Modules.{Operation, operations_of, operations_of_blocks, add_block, make_module}
use raksha.Taint.Rules.{InferenceRules}
use raksha.Policy.Checker.{ValueStateMap, compute_ifc_tags}

HasRange-of_Wired : (n : ℕ) (os : List Operation) → Wired n os → All HasRange os
HasRange-of_Wired n [] w = tt
HasRange-of_Wired n (o ∷ os) (here, w) = (
  record { outputs = omega (arith, here.outputs); merge = here.merge },
  HasRange-of_Wired (suc n) os w,
)

-- The operations of the module are those of the block.
built_operations :
    (d e : DecoderContext) (os : List Operation)
    → IsSound d os
    → build_top_level_block d ≡ ok e
    → os ≡ operations_of e.global_module
unfolding build_top_level_block build_block add_block operations_of operations_of_blocks
built_operations d e os sound h =
    let (r, run, is_e) = >>=-eq-ok (build_block d.top_level_block) _ h in
    let (block, got, is_r) = >>=-eq-ok (die_if_null d.top_level_block) _ run in
    let same : block_of os ≡ block =
      some-injective _ _ (sym sound.block ∙ some_of_die_if_null d.top_level_block got) in
    let is_block : block ≡ r.1 = ap (λ r. r.1) (ok-injective is_r) in
    sym (append-nil os)
    ∙ ap (λ b. operations_of (add_block make_module b)) (same ∙ is_block)
    ∙ sym (ap (λ m. operations_of (add_block m r.1)) sound.blocks)
    ∙ ap (λ e. operations_of e.global_module) (ok-injective is_e)

-- When an arena is decoded with a new decoder, the block is built, and the policy rules of the
-- arena are decoded for the module, each without a failed CHECK, then the taint analysis of that
-- module with those rules returns a state map for some fuel, whatever member of the worklist each
-- round takes.
pub sql_analysis_total :
    (c : IrContext) (d e built : DecoderContext) (arena : ExpressionArena) (v : Value)
    (seed_tags : List String) (rules : InferenceRules) (first : List ℕ → ℕ)
    → make_decoder_context c ≡ ok d
    → decode_expression_arena arena d ≡ ok (e, v)
    → build_top_level_block e ≡ ok built
    → decode_sql_policy_rules arena built.global_module seed_tags ≡ ok rules
    → ((o : ℕ) (os : List ℕ) → contains (o ∷ os) (first (o ∷ os)) ≡ true)
    → (fuel : ℕ) × (states : ValueStateMap) × (compute_ifc_tags rules first fuel built.global_module
        ≡ ok (some states))
sql_analysis_total c d e built arena v seed_tags rules first made decoded build_run rules_run
      member =
    let m = built.global_module in
    let (os, o, sound, _, _) = arena-IsSound c d e arena v made decoded in
    let same = built_operations e built (os ++ o ∷ []) sound build_run in
    let range : All HasRange (operations_of m) =
      subst (All HasRange) same (HasRange-of_Wired 0 (os ++ o ∷ []) sound.wired) in
    let unique : All (λ o. find_operation (operations_of m) o.address ≡ ok o) (operations_of m) =
      subst (λ os. All (λ o. find_operation os o.address ≡ ok o) os) same
        (Wired-find_operation 0 (os ++ o ∷ []) sound.wired) in
    compute_ifc_tags_total (numbers_from 0 (length rules.tags)) rules m first
      (All-map _ _ (operations_of m)
        (λ o names. RulesIn-of_NamesInRange (length rules.tags) rules o names)
        (decode_sql_policy_rules-NamesInRange arena m seed_tags rules range unique rules_run))
      unique member
