-- ===== src/Policy/Soundness.antt =====
-- What the check of src/backends/policy_engine/abstract_interpretation promises about the flows of a
-- module.
use raksha.Analysis.Fixpoint.Soundness.{IsStrict}
use raksha.Common.{
  ok, All, inl, inr, Bool-cases, subst, ok-injective, ◌==◌, nat_eq, is_empty, suc, zero, all_of,
  replicate, length, get_elem?, All-get_elem?, ℕ, true, false, ◌≡◌, List, [], ◌∷◌, some, string_eq,
  Returns, Returns-weaken, refl, all_of, length, replicate, length-replicate,
}
use raksha.Ir.Values.{Value, value_eq}
use raksha.Ir.Modules.{operations_of, Operation, Module}
use raksha.Taint.Tags.{AbstractIfcTags, bottom, tags, is_bottom}
use raksha.Taint.Tags.Order.{
  Below, Below-refl, Below-trans, join_left, join_right, Below-of_equivalent,
}
use raksha.Taint.Semantics.{apply_operation_transformer}
use raksha.Taint.Rules.{InferenceRules}
use raksha.Taint.Semantics.Effects.{apply_operation_transformer-bottom, RulesFit}
use raksha.Analysis.Fixpoint.{find_operation}
use raksha.Policy.Checker.{taint_semantics}
use raksha.Analysis.Fixpoint.Progress.{IsOrdered}

abbrev pub taint_order : (rules : InferenceRules) → IsOrdered (taint_semantics rules)
taint_order rules = record {
  Below = Below;
  Below-refl = Below-refl;
  Below-trans = Below-trans;
  bottom_least = λ a. tt;
  join_left = join_left;
  join_right = join_right;
  Below-of_equivalent = λ a b h. (Below-of_equivalent a b h).0;
}

is_bottom-replicate : (n : ℕ) → all_of is_bottom (replicate n bottom) ≡ true
is_bottom-replicate zero = refl
is_bottom-replicate (suc n) = is_bottom-replicate n

Below-bottom : (a : AbstractIfcTags) → is_bottom a ≡ true → Below a bottom
Below-bottom bottom h = tt
Below-bottom (tags x) h = cc

strict_of_inputs :
    (rules : InferenceRules) (inputs : List Value) (o : Operation)
    → RulesFit rules o (length inputs)
    → is_empty inputs ≡ false
    → Returns
        (λ outputs.
          (i : ℕ) (out : AbstractIfcTags) → get_elem? outputs i ≡ some out → Below out bottom)
        (apply_operation_transformer rules o (replicate (length inputs) bottom))
strict_of_inputs rules [] o fit some_input = cc
strict_of_inputs rules (v ∷ inputs) o fit some_input =
    let n = length inputs in
    Returns-weaken
      (apply_operation_transformer-bottom rules o bottom (replicate n bottom)
        (rw (length-replicate n bottom) fit) (is_bottom-replicate n))
      λ outputs (_, all) i out e. Below-bottom out (All-get_elem? _ outputs i all e)

pub find_operation-All :
    (P : Operation → Type 0) (os : List Operation) (a : ℕ) (o : Operation)
    → All P os
    → find_operation os a ≡ ok o
    → P o
unfolding find_operation
find_operation-All P [] a o all h = cc
find_operation-All P (p ∷ os) a o (here, all) h = elim (Bool-cases (p.address == a)) [
  | inl found ↦ subst P (ok-injective (rw found at h)) here
  | inr other ↦ find_operation-All P os a o all (rw other at h)
]

-- Rules in range make the transformer strict.
pub taint_strict :
    (rules : InferenceRules) (m : Module)
    → All (λ o. RulesFit rules o (length o.inputs)) (operations_of m)
    → IsStrict (taint_semantics rules) (taint_order rules) m
taint_strict rules m fit a o found some_input =
    strict_of_inputs rules o.inputs o (find_operation-All _ (operations_of m) a o fit found)
      some_input
