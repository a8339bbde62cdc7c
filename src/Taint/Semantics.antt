-- ===== src/Taint/Semantics.antt =====
-- src/analysis/taint/abstract_semantics.{h,cc}: the effect of an operation on the states of its
-- inputs. A failed `CHECK` is `fatal`.
pub mod Defaults
pub mod Bounds
pub mod Steps
pub mod Effects
pub mod Outputs
pub mod Universe
pub mod Said
pub mod Decided
pub mod Verdicts
use raksha.Common.{
  ℕ, Bool, true, false, List, [], ◌∷◌, none, some, Outcome, ok, fatal, ◌>>=◌, ◌>>◌, check, fold_m,
  length, get_elem?, set, replicate, any_of, ltb, if◌then◌else◌, nat_eq,
}
use raksha.Common.Sets.{union, inter}
use mathlib.Core.List.{foldl}
use raksha.Ir.Values.{Value, make_default_operation_result_value}
use raksha.Ir.Modules.{Operation, number_of_outputs}
use raksha.Taint.Tags.{
  TagIdSet, AbstractIfcTags, bottom, tags, make, is_bottom, join, set_integrity, set_secrecy,
  clear_secrecy, integrity_tags, has_integrity,
}
use raksha.Taint.Rules.{
  InputHasIntegrity, MergeKind, ModifyKind, add_secrecy, remove_secrecy, add_integrity, Conclusion,
  copy_input, modify_tag, merge_integrity_tags, InferenceRule, OutputRules, InferenceRules,
  get_output_rules_for_operation,
}

-- An access behind `CHECK(IndexInBounds(…))`.
unfoldable pub at : List AbstractIfcTags → ℕ → Outcome AbstractIfcTags
at states i = elim (get_elem? states i) [ some s ↦ ok s | none ↦ fatal ]

unfoldable pub get_initial_state : Value → AbstractIfcTags
get_initial_state v = make [] []

unfoldable pub join_all : List AbstractIfcTags → AbstractIfcTags
join_all = foldl join bottom

-- The integrity tags are not preserved by default.
unfoldable pub drop_integrity : AbstractIfcTags → AbstractIfcTags
drop_integrity bottom = bottom
drop_integrity (tags x) = make x.secrecy_tags []

unfoldable pub apply_default_operation_transformer :
    Operation → List AbstractIfcTags → AbstractIfcTags
unfolding drop_integrity join_all get_initial_state
apply_default_operation_transformer o [] =
    get_initial_state (make_default_operation_result_value o.address)
apply_default_operation_transformer o (s ∷ states) = drop_integrity (join_all (s ∷ states))

unfoldable pub combine : MergeKind → TagIdSet → TagIdSet → TagIdSet
combine MergeKind.union accumulated held = union accumulated held
combine MergeKind.intersect accumulated held = inter accumulated held

-- The lambda that is folded over the indices.
unfoldable pub merge_step :
    MergeKind → List AbstractIfcTags → Bool × TagIdSet → ℕ → Outcome (Bool × TagIdSet)
unfolding combine at integrity_tags
merge_step kind inputs (first_time, accumulated) i = do
  input ← at inputs i
  held ← integrity_tags input
  ok (if first_time then (false, held) else (false, combine kind accumulated held))

unfoldable pub interpret_merge_integrity_tags :
    MergeKind → List ℕ → List AbstractIfcTags → AbstractIfcTags → Outcome AbstractIfcTags
unfolding merge_step
interpret_merge_integrity_tags kind indices inputs bottom = ok bottom
interpret_merge_integrity_tags kind indices inputs (tags x) =
    if any_of is_bottom inputs then ok bottom else (do
      (_, held) ← fold_m (merge_step kind inputs) (true, []) indices
      ok (make x.secrecy_tags held))

-- `absl::c_any_of` over the premises: it stops at the first that fails. Bottom has every tag.
unfoldable pub premises_not_satisfied : List AbstractIfcTags → List InputHasIntegrity → Outcome Bool
unfolding at
premises_not_satisfied inputs [] = ok false
premises_not_satisfied inputs (p ∷ ps) = do
  input ← at inputs p.input_index
  held ← (if is_bottom input then ok true else has_integrity input p.tag)
  if held then premises_not_satisfied inputs ps else ok true

unfoldable pub modify : ModifyKind → ℕ → AbstractIfcTags → AbstractIfcTags
modify add_integrity t s = set_integrity s t
modify remove_secrecy t s = clear_secrecy s t
modify add_secrecy t s = set_secrecy s t

unfoldable pub conclude :
    Conclusion → List AbstractIfcTags → AbstractIfcTags → Outcome AbstractIfcTags
unfolding modify at
conclude (copy_input i) inputs current = at inputs i
conclude (modify_tag kind t) inputs current =
    ok (if is_bottom current then current else modify kind t current)
conclude (merge_integrity_tags kind indices) inputs current =
    interpret_merge_integrity_tags kind indices inputs current

unfoldable pub interpret_inference_rule :
    InferenceRule → List AbstractIfcTags → AbstractIfcTags → Outcome AbstractIfcTags
interpret_inference_rule rule inputs current = do
  violated ← premises_not_satisfied inputs rule.premises
  if violated then ok current else conclude rule.conclusion inputs current

unfoldable pub apply_rules :
    List AbstractIfcTags → AbstractIfcTags → List InferenceRule → Outcome AbstractIfcTags
apply_rules inputs = fold_m (λ accumulated rule. interpret_inference_rule rule inputs accumulated)

-- The loop over the outputs that have rules; `results[index] = …` behind its bounds check.
unfoldable pub apply_output_rules :
    List AbstractIfcTags
    → AbstractIfcTags
    → List AbstractIfcTags
    → OutputRules
    → Outcome (List AbstractIfcTags)
unfolding apply_rules
apply_output_rules inputs default results [] = ok results
apply_output_rules inputs default results ((i, rules) ∷ rest) = do
  check (ltb i (length results))
  result ← apply_rules inputs default rules
  apply_output_rules inputs default (set results i result) rest

unfoldable pub apply_operation_transformer :
    InferenceRules → Operation → List AbstractIfcTags → Outcome (List AbstractIfcTags)
unfolding apply_output_rules apply_default_operation_transformer
apply_operation_transformer rules o inputs =
    let default = apply_default_operation_transformer o inputs in
    let results = replicate (number_of_outputs o) default in
    elim (get_output_rules_for_operation rules o.address) [
      | none ↦ ok results
      | some output_rules ↦ apply_output_rules inputs default results output_rules
    ]
