-- ===== src/Taint/Semantics/Effects.antt =====
-- The transformer of src/analysis/taint/abstract_semantics.cc as a whole.
use raksha.Common.Sets.{contains-insert, contains-erase}
use raksha.Common.{
  ℕ, true, List, [], ◌∷◌, ◌≡◌, refl, arith, ◌<◌, length, All, All-map, Returns, returns,
  Returns-weaken, suc, zero, all_of, ◌∙◌, nat_eq, some, any_of, ◌≢◌, false,
}
use raksha.Ir.Modules.{Operation, number_of_outputs}
use raksha.Taint.Tags.{
  AbstractIfcTags, bottom, tags, TagId, is_bottom, set_integrity, set_secrecy, clear_secrecy,
}
use raksha.Taint.Rules.{
  ModifyKind, add_secrecy, remove_secrecy, add_integrity, Conclusion, copy_input, modify_tag,
  merge_integrity_tags, OutputRules, InferenceRules, get_output_rules_for_operation,
}
use raksha.Taint.Semantics.{at, modify, conclude, apply_operation_transformer}
use raksha.Taint.Semantics.Defaults.{apply_default_operation_transformer_effect, holds_secrecy}
use raksha.Taint.Semantics.Bounds.{RuleFits, ConclusionFits, at_total, merge-Returns}
use raksha.Taint.Semantics.Steps.{apply_operation_transformer-Returns, AllKeep}

-- The rules of the operation `o` are in range for `n` inputs.
abbrev pub RulesFit : InferenceRules → Operation → ℕ → Type 0
RulesFit rules o n =
    (output_rules : OutputRules)
    → get_output_rules_for_operation rules o.address ≡ some output_rules
    → All (λ (i, rs). (i < number_of_outputs o) × All (RuleFits n) rs) output_rules

conclude_total :
    (c : Conclusion) (inputs : List AbstractIfcTags) (s : AbstractIfcTags)
    → ConclusionFits (length inputs) c
    → Returns (λ _. Unit {0}) (conclude c inputs s)
unfolding conclude
conclude_total (copy_input i) inputs s h = at_total inputs i h
conclude_total (modify_tag kind t) inputs s h = returns tt
conclude_total (merge_integrity_tags kind indices) inputs s h =
    Returns-weaken (merge-Returns kind indices inputs s h) λ _ _. tt

-- A conclusion on inputs that are all bottom leads from bottom to bottom.
at-bottom :
    (inputs : List AbstractIfcTags) (i : ℕ)
    → all_of is_bottom inputs ≡ true
    → i < length inputs
    → Returns (λ s. is_bottom s ≡ true) (at inputs i)
unfolding at
at-bottom [] i b h = absurd (omega arith)
at-bottom (s ∷ inputs) zero b h = returns (ground arith)
at-bottom (s ∷ inputs) (suc i) b h = at-bottom inputs i (ground arith) (omega arith)

modify-bottom :
    (kind : ModifyKind) (t : TagId) (s : AbstractIfcTags)
    → is_bottom (modify kind t s) ≡ is_bottom s
unfolding modify set_integrity set_secrecy clear_secrecy
modify-bottom add_secrecy t bottom = refl
modify-bottom add_secrecy t (tags x) = refl
modify-bottom remove_secrecy t bottom = refl
modify-bottom remove_secrecy t (tags x) = refl
modify-bottom add_integrity t bottom = refl
modify-bottom add_integrity t (tags x) = refl

conclude-bottom :
    (c : Conclusion) (inputs : List AbstractIfcTags) (s : AbstractIfcTags)
    → ConclusionFits (length inputs) c
    → all_of is_bottom inputs ≡ true
    → is_bottom s ≡ true
    → Returns (λ r. is_bottom r ≡ true) (conclude c inputs s)
unfolding conclude
conclude-bottom (copy_input i) inputs s h b e = at-bottom inputs i b h
conclude-bottom (modify_tag kind t) inputs s h b e = rw e (returns e)
conclude-bottom (merge_integrity_tags kind indices) inputs s h b e =
    Returns-weaken (merge-Returns kind indices inputs s h) λ r (p, _). ground arith

-- From rules in range, and a fact on each conclusion, to `AllKeep`.
pub RulesFit-AllKeep :
    (inputs : List AbstractIfcTags) (P : AbstractIfcTags → Type 0) (rules : InferenceRules)
    (o : Operation)
    → RulesFit rules o (length inputs)
    → ((c : Conclusion) (s : AbstractIfcTags)
        → ConclusionFits (length inputs) c
        → P s
        → Returns P (conclude c inputs s))
    → (output_rules : OutputRules)
    → get_output_rules_for_operation rules o.address ≡ some output_rules
    → AllKeep inputs P (number_of_outputs o) output_rules
RulesFit-AllKeep inputs P rules o fit step output_rules e =
    All-map _ _ output_rules
      (λ (i, rs) (lt, all). (
        lt,
        All-map _ _ rs
            (λ rule f. record { fits = f; step = λ s p. step rule.conclusion s f.conclusion p })
            all,
      ))
      (fit output_rules e)

-- The transformer returns a state for each output if the indices of the rules are in range.
pub apply_operation_transformer_total :
    (rules : InferenceRules) (o : Operation) (inputs : List AbstractIfcTags)
    → RulesFit rules o (length inputs)
    → Returns (λ r. length r ≡ number_of_outputs o) (apply_operation_transformer rules o inputs)
apply_operation_transformer_total rules o inputs fit =
    Returns-weaken
      (apply_operation_transformer-Returns inputs (λ _. Unit {0}) rules o
        (RulesFit-AllKeep inputs _ rules o fit (λ c s f _. conclude_total c inputs s f)) tt)
      λ r (size, _). size

-- If the indices of the rules are in range, an operation that has inputs, all of them bottom, has
-- outputs that are all bottom.
pub apply_operation_transformer-bottom :
    (rules : InferenceRules) (o : Operation) (s : AbstractIfcTags) (states : List AbstractIfcTags)
    → RulesFit rules o (length (s ∷ states))
    → all_of is_bottom (s ∷ states) ≡ true
    → Returns
        (λ r. (length r ≡ number_of_outputs o) × All (λ x. is_bottom x ≡ true) r)
        (apply_operation_transformer rules o (s ∷ states))
apply_operation_transformer-bottom rules o s states fit b =
    let inputs = s ∷ states in
    apply_operation_transformer-Returns inputs (λ r. is_bottom r ≡ true) rules o
      (RulesFit-AllKeep inputs _ rules o fit (λ c x f p. conclude-bottom c inputs x f b p))
      ((apply_default_operation_transformer_effect o s states 0).0 ∙ b)

-- The conclusion neither removes the secrecy tag `t` nor copies an input.
abbrev pub Spares : TagId → Conclusion → Type 0
Spares t (copy_input i) = ⊥
Spares t (modify_tag add_secrecy u) = Unit
Spares t (modify_tag remove_secrecy u) = u ≢ t
Spares t (modify_tag add_integrity u) = Unit
Spares t (merge_integrity_tags kind indices) = Unit

modify-holds_secrecy :
    (kind : ModifyKind) (u t : TagId) (s : AbstractIfcTags)
    → Spares t (modify_tag kind u)
    → holds_secrecy s t ≡ true
    → holds_secrecy (modify kind u s) t ≡ true
unfolding modify set_integrity set_secrecy clear_secrecy
modify-holds_secrecy kind u t bottom p h = cc
modify-holds_secrecy add_secrecy u t (tags x) p h =
    ground (arith, contains-insert x.secrecy_tags u t)
modify-holds_secrecy remove_secrecy u t (tags x) p h =
    ground (arith, contains-erase x.secrecy_tags u t)
modify-holds_secrecy add_integrity u t (tags x) p h = h

conclude-holds_secrecy :
    (c : Conclusion) (inputs : List AbstractIfcTags) (s : AbstractIfcTags) (t : TagId)
    → ConclusionFits (length inputs) c
    → Spares t c
    → any_of is_bottom inputs ≡ false
    → holds_secrecy s t ≡ true
    → Returns (λ r. holds_secrecy r t ≡ true) (conclude c inputs s)
unfolding conclude
conclude-holds_secrecy (copy_input i) inputs s t h p b e = absurd p
conclude-holds_secrecy (modify_tag kind u) inputs bottom t h p b e = cc
conclude-holds_secrecy (modify_tag kind u) inputs (tags x) t h p b e =
    returns (modify-holds_secrecy kind u t (tags x) p e)
conclude-holds_secrecy (merge_integrity_tags kind indices) inputs s t h p b e =
    Returns-weaken (merge-Returns kind indices inputs s h) λ r (_, same). same t b ∙ e

-- Secrecy is not lost: if no input is bottom, one of them holds the secrecy tag t, and each rule of
-- the operation is in range and neither removes t nor copies an input, then the transformer returns
-- and all outputs hold t.
pub apply_operation_transformer-holds_secrecy :
    (rules : InferenceRules) (o : Operation) (s : AbstractIfcTags) (states : List AbstractIfcTags)
    (t : TagId)
    → ((output_rules : OutputRules)
        → get_output_rules_for_operation rules o.address ≡ some output_rules
        → All
            (λ (i, rs).
              (i < number_of_outputs o)
              × All (λ rule. RuleFits (length (s ∷ states)) rule × Spares t rule.conclusion) rs)
            output_rules)
    → any_of is_bottom (s ∷ states) ≡ false
    → any_of (λ x. holds_secrecy x t) (s ∷ states) ≡ true
    → Returns
        (λ r. (length r ≡ number_of_outputs o) × All (λ x. holds_secrecy x t ≡ true) r)
        (apply_operation_transformer rules o (s ∷ states))
apply_operation_transformer-holds_secrecy rules o s states t fit b held =
    let inputs = s ∷ states in
    apply_operation_transformer-Returns inputs (λ r. holds_secrecy r t ≡ true) rules o
      (λ output_rules e.
        All-map _ _ output_rules
          (λ (i, rs) (lt, all). (
            lt,
            All-map _ _ rs
                (λ rule (f, p). record {
                  fits = f;
                  step =
                      λ x h. conclude-holds_secrecy rule.conclusion inputs x t f.conclusion p b h;
                })
                all,
          ))
          (fit output_rules e))
      ((apply_default_operation_transformer_effect o s states t).1 ∙ held)
