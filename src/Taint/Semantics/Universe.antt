-- ===== src/Taint/Semantics/Universe.antt =====
-- The transformer of src/analysis/taint/abstract_semantics.cc keeps to the tags of a list if its rules do.
use raksha.Common.{
  subst, ◌==◌, ℕ, zero, suc, ◌<◌, Bool, true, false, ◌≡◌, List, [], ◌∷◌, some, length, arith,
  Bool-cases, inl, inr, fold_m, any_of, All, All-map, Returns, returns, Returns-bind, if◌then◌else◌,
  nat_eq, ◌==◌, subst,
}
use raksha.Common.Sets.{contains, contains-union, contains-inter, contains-insert, contains-erase}
use mathlib.Core.List.{foldl}
use raksha.Ir.Modules.{Operation, number_of_outputs}
use raksha.Taint.Tags.{
  AbstractIfcTags, bottom, tags, TagId, TagIdSet, is_bottom, join, set_integrity, set_secrecy,
  clear_secrecy, integrity_tags,
}
use raksha.Taint.Tags.Rank.{AllIn, TagsIn, TagsIn-join}
use raksha.Taint.Rules.{
  MergeKind, ModifyKind, add_secrecy, remove_secrecy, add_integrity, Conclusion, copy_input,
  modify_tag, merge_integrity_tags, OutputRules, InferenceRules, get_output_rules_for_operation,
}
use raksha.Taint.Semantics.{
  at, combine, merge_step, interpret_merge_integrity_tags, modify, conclude, join_all,
  drop_integrity, get_initial_state, apply_default_operation_transformer,
  apply_operation_transformer,
}
use raksha.Taint.Semantics.Bounds.{RuleFits, ConclusionFits}
use raksha.Taint.Semantics.Steps.{apply_operation_transformer-Returns}

module _ (universe : List TagId) where
  -- The tag that the conclusion adds, if it adds one, is in the list.
  abbrev pub ConclusionIn : Conclusion → Type 0
  ConclusionIn (copy_input i) = Unit
  ConclusionIn (modify_tag add_secrecy t) = contains universe t ≡ true
  ConclusionIn (modify_tag remove_secrecy t) = Unit
  ConclusionIn (modify_tag add_integrity t) = contains universe t ≡ true
  ConclusionIn (merge_integrity_tags kind indices) = Unit

  modify-TagsIn :
      (kind : ModifyKind) (t : TagId) (s : AbstractIfcTags)
      → ConclusionIn (modify_tag kind t)
      → TagsIn universe s
      → TagsIn universe (modify kind t s)
  unfolding modify set_integrity set_secrecy clear_secrecy
  modify-TagsIn add_secrecy t bottom c h = tt
  modify-TagsIn add_secrecy t (tags x) c (hs, hi) = (
    λ u e. elim (Bool-cases (t == u)) [
      | inl same ↦ subst (λ v. contains universe v ≡ true) ((nat_eq.beq_iff t u).0 same) c
      | inr differ ↦ hs u (ground (arith, contains-insert x.secrecy_tags t u))
    ],
    hi,
  )
  modify-TagsIn remove_secrecy t bottom c h = tt
  modify-TagsIn remove_secrecy t (tags x) c (hs, hi) =
      (λ u e. hs u (ground (arith, contains-erase x.secrecy_tags t u)), hi)
  modify-TagsIn add_integrity t bottom c h = tt
  modify-TagsIn add_integrity t (tags x) c (hs, hi) = (
    hs,
    λ u e. elim (Bool-cases (t == u)) [
      | inl same ↦ subst (λ v. contains universe v ≡ true) ((nat_eq.beq_iff t u).0 same) c
      | inr differ ↦ hi u (ground (arith, contains-insert x.integrity_tags t u))
    ],
  )

  at-TagsIn :
      (inputs : List AbstractIfcTags) (i : ℕ)
      → All (TagsIn universe) inputs
      → i < length inputs
      → Returns (TagsIn universe) (at inputs i)
  unfolding at
  at-TagsIn [] i all h = absurd (omega arith)
  at-TagsIn (s ∷ inputs) zero (here, all) h = returns here
  at-TagsIn (s ∷ inputs) (suc i) (here, all) h = at-TagsIn inputs i all (omega arith)

  at-live :
      (inputs : List AbstractIfcTags) (i : ℕ)
      → All (TagsIn universe) inputs
      → any_of is_bottom inputs ≡ false
      → i < length inputs
      → Returns (λ s. (is_bottom s ≡ false) × TagsIn universe s) (at inputs i)
  unfolding at
  at-live [] i all b h = absurd (omega arith)
  at-live (s ∷ inputs) zero (here, all) b h = returns (ground arith, here)
  at-live (s ∷ inputs) (suc i) (here, all) b h = at-live inputs i all (ground arith) (omega arith)

  integrity_tags-AllIn :
      (s : AbstractIfcTags)
      → is_bottom s ≡ false
      → TagsIn universe s
      → Returns (AllIn universe) (integrity_tags s)
  unfolding integrity_tags
  integrity_tags-AllIn bottom b h = cc
  integrity_tags-AllIn (tags x) b (hs, hi) = returns hi

  combine-AllIn :
      (kind : MergeKind) (xs ys : TagIdSet)
      → AllIn universe xs
      → AllIn universe ys
      → AllIn universe (combine kind xs ys)
  unfolding combine
  combine-AllIn MergeKind.union xs ys h k = λ t e. ground (arith, contains-union xs ys t, h t, k t)
  combine-AllIn MergeKind.intersect xs ys h k = λ t e. ground (arith, contains-inter xs ys t, h t)

  merged-AllIn :
      (kind : MergeKind) (first : Bool) (acc held : TagIdSet)
      → AllIn universe acc
      → AllIn universe held
      → (let r : Bool × TagIdSet =
            if first then (false, held) else (false, combine kind acc held) in
          AllIn universe r.1)
  merged-AllIn kind true acc held h k = k
  merged-AllIn kind false acc held h k = combine-AllIn kind acc held h k

  merge_step-AllIn :
      (kind : MergeKind) (inputs : List AbstractIfcTags) (first : Bool) (acc : TagIdSet) (i : ℕ)
      → All (TagsIn universe) inputs
      → any_of is_bottom inputs ≡ false
      → i < length inputs
      → AllIn universe acc
      → Returns (λ r. AllIn universe r.1) (merge_step kind inputs (first, acc) i)
  unfolding merge_step
  merge_step-AllIn kind inputs first acc i all b lt h =
      Returns-bind (at-live inputs i all b lt) λ s (live, fits).
        Returns-bind (integrity_tags-AllIn s live fits)
          λ held k. returns (merged-AllIn kind first acc held h k)

  merge-AllIn :
      (kind : MergeKind) (inputs : List AbstractIfcTags) (first : Bool) (acc : TagIdSet)
      (indices : List ℕ)
      → All (TagsIn universe) inputs
      → any_of is_bottom inputs ≡ false
      → All (λ i. i < length inputs) indices
      → AllIn universe acc
      → Returns (λ r. AllIn universe r.1) (fold_m (merge_step kind inputs) (first, acc) indices)
  merge-AllIn kind inputs first acc [] all b fits h = returns h
  merge-AllIn kind inputs first acc (i ∷ indices) all b (lt, fits) h =
      Returns-bind (merge_step-AllIn kind inputs first acc i all b lt h)
        λ (first', acc') k. merge-AllIn kind inputs first' acc' indices all b fits k

  merge_integrity-TagsIn :
      (kind : MergeKind) (indices : List ℕ) (inputs : List AbstractIfcTags) (s : AbstractIfcTags)
      → All (TagsIn universe) inputs
      → All (λ i. i < length inputs) indices
      → TagsIn universe s
      → Returns (TagsIn universe) (interpret_merge_integrity_tags kind indices inputs s)
  unfolding interpret_merge_integrity_tags contains
  merge_integrity-TagsIn kind indices inputs bottom all fits h = returns tt
  merge_integrity-TagsIn kind indices inputs (tags x) all fits (hs, hi) =
      elim (Bool-cases (any_of is_bottom inputs)) [
        | inl some_bottom ↦ rw (some_bottom, interpret_merge_integrity_tags) (returns tt)
        | inr live ↦
            rw (live, interpret_merge_integrity_tags)
              (Returns-bind (merge-AllIn kind inputs true [] indices all live fits (λ t e. cc))
                λ r k. returns (hs, k))
      ]

  conclude-TagsIn :
      (c : Conclusion) (inputs : List AbstractIfcTags) (s : AbstractIfcTags)
      → All (TagsIn universe) inputs
      → ConclusionFits (length inputs) c
      → ConclusionIn c
      → TagsIn universe s
      → Returns (TagsIn universe) (conclude c inputs s)
  unfolding conclude
  conclude-TagsIn (copy_input i) inputs s all fits c h = at-TagsIn inputs i all fits
  conclude-TagsIn (modify_tag kind t) inputs bottom all fits c h = returns tt
  conclude-TagsIn (modify_tag kind t) inputs (tags x) all fits c h =
      returns (modify-TagsIn kind t (tags x) c h)
  conclude-TagsIn (merge_integrity_tags kind indices) inputs s all fits c h =
      merge_integrity-TagsIn kind indices inputs s all fits h

  foldl-TagsIn :
      (a : AbstractIfcTags) (states : List AbstractIfcTags)
      → TagsIn universe a
      → All (TagsIn universe) states
      → TagsIn universe (foldl join a states)
  foldl-TagsIn a [] h all = h
  foldl-TagsIn a (s ∷ states) h (k, all) =
      foldl-TagsIn (join a s) states (TagsIn-join universe a s h k) all

  drop_integrity-TagsIn :
      (a : AbstractIfcTags) → TagsIn universe a → TagsIn universe (drop_integrity a)
  unfolding drop_integrity contains
  drop_integrity-TagsIn bottom h = tt
  drop_integrity-TagsIn (tags x) (hs, hi) = (hs, λ t e. cc)

  default-TagsIn :
      (o : Operation) (inputs : List AbstractIfcTags)
      → All (TagsIn universe) inputs
      → TagsIn universe (apply_default_operation_transformer o inputs)
  unfolding apply_default_operation_transformer join_all get_initial_state contains
  default-TagsIn o [] all = (λ t e. cc, λ t e. cc)
  default-TagsIn o (s ∷ states) all =
      drop_integrity-TagsIn _ (foldl-TagsIn bottom (s ∷ states) tt all)

  -- The rules of the operation are in range for `n` inputs, and add tags of the list only.
  abbrev pub RulesIn : InferenceRules → Operation → ℕ → Type 0
  RulesIn rules o n =
      (output_rules : OutputRules)
      → get_output_rules_for_operation rules o.address ≡ some output_rules
      → All
          (λ (i, rs).
            (i < number_of_outputs o)
            × All (λ rule. RuleFits n rule × ConclusionIn rule.conclusion) rs)
          output_rules

  pub apply_operation_transformer-TagsIn :
      (rules : InferenceRules) (o : Operation) (inputs : List AbstractIfcTags)
      → RulesIn rules o (length inputs)
      → All (TagsIn universe) inputs
      → Returns
          (λ r. (length r ≡ number_of_outputs o) × All (TagsIn universe) r)
          (apply_operation_transformer rules o inputs)
  apply_operation_transformer-TagsIn rules o inputs fit all =
      apply_operation_transformer-Returns inputs (TagsIn universe) rules o
        (λ output_rules e.
          All-map _ _ output_rules
            (λ (i, rs) (lt, each). (
              lt,
              All-map _ _ rs
                  (λ rule (f, c). record {
                    fits = f;
                    step = λ s h. conclude-TagsIn rule.conclusion inputs s all f.conclusion c h;
                  })
                  each,
            ))
            (fit output_rules e))
        (default-TagsIn o inputs all)
