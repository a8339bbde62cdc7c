-- ===== src/Taint/Semantics/Decided.antt =====
-- Each rule of src/analysis/taint/abstract_semantics.cc does to each tag what it says, if no input is bottom.
use raksha.Common.{
  ℕ, zero, suc, ◌<◌, Bool, true, false, not, ◌&&◌, ◌||◌, List, [], ◌∷◌, map, length, Option, none,
  some, any_of, all_of, if◌then◌else◌, ◌==◌, nat_eq, ◌≡◌, refl, sym, ◌∙◌, ap, arith, ok, fold_m,
  Returns, returns, Returns-bind, Returns-weaken, All, Bool-cases, inl, inr,
}
use raksha.Common.Sets.{
  contains, contains-insert, contains-erase, contains-union, contains-inter, union, inter,
}
use raksha.Taint.Tags.{
  AbstractIfcTags, tags, is_bottom, TagId, TagIdSet, IfcTags, set_integrity, set_secrecy,
  clear_secrecy, has_integrity, integrity_tags,
}
use raksha.Taint.Rules.{
  InputHasIntegrity, MergeKind, add_secrecy, remove_secrecy, add_integrity, Conclusion, copy_input,
  modify_tag, merge_integrity_tags, InferenceRule,
}
use raksha.Taint.Semantics.{
  at, combine, merge_step, interpret_merge_integrity_tags, premises_not_satisfied, modify, conclude,
  interpret_inference_rule, apply_rules,
}
use raksha.Taint.Semantics.Bounds.{RuleFits, ConclusionFits, PremisesFit}
use raksha.Taint.Semantics.Said.{
  input_secrecy, input_integrity, secrecy_said, integrity_said, premises_hold, vote, last_vote,
  or_else,
}

at_tags :
    (xs : List IfcTags) (i : ℕ)
    → i < length xs
    → (x : IfcTags) × (at (map tags xs) i ≡ ok (tags x))
      × ((t : TagId) → input_secrecy xs t i ≡ contains x.secrecy_tags t)
      × ((t : TagId) → input_integrity xs t i ≡ contains x.integrity_tags t)
unfolding at
at_tags [] i h = absurd (omega arith)
at_tags (x ∷ xs) zero h = (x, refl, λ t. refl, λ t. refl)
at_tags (x ∷ xs) (suc i) h = at_tags xs i (omega arith)

none_bottom : (xs : List IfcTags) → any_of is_bottom (map tags xs) ≡ false
none_bottom [] = refl
none_bottom (x ∷ xs) = none_bottom xs

module _ (xs : List IfcTags) where
  premises_not_satisfied_tags :
      (ps : List InputHasIntegrity)
      → PremisesFit (length xs) ps
      → premises_not_satisfied (map tags xs) ps
        ≡ ok (not (all_of (λ p. input_integrity xs p.tag p.input_index) ps))
  unfolding premises_not_satisfied has_integrity
  premises_not_satisfied_tags [] fits = refl
  premises_not_satisfied_tags (p ∷ ps) (lt, fits) =
      let (x, run, _, same) = at_tags xs p.input_index lt in
      let rest = all_of (λ p. input_integrity xs p.tag p.input_index) ps in
      elim (Bool-cases (contains x.integrity_tags p.tag)) [
        | inl held ↦
            rw (run, held)
              (premises_not_satisfied_tags ps fits
                ∙ ap (λ b. ok (not (b && rest))) (sym (same p.tag ∙ held)))
        | inr lacks ↦ rw (run, lacks) (ap (λ b. ok (not (b && rest))) (sym (same p.tag ∙ lacks)))
      ]

  -- What a later index adds to the tags that are accumulated.
  abbrev accumulated : MergeKind → List ℕ → TagId → Bool → Bool
  accumulated MergeKind.union indices t held = held || any_of (input_integrity xs t) indices
  accumulated MergeKind.intersect indices t held = held && all_of (input_integrity xs t) indices

  merge_later :
      (kind : MergeKind) (indices : List ℕ) (acc : TagIdSet)
      → All (λ i. i < length xs) indices
      → Returns
          (λ r. (t : TagId) → contains r.1 t ≡ accumulated kind indices t (contains acc t))
          (fold_m (merge_step kind (map tags xs)) (false, acc) indices)
  unfolding merge_step combine integrity_tags
  merge_later MergeKind.union [] acc fits = returns (λ t. ground arith)
  merge_later MergeKind.intersect [] acc fits = returns (λ t. ground arith)
  merge_later MergeKind.union (i ∷ indices) acc (lt, fits) =
      let (x, run, _, same) = at_tags xs i lt in
      rw run (
        Returns-weaken (merge_later MergeKind.union indices (union acc x.integrity_tags) fits)
          (λ r h t. ground (arith, h t, contains-union acc x.integrity_tags t, same t)))
  merge_later MergeKind.intersect (i ∷ indices) acc (lt, fits) =
      let (x, run, _, same) = at_tags xs i lt in
      rw run (
        Returns-weaken (merge_later MergeKind.intersect indices (inter acc x.integrity_tags) fits)
          (λ r h t. ground (arith, h t, contains-inter acc x.integrity_tags t, same t)))

  abbrev Does : IfcTags → InferenceRule → AbstractIfcTags → Type 0
  Does y rule r =
      (z : IfcTags) × (r ≡ tags z)
      × ((t : TagId)
          → contains z.secrecy_tags t
            ≡ or_else (vote xs (secrecy_said xs t) rule) (contains y.secrecy_tags t))
      × ((t : TagId)
          → contains z.integrity_tags t
            ≡ or_else (vote xs (integrity_said xs t) rule) (contains y.integrity_tags t))

  abbrev Concludes : IfcTags → Conclusion → AbstractIfcTags → Type 0
  Concludes y c r =
      (z : IfcTags) × (r ≡ tags z)
      × ((t : TagId)
          → contains z.secrecy_tags t ≡ or_else (secrecy_said xs t c) (contains y.secrecy_tags t))
      × ((t : TagId)
          → contains z.integrity_tags t
            ≡ or_else (integrity_said xs t c) (contains y.integrity_tags t))

  or_else-true : (d b : Bool) → (d || b) ≡ or_else (if b then some true else none) d
  or_else-true true true = refl
  or_else-true true false = refl
  or_else-true false true = refl
  or_else-true false false = refl

  or_else-false : (d b : Bool) → (d && not b) ≡ or_else (if b then some false else none) d
  or_else-false true true = refl
  or_else-false true false = refl
  or_else-false false true = refl
  or_else-false false false = refl

  conclude-Concludes :
      (y : IfcTags) (c : Conclusion)
      → ConclusionFits (length xs) c
      → Returns (Concludes y c) (conclude c (map tags xs) (tags y))
  unfolding conclude modify set_secrecy clear_secrecy set_integrity interpret_merge_integrity_tags
      merge_step integrity_tags contains
  conclude-Concludes y (copy_input i) lt =
      let (x, run, secrecy, same) = at_tags xs i lt in
      rw run (returns (x, refl, λ t. sym (secrecy t), λ t. sym (same t)))
  conclude-Concludes y (modify_tag add_secrecy u) fits = returns (
    _,
    refl,
    λ t. contains-insert y.secrecy_tags u t ∙ or_else-true (contains y.secrecy_tags t) (u == t),
    λ t. refl,
  )
  conclude-Concludes y (modify_tag remove_secrecy u) fits = returns (
    _,
    refl,
    λ t. contains-erase y.secrecy_tags u t ∙ or_else-false (contains y.secrecy_tags t) (u == t),
    λ t. refl,
  )
  conclude-Concludes y (modify_tag add_integrity u) fits = returns (
    _,
    refl,
    λ t. refl,
    λ t. contains-insert y.integrity_tags u t ∙ or_else-true (contains y.integrity_tags t) (u == t),
  )
  conclude-Concludes y (merge_integrity_tags MergeKind.union []) fits =
      rw (none_bottom xs) (returns (_, refl, λ t. refl, λ t. refl))
  conclude-Concludes y (merge_integrity_tags MergeKind.intersect []) fits =
      rw (none_bottom xs) (returns (_, refl, λ t. refl, λ t. refl))
  conclude-Concludes y (merge_integrity_tags MergeKind.union (i ∷ indices)) (lt, fits) =
      let (x, run, _, same) = at_tags xs i lt in
      rw (none_bottom xs, run)
        (Returns-bind (merge_later MergeKind.union indices x.integrity_tags fits)
          (λ r h. returns (_, refl, λ t. refl, λ t. ground (arith, h t, same t))))
  conclude-Concludes y (merge_integrity_tags MergeKind.intersect (i ∷ indices)) (lt, fits) =
      let (x, run, _, same) = at_tags xs i lt in
      rw (none_bottom xs, run)
        (Returns-bind (merge_later MergeKind.intersect indices x.integrity_tags fits)
          (λ r h. returns (_, refl, λ t. refl, λ t. ground (arith, h t, same t))))

  interpret_inference_rule-Does :
      (y : IfcTags) (rule : InferenceRule)
      → RuleFits (length xs) rule
      → Returns (Does y rule) (interpret_inference_rule rule (map tags xs) (tags y))
  unfolding interpret_inference_rule
  interpret_inference_rule-Does y rule fits =
      let run = premises_not_satisfied_tags rule.premises fits.premises in
      elim (Bool-cases (premises_hold xs rule)) [
        | inl held ↦
            rw (run, held)
              (Returns-weaken (conclude-Concludes y rule.conclusion fits.conclusion)
                (λ r (z, same, secrecy, integrity).
                  (z, same, λ t. rw held (secrecy t), λ t. rw held (integrity t))))
        | inr lacks ↦ rw (run, lacks) (returns (y, refl, λ t. rw lacks refl, λ t. rw lacks refl))
      ]

  -- The rules that follow decide first.
  or_else-or_else :
      (later earlier : Option Bool) (d : Bool)
      → or_else later (or_else earlier d)
        ≡ or_else (elim later [ some b ↦ some b | none ↦ earlier ]) d
  or_else-or_else (some b) earlier d = refl
  or_else-or_else none earlier d = refl

  abbrev pub Decide : IfcTags → List InferenceRule → AbstractIfcTags → Type 0
  Decide y rules r =
      (z : IfcTags) × (r ≡ tags z)
      × ((t : TagId)
          → contains z.secrecy_tags t
            ≡ or_else (last_vote xs (secrecy_said xs t) rules) (contains y.secrecy_tags t))
      × ((t : TagId)
          → contains z.integrity_tags t
            ≡ or_else (last_vote xs (integrity_said xs t) rules) (contains y.integrity_tags t))

  pub apply_rules-Decide :
      (y : IfcTags) (rules : List InferenceRule)
      → All (RuleFits (length xs)) rules
      → Returns (Decide y rules) (apply_rules (map tags xs) (tags y) rules)
  unfolding apply_rules
  apply_rules-Decide y [] fits = returns (y, refl, λ t. refl, λ t. refl)
  apply_rules-Decide y (rule ∷ rules) (fits, all) =
      Returns-bind (interpret_inference_rule-Does y rule fits) (λ r (y', e, secrecy, integrity).
        rw e (
          Returns-weaken (apply_rules-Decide y' rules all)
            (λ r (z, same, later_secrecy, later_integrity). (
              z,
              same,
              λ t.
                  later_secrecy t
                  ∙ ap (or_else (last_vote xs (secrecy_said xs t) rules)) (secrecy t)
                  ∙ or_else-or_else (last_vote xs (secrecy_said xs t) rules)
                      (vote xs (secrecy_said xs t) rule) (contains y.secrecy_tags t),
              λ t.
                  later_integrity t
                  ∙ ap (or_else (last_vote xs (integrity_said xs t) rules)) (integrity t)
                  ∙ or_else-or_else (last_vote xs (integrity_said xs t) rules)
                      (vote xs (integrity_said xs t) rule) (contains y.integrity_tags t),
            ))))
