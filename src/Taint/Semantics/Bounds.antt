-- ===== src/Taint/Semantics/Bounds.antt =====
-- Rules whose indices are in range, and what every step of such rules preserves.
use raksha.Common.{
  ℕ, Bool, true, false, List, [], ◌∷◌, ◌||◌, suc, zero, ◌≡◌, refl, arith, ok, ◌<◌, length, All,
  Returns, returns, Returns-bind, get_elem?_of_lt, fold_m, any_of, Bool-cases, inl, inr,
  if◌then◌else◌, nat_eq,
}
use raksha.Taint.Semantics.Defaults.{holds_secrecy}
use raksha.Taint.Tags.{
  AbstractIfcTags, bottom, tags, TagId, TagIdSet, is_bottom, has_integrity, integrity_tags,
}
use raksha.Taint.Rules.{
  InputHasIntegrity, MergeKind, Conclusion, copy_input, modify_tag, merge_integrity_tags,
  InferenceRule,
}
use raksha.Taint.Semantics.{at, merge_step, interpret_merge_integrity_tags, premises_not_satisfied}

abbrev pub PremisesFit : ℕ → List InputHasIntegrity → Type 0
PremisesFit n = All (λ p. p.input_index < n)

abbrev pub ConclusionFits : ℕ → Conclusion → Type 0
ConclusionFits n (copy_input i) = i < n
ConclusionFits n (modify_tag kind t) = Unit
ConclusionFits n (merge_integrity_tags kind indices) = All (λ i. i < n) indices

-- Every index that the rule names is that of an input.
pub record RuleFits (n : ℕ) (rule : InferenceRule) : Type 0 where
  pub conclusion : ConclusionFits n rule.conclusion
  pub premises : PremisesFit n rule.premises

pub at_total :
    (inputs : List AbstractIfcTags) (i : ℕ)
    → i < length inputs
    → Returns (λ _. Unit {0}) (at inputs i)
unfolding at
at_total inputs i h = let (s, e) = get_elem?_of_lt inputs i h in rw (e, at) (returns tt)

has_integrity_total :
    (s : AbstractIfcTags) (t : ℕ)
    → Returns (λ _. Unit {0}) (if is_bottom s then ok true else has_integrity s t)
unfolding has_integrity
has_integrity_total bottom t = returns tt
has_integrity_total (tags x) t = returns tt

pub premises_not_satisfied_total :
    (inputs : List AbstractIfcTags) (ps : List InputHasIntegrity)
    → PremisesFit (length inputs) ps
    → Returns (λ _. Unit {0}) (premises_not_satisfied inputs ps)
unfolding premises_not_satisfied
premises_not_satisfied_total inputs [] h = returns tt
premises_not_satisfied_total inputs (p ∷ ps) (h, hs) =
    Returns-bind (at_total inputs p.input_index h) λ s _.
      Returns-bind (has_integrity_total s p.tag)
        (elim [ true ↦ λ _. premises_not_satisfied_total inputs ps hs | false ↦ λ _. returns tt ])

-- Once no input is bottom, the integrity tags of every input can be read.
at-not_bottom :
    (inputs : List AbstractIfcTags) (i : ℕ)
    → any_of is_bottom inputs ≡ false
    → i < length inputs
    → Returns (λ s. is_bottom s ≡ false) (at inputs i)
unfolding at
at-not_bottom [] i b h = absurd (omega arith)
at-not_bottom (s ∷ inputs) zero b h = returns (ground arith)
at-not_bottom (s ∷ inputs) (suc i) b h = at-not_bottom inputs i (ground arith) (omega arith)

integrity_tags_total :
    (s : AbstractIfcTags) → is_bottom s ≡ false → Returns (λ _. Unit {0}) (integrity_tags s)
unfolding integrity_tags
integrity_tags_total bottom h = cc
integrity_tags_total (tags x) h = returns tt

merge_total :
    (kind : MergeKind) (inputs : List AbstractIfcTags) (acc : Bool × TagIdSet) (indices : List ℕ)
    → any_of is_bottom inputs ≡ false
    → All (λ i. i < length inputs) indices
    → Returns (λ _. Unit {0}) (fold_m (merge_step kind inputs) acc indices)
unfolding merge_step
merge_total kind inputs acc [] b h = returns tt
merge_total kind inputs acc (i ∷ indices) b (h, hs) =
    Returns-bind {P = λ _. Unit {0}}
      (Returns-bind (at-not_bottom inputs i b h)
        λ s e. Returns-bind (integrity_tags_total s e) λ held _. returns tt)
      λ acc' _. merge_total kind inputs acc' indices b hs

-- The merge is bottom if the current value or an input is, and keeps the current secrecy tags.
pub merge-Returns :
    (kind : MergeKind) (indices : List ℕ) (inputs : List AbstractIfcTags)
    (current : AbstractIfcTags)
    → All (λ i. i < length inputs) indices
    → Returns
        (λ s.
          (is_bottom s ≡ (is_bottom current || any_of is_bottom inputs))
          × ((t : TagId)
              → any_of is_bottom inputs ≡ false
              → holds_secrecy s t ≡ holds_secrecy current t))
        (interpret_merge_integrity_tags kind indices inputs current)
unfolding interpret_merge_integrity_tags
merge-Returns kind indices inputs bottom h = returns (refl, λ t _. refl)
merge-Returns kind indices inputs (tags x) h = elim (Bool-cases (any_of is_bottom inputs)) [
  | inl some_bottom ↦ rw (some_bottom, interpret_merge_integrity_tags) (returns (refl, λ t h. cc))
  | inr none_bottom ↦
      rw (none_bottom, interpret_merge_integrity_tags)
        (Returns-bind (merge_total kind inputs (true, []) indices none_bottom h)
          λ r _. returns (refl, λ t _. refl))
]
