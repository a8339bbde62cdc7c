-- ===== src/Taint/Semantics/Said.antt =====
-- What the rules of src/analysis/taint/abstract_semantics.cc say of a tag, without running them.
use raksha.Common.{
  ℕ, Bool, true, false, not, ◌&&◌, List, [], ◌∷◌, Option, none, some, get_elem?, any_of, all_of,
  is_empty, if◌then◌else◌, ◌==◌, nat_eq,
}
use raksha.Common.Sets.{contains}
use raksha.Taint.Tags.{TagId, IfcTags}
use raksha.Taint.Rules.{
  MergeKind, add_secrecy, remove_secrecy, add_integrity, Conclusion, copy_input, modify_tag,
  merge_integrity_tags, InferenceRule,
}

-- The inputs, none of which is bottom.
module _ (xs : List IfcTags) (t : TagId) where
  abbrev pub input_secrecy : ℕ → Bool
  input_secrecy i = elim (get_elem? xs i) [ some x ↦ contains x.secrecy_tags t | none ↦ false ]

  abbrev pub input_integrity : ℕ → Bool
  input_integrity i = elim (get_elem? xs i) [ some x ↦ contains x.integrity_tags t | none ↦ false ]

  -- Whether the conclusion decides on the secrecy tag, and how.
  abbrev pub secrecy_said : Conclusion → Option Bool
  secrecy_said (copy_input i) = some (input_secrecy i)
  secrecy_said (modify_tag add_secrecy u) = if u == t then some true else none
  secrecy_said (modify_tag remove_secrecy u) = if u == t then some false else none
  secrecy_said (modify_tag add_integrity u) = none
  secrecy_said (merge_integrity_tags kind indices) = none

  -- The same for an integrity tag: a merge holds it if an input does, or all inputs do, of its indices.
  abbrev pub integrity_said : Conclusion → Option Bool
  integrity_said (copy_input i) = some (input_integrity i)
  integrity_said (modify_tag add_secrecy u) = none
  integrity_said (modify_tag remove_secrecy u) = none
  integrity_said (modify_tag add_integrity u) = if u == t then some true else none
  integrity_said (merge_integrity_tags MergeKind.union indices) =
      some (any_of input_integrity indices)
  integrity_said (merge_integrity_tags MergeKind.intersect indices) =
      some (not (is_empty indices) && all_of input_integrity indices)

-- Every input that a premise names has the integrity tag of the premise.
abbrev pub premises_hold : List IfcTags → InferenceRule → Bool
premises_hold xs rule = all_of (λ p. input_integrity xs p.tag p.input_index) rule.premises

abbrev pub vote : List IfcTags → (Conclusion → Option Bool) → InferenceRule → Option Bool
vote xs said rule = if premises_hold xs rule then said rule.conclusion else none

-- The last rule that decides.
abbrev pub last_vote : List IfcTags → (Conclusion → Option Bool) → List InferenceRule → Option Bool
last_vote xs said [] = none
last_vote xs said (rule ∷ rules) = elim (last_vote xs said rules) [
  | some b ↦ some b
  | none ↦ vote xs said rule
]

abbrev pub or_else : Option Bool → Bool → Bool
or_else (some b) default = b
or_else none default = default
