-- ===== src/Sql/PolicyRules/Bounds.antt =====
-- The rules that src/frontends/sql/decode_sql_policy_rules.cc builds fit the operations of the module.
use raksha.Analysis.Fixpoint.{find_operation}
use raksha.Common.Maps.{find, insert_new, length-try_insert, insert_new-find, insert_new-entry}
use raksha.Taint.Builder.Ids.{
  Built, create, add_rules, get_or_create_tag_id_new, Built-Inverse, get_or_create_tag_id_old,
}
use raksha.Taint.Semantics.Bounds.{RuleFits}
use raksha.Common.{
  ℕ, ◌≤◌, ◌<◌, String, List, [], some, ok, length, ◌≡◌, refl, sym, ◌∙◌, ap, arith, All, All-map,
  >>=-eq-ok, ok-injective, subst, string_eq, nat_eq, Option-cases, inl, inr, length,
  lt-length_of_get_elem?,
}
use raksha.Ir.Modules.{Operation, number_of_outputs}
use raksha.Taint.Rules.{
  Conclusion, copy_input, modify_tag, merge_integrity_tags, OutputRules, InferenceRule,
}
use raksha.Taint.Builder.{
  InferenceRulesBuilder, make_builder, mark_operation_as_action, add_output_rules_for_action,
  get_or_create_tag_id, number_seeds,
}

-- A tag that the conclusion names has one of the first `k` ids.
abbrev pub TagBelow : ℕ → Conclusion → Type 0
TagBelow k (copy_input i) = Unit
TagBelow k (modify_tag kind t) = t < k
TagBelow k (merge_integrity_tags kind indices) = Unit

-- Every tag that the rule names, in its conclusion or in a premise, has one of the first `k` ids.
abbrev pub TagsBelow : ℕ → InferenceRule → Type 0
TagsBelow k rule = TagBelow k rule.conclusion × All (λ p. p.tag < k) rule.premises

-- The rules are in range for the operation, and name the first `k` tags only.
abbrev pub RulesBelow : ℕ → Operation → OutputRules → Type 0
RulesBelow k o output_rules =
    All
      (λ (i, rules).
        (i < number_of_outputs o)
        × All (λ rule. RuleFits (length o.inputs) rule × TagsBelow k rule) rules)
      output_rules

TagBelow-weaken : (k l : ℕ) (c : Conclusion) → k ≤ l → TagBelow k c → TagBelow l c
TagBelow-weaken k l (copy_input i) h below = tt
TagBelow-weaken k l (modify_tag kind t) h below = omega arith
TagBelow-weaken k l (merge_integrity_tags kind indices) h below = tt

TagsBelow-weaken : (k l : ℕ) (rule : InferenceRule) → k ≤ l → TagsBelow k rule → TagsBelow l rule
TagsBelow-weaken k l rule h (below, premises) = (
  TagBelow-weaken k l rule.conclusion h below,
  All-map (λ p. p.tag < k) (λ p. p.tag < l) rule.premises (λ p lt. omega (arith, h, lt)) premises,
)

RulesBelow-weaken :
    (k l : ℕ) (o : Operation) (output_rules : OutputRules)
    → k ≤ l
    → RulesBelow k o output_rules
    → RulesBelow l o output_rules
RulesBelow-weaken k l o output_rules h below =
    All-map _ _ output_rules
      (λ (i, rules) (lt, all).
        (lt, All-map _ _ rules (λ rule (fits, b). (fits, TagsBelow-weaken k l rule h b)) all))
      below

-- A builder that has more tags, and the same rules and actions.
pub record Grown (b c : InferenceRulesBuilder) : Type 0 where
  pub built : Built c
  pub actions : c.actions ≡ b.actions
  pub action_rules : c.action_rules ≡ b.action_rules
  pub size : length b.tags ≤ length c.tags

pub Grown-trans : {b c d : InferenceRulesBuilder} → Grown b c → Grown c d → Grown b d
Grown-trans g h = record {
  built = h.built;
  actions = h.actions ∙ g.actions;
  action_rules = h.action_rules ∙ g.action_rules;
  size = omega (arith, g.size, h.size);
}

-- The id that is returned is that of a tag of the builder that is returned.
pub get_or_create_tag_id-Grown :
    (b : InferenceRulesBuilder) (tag : String)
    → Built b
    → let r = get_or_create_tag_id b tag in Grown b r.0 × (r.1 < length r.0.tags)
get_or_create_tag_id-Grown b tag built = elim (Option-cases (find b.tags tag)) [
  | inl new ↦
      let longer = length-try_insert b.tags tag (length b.tags) new in
      let made : Built (get_or_create_tag_id b tag).0 = create tag built in
      rw (get_or_create_tag_id_new b tag new) (
        record {
          built = rw (get_or_create_tag_id_new b tag new) at made;
          actions = refl;
          action_rules = refl;
          size = omega (arith, longer);
        },
        omega (arith, longer),
      )
  | inr (t, old) ↦
      let inv = Built-Inverse built in
      rw (get_or_create_tag_id_old b tag old) (
        record { built = built; actions = refl; action_rules = refl; size = omega arith },
        omega (arith, inv.size, lt-length_of_get_elem? b.tag_names t ((inv.agree tag t).0 old)),
      )
]

module _ (operations : List Operation) where
  -- Each action of the builder has rules, which fit its operation.
  pub record RulesSound (b : InferenceRulesBuilder) : Type 0 where
    pub built : Built b
    pub rules :
        (a : ℕ) (action : String)
        → find b.actions a ≡ some action
        → (output_rules : OutputRules) × (find b.action_rules action ≡ some output_rules)
          × ((o : Operation)
              → find_operation operations a ≡ ok o
              → RulesBelow (length b.tags) o output_rules)

  pub make_builder-RulesSound :
      (seeds : List String) (b : InferenceRulesBuilder) → make_builder seeds ≡ ok b → RulesSound b
  unfolding make_builder find
  make_builder-RulesSound seeds b h =
      let (table, run, e) = >>=-eq-ok (number_seeds seeds []) _ h in
      record {
        built = Built.start seeds h;
        rules = λ a action found.
            absurd (let none_is = ap (λ b. find b.actions a) (ok-injective e) in cc);
      }

  -- An operation is marked, tags are created, and the rules of its action are added.
  pub add-RulesSound :
      (b marked grown c : InferenceRulesBuilder) (a : ℕ) (action : String)
      (output_rules : OutputRules)
      → RulesSound b
      → mark_operation_as_action b a action ≡ ok marked
      → Grown marked grown
      → ((o : Operation)
          → find_operation operations a ≡ ok o
          → RulesBelow (length grown.tags) o output_rules)
      → add_output_rules_for_action grown action output_rules ≡ ok c
      → RulesSound c
  unfolding mark_operation_as_action add_output_rules_for_action
  add-RulesSound b marked grown c a action output_rules sound mark_run g fits add_run =
      let (actions, inserted, is_marked) = >>=-eq-ok (insert_new b.actions a action) _ mark_run in
      let (rules, added, is_c) =
        >>=-eq-ok (insert_new grown.action_rules action output_rules) _ add_run in
      let (here, kept) = insert_new-find grown.action_rules rules action output_rules added in
      let marked_is = ok-injective is_marked in
      let same_actions : grown.actions ≡ actions =
        g.actions ∙ sym (ap (λ b. b.actions) marked_is) in
      let same_rules : grown.action_rules ≡ b.action_rules =
        g.action_rules ∙ sym (ap (λ b. b.action_rules) marked_is) in
      let grew : length b.tags ≤ length grown.tags =
        omega (arith, g.size, ap (λ b. length b.tags) marked_is) in
      let built : Built c = add_rules action output_rules g.built add_run in
      let known : (j : ℕ) (name : String)
          → find grown.actions j ≡ some name
          → (r : OutputRules) × (find rules name ≡ some r)
            × ((o : Operation)
                → find_operation operations j ≡ ok o
                → RulesBelow (length grown.tags) o r) =
        λ j name found.
          elim (insert_new-entry b.actions actions a action j name inserted
            (ap (λ m. find m j) (sym same_actions) ∙ found)) [
              | inl (same, named) ↦ (
                output_rules,
                subst (λ n. find rules n ≡ some output_rules) named here,
                λ o at_j. fits o (subst (λ j. find_operation operations j ≡ ok o) (sym same) at_j),
              )
              | inr before ↦
                  let (r, has, fit) = sound.rules j name before in
                  (
                    r,
                    kept name r (ap (λ m. find m name) same_rules ∙ has),
                    λ o at_j. RulesBelow-weaken _ _ o r grew (fit o at_j),
                  )
            ] in
      subst (λ c. Built c → RulesSound c) (ok-injective is_c)
        (λ built. record { built = built; rules = known }) built
