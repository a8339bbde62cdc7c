-- ===== src/AuthLogic/Lowering/Speakers.antt =====
-- Who says the rules that src/ir/auth_logic/lowering_ast_datalog.cc makes of a `says` block, and how many
-- fresh variables it takes.
use raksha.Common.Maps.{find}
use raksha.Common.{
  string_eq, Option-cases, inl, inr, ℕ, ◌+◌, ◌≤◌, ◌<◌, String, List, [], ◌∷◌, ◌++◌, ◌≡◌, refl,
  Outcome, Returns, returns, Returns-bind, Returns-weaken, All, All-append, length, arith, lt→ltb,
}
use raksha.AuthLogic.Datalog.{Predicate, Rule}
use raksha.AuthLogic.Ast.{
  Principal, Attribute, CanActAs, BaseFact, predicate, attribute, can_act_as, Fact, Assertion, fact,
  conditional, SaysAssertion,
}
use raksha.AuthLogic.Lowering.{
  LoweringToDatalogPass, push_principal, fresh_var, max_uint64, spoken_attribute_to_dlir,
  spoken_can_act_as_to_dlir, base_fact_to_dlir, delegate, delegation_rule, fact_to_dlir,
  update_can_say_depth, map_base_facts, single_says_assertion_to_dlir, assertions_to_dlir,
  says_assertion_to_dlir,
}

-- The head of the rule is something that the principal says.
abbrev pub SaidBy : Principal → Rule → Type 0
SaidBy speaker r = (p : Predicate) × (r.lhs ≡ push_principal "says_" speaker p)

-- The fresh variables that the lowering takes.
abbrev pub base_fact_variables : BaseFact → ℕ
base_fact_variables (predicate p) = 0
base_fact_variables (attribute a) = 1
base_fact_variables (can_act_as c) = 1

abbrev pub fact_variables : Fact → ℕ
fact_variables f = base_fact_variables f.base_fact + length f.delegation_chain

abbrev pub base_facts_variables : List BaseFact → ℕ
base_facts_variables [] = 0
base_facts_variables (b ∷ bs) = base_fact_variables b + base_facts_variables bs

abbrev pub assertion_variables : Assertion → ℕ
assertion_variables (fact f) = fact_variables f
assertion_variables (conditional c) = base_facts_variables c.rhs + fact_variables c.lhs

abbrev pub assertions_variables : List Assertion → ℕ
assertions_variables [] = 0
assertions_variables (a ∷ rest) = assertion_variables a + assertions_variables rest

-- The run returns, takes `k` fresh variables, and its result has the property.
abbrev pub Takes {ℓ} :
    {A : Type 0}
    → ℕ
    → (A → Type ℓ)
    → LoweringToDatalogPass
    → Outcome (A × LoweringToDatalogPass)
    → Type ℓ
Takes k P s m = Returns (λ (a, t). (t.fresh_var_count ≡ s.fresh_var_count + k) × P a) m

pub fresh_var-Takes :
    (s : LoweringToDatalogPass)
    → s.fresh_var_count < max_uint64
    → Takes 1 (λ _. Unit {0}) s (fresh_var s)
unfolding fresh_var
fresh_var-Takes s h = rw (lt→ltb s.fresh_var_count max_uint64 h) (returns (omega arith, tt))

spoken_attribute_to_dlir-Takes :
    (speaker : Principal) (a : Attribute) (s : LoweringToDatalogPass)
    → s.fresh_var_count < max_uint64
    → Takes 1 (SaidBy speaker) s (spoken_attribute_to_dlir speaker a s)
unfolding spoken_attribute_to_dlir
spoken_attribute_to_dlir-Takes speaker a s h =
    Returns-bind (fresh_var-Takes s h) λ (y, t) (e, _). returns (e, (_, refl))

spoken_can_act_as_to_dlir-Takes :
    (speaker : Principal) (c : CanActAs) (s : LoweringToDatalogPass)
    → s.fresh_var_count < max_uint64
    → Takes 1 (SaidBy speaker) s (spoken_can_act_as_to_dlir speaker c s)
unfolding spoken_can_act_as_to_dlir
spoken_can_act_as_to_dlir-Takes speaker c s h =
    Returns-bind (fresh_var-Takes s h) λ (y, t) (e, _). returns (e, (_, refl))

base_fact_to_dlir-Takes :
    (speaker : Principal) (b : BaseFact) (s : LoweringToDatalogPass)
    → s.fresh_var_count + base_fact_variables b ≤ max_uint64
    → Takes
        (base_fact_variables b)
        (λ (p, rules). All (SaidBy speaker) rules)
        s
        (base_fact_to_dlir speaker b s)
unfolding base_fact_to_dlir
base_fact_to_dlir-Takes speaker (predicate p) s h = returns (omega arith, tt)
base_fact_to_dlir-Takes speaker (attribute a) s h =
    Returns-bind (spoken_attribute_to_dlir-Takes speaker a s (omega arith))
      λ (rule, t) (e, said). returns (e, (said, tt))
base_fact_to_dlir-Takes speaker (can_act_as c) s h =
    Returns-bind (spoken_can_act_as_to_dlir-Takes speaker c s (omega arith))
      λ (rule, t) (e, said). returns (e, (said, tt))

delegate-Takes :
    (speaker : Principal) (chain : List Principal) (p : Predicate) (rules : List Rule)
    (s : LoweringToDatalogPass)
    → s.fresh_var_count + length chain ≤ max_uint64
    → All (SaidBy speaker) rules
    → Takes
        (length chain)
        (λ (q, rules'). All (SaidBy speaker) rules')
        s
        (delegate speaker chain (p, rules) s)
unfolding delegate delegation_rule
delegate-Takes speaker [] p rules s h all = returns (omega arith, all)
delegate-Takes speaker (d ∷ chain) p rules s h all =
    Returns-bind (fresh_var-Takes s (omega arith)) λ (x, t) (e, _).
      let rule = delegation_rule speaker (record { name = x }) p in
      Returns-weaken
        (delegate-Takes speaker chain (push_principal "canSay_" d p) (rules ++ rule ∷ []) t
          (omega arith) (All-append (SaidBy speaker) rules (rule ∷ []) all ((_, refl), tt)))
        λ (q, u) (e', all'). (omega arith, all')

update-fresh_var_count :
    (name : String) (depth : ℕ) (s : LoweringToDatalogPass)
    → (update_can_say_depth name depth s).fresh_var_count ≡ s.fresh_var_count
unfolding update_can_say_depth
update-fresh_var_count name depth s = elim (Option-cases (find s.can_say_depth name)) [
  | inl new ↦ rw (new, update_can_say_depth)
  | inr (old, there) ↦ rw (there, update_can_say_depth)
]

pub fact_to_dlir-Takes :
    (speaker : Principal) (f : Fact) (s : LoweringToDatalogPass)
    → s.fresh_var_count + fact_variables f ≤ max_uint64
    → Takes
        (fact_variables f)
        (λ (p, rules). All (SaidBy speaker) rules)
        s
        (fact_to_dlir speaker f s)
unfolding fact_to_dlir
fact_to_dlir-Takes speaker f s h =
    Returns-bind (base_fact_to_dlir-Takes speaker f.base_fact s (omega arith))
      λ ((base, rules), t) (e, all).
        Returns-bind (delegate-Takes speaker f.delegation_chain base rules t (omega arith) all)
          λ ((p, rules'), u) (e', all').
            returns
              (omega (arith, update-fresh_var_count base.name (length f.delegation_chain) u), all')

map_base_facts-Takes :
    (speaker : Principal) (bs : List BaseFact) (s : LoweringToDatalogPass)
    → s.fresh_var_count + base_facts_variables bs ≤ max_uint64
    → Takes (base_facts_variables bs) (λ ps. Unit {0}) s (map_base_facts speaker bs s)
unfolding map_base_facts
map_base_facts-Takes speaker [] s h = returns (omega arith, tt)
map_base_facts-Takes speaker (b ∷ bs) s h =
    Returns-bind (base_fact_to_dlir-Takes speaker b s (omega arith)) λ ((p, rules), t) (e, _).
      Returns-bind (map_base_facts-Takes speaker bs t (omega arith))
        λ (ps, u) (e', _). returns (omega arith, tt)

single_says_assertion_to_dlir-Takes :
    (speaker : Principal) (a : Assertion) (s : LoweringToDatalogPass)
    → s.fresh_var_count + assertion_variables a ≤ max_uint64
    → Takes
        (assertion_variables a)
        (All (SaidBy speaker))
        s
        (single_says_assertion_to_dlir speaker a s)
unfolding single_says_assertion_to_dlir
single_says_assertion_to_dlir-Takes speaker (fact f) s h =
    Returns-bind (fact_to_dlir-Takes speaker f s h) λ ((p, rules), t) (e, all).
      returns (e, All-append (SaidBy speaker) rules _ all ((p, refl), tt))
single_says_assertion_to_dlir-Takes speaker (conditional c) s h =
    Returns-bind (map_base_facts-Takes speaker c.rhs s (omega arith)) λ (ps, t) (e, _).
      Returns-bind (fact_to_dlir-Takes speaker c.lhs t (omega arith)) λ ((p, rules), u) (e', all).
        returns (omega arith, All-append (SaidBy speaker) rules _ all ((p, refl), tt))

assertions_to_dlir-Takes :
    (speaker : Principal) (listed : List Assertion) (s : LoweringToDatalogPass)
    → s.fresh_var_count + assertions_variables listed ≤ max_uint64
    → Takes
        (assertions_variables listed)
        (All (SaidBy speaker))
        s
        (assertions_to_dlir speaker listed s)
unfolding assertions_to_dlir
assertions_to_dlir-Takes speaker [] s h = returns (omega arith, tt)
assertions_to_dlir-Takes speaker (a ∷ rest) s h =
    Returns-bind (single_says_assertion_to_dlir-Takes speaker a s (omega arith))
      λ (rules, t) (e, all).
        Returns-bind (assertions_to_dlir-Takes speaker rest t (omega arith)) λ (more, u) (e', all').
          returns (omega arith, All-append (SaidBy speaker) rules more all all')

-- If the variables that a block needs fit the counter, its lowering returns, takes exactly that
-- many, and makes only rules whose head is said by the principal of the block.
pub says_assertion_to_dlir-SaidBy :
    (says : SaysAssertion) (s : LoweringToDatalogPass)
    → s.fresh_var_count + assertions_variables says.assertions ≤ max_uint64
    → Returns
        (λ (rules, t).
          (t.fresh_var_count ≡ s.fresh_var_count + assertions_variables says.assertions)
          × All (SaidBy says.principal) rules)
        (says_assertion_to_dlir says s)
unfolding says_assertion_to_dlir
says_assertion_to_dlir-SaidBy says s h = assertions_to_dlir-Takes says.principal says.assertions s h
