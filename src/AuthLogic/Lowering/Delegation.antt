-- ===== src/AuthLogic/Lowering/Delegation.antt =====
-- What src/ir/auth_logic/lowering_ast_datalog.cc makes of a fact with a chain of delegations.
use raksha.Common.{
  ℕ, zero, suc, ◌+◌, ◌≤◌, ◌<◌, String, ◌<>◌, List, [], ◌∷◌, ◌++◌, map, ◌≡◌, refl, ap, ◌∙◌, none,
  some, Returns, returns, Returns-bind, Returns-weaken, length, length-append, arith, Option-cases,
  inl, inr, string_eq, if◌then◌else◌, ◌==◌, lt→ltb, subst,
}
use raksha.Common.Maps.{find, find-assign, find-try_insert_new}
use mathlib.Core.List.{reverse_aux}
use raksha.AuthLogic.Datalog.{Predicate, Rule}
use raksha.AuthLogic.Ast.{Principal, BaseFact, predicate, attribute, can_act_as, Fact}
use raksha.AuthLogic.Lowering.{
  LoweringToDatalogPass, push_principal, push_onto_predicate, fresh_var, max_uint64,
  spoken_attribute_to_dlir, attribute_to_dlir, can_act_as_to_dlir, spoken_can_act_as_to_dlir,
  base_fact_to_dlir, delegate, delegation_rule, fact_to_dlir, update_can_say_depth, max,
}
use raksha.AuthLogic.Lowering.Speakers.{base_fact_variables, fact_variables}

-- The predicate of a base fact.
abbrev pub base_predicate : BaseFact → Predicate
base_predicate (predicate p) = p
base_predicate (attribute a) = attribute_to_dlir a
base_predicate (can_act_as c) = can_act_as_to_dlir c

-- `canSay_` in front of the name, `n` times.
abbrev pub can_say_name : ℕ → String → String
can_say_name zero name = name
can_say_name (suc n) name = "canSay_" <> can_say_name n name

-- The depth that is recorded for a name.
abbrev pub depth_of : LoweringToDatalogPass → String → ℕ
depth_of s name = elim (find s.can_say_depth name) [ none ↦ 0 | some d ↦ d ]

can_say_name-shift :
    (n : ℕ) (name : String) → can_say_name n ("canSay_" <> name) ≡ can_say_name (suc n) name
can_say_name-shift zero name = refl
can_say_name-shift (suc n) name = ap (λ x. "canSay_" <> x) (can_say_name-shift n name)

-- The predicate that a chain of principals makes of another.
pub record IsDelegated (chain : List Principal) (p q : Predicate) : Type 0 where
  pub name : q.name ≡ can_say_name (length chain) p.name
  pub args : q.args ≡ reverse_aux (map (λ d. d.name) chain) p.args
  pub sign : q.sign ≡ p.sign

fresh_var-can_say_depth :
    (s : LoweringToDatalogPass)
    → s.fresh_var_count < max_uint64
    → Returns
        (λ (x, t).
          (t.fresh_var_count ≡ s.fresh_var_count + 1) × (t.can_say_depth ≡ s.can_say_depth))
        (fresh_var s)
unfolding fresh_var
fresh_var-can_say_depth s h =
    rw (lt→ltb s.fresh_var_count max_uint64 h) (returns (omega arith, refl))

IsDelegated-cons :
    (d : Principal) (chain : List Principal) (p q : Predicate)
    → IsDelegated chain (push_principal "canSay_" d p) q
    → IsDelegated (d ∷ chain) p q
unfolding push_principal push_onto_predicate
IsDelegated-cons d chain p q i = record {
  name = i.name ∙ can_say_name-shift (length chain) p.name;
  args = i.args;
  sign = i.sign;
}

delegate_lem :
    (speaker : Principal) (chain : List Principal) (p : Predicate) (rules : List Rule)
    (s : LoweringToDatalogPass)
    → s.fresh_var_count + length chain ≤ max_uint64
    → Returns
        (λ ((q, rules'), t).
          IsDelegated chain p q
          × (length rules' ≡ length rules + length chain)
          × (t.can_say_depth ≡ s.can_say_depth))
        (delegate speaker chain (p, rules) s)
unfolding delegate
delegate_lem speaker [] p rules s h =
    returns (record { name = refl; args = refl; sign = refl }, omega arith, refl)
delegate_lem speaker (d ∷ chain) p rules s h =
    Returns-bind (fresh_var-can_say_depth s (omega arith)) λ (x, t) (e, same).
      let rule = delegation_rule speaker (record { name = x }) p in
      Returns-weaken
        (delegate_lem speaker chain (push_principal "canSay_" d p) (rules ++ rule ∷ []) t
          (omega arith))
        λ ((q, rules'), u) (i, size, same'). (
          IsDelegated-cons d chain p q i,
          omega (arith, length-append rules (rule ∷ []), size),
          same' ∙ same,
        )

base_fact_to_dlir_lem :
    (speaker : Principal) (b : BaseFact) (s : LoweringToDatalogPass)
    → s.fresh_var_count + base_fact_variables b ≤ max_uint64
    → Returns
        (λ ((p, rules), t).
          (p ≡ base_predicate b)
          × (length rules ≡ base_fact_variables b)
          × (t.fresh_var_count ≡ s.fresh_var_count + base_fact_variables b)
          × (t.can_say_depth ≡ s.can_say_depth))
        (base_fact_to_dlir speaker b s)
unfolding base_fact_to_dlir spoken_attribute_to_dlir spoken_can_act_as_to_dlir fresh_var
base_fact_to_dlir_lem speaker (predicate p) s h = returns (refl, refl, omega arith, refl)
base_fact_to_dlir_lem speaker (attribute a) s h =
    rw (lt→ltb s.fresh_var_count max_uint64 (omega arith)) (returns (refl, refl, omega arith, refl))
base_fact_to_dlir_lem speaker (can_act_as c) s h =
    rw (lt→ltb s.fresh_var_count max_uint64 (omega arith)) (returns (refl, refl, omega arith, refl))

depth_of-update :
    (name other : String) (depth : ℕ) (s : LoweringToDatalogPass)
    → depth_of (update_can_say_depth name depth s) other
      ≡ (if name == other then max depth (depth_of s name) else depth_of s other)
unfolding update_can_say_depth max
depth_of-update name other depth s = elim (Option-cases (find s.can_say_depth name)) [
  | inl new ↦
      rw (new, update_can_say_depth)
        (ground (arith, find-try_insert_new s.can_say_depth name depth other new))
  | inr (old, there) ↦
      rw (there, update_can_say_depth)
        (ground (arith, find-assign s.can_say_depth name (max depth old) other))
]

depth_of-same :
    (s u : LoweringToDatalogPass) (name : String)
    → u.can_say_depth ≡ s.can_say_depth
    → depth_of u name ≡ depth_of s name
depth_of-same s u name same = ap (λ d. elim (find d name) [ none ↦ 0 | some x ↦ x ]) same

depth_of-fact :
    (base p : Predicate) (n : ℕ) (s u : LoweringToDatalogPass) (other : String)
    → base ≡ p
    → u.can_say_depth ≡ s.can_say_depth
    → depth_of (update_can_say_depth base.name n u) other
      ≡ (if p.name == other then max n (depth_of s p.name) else depth_of s other)
depth_of-fact base p n s u other is_base same =
    rw
      (
        depth_of-update base.name other n u,
        depth_of-same s u base.name same,
        depth_of-same s u other same,
        is_base,
      )
      refl

-- If the variables that a fact needs fit the counter, its lowering returns a predicate whose name
-- has canSay_ once for each principal of the chain, whose arguments are the principals, the last
-- first, before those of the base fact, and whose sign is that of the base fact; it makes as many
-- rules as it takes variables; and the depth recorded for the base fact is raised to the length of
-- the chain if that is larger, while no other depth changes.
pub fact_to_dlir_lem :
    (speaker : Principal) (f : Fact) (s : LoweringToDatalogPass) (other : String)
    → s.fresh_var_count + fact_variables f ≤ max_uint64
    → Returns
        (λ ((q, rules), t).
          let p = base_predicate f.base_fact in
          let n = length f.delegation_chain in
          IsDelegated f.delegation_chain p q
          × (length rules ≡ fact_variables f)
          × (depth_of t other
              ≡ (if p.name == other then max n (depth_of s p.name) else depth_of s other)))
        (fact_to_dlir speaker f s)
unfolding fact_to_dlir
fact_to_dlir_lem speaker f s other h =
    Returns-bind (base_fact_to_dlir_lem speaker f.base_fact s (omega arith))
      λ ((base, rules), t) (is_base, size, e, same).
        Returns-bind (delegate_lem speaker f.delegation_chain base rules t (omega arith))
          λ ((q, rules'), u) (i, size', same'). returns (
            subst (λ x. IsDelegated f.delegation_chain x q) is_base i,
            omega (arith, size, size'),
            depth_of-fact base _ (length f.delegation_chain) s u other is_base (same' ∙ same),
          )
