-- ===== src/AuthLogic/Universes/Grounding.antt =====
-- The conditions that src/ir/auth_logic/universe_relation_insertion.cc adds ground the heads of assertions.
use raksha.AuthLogic.Universes.{
  argument_conditions, leaf_conditions, make_universe_membership_fact, add_universe_conditions,
  visit_base_fact, get_universe_conditions,
}
use raksha.AuthLogic.Environments.{
  Platform, DeclarationMap, is_name_constant, get_declaration_or_fatal, parameter_type,
}
use raksha.Common.{
  ℕ, suc, IsAmong, IsAmong-left, IsAmong-right, Option-cases, List-cases, append-nil, String, true,
  false, List, [], ◌∷◌, ◌++◌, some, ok, ◌>>=◌, fold_m, string_eq, ◌≡◌, refl, sym, ◌∙◌, ap, ◌⊎◌, inl,
  inr, All, All-map, subst, >>=-eq-ok, ok-injective, Bool-cases,
}
use raksha.Common.Maps.{find}
use raksha.AuthLogic.Datalog.{ArgumentType, principal, Argument, RelationDeclaration}
use raksha.AuthLogic.Ast.{BaseFact, Fact, Assertion, fact, conditional}
use raksha.AuthLogic.Visiting.{Leaf, declared, acting, applied}

abbrev pub head_of : Assertion → Fact
head_of (fact f) = f
head_of (conditional c) = c.lhs

abbrev pub body_of : Assertion → List BaseFact
body_of (fact f) = []
body_of (conditional c) = c.rhs

-- The assertion has the head that the other had, and its body with more conditions before it.
abbrev pub HasConditions : Assertion → Assertion → Type 0
HasConditions a b =
    (head_of b ≡ head_of a) × (conditions : List BaseFact) × (body_of b ≡ conditions ++ body_of a)

module _ (platform : Platform) (env : DeclarationMap) where
  -- The argument is a constant, or one of the conditions says that it is in the universe of a type.
  abbrev pub IsGroundedAs : List BaseFact → String → ArgumentType → Type 0
  IsGroundedAs conditions arg t =
      is_name_constant platform arg ≡ false
      → IsAmong (make_universe_membership_fact arg t) conditions

  -- Each argument, from index `i` on, is a constant or grounded in the universe of the type that is
  -- read for the parameter at its place.
  abbrev pub AreGrounded : List BaseFact → ℕ → List String → List Argument → Type 0
  AreGrounded conditions i [] parameters = Unit
  AreGrounded conditions i (arg ∷ args) parameters =
      (is_name_constant platform arg ≡ false
        → (t : ArgumentType) × (parameter_type platform parameters i ≡ ok t)
          × IsAmong (make_universe_membership_fact arg t) conditions)
      × AreGrounded conditions (suc i) args parameters

  -- A principal or a predicate in a head.
  abbrev pub IsGrounded : List BaseFact → Leaf → Type 0
  IsGrounded conditions (declared d) = Unit
  IsGrounded conditions (acting prin) = IsGroundedAs conditions prin.name principal
  IsGrounded conditions (applied p) =
      All (λ arg. is_name_constant platform arg ≡ true) p.args
      ⊎ ((d : RelationDeclaration) × (find env p.name ≡ some d)
          × AreGrounded conditions 0 p.args d.arguments)

  AreGrounded-weaken :
      (xs ys : List BaseFact) (i : ℕ) (args : List String) (parameters : List Argument)
      → ((f : BaseFact) → IsAmong f xs → IsAmong f ys)
      → AreGrounded xs i args parameters
      → AreGrounded ys i args parameters
  AreGrounded-weaken xs ys i [] parameters more h = tt
  AreGrounded-weaken xs ys i (arg ∷ args) parameters more (c, h) = (
    λ v. let (t, read, among) = c v in (t, read, more _ among),
    AreGrounded-weaken xs ys (suc i) args parameters more h,
  )

  IsGrounded-weaken :
      (xs ys : List BaseFact) (leaf : Leaf)
      → ((f : BaseFact) → IsAmong f xs → IsAmong f ys)
      → IsGrounded xs leaf
      → IsGrounded ys leaf
  IsGrounded-weaken xs ys (declared d) more h = tt
  IsGrounded-weaken xs ys (acting prin) more h = λ v. more _ (h v)
  IsGrounded-weaken xs ys (applied p) more (inl constants) = inl constants
  IsGrounded-weaken xs ys (applied p) more (inr (d, found, h)) =
      inr (d, found, AreGrounded-weaken xs ys 0 p.args d.arguments more h)

  argument_conditions-AreGrounded :
      (i : ℕ) (args : List String) (parameters : List Argument) (out : List BaseFact)
      → argument_conditions platform env i args parameters ≡ ok out
      → AreGrounded out i args parameters
  unfolding argument_conditions
  argument_conditions-AreGrounded i [] parameters out h = tt
  argument_conditions-AreGrounded i (arg ∷ args) parameters out h =
      elim (Bool-cases (is_name_constant platform arg)) [
        | inl constant ↦ (
          λ v. absurd (let both = sym constant ∙ v in cc),
          argument_conditions-AreGrounded (suc i) args parameters out
              (rw (constant, argument_conditions) at h),
        )
        | inr variable ↦
            let (t, read, h1) =
              >>=-eq-ok (parameter_type platform parameters i) _
                (rw (variable, argument_conditions) at h) in
            let (rest, run, e) =
              >>=-eq-ok (argument_conditions platform env (suc i) args parameters) _ h1 in
            subst (λ out. AreGrounded out i (arg ∷ args) parameters) (ok-injective e)
              (
                λ _. (t, read, inl refl),
                AreGrounded-weaken rest (make_universe_membership_fact arg t ∷ rest) (suc i) args
                    parameters (λ f h. inr h)
                    (argument_conditions-AreGrounded (suc i) args parameters rest run),
              )
      ]

  found_declaration :
      (name : String) (d : RelationDeclaration)
      → get_declaration_or_fatal env name ≡ ok d
      → find env name ≡ some d
  unfolding get_declaration_or_fatal
  found_declaration name d h = elim (Option-cases (find env name)) [
    | inl none_is ↦ absurd (let h' = rw (none_is, get_declaration_or_fatal) at h in cc)
    | inr (e, there) ↦ there ∙ ap some (ok-injective (rw (there, get_declaration_or_fatal) at h))
  ]

  leaf_conditions-IsGrounded :
      (leaf : Leaf) (out : List BaseFact)
      → leaf_conditions platform env leaf ≡ ok out
      → IsGrounded out leaf
  unfolding leaf_conditions get_declaration_or_fatal
  leaf_conditions-IsGrounded (declared d) out h = tt
  leaf_conditions-IsGrounded (acting prin) out h = λ variable.
      subst (λ out. IsAmong (make_universe_membership_fact prin.name principal) out)
        (ok-injective (rw variable at h)) (inl refl)
  leaf_conditions-IsGrounded (applied p) out h =
      let (d, got, run) = >>=-eq-ok (get_declaration_or_fatal env p.name) _ h in
      inr (
        d,
        found_declaration p.name d got,
        argument_conditions-AreGrounded 0 p.args d.arguments out run,
      )

  -- Every condition is kept while others are added.
  fold_conditions :
      (leaves : List Leaf) (conditions out : List BaseFact)
      → fold_m
          (λ conditions leaf. leaf_conditions platform env leaf >>= λ more. ok (conditions ++ more))
          conditions
          leaves
        ≡ ok out
      → ((f : BaseFact) → IsAmong f conditions → IsAmong f out) × All (IsGrounded out) leaves
  fold_conditions [] conditions out h = (λ f among. subst (IsAmong f) (ok-injective h) among, tt)
  fold_conditions (leaf ∷ leaves) conditions out h =
      let (both, run, rest) =
        >>=-eq-ok (leaf_conditions platform env leaf >>= λ more. ok (conditions ++ more)) _ h in
      let (more, made, e) = >>=-eq-ok (leaf_conditions platform env leaf) _ run in
      let (keep, all) = fold_conditions leaves both out rest in
      let into : (f : BaseFact) → IsAmong f (conditions ++ more) → IsAmong f out =
        λ f among. keep f (subst (IsAmong f) (ok-injective e) among) in
      (
        λ f among. into f (IsAmong-left f conditions more among),
        (
          IsGrounded-weaken more out leaf
              (λ f among. into f (IsAmong-right f conditions more among))
              (leaf_conditions-IsGrounded leaf more made),
          all,
        ),
      )

  -- The head of the assertion is grounded in its body.
  abbrev pub HasGroundedHead : Assertion → Type 0
  HasGroundedHead a = All (IsGrounded (body_of a)) (visit_base_fact (head_of a).base_fact)

  pub add_universe_conditions_lem :
      (a b : Assertion)
      → add_universe_conditions platform env a ≡ ok b
      → HasGroundedHead b × HasConditions a b
  unfolding add_universe_conditions get_universe_conditions
  add_universe_conditions_lem (fact f) b h =
      let (conditions, run, e) = >>=-eq-ok (get_universe_conditions platform env f.base_fact) _ h in
      let (_, all) = fold_conditions (visit_base_fact f.base_fact) [] conditions run in
      elim (List-cases conditions) [
        | inl nothing ↦
            subst (λ b. HasGroundedHead b × HasConditions (fact f) b)
              (ok-injective (rw nothing at e)) (rw nothing at all, (refl, [], refl))
        | inr (c, cs, more) ↦
            subst (λ b. HasGroundedHead b × HasConditions (fact f) b) (ok-injective (rw more at e))
              (rw more at all, (refl, c ∷ cs, sym (append-nil (c ∷ cs))))
      ]
  add_universe_conditions_lem (conditional c) b h =
      let (conditions, run, e) =
        >>=-eq-ok (get_universe_conditions platform env c.lhs.base_fact) _ h in
      let (_, all) = fold_conditions (visit_base_fact c.lhs.base_fact) [] conditions run in
      subst (λ b. HasGroundedHead b × HasConditions (conditional c) b) (ok-injective e)
        (
          All-map _ _ (visit_base_fact c.lhs.base_fact)
              (λ leaf h.
                IsGrounded-weaken conditions (conditions ++ c.rhs) leaf
                  (λ f among. IsAmong-left f conditions c.rhs among) h)
              all,
          (refl, conditions, refl),
        )
