-- ===== src/AuthLogic/Universes/Programs.antt =====
-- What src/ir/auth_logic/universe_relation_insertion.cc makes of a program.
use raksha.AuthLogic.Universes.Populated.{
  membership_said_by, HasUniverses, get_universe_defining_facts-said, HasUniverses-right,
  get_universe_declarations-HasUniverses,
}
use raksha.AuthLogic.Universes.Grounding.{
  HasConditions, HasGroundedHead, add_universe_conditions_lem,
}
use raksha.AuthLogic.Universes.{
  add_universe_conditions_to_says, insert_universe_relations, universe_facts_of,
  universe_facts_of_all, get_universe_defining_facts, add_universe_conditions, constant_principals,
  make_universe_membership_fact, get_universe_declarations,
}
use raksha.AuthLogic.Environments.{
  Platform, DeclarationMap, LiteralTypeMap, add_typing, add_typings, make_type_environment,
  visit_leaf, is_name_constant, is_numeric_operator, make_declaration_environment,
  argument_type_beq, get_declaration_or_fatal, parameter_type,
}
use raksha.Common.{
  ℕ, suc, All-append, IsAmong, IsAmong-left, AllPairs, map_m-AllPairs, map_m-All, fold_m-invariant,
  String, true, List, [], ◌∷◌, ◌++◌, some, ok, ◌>>=◌, check, map_m, string_eq, ◌≡◌, refl, sym, ap,
  inl, inr, All, All-map, subst, >>=-eq-ok, ok-injective, Bool-cases, Option-cases, nat_eq,
}
use raksha.Common.Maps.{find, All-try_insert}
use raksha.AuthLogic.Datalog.{ArgumentType, principal, number, Argument}
use raksha.AuthLogic.Ast.{Principal, SaysAssertion, AuthProgram}
use raksha.AuthLogic.Visiting.{visit_base_fact, Leaf, declared, acting, applied, visit_program}

all_units {ℓ} : {A : Type ℓ} (xs : List A) → All (λ _. Unit {0}) xs
all_units [] = tt
all_units (x ∷ xs) = (tt, all_units xs)

-- The same principal says the same assertions, with more conditions.
abbrev pub HasMoreConditions : SaysAssertion → SaysAssertion → Type 0
HasMoreConditions s t =
    (t.principal ≡ s.principal) × AllPairs HasConditions s.assertions t.assertions

module _ (platform : Platform) where
  -- Every name that has a type is a constant.
  abbrev AreConstants : LiteralTypeMap → Type 0
  AreConstants types = All (λ p. is_name_constant platform p.0 ≡ true) types

  add_typing-AreConstants :
      (types : LiteralTypeMap) (name : String) (t : ArgumentType) (out : LiteralTypeMap)
      → AreConstants types
      → add_typing platform types name t ≡ ok out
      → AreConstants out
  unfolding add_typing
  add_typing-AreConstants types name t out all h =
      elim (Bool-cases (is_name_constant platform name)) [
        | inr variable ↦ subst AreConstants (ok-injective (rw variable at h)) all
        | inl constant ↦ elim (Option-cases (find types name)) [
          | inl new ↦
              subst AreConstants (ok-injective (rw (constant, new, add_typing) at h)) (
                All-try_insert (λ p. is_name_constant platform p.0 ≡ true) types name t all
                  constant)
          | inr (old, there) ↦
              let h' : (check (argument_type_beq old t) >>= λ _. ok types) ≡ ok out =
                rw (constant, there, add_typing) at h in
              let (_, _, rest) = >>=-eq-ok (check (argument_type_beq old t)) _ h' in
              subst AreConstants (ok-injective rest) all
        ]
      ]

  add_typings-AreConstants :
      (types : LiteralTypeMap) (i : ℕ) (args : List String) (parameters : List Argument)
      (out : LiteralTypeMap)
      → AreConstants types
      → add_typings platform types i args parameters ≡ ok out
      → AreConstants out
  unfolding add_typings
  add_typings-AreConstants types i [] parameters out all h = subst AreConstants (ok-injective h) all
  add_typings-AreConstants types i (arg ∷ args) parameters out all h =
      let (t, _, h1) = >>=-eq-ok (parameter_type platform parameters i) _ h in
      let (mid, first, rest) = >>=-eq-ok (add_typing platform types arg t) _ h1 in
      add_typings-AreConstants mid (suc i) args parameters out
        (add_typing-AreConstants types arg t mid all first) rest

  visit_leaf-AreConstants :
      (env : DeclarationMap) (types : LiteralTypeMap) (leaf : Leaf) (out : LiteralTypeMap)
      → AreConstants types
      → visit_leaf platform env types leaf ≡ ok out
      → AreConstants out
  unfolding visit_leaf
  visit_leaf-AreConstants env types (declared d) out all h = subst AreConstants (ok-injective h) all
  visit_leaf-AreConstants env types (acting p) out all h =
      add_typing-AreConstants types p.name principal out all h
  visit_leaf-AreConstants env types (applied p) out all h =
      elim (Bool-cases (is_numeric_operator p)) [
        | inl numeric ↦
            fold_m-invariant AreConstants (λ _. Unit {0})
              (λ m arg. add_typing platform m arg number) types out p.args
              (λ m arg n _ all run. add_typing-AreConstants m arg number n all run)
              (all_units p.args) all (rw (numeric, visit_leaf) at h)
        | inr relation ↦
            let (d, _, rest) =
              >>=-eq-ok (get_declaration_or_fatal env p.name) _ (rw (relation, visit_leaf) at h) in
            add_typings-AreConstants types 0 p.args d.arguments out all rest
      ]

  make_type_environment-AreConstants :
      (env : DeclarationMap) (prog : AuthProgram) (types : LiteralTypeMap)
      → make_type_environment platform env prog ≡ ok types
      → AreConstants types
  unfolding make_type_environment
  make_type_environment-AreConstants env prog types h =
      fold_m-invariant AreConstants (λ _. Unit {0}) (visit_leaf platform env) [] types
        (visit_program prog) (λ m leaf n _ all run. visit_leaf-AreConstants env m leaf n all run)
        (all_units (visit_program prog)) tt h

  -- Each assertion that is said has a grounded head.
  abbrev pub AllGrounded : DeclarationMap → List SaysAssertion → Type 0
  AllGrounded env says = All (λ s. All (HasGroundedHead platform env) s.assertions) says

  universe_facts_of-AllGrounded :
      (env : DeclarationMap) (prin : Principal) (types : LiteralTypeMap)
      → AreConstants types
      → AllGrounded env (universe_facts_of prin types)
  unfolding universe_facts_of visit_base_fact make_universe_membership_fact
  universe_facts_of-AllGrounded env prin [] all = tt
  universe_facts_of-AllGrounded env prin ((name, t) ∷ types) (constant, all) =
      (((inl (constant, tt), tt), tt), universe_facts_of-AllGrounded env prin types all)

  universe_facts_of_all-AllGrounded :
      (env : DeclarationMap) (prins : List Principal) (types : LiteralTypeMap)
      → AreConstants types
      → AllGrounded env (universe_facts_of_all prins types)
  unfolding universe_facts_of_all
  universe_facts_of_all-AllGrounded env [] types all = tt
  universe_facts_of_all-AllGrounded env (prin ∷ prins) types all =
      All-append _ (universe_facts_of prin types) (universe_facts_of_all prins types)
        (universe_facts_of-AllGrounded env prin types all)
        (universe_facts_of_all-AllGrounded env prins types all)

  add_universe_conditions_to_says_lem :
      (env : DeclarationMap) (s t : SaysAssertion)
      → add_universe_conditions_to_says platform env s ≡ ok t
      → All (HasGroundedHead platform env) t.assertions × HasMoreConditions s t
  unfolding add_universe_conditions_to_says
  add_universe_conditions_to_says_lem env s t h =
      let (assertions, run, e) =
        >>=-eq-ok (map_m (add_universe_conditions platform env) s.assertions) _ h in
      subst (λ t. All (HasGroundedHead platform env) t.assertions × HasMoreConditions s t)
        (ok-injective e)
        (
          map_m-All _ (add_universe_conditions platform env) s.assertions assertions
              (λ a b run. (add_universe_conditions_lem platform env a b run).0) run,
          (
            refl,
            map_m-AllPairs HasConditions (add_universe_conditions platform env) s.assertions
                assertions (λ a b run. (add_universe_conditions_lem platform env a b run).1) run,
          ),
        )

  -- When universes are inserted in a program, in every assertion of the result each argument and
  -- each principal of the base fact of the head is a constant or occurs in a condition of the body
  -- that says it is in the universe of the type that is read for its parameter, or of principals;
  -- the assertions of the program are there in order, with the principals and heads that they had
  -- and their bodies after the new conditions; and the queries are the same.
  pub insert_universe_relations-AllGrounded :
      (prog out : AuthProgram)
      → insert_universe_relations platform prog ≡ ok out
      → (env : DeclarationMap) × (new transformed : List SaysAssertion)
        × (make_declaration_environment prog ≡ ok env)
        × AllGrounded env out.says_assertions
        × (out.says_assertions ≡ new ++ transformed)
        × AllPairs HasMoreConditions prog.says_assertions transformed
        × (out.queries ≡ prog.queries)
  unfolding insert_universe_relations get_universe_defining_facts
  insert_universe_relations-AllGrounded prog out h =
      let (env, run1, h1) = >>=-eq-ok (make_declaration_environment prog) _ h in
      let (types, run2, h2) = >>=-eq-ok (make_type_environment platform env prog) _ h1 in
      let add = add_universe_conditions_to_says platform env in
      let (transformed, run3, e) = >>=-eq-ok (map_m add prog.says_assertions) _ h2 in
      let is_out = ok-injective e in
      let new = get_universe_defining_facts types in
      (
        env,
        new,
        transformed,
        run1,
        subst (λ out. AllGrounded env out.says_assertions) is_out
            (All-append _ new transformed
              (universe_facts_of_all-AllGrounded env (constant_principals types) types
                (make_type_environment-AreConstants env prog types run2))
              (map_m-All _ add prog.says_assertions transformed
                (λ s t run. (add_universe_conditions_to_says_lem env s t run).0) run3)),
        sym (ap (λ out. out.says_assertions) is_out),
        map_m-AllPairs HasMoreConditions add prog.says_assertions transformed
            (λ s t run. (add_universe_conditions_to_says_lem env s t run).1) run3,
        sym (ap (λ out. out.queries) is_out),
      )

  -- When universes are inserted in a program, every constant that is typed as a principal says of
  -- every typed constant that it is in the universe of its type; and the result declares the
  -- universe of the type of each parameter of a declared relation.
  pub insert_universe_relations-populates :
      (prog out : AuthProgram)
      → insert_universe_relations platform prog ≡ ok out
      → (env : DeclarationMap) × (types : LiteralTypeMap) × (make_declaration_environment prog
          ≡ ok env)
        × (make_type_environment platform env prog ≡ ok types)
        × ((prin name : String) (t : ArgumentType)
            → find types prin ≡ some principal
            → find types name ≡ some t
            → IsAmong (membership_said_by prin name t) out.says_assertions)
        × All (HasUniverses out.relation_declarations) (visit_program prog)
  unfolding insert_universe_relations
  insert_universe_relations-populates prog out h =
      let (env, run1, h1) = >>=-eq-ok (make_declaration_environment prog) _ h in
      let (types, run2, h2) = >>=-eq-ok (make_type_environment platform env prog) _ h1 in
      let add = add_universe_conditions_to_says platform env in
      let (transformed, _, e) = >>=-eq-ok (map_m add prog.says_assertions) _ h2 in
      let is_out = ok-injective e in
      (
        env,
        types,
        run1,
        run2,
        λ prin name t acts typed.
            subst (λ out. IsAmong (membership_said_by prin name t) out.says_assertions) is_out
              (IsAmong-left _ (get_universe_defining_facts types) transformed
                (get_universe_defining_facts-said types prin name t acts typed)),
        subst (λ out. All (HasUniverses out.relation_declarations) (visit_program prog)) is_out
            (All-map _ _ (visit_program prog)
              (λ leaf h.
                HasUniverses-right prog.relation_declarations (get_universe_declarations prog) leaf
                  h)
              (get_universe_declarations-HasUniverses prog)),
      )
