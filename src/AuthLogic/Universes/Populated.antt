-- ===== src/AuthLogic/Universes/Populated.antt =====
-- The universes that src/ir/auth_logic/universe_relation_insertion.cc declares and fills.
use raksha.AuthLogic.Universes.{
  argument_universes, constant_principals, make_universe_membership_fact,
  type_to_universe_declaration, universe_facts_of, universe_facts_of_all, visit_declaration,
  LiteralTypeMap, get_universe_declarations, get_universe_defining_facts,
}
use raksha.Common.{
  IsAmong, IsAmong-left, IsAmong-right, String, true, List, [], ◌∷◌, ◌++◌, some, ◌==◌, string_eq,
  ◌≡◌, sym, ap, inl, inr, arith, All, All-map, subst, Bool-cases, some-injective, beq_refl, ap₂,
}
use raksha.Common.Maps.{find}
use raksha.Common.Sets.{contains-append, contains, insert, union, contains-insert, contains-union}
use mathlib.Core.List.{foldl}
use raksha.AuthLogic.Datalog.{number, ArgumentType, principal, Argument, RelationDeclaration}
use raksha.AuthLogic.Ast.{Principal, fact, SaysAssertion, AuthProgram}
use raksha.AuthLogic.Universes.{relation_declaration_eq}
use raksha.AuthLogic.Environments.{argument_type_beq}
use raksha.AuthLogic.Visiting.{Leaf, declared, acting, applied, visit_program}

-- A principal says that a name is in the universe of a type.
abbrev pub membership_said_by : String → String → ArgumentType → SaysAssertion
membership_said_by prin name t = record {
  principal = record { name = prin };
  assertions =
      fact (record { delegation_chain = []; base_fact = make_universe_membership_fact name t })
      ∷ [];
}

constant_principals_found :
    (types : LiteralTypeMap) (name : String)
    → find types name ≡ some principal
    → IsAmong (record { name = name }) (constant_principals types)
unfolding constant_principals find argument_type_beq
constant_principals_found [] name h = cc
constant_principals_found ((n, t) ∷ types) name h = elim (Bool-cases (n == name)) [
  | inl same ↦
      let is_t : t ≡ principal = some-injective _ _ (rw same at h) in
      let is_n = (string_eq.beq_iff n name).0 same in
      rw is_t (inl (ap (λ n. record { name = n }) (sym is_n)))
  | inr differ ↦
      let rest = constant_principals_found types name (rw differ at h) in
      elim (Bool-cases (argument_type_beq t principal)) [
        | inl yes_principal ↦ rw yes_principal (inr rest)
        | inr other ↦ rw other rest
      ]
]

universe_facts_of_found :
    (prin : String) (types : LiteralTypeMap) (name : String) (t : ArgumentType)
    → find types name ≡ some t
    → IsAmong (membership_said_by prin name t) (universe_facts_of (record { name = prin }) types)
unfolding universe_facts_of find
universe_facts_of_found prin [] name t h = cc
universe_facts_of_found prin ((n, u) ∷ types) name t h = elim (Bool-cases (n == name)) [
  | inl same ↦
      let is_t : u ≡ t = some-injective _ _ (rw same at h) in
      let is_n = (string_eq.beq_iff n name).0 same in
      inl (sym (ap₂ (λ n t. membership_said_by prin n t) is_n is_t))
  | inr differ ↦ inr (universe_facts_of_found prin types name t (rw differ at h))
]

universe_facts_of_all_found :
    (prin : Principal) (prins : List Principal) (types : LiteralTypeMap) (says : SaysAssertion)
    → IsAmong prin prins
    → IsAmong says (universe_facts_of prin types)
    → IsAmong says (universe_facts_of_all prins types)
unfolding universe_facts_of_all
universe_facts_of_all_found prin [] types says h among = absurd h
universe_facts_of_all_found prin (p ∷ prins) types says (inl same) among =
    IsAmong-left says (universe_facts_of p types) (universe_facts_of_all prins types)
      (subst (λ p. IsAmong says (universe_facts_of p types)) same among)
universe_facts_of_all_found prin (p ∷ prins) types says (inr there) among =
    IsAmong-right says (universe_facts_of p types) (universe_facts_of_all prins types)
      (universe_facts_of_all_found prin prins types says there among)

-- The universes of the parameters of a declaration are declared.
abbrev pub HasUniverses : List RelationDeclaration → Leaf → Type 0
HasUniverses ds (declared d) =
    All (λ a. contains ds (type_to_universe_declaration a.argument_type) ≡ true) d.arguments
HasUniverses ds (acting p) = Unit
HasUniverses ds (applied p) = Unit

-- Each item of the first list is in the second.
abbrev Includes : List RelationDeclaration → List RelationDeclaration → Type 0
Includes ds es = (d : RelationDeclaration) → contains ds d ≡ true → contains es d ≡ true

HasUniverses-Includes :
    (ds es : List RelationDeclaration) (leaf : Leaf)
    → Includes ds es
    → HasUniverses ds leaf
    → HasUniverses es leaf
HasUniverses-Includes ds es (declared d) more h =
    All-map _ _ d.arguments (λ a there. more _ there) h
HasUniverses-Includes ds es (acting p) more h = tt
HasUniverses-Includes ds es (applied p) more h = tt

argument_universes_lem :
    (arguments : List Argument) (ds : List RelationDeclaration)
    → Includes ds (argument_universes ds arguments)
      × All
          (λ a.
            contains
              (argument_universes ds arguments)
              (type_to_universe_declaration a.argument_type)
            ≡ true)
          arguments
unfolding argument_universes
argument_universes_lem [] ds = (λ d h. h, tt)
argument_universes_lem (a ∷ arguments) ds =
    let new = type_to_universe_declaration a.argument_type in
    let (keep, all) = argument_universes_lem arguments (insert ds new) in
    (
      λ d h. keep d (ground (arith, contains-insert ds new d, h)),
      (keep new (ground (arith, contains-insert ds new new, beq_refl new)), all),
    )

visit_declaration-HasUniverses : (leaf : Leaf) → HasUniverses (visit_declaration leaf) leaf
unfolding visit_declaration
visit_declaration-HasUniverses (declared d) = (argument_universes_lem d.arguments []).1
visit_declaration-HasUniverses (acting p) = tt
visit_declaration-HasUniverses (applied p) = tt

fold_declarations :
    (leaves : List Leaf) (ds : List RelationDeclaration)
    → let out = foldl (λ ds leaf. union ds (visit_declaration leaf)) ds leaves in
      Includes ds out × All (HasUniverses out) leaves
fold_declarations [] ds = (λ d h. h, tt)
fold_declarations (leaf ∷ leaves) ds =
    let both = union ds (visit_declaration leaf) in
    let (keep, all) = fold_declarations leaves both in
    (
      λ d h. keep d (ground (arith, contains-union ds (visit_declaration leaf) d, h)),
      (
        HasUniverses-Includes (visit_declaration leaf) _ leaf
            (λ d h. keep d (ground (arith, contains-union ds (visit_declaration leaf) d, h)))
            (visit_declaration-HasUniverses leaf),
        all,
      ),
    )

pub get_universe_declarations-HasUniverses :
    (prog : AuthProgram) → All (HasUniverses (get_universe_declarations prog)) (visit_program prog)
unfolding get_universe_declarations
get_universe_declarations-HasUniverses prog =
    let leaves = visit_program prog in
    let found = foldl (λ ds leaf. union ds (visit_declaration leaf)) [] leaves in
    let builtin =
      type_to_universe_declaration number ∷ type_to_universe_declaration principal ∷ [] in
    All-map _ _ leaves
      (λ leaf h.
        HasUniverses-Includes found (union found builtin) leaf
          (λ d h. ground (arith, contains-union found builtin d, h)) h)
      (fold_declarations leaves []).1

pub get_universe_defining_facts-said :
    (types : LiteralTypeMap) (prin name : String) (t : ArgumentType)
    → find types prin ≡ some principal
    → find types name ≡ some t
    → IsAmong (membership_said_by prin name t) (get_universe_defining_facts types)
unfolding get_universe_defining_facts
get_universe_defining_facts-said types prin name t acts typed =
    universe_facts_of_all_found (record { name = prin }) (constant_principals types) types
      (membership_said_by prin name t) (constant_principals_found types prin acts)
      (universe_facts_of_found prin types name t typed)

pub HasUniverses-right :
    (ds es : List RelationDeclaration) (leaf : Leaf)
    → HasUniverses es leaf
    → HasUniverses (ds ++ es) leaf
HasUniverses-right ds es leaf h =
    HasUniverses-Includes es (ds ++ es) leaf (λ d h. ground (arith, contains-append ds es d, h)) h
