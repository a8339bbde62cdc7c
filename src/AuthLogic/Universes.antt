-- ===== src/AuthLogic/Universes.antt =====
-- src/ir/auth_logic/universe_relation_insertion.cc: a program with universes, which keep its rules grounded.
pub mod Grounding
pub mod Populated
pub mod Programs
use raksha.Common.{
  ℕ, suc, String, ◌<>◌, Bool, true, false, ◌&&◌, List, [], ◌∷◌, ◌++◌, Outcome, ok, fatal, ◌>>=◌,
  fold_m, map_m, map, is_empty, ◌==◌, string_eq, list_eq, if◌then◌else◌, Eq, ◌≡◌, ◌↔◌, arith,
}
use raksha.Common.Sets.{insert, union}
use mathlib.Core.List.{foldl}
use raksha.AuthLogic.Datalog.{
  Predicate, positive, ArgumentType, number, principal, custom, Argument, RelationDeclaration,
}
use raksha.AuthLogic.Ast.{
  Principal, BaseFact, predicate, Fact, Assertion, fact, conditional, ConditionalAssertion,
  SaysAssertion, AuthProgram,
}
use raksha.AuthLogic.Visiting.{Leaf, declared, acting, applied, visit_base_fact, visit_program}
use raksha.AuthLogic.Environments.{
  Platform, is_name_constant, DeclarationMap, LiteralTypeMap, make_declaration_environment,
  make_type_environment, get_declaration_or_fatal, argument_type_beq, argument_type_beq_iff,
  parameter_type,
}

-- `operator==` of types, arguments and declarations
instance unfoldable pub argument_type_eq : Eq ArgumentType
unfolding argument_type_beq
argument_type_eq = record { beq = argument_type_beq; beq_iff = argument_type_beq_iff }

pub argument_beq : Argument → Argument → Bool
argument_beq a b = a.argument_name == b.argument_name && a.argument_type == b.argument_type

pub argument_beq_iff : (a b : Argument) → (argument_beq a b ≡ true) ↔ (a ≡ b)
unfolding argument_beq
argument_beq_iff a b = ground (
  arith,
  string_eq.beq_iff a.argument_name b.argument_name,
  argument_type_eq.beq_iff a.argument_type b.argument_type,
)

instance unfoldable pub argument_eq : Eq Argument
unfolding argument_beq
argument_eq = record { beq = argument_beq; beq_iff = argument_beq_iff }

same_flag : Bool → Bool → Bool
same_flag true true = true
same_flag false false = true
same_flag _ _ = false

pub relation_declaration_beq : RelationDeclaration → RelationDeclaration → Bool
unfolding same_flag
relation_declaration_beq d e =
    d.relation_name == e.relation_name
    && (same_flag d.is_attribute e.is_attribute && d.arguments == e.arguments)

same_flag_iff : (a b : Bool) → (same_flag a b ≡ true) ↔ (a ≡ b)
unfolding same_flag
same_flag_iff a b = ground arith

pub relation_declaration_beq_iff :
    (d e : RelationDeclaration) → (relation_declaration_beq d e ≡ true) ↔ (d ≡ e)
unfolding relation_declaration_beq
relation_declaration_beq_iff d e = ground (
  arith,
  string_eq.beq_iff d.relation_name e.relation_name,
  same_flag_iff d.is_attribute e.is_attribute,
  (list_eq {A = Argument} ⦃e = argument_eq⦄).beq_iff d.arguments e.arguments,
)

instance unfoldable pub relation_declaration_eq : Eq RelationDeclaration
unfolding relation_declaration_beq
relation_declaration_eq = record {
  beq = relation_declaration_beq;
  beq_iff = relation_declaration_beq_iff;
}

unfoldable pub type_to_universe_name : ArgumentType → String
type_to_universe_name number = "isNumber"
type_to_universe_name principal = "isPrincipal"
type_to_universe_name (custom name) = "is" <> name

unfoldable pub make_universe_membership_fact : String → ArgumentType → BaseFact
unfolding type_to_universe_name
make_universe_membership_fact element_name arg_type =
    predicate
      (record { name = type_to_universe_name arg_type; args = element_name ∷ []; sign = positive })

unfoldable pub type_to_universe_declaration : ArgumentType → RelationDeclaration
unfolding type_to_universe_name
type_to_universe_declaration arg_type = record {
  relation_name = type_to_universe_name arg_type;
  is_attribute = false;
  arguments = record { argument_name = "x"; argument_type = arg_type } ∷ [];
}

-- The hash map of the types has no order that the code may rely on.
unfoldable pub constant_principals : LiteralTypeMap → List Principal
unfolding argument_type_beq
constant_principals [] = []
constant_principals ((name, t) ∷ types) =
    let rest = constant_principals types in
    if argument_type_beq t principal then record { name = name } ∷ rest else rest

-- The inner loop: what one principal says.
unfoldable pub universe_facts_of : Principal → LiteralTypeMap → List SaysAssertion
unfolding make_universe_membership_fact
universe_facts_of prin [] = []
universe_facts_of prin ((name, t) ∷ types) =
    record {
      principal = prin;
      assertions =
          fact (record { delegation_chain = []; base_fact = make_universe_membership_fact name t })
          ∷ [];
    }
    ∷ universe_facts_of prin types

unfoldable pub universe_facts_of_all : List Principal → LiteralTypeMap → List SaysAssertion
unfolding universe_facts_of
universe_facts_of_all [] types = []
universe_facts_of_all (prin ∷ prins) types =
    universe_facts_of prin types ++ universe_facts_of_all prins types

unfoldable pub get_universe_defining_facts : LiteralTypeMap → List SaysAssertion
unfolding constant_principals universe_facts_of_all
get_universe_defining_facts types = universe_facts_of_all (constant_principals types) types

-- `Visit` of a relation declaration.
unfoldable pub argument_universes :
    List RelationDeclaration → List Argument → List RelationDeclaration
unfolding type_to_universe_declaration
argument_universes = foldl (λ ds a. insert ds (type_to_universe_declaration a.argument_type))

unfoldable pub visit_declaration : Leaf → List RelationDeclaration
unfolding argument_universes
visit_declaration (declared d) = argument_universes [] d.arguments
visit_declaration (acting p) = []
visit_declaration (applied p) = []

unfoldable pub get_universe_declarations : AuthProgram → List RelationDeclaration
unfolding visit_declaration
get_universe_declarations prog =
    union (foldl (λ ds leaf. union ds (visit_declaration leaf)) [] (visit_program prog))
      (type_to_universe_declaration number ∷ type_to_universe_declaration principal ∷ [])

module _ (platform : Platform) (env : DeclarationMap) where
  -- The loop over the arguments of a predicate, from index `i` on. The parameters are read only for
  -- variables.
  unfoldable pub argument_conditions : ℕ → List String → List Argument → Outcome (List BaseFact)
  unfolding make_universe_membership_fact parameter_type
  argument_conditions i [] parameters = ok []
  argument_conditions i (arg ∷ args) parameters =
      let rest = argument_conditions (suc i) args parameters in
      elim (is_name_constant platform arg) [
        | true ↦ rest
        | false ↦ parameter_type platform parameters i >>= λ t.
            rest >>= λ conditions. ok (make_universe_membership_fact arg t ∷ conditions)
      ]

  unfoldable pub leaf_conditions : Leaf → Outcome (List BaseFact)
  unfolding argument_conditions make_universe_membership_fact
  leaf_conditions (declared d) = ok []
  leaf_conditions (acting prin) = ok (
      if is_name_constant platform prin.name
      then []
      else make_universe_membership_fact prin.name principal ∷ [])
  leaf_conditions (applied pred) = get_declaration_or_fatal env pred.name >>= λ decl.
      argument_conditions 0 pred.args decl.arguments

  unfoldable pub get_universe_conditions : BaseFact → Outcome (List BaseFact)
  unfolding leaf_conditions visit_base_fact
  get_universe_conditions base_fact =
      fold_m (λ conditions leaf. leaf_conditions leaf >>= λ more. ok (conditions ++ more)) []
        (visit_base_fact base_fact)

  -- `AddUniverseConditions` of an assertion.
  unfoldable pub add_universe_conditions : Assertion → Outcome Assertion
  unfolding get_universe_conditions
  add_universe_conditions (fact f) = get_universe_conditions f.base_fact >>= λ conditions.
      ok
        (if is_empty conditions then fact f else conditional (record { lhs = f; rhs = conditions }))
  add_universe_conditions (conditional c) =
      get_universe_conditions c.lhs.base_fact >>= λ conditions.
      ok (conditional (record { lhs = c.lhs; rhs = conditions ++ c.rhs }))

  unfoldable pub add_universe_conditions_to_says : SaysAssertion → Outcome SaysAssertion
  unfolding add_universe_conditions
  add_universe_conditions_to_says says = do
    assertion_list ← map_m add_universe_conditions says.assertions
    ok (record { principal = says.principal; assertions = assertion_list })

unfoldable pub insert_universe_relations : Platform → AuthProgram → Outcome AuthProgram
unfolding get_universe_defining_facts get_universe_declarations add_universe_conditions_to_says
insert_universe_relations platform prog = do
  decl_env ← make_declaration_environment prog
  types ← make_type_environment platform decl_env prog
  transformed ← map_m (add_universe_conditions_to_says platform decl_env) prog.says_assertions
  ok (record {
    relation_declarations = prog.relation_declarations ++ get_universe_declarations prog;
    says_assertions = get_universe_defining_facts types ++ transformed;
    queries = prog.queries;
  })
