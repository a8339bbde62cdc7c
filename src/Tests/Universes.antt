-- ===== src/Tests/Universes.antt =====
-- Universes for a small program of the authorization logic, with one variable in a head.
use raksha.Common.Sets.{union}
use raksha.AuthLogic.Visiting.{visit_program}
use raksha.AuthLogic.Universes.Programs.{
  AllGrounded, HasMoreConditions, insert_universe_relations-AllGrounded,
  insert_universe_relations-populates,
}
use raksha.AuthLogic.Universes.Populated.{membership_said_by, HasUniverses}
use raksha.AuthLogic.Environments.{
  DeclarationMap, LiteralTypeMap, make_declaration_environment, make_type_environment,
  is_name_constant,
}
use raksha.AuthLogic.Universes.{
  insert_universe_relations, type_to_universe_declaration, make_universe_membership_fact,
  relation_declaration_eq,
}
use raksha.Common.{
  refl, ok, some, [], ◌∷◌, ◌++◌, ◌≡◌, String, string_eq, All, List, AllPairs, IsAmong,
}
use raksha.Common.Maps.{find, insert_new}
use raksha.AuthLogic.Datalog.{positive, principal, number, custom, ArgumentType}
use raksha.AuthLogic.Ast.{predicate, fact, conditional, AuthProgram, SaysAssertion, Fact}
use raksha.Tests.Typing.{platform, known}

abbrev about : String → Fact
about name = record {
  delegation_chain = [];
  base_fact = predicate (record { name = "known"; args = name ∷ []; sign = positive });
}

abbrev all_known : AuthProgram
all_known = record {
  relation_declarations = known ∷ [];
  says_assertions =
      record {
        principal = record { name = "\"Alice\"" };
        assertions = fact (about "\"x\"") ∷ fact (about "any") ∷ [];
      }
      ∷ [];
  queries = [];
}

abbrev grounded : AuthProgram
grounded = record {
  relation_declarations =
      known
      ∷ type_to_universe_declaration (custom "Name")
      ∷ type_to_universe_declaration number
      ∷ type_to_universe_declaration principal
      ∷ [];
  says_assertions =
      membership_said_by "\"Alice\"" "\"Alice\"" principal
      ∷ membership_said_by "\"Alice\"" "\"x\"" (custom "Name")
      ∷ record {
        principal = record { name = "\"Alice\"" };
        assertions =
            fact (about "\"x\"")
            ∷ conditional (record {
              lhs = about "any";
              rhs = make_universe_membership_fact "any" (custom "Name") ∷ [];
            })
            ∷ [];
      }
      ∷ [];
  queries = [];
}

insert_universe_relations-all_known : insert_universe_relations platform all_known ≡ ok grounded
unfolding insert_universe_relations make_declaration_environment insert_new make_type_environment
    is_name_constant platform union relation_declaration_eq
insert_universe_relations-all_known = refl

insert_universe_relations-AllGrounded_example :
    (env : DeclarationMap) × (new transformed : List SaysAssertion) × (make_declaration_environment
        all_known
      ≡ ok env)
    × AllGrounded platform env grounded.says_assertions
    × (grounded.says_assertions ≡ new ++ transformed)
    × AllPairs HasMoreConditions all_known.says_assertions transformed
    × (grounded.queries ≡ all_known.queries)
insert_universe_relations-AllGrounded_example =
    insert_universe_relations-AllGrounded platform all_known grounded
      insert_universe_relations-all_known

insert_universe_relations-populates_example :
    (env : DeclarationMap) × (types : LiteralTypeMap) × (make_declaration_environment all_known
      ≡ ok env)
    × (make_type_environment platform env all_known ≡ ok types)
    × ((prin name : String) (t : ArgumentType)
        → find types prin ≡ some principal
        → find types name ≡ some t
        → IsAmong (membership_said_by prin name t) grounded.says_assertions)
    × All (HasUniverses grounded.relation_declarations) (visit_program all_known)
insert_universe_relations-populates_example =
    insert_universe_relations-populates platform all_known grounded
      insert_universe_relations-all_known
