-- ===== src/Tests/Typing.antt =====
-- The environments of a small program of the authorization logic.
use raksha.AuthLogic.Visiting.{visit_program}
use raksha.AuthLogic.Environments.Typing.{IsTyped, make_type_environment-IsTyped}
use raksha.AuthLogic.Environments.Declared.{IsDeclared, make_declaration_environment-IsDeclared}
use raksha.Common.{refl, false, ok, fatal, [], ◌∷◌, ◌≡◌, String, string_eq, Bool, All}
use raksha.Common.Sets.{contains}
use raksha.Common.Maps.{find, try_insert, insert_new}
use raksha.AuthLogic.Datalog.{positive, principal, custom, RelationDeclaration}
use raksha.AuthLogic.Ast.{predicate, fact, AuthProgram}
use raksha.AuthLogic.Environments.{
  Platform, DeclarationMap, LiteralTypeMap, make_declaration_environment, make_type_environment,
  add_declaration, visit_leaf, add_typing, add_typings, is_name_constant, get_declaration_or_fatal,
  is_numeric_operator, argument_type_beq,
}

-- The string functions on the names of the test; a read beyond the end stops.
quoted : String → String → Bool
unfolding contains
quoted id quote = contains ("\"Alice\"" ∷ "\"x\"" ∷ []) id

unfoldable pub platform : Platform
unfolding quoted
platform = record {
  starts_with = quoted;
  ends_with = quoted;
  simple_atoi = λ _. false;
  read_beyond = λ _ _. fatal;
}

abbrev pub known : RelationDeclaration
known = record {
  relation_name = "known";
  is_attribute = false;
  arguments = record { argument_name = "n"; argument_type = custom "Name" } ∷ [];
}

abbrev typed_program : AuthProgram
typed_program = record {
  relation_declarations = known ∷ [];
  says_assertions =
      record {
        principal = record { name = "\"Alice\"" };
        assertions =
            fact (record {
              delegation_chain = [];
              base_fact =
                  predicate (record { name = "known"; args = "\"x\"" ∷ []; sign = positive });
            })
            ∷ [];
      }
      ∷ [];
  queries = [];
}

abbrev environment : DeclarationMap
environment = ("known", known) ∷ []

abbrev types : LiteralTypeMap
types = ("\"Alice\"", principal) ∷ ("\"x\"", custom "Name") ∷ []

make_declaration_environment-typed_program :
    make_declaration_environment typed_program ≡ ok environment
unfolding make_declaration_environment add_declaration visit_program insert_new find try_insert
make_declaration_environment-typed_program = refl

make_type_environment-typed_program :
    make_type_environment platform environment typed_program ≡ ok types
unfolding make_type_environment visit_leaf visit_program add_typing add_typings is_name_constant
    platform get_declaration_or_fatal is_numeric_operator contains find try_insert argument_type_beq
make_type_environment-typed_program = refl

make_declaration_environment-IsDeclared_example :
    All (IsDeclared environment) (visit_program typed_program)
make_declaration_environment-IsDeclared_example =
    make_declaration_environment-IsDeclared typed_program environment
      make_declaration_environment-typed_program

make_type_environment-IsTyped_example :
    All (IsTyped platform environment types) (visit_program typed_program)
make_type_environment-IsTyped_example =
    make_type_environment-IsTyped platform environment typed_program types
      make_type_environment-typed_program
