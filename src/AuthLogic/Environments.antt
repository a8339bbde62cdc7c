-- ===== src/AuthLogic/Environments.antt =====
-- src/ir/auth_logic/declaration_environment.cc, type_environment.cc and is_name_constant.cc: the
-- declarations of a program, and the types of its constants.
pub mod Typing
pub mod Declared
use raksha.Common.{
  ℕ, suc, get_elem?, String, Bool, true, false, ◌&&◌, List, [], ◌∷◌, Option, none, some, Outcome,
  ok, fatal, ◌>>=◌, ◌>>◌, check, fold_m, ◌==◌, string_eq, if◌then◌else◌, Eq, ◌≡◌, ◌↔◌, arith,
}
use raksha.Common.Maps.{find, try_insert, insert_new}
use raksha.Common.Sets.{contains}
use raksha.AuthLogic.Datalog.{
  Predicate, ArgumentType, number, principal, custom, Argument, RelationDeclaration,
}
use raksha.AuthLogic.Ast.{AuthProgram}
use raksha.AuthLogic.Visiting.{Leaf, declared, acting, applied, visit_program}

-- What the code takes from outside the repository: the functions of Abseil's string library, and what
-- comes of a read of a vector beyond its end, at an index. The second is undefined: any type may be
-- read, and the program may stop.
pub record Platform : Type 0 where
  pub starts_with : String → String → Bool
  pub ends_with : String → String → Bool
  pub simple_atoi : String → Bool
  pub read_beyond : List Argument → ℕ → Outcome ArgumentType

-- `decl.arguments()[i].argument_type()`, which checks no bound.
unfoldable pub parameter_type : Platform → List Argument → ℕ → Outcome ArgumentType
parameter_type platform parameters i = elim (get_elem? parameters i) [
  | some p ↦ ok p.argument_type
  | none ↦ platform.read_beyond parameters i
]

unfoldable pub is_name_constant : Platform → String → Bool
is_name_constant platform id =
    if platform.starts_with id "\"" && platform.ends_with id "\""
    then true
    else platform.simple_atoi id

abbrev pub DeclarationMap : Type 0
DeclarationMap = List (String × RelationDeclaration)

-- `AddDeclaration`: a second declaration of a name is fatal.
unfoldable pub add_declaration : DeclarationMap → Leaf → Outcome DeclarationMap
add_declaration decl_map (declared d) = insert_new decl_map d.relation_name d
add_declaration decl_map (acting p) = ok decl_map
add_declaration decl_map (applied p) = ok decl_map

unfoldable pub make_declaration_environment : AuthProgram → Outcome DeclarationMap
unfolding add_declaration visit_program
make_declaration_environment program = fold_m add_declaration [] (visit_program program)

unfoldable pub get_declaration_or_fatal : DeclarationMap → String → Outcome RelationDeclaration
get_declaration_or_fatal env name = elim (find env name) [ some d ↦ ok d | none ↦ fatal ]

unfoldable pub argument_type_beq : ArgumentType → ArgumentType → Bool
argument_type_beq number number = true
argument_type_beq principal principal = true
argument_type_beq (custom n) (custom m) = n == m
argument_type_beq _ _ = false

pub argument_type_beq_iff : (a b : ArgumentType) → (argument_type_beq a b ≡ true) ↔ (a ≡ b)
unfolding argument_type_beq
argument_type_beq_iff (custom n) (custom m) = ground (arith, string_eq.beq_iff n m)
argument_type_beq_iff a b = ground arith

abbrev pub numeric_operators : List String
numeric_operators = "<" ∷ ">" ∷ "=" ∷ "!=" ∷ "<=" ∷ ">=" ∷ []

unfoldable pub is_numeric_operator : Predicate → Bool
is_numeric_operator p = contains numeric_operators p.name

abbrev pub LiteralTypeMap : Type 0
LiteralTypeMap = List (String × ArgumentType)

module _ (platform : Platform) where
  unfoldable pub add_typing : LiteralTypeMap → String → ArgumentType → Outcome LiteralTypeMap
  unfolding argument_type_beq
  add_typing types arg_name arg_type =
      if is_name_constant platform arg_name
      then elim (find types arg_name) [
        | none ↦ ok (try_insert types arg_name arg_type)
        | some old ↦ check (argument_type_beq old arg_type) >>= λ _. ok types
      ]
      else ok types

  -- The loop over the arguments, from index `i` on.
  unfoldable pub add_typings :
      LiteralTypeMap → ℕ → List String → List Argument → Outcome LiteralTypeMap
  unfolding add_typing parameter_type
  add_typings types i [] parameters = ok types
  add_typings types i (arg ∷ args) parameters = parameter_type platform parameters i >>= λ t.
      add_typing types arg t >>= λ types'. add_typings types' (suc i) args parameters

  add_number_typings : LiteralTypeMap → List String → Outcome LiteralTypeMap
  unfolding add_typing
  add_number_typings = fold_m (λ types arg. add_typing types arg number)

  unfoldable pub visit_leaf : DeclarationMap → LiteralTypeMap → Leaf → Outcome LiteralTypeMap
  unfolding add_typing add_typings add_number_typings get_declaration_or_fatal is_numeric_operator
  visit_leaf env types (declared d) = ok types
  visit_leaf env types (acting p) = add_typing types p.name principal
  visit_leaf env types (applied p) =
      if is_numeric_operator p
      then add_number_typings types p.args
      else (get_declaration_or_fatal env p.name >>= λ d. add_typings types 0 p.args d.arguments)

  unfoldable pub make_type_environment : DeclarationMap → AuthProgram → Outcome LiteralTypeMap
  unfolding visit_leaf visit_program
  make_type_environment env program = fold_m (visit_leaf env) [] (visit_program program)

unfoldable pub get_typing_or_fatal : LiteralTypeMap → String → Outcome ArgumentType
get_typing_or_fatal types name = elim (find types name) [ some t ↦ ok t | none ↦ fatal ]
