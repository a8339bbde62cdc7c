-- ===== src/AuthLogic/Declarations.antt =====
-- src/ir/auth_logic/lowering_ast_datalog.cc, from `QueriesToDLIR` on: queries, declarations and whole
-- programs. The order of the entries of `can_say_depth_` is that of their insertion here.
pub mod Depth
pub mod Programs
pub mod Shared
use raksha.Common.{
  ℕ, zero, suc, ◌-◌, String, ◌<>◌, Bool, true, false, List, [], ◌∷◌, ◌++◌, map, Option, none, some,
  Outcome, ok, fatal, ◌>>=◌, ◌==◌, nat_eq, string_eq, get_elem?, if◌then◌else◌,
}
use raksha.Common.Maps.{find, try_insert}
use raksha.Common.Text.{to_string}
use raksha.AuthLogic.Datalog.{
  positive, Predicate, Rule, Argument, principal, custom, RelationDeclaration, Program,
}
use raksha.AuthLogic.Ast.{Query, AuthProgram}
use raksha.AuthLogic.Lowering.{
  LoweringToDatalogPass, Lowered, push_principal, fact_to_dlir, says_assertions_to_dlir,
}

abbrev pub dummy_predicate : Predicate
dummy_predicate = record { name = "grounded_dummy"; args = "\"dummy_var\"" ∷ []; sign = positive }

unfoldable pub query_to_dlir : Query → Lowered Rule
unfolding fact_to_dlir
query_to_dlir q s = do
  ((p, _), s) ← fact_to_dlir q.principal q.fact s
  let lhs : Predicate = record { name = q.name; args = "\"dummy_var\"" ∷ []; sign = positive }
  ok (record { lhs = lhs; rhs = push_principal "says_" q.principal p ∷ dummy_predicate ∷ [] }, s)

unfoldable pub queries_to_dlir : List Query → Lowered (List Rule)
unfolding query_to_dlir
queries_to_dlir [] s = ok ([], s)
queries_to_dlir (q ∷ qs) s = do
  (rule, s) ← query_to_dlir q s
  (rules, s) ← queries_to_dlir qs s
  ok (rule ∷ rules, s)

transform_attribute_declaration : RelationDeclaration → RelationDeclaration
transform_attribute_declaration d =
    if d.is_attribute
    then record {
      relation_name = d.relation_name;
      is_attribute = false;
      arguments =
          record { argument_name = "attribute_prin"; argument_type = principal } ∷ d.arguments;
    }
    else d

unfoldable pub transform_attribute_declarations :
    List RelationDeclaration → List RelationDeclaration
unfolding transform_attribute_declaration
transform_attribute_declarations = map transform_attribute_declaration

-- The declaration for depth `i`, from the one for the depth before.
unfoldable pub can_say_declaration : ℕ → RelationDeclaration → RelationDeclaration
can_say_declaration i d = record {
  relation_name = "canSay_" <> d.relation_name;
  is_attribute = false;
  arguments =
      record { argument_name = "delegatee" <> to_string i; argument_type = principal }
      ∷ d.arguments;
}

-- `can_say_declarations.at(…)`, which throws out of range.
unfoldable pub declaration_at : List RelationDeclaration → ℕ → Outcome RelationDeclaration
declaration_at ds i = elim (get_elem? ds i) [ some d ↦ ok d | none ↦ fatal ]

-- The inner loop, at depth `i` with `k` depths to go: the vector holds the declarations of all
-- predicates so far, and from depth 2 on it is read at `i - 2`.
unfoldable pub add_can_say_declarations :
    RelationDeclaration → ℕ → ℕ → List RelationDeclaration → Outcome (List RelationDeclaration)
unfolding can_say_declaration declaration_at
add_can_say_declarations d i zero ds = ok ds
add_can_say_declarations d i (suc k) ds = do
  previous ← (if i == 1 then ok d else declaration_at ds (i - 2))
  add_can_say_declarations d (suc i) k (ds ++ can_say_declaration i previous ∷ [])

unfoldable pub can_say_loop :
    List (String × RelationDeclaration)
    → List (String × ℕ)
    → List RelationDeclaration
    → Outcome (List RelationDeclaration)
unfolding add_can_say_declarations
can_say_loop type_environment [] ds = ok ds
can_say_loop type_environment ((name, zero) ∷ depths) ds = can_say_loop type_environment depths ds
can_say_loop type_environment ((name, suc depth) ∷ depths) ds = do
  ds' ← (elim (find type_environment name) [
    | none ↦ ok ds
    | some d ↦ add_can_say_declarations d 1 (suc depth) ds
  ])
  can_say_loop type_environment depths ds'

unfoldable pub get_can_say_declarations :
    LoweringToDatalogPass → List (String × RelationDeclaration) → Outcome (List RelationDeclaration)
unfolding can_say_loop
get_can_say_declarations s type_environment = can_say_loop type_environment s.can_say_depth []

says_declaration : RelationDeclaration → RelationDeclaration
says_declaration d = record {
  relation_name = "says_" <> d.relation_name;
  is_attribute = false;
  arguments = record { argument_name = "speaker"; argument_type = principal } ∷ d.arguments;
}

unfoldable pub get_says_extend_relation_declarations :
    List RelationDeclaration → List RelationDeclaration
unfolding says_declaration
get_says_extend_relation_declarations = map says_declaration

unfoldable pub type_environment_of :
    List RelationDeclaration
    → List (String × RelationDeclaration)
    → List (String × RelationDeclaration)
type_environment_of [] env = env
type_environment_of (d ∷ ds) env = type_environment_of ds (try_insert env d.relation_name d)

abbrev pub can_act_as_declaration : RelationDeclaration
can_act_as_declaration = record {
  relation_name = "canActAs";
  is_attribute = false;
  arguments =
      record { argument_name = "p1"; argument_type = principal }
      ∷ record { argument_name = "p2"; argument_type = principal }
      ∷ [];
}

unfoldable pub relation_declaration_to_dlir :
    LoweringToDatalogPass → List RelationDeclaration → Outcome (List RelationDeclaration)
unfolding transform_attribute_declarations type_environment_of get_can_say_declarations
    get_says_extend_relation_declarations
relation_declaration_to_dlir s ds = do
  let transformed = transform_attribute_declarations ds
  can_say ← get_can_say_declarations s (type_environment_of transformed [])
  ok (get_says_extend_relation_declarations (transformed ++ can_say ++ can_act_as_declaration ∷ []))

abbrev pub dummy_declaration : String → RelationDeclaration
dummy_declaration name = record {
  relation_name = name;
  is_attribute = false;
  arguments = record { argument_name = "dummy_param"; argument_type = custom "DummyType" } ∷ [];
}

unfoldable pub query_relation_declaration_to_dlir : List Query → List RelationDeclaration
query_relation_declaration_to_dlir qs =
    map (λ q. dummy_declaration q.name) qs ++ dummy_declaration "grounded_dummy" ∷ []

-- `Lower`: the pass starts with no fresh variable and no depth.
unfoldable pub prog_to_dlir : AuthProgram → Outcome Program
unfolding says_assertions_to_dlir queries_to_dlir relation_declaration_to_dlir
    query_relation_declaration_to_dlir
prog_to_dlir program = do
  (assertions, s) ←
      says_assertions_to_dlir program.says_assertions
        (record { fresh_var_count = 0; can_say_depth = [] })
  (queries, s) ← queries_to_dlir program.queries s
  declarations ← relation_declaration_to_dlir s program.relation_declarations
  ok (record {
    relation_declarations = declarations ++ query_relation_declaration_to_dlir program.queries;
    rules = assertions ++ queries ++ record { lhs = dummy_predicate; rhs = [] } ∷ [];
    outputs = map (λ q. q.name) program.queries;
  })
