-- ===== src/Tests/AuthLogic.antt =====
-- The lowering of a program with a delegated attribute, and instances of the theorems on it.
use raksha.AuthLogic.Declarations.Shared.{DeclaresLater, get_can_say_declarations-shared}
use raksha.AuthLogic.Lowering.Delegation.{IsDelegated, depth_of, fact_to_dlir_lem}
use raksha.AuthLogic.Declarations.Depth.{DeclaresDepths, get_can_say_declarations-DeclaresDepths}
use raksha.Common.Text.{to_string}
use raksha.AuthLogic.Declarations.Programs.{SaidByOne, AsksAll, prog_to_dlir-SaidByOne}
use raksha.Common.Maps.{find}
use raksha.AuthLogic.Declarations.{
  dummy_predicate, get_can_say_declarations, can_say_loop, add_can_say_declarations,
  can_say_declaration, prog_to_dlir, declaration_at,
}
use raksha.AuthLogic.Lowering.{
  LoweringToDatalogPass, attribute_to_dlir, fresh_var, push_principal, push_onto_predicate, max,
  fact_to_dlir,
}
use raksha.Common.{
  refl, true, false, ok, List, [], ◌∷◌, ◌++◌, ◌≡◌, String, string_eq, nat_eq, arith, map, All,
  length, Returns, ◌>>=◌, inl, inr,
}
use raksha.AuthLogic.Datalog.{Predicate, positive, principal, RelationDeclaration, Rule}
use raksha.AuthLogic.Ast.{Principal, attribute, Fact, fact, SaysAssertion, Query, AuthProgram}

abbrev alice : Principal
alice = record { name = "Alice" }

abbrev bob : Principal
bob = record { name = "Bob" }

abbrev is_trusted : Predicate
is_trusted = record { name = "isTrusted"; args = []; sign = positive }

-- `Bob canSay Alice canSay Alice isTrusted`
abbrev delegated : Fact
delegated = record {
  delegation_chain = alice ∷ bob ∷ [];
  base_fact = attribute (record { principal = alice; predicate = is_trusted });
}

abbrev block : SaysAssertion
block = record { principal = bob; assertions = fact delegated ∷ [] }

abbrev trusted_declaration : RelationDeclaration
trusted_declaration = record { relation_name = "isTrusted"; is_attribute = true; arguments = [] }

abbrev query : Query
query = record { name = "q"; principal = bob; fact = delegated }

abbrev auth_program : AuthProgram
auth_program = record {
  relation_declarations = trusted_declaration ∷ [];
  says_assertions = block ∷ [];
  queries = query ∷ [];
}

abbrev initial : LoweringToDatalogPass
initial = record { fresh_var_count = 0; can_say_depth = [] }

fact_to_dlir_lem_example :
    Returns
      (λ ((q, rules), t).
        IsDelegated
          (alice ∷ bob ∷ [])
          (attribute_to_dlir (record { principal = alice; predicate = is_trusted }))
          q
        × (length rules ≡ 3)
        × (depth_of t "isTrusted" ≡ 2))
      (fact_to_dlir bob delegated initial)
unfolding attribute_to_dlir push_principal push_onto_predicate max find
fact_to_dlir_lem_example = fact_to_dlir_lem bob delegated initial "isTrusted" (omega arith)

prog_to_dlir-SaidByOne_example :
    Returns
      (λ p.
        (p.outputs ≡ "q" ∷ [])
        × ((said : List Rule) × (asked : List Rule) × (p.rules
              ≡ said ++ asked ++ record { lhs = dummy_predicate; rhs = [] } ∷ [])
            × All (SaidByOne (block ∷ [])) said
            × AsksAll (query ∷ []) asked))
      (prog_to_dlir auth_program)
prog_to_dlir-SaidByOne_example = prog_to_dlir-SaidByOne auth_program (omega arith)

abbrev once : LoweringToDatalogPass
once = record { fresh_var_count = 1; can_say_depth = [] }

abbrev twice : LoweringToDatalogPass
twice = record { fresh_var_count = 2; can_say_depth = [] }

fresh_var-initial : fresh_var initial ≡ ok ("x__1", once)
unfolding fresh_var to_string
fresh_var-initial = refl

fresh_var-once : fresh_var once ≡ ok ("x__2", twice)
unfolding fresh_var to_string
fresh_var-once = refl

abbrev deep : LoweringToDatalogPass
deep = record { fresh_var_count = 0; can_say_depth = ("r", 0) ∷ ("p", 2) ∷ ("u", 1) ∷ [] }

abbrev one_argument : String → RelationDeclaration
one_argument name = record {
  relation_name = name;
  is_attribute = false;
  arguments = record { argument_name = "x"; argument_type = principal } ∷ [];
}

get_can_say_declarations-DeclaresDepths_example :
    Returns
      (λ ds. (length ds ≡ 2) × DeclaresDepths (one_argument "p") ds)
      (get_can_say_declarations deep (("p", one_argument "p") ∷ []))
unfolding find
get_can_say_declarations-DeclaresDepths_example =
    get_can_say_declarations-DeclaresDepths deep (("p", one_argument "p") ∷ []) "p" 2
      (("r", 0) ∷ []) (("u", 1) ∷ []) (one_argument "p") refl (inl refl, tt) (inr refl, tt) refl

abbrev both : LoweringToDatalogPass
both = record { fresh_var_count = 0; can_say_depth = ("p", 1) ∷ ("r", 0) ∷ ("q", 2) ∷ [] }

get_can_say_declarations-shared_example :
    Returns
      (λ ds.
        (first : List RelationDeclaration) × (later : List RelationDeclaration) × (ds
          ≡ first ++ can_say_declaration 1 (one_argument "q") ∷ later)
        × (length first ≡ 1)
        × DeclaresDepths (one_argument "p") first
        × (length later ≡ 1)
        × DeclaresLater (one_argument "p") later)
      (get_can_say_declarations both (("p", one_argument "p") ∷ ("q", one_argument "q") ∷ []))
unfolding find
get_can_say_declarations-shared_example =
    get_can_say_declarations-shared both (("p", one_argument "p") ∷ ("q", one_argument "q") ∷ [])
      "p" "q" 0 1 [] (("r", 0) ∷ []) [] (one_argument "p") (one_argument "q") refl tt (inl refl, tt)
      tt refl refl (omega arith)

-- With two predicates, the second declaration for `q` is made from one for `p`.
second_predicate :
    (get_can_say_declarations
        (record { fresh_var_count = 0; can_say_depth = ("p", 1) ∷ ("q", 2) ∷ [] })
        (("p", one_argument "p") ∷ ("q", one_argument "q") ∷ [])
      >>= λ ds. ok (map (λ d. d.relation_name) ds))
    ≡ ok ("canSay_p" ∷ "canSay_q" ∷ "canSay_canSay_p" ∷ [])
unfolding get_can_say_declarations can_say_loop add_can_say_declarations can_say_declaration
    declaration_at find
second_predicate = refl
