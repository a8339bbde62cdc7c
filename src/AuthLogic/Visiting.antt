-- ===== src/AuthLogic/Visiting.antt =====
-- src/ir/auth_logic/auth_logic_ast_traversing_visitor.h: the leaves of a program in the order of the
-- traversal. Where C++ leaves the order of two visits open, the principal comes first.
use raksha.Common.{List, [], ◌∷◌, ◌++◌}
use raksha.AuthLogic.Datalog.{Predicate, RelationDeclaration}
use raksha.AuthLogic.Ast.{
  Principal, BaseFact, predicate, attribute, can_act_as, Fact, Assertion, fact, conditional,
  SaysAssertion, Query, AuthProgram,
}

pub data Leaf : Type 0 where
  declared : RelationDeclaration → Leaf
  acting : Principal → Leaf
  applied : Predicate → Leaf

flat : {A : Type 0} → (A → List Leaf) → List A → List Leaf
flat f [] = []
flat f (x ∷ xs) = f x ++ flat f xs

unfoldable pub visit_base_fact : BaseFact → List Leaf
visit_base_fact (predicate p) = applied p ∷ []
visit_base_fact (attribute a) = acting a.principal ∷ applied a.predicate ∷ []
visit_base_fact (can_act_as c) = acting c.left_principal ∷ acting c.right_principal ∷ []

visit_fact : Fact → List Leaf
unfolding flat visit_base_fact
visit_fact f = flat (λ p. acting p ∷ []) f.delegation_chain ++ visit_base_fact f.base_fact

visit_assertion : Assertion → List Leaf
unfolding visit_fact
visit_assertion (fact f) = visit_fact f
visit_assertion (conditional c) = visit_fact c.lhs ++ flat visit_base_fact c.rhs

visit_says_assertion : SaysAssertion → List Leaf
unfolding visit_assertion
visit_says_assertion says = acting says.principal ∷ flat visit_assertion says.assertions

visit_query : Query → List Leaf
unfolding visit_fact
visit_query q = acting q.principal ∷ visit_fact q.fact

unfoldable pub visit_program : AuthProgram → List Leaf
unfolding flat visit_says_assertion visit_query
visit_program program =
    flat (λ d. declared d ∷ []) program.relation_declarations
    ++ flat visit_says_assertion program.says_assertions
    ++ flat visit_query program.queries
