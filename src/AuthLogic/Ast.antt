-- ===== src/AuthLogic/Ast.antt =====
-- src/ir/auth_logic/ast.h: programs of the authorization logic.
use raksha.Common.{String, List}
use raksha.AuthLogic.Datalog.{Predicate, RelationDeclaration}

pub record Principal : Type 0 where
  pub name : String

pub record Attribute : Type 0 where
  pub principal : Principal
  pub predicate : Predicate

pub record CanActAs : Type 0 where
  pub left_principal : Principal
  pub right_principal : Principal

pub data BaseFact : Type 0 where
  predicate : Predicate → BaseFact
  attribute : Attribute → BaseFact
  can_act_as : CanActAs → BaseFact

pub record Fact : Type 0 where
  pub delegation_chain : List Principal
  pub base_fact : BaseFact

pub record ConditionalAssertion : Type 0 where
  pub lhs : Fact
  pub rhs : List BaseFact

pub data Assertion : Type 0 where
  fact : Fact → Assertion
  conditional : ConditionalAssertion → Assertion

pub record SaysAssertion : Type 0 where
  pub principal : Principal
  pub assertions : List Assertion

pub record Query : Type 0 where
  pub name : String
  pub principal : Principal
  pub fact : Fact

pub record AuthProgram : Type 0 where
  pub relation_declarations : List RelationDeclaration
  pub says_assertions : List SaysAssertion
  pub queries : List Query
