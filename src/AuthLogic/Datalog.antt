-- ===== src/AuthLogic/Datalog.antt =====
-- src/ir/datalog/program.h: Datalog programs.
use raksha.Common.{String, Bool, List}

pub data Sign : Type 0 where
  negated positive : Sign

pub record Predicate : Type 0 where
  pub name : String
  pub args : List String
  pub sign : Sign

pub data ArgumentType : Type 0 where
  number principal : ArgumentType
  custom : String → ArgumentType

pub record Argument : Type 0 where
  pub argument_name : String
  pub argument_type : ArgumentType

pub record RelationDeclaration : Type 0 where
  pub relation_name : String
  pub is_attribute : Bool
  pub arguments : List Argument

pub record Rule : Type 0 where
  pub lhs : Predicate
  pub rhs : List Predicate

pub record Program : Type 0 where
  pub relation_declarations : List RelationDeclaration
  pub rules : List Rule
  pub outputs : List String
