-- ===== src/Lib.antt =====
-- A model of the core of Raksha, an engine that checks data-flow policies.
--
-- A program is a module of the IR (src/ir): blocks of operations whose inputs are values. The
-- taint analysis (src/analysis) gives each value a state: a set of secrecy tags and a set of
-- integrity tags, or bottom where nothing was computed yet. It is a fixpoint iteration over the
-- graph of the module, and the effect of an operation comes from rules that are kept by action.
-- The policy checker (src/backends/policy_engine/abstract_interpretation) runs the analysis and
-- reports whether the inputs of the egress operations are free of secrecy tags. Policies about
-- principals are written in an authorization logic (src/ir/auth_logic) that is lowered to a
-- Datalog program. Two frontends are clients: one decodes SQL queries to a module and to rules
-- (src/frontends/sql), one checks the data flows of a house (src/frontends/ambient).
--
-- Files and the code they model:
-- - Common: shared names; Common/Checks: runs that may stop at a failed CHECK; Common/Lists,
--   Common/Sets and Common/Maps: vectors, hash sets and hash maps; Common/Text: numbers as text.
-- - Ir/Values, Ir/Modules: src/ir/value.h, operator.h, module.h, data_decl.h. The identity of an
--   object is a number.
-- - Ir/Attributes, Ir/Storages, Ir/Context, Ir/BlockBuilder: src/ir/attributes, and
--   src/ir/storage.h, ir_context.h and block_builder.h.
-- - Ir/Types: src/ir/types with its protocol buffers, and the selectors and access paths of
--   src/ir/access_path_selectors.h; Types/Paths is on the paths of a type, Types/PathSets on their
--   sets, Types/RoundTrip on types that are written and read.
-- - Ir/Proto, Ir/IrToProto, Ir/ProtoToIr: src/ir/proto/raksha_ir.proto, src/ir/ir_to_proto.{h,cc} and
--   src/ir/proto_to_ir.{h,cc}. IrToProto/Ids and IrToProto/Named are on the ids in a message,
--   ProtoToIr/Undeclared and ProtoToIr/Results on the results of its blocks. ProtoToIr/Readable says
--   which messages are read, Tables what an id stands for, Visiting, Filling, Filled, Placing and
--   Placed are on the three passes, and Reading on the whole; Writable, RoundTrip and Copies are on
--   modules that are written and read again.
-- - Ir/SsaNames: src/ir/ssa_names.h; SsaNames/Distinct is on names that are made and added.
-- - Taint/Tags: src/analysis/taint/abstract_ifc_tags.{h,cc}; Tags/Order is its information
--   order, Tags/Rank a bounded rank.
-- - Taint/Rules, Taint/Builder: inference_rule.h, inference_rules.h, inference_rules_builder.h;
--   Builder/Ids is on the ids of tags.
-- - Taint/Semantics: abstract_semantics.{h,cc}; its children are on the default effect, on
--   indices in range, on single steps, on the transformer as a whole, on its outputs one by one,
--   on what its rules say of a tag and that its outputs are so, and on the tags that it adds.
-- - Analysis/Graph: src/analysis/common/module_graph.{h,cc}; its children are on its edges, on
--   what the queries return, on that they return, and on its nodes.
-- - Analysis/Fixpoint: src/analysis/common/module_fixpoint_iterator.h, for any semantics and any
--   order on its states; Fixpoint/Progress is on pushing outputs, Rounds on a round of the loop,
--   Start and Initial on the initial worklist, Soundness on what the iteration ends with.
--   Measure, Pushes, Processing and Termination show that it ends: a state that changes has a
--   higher rank, and else the worklist is shorter.
-- - Policy/Checker: src/backends/policy_engine/abstract_interpretation; Policy/Verdict is on its
--   loops, Policy/Soundness has the taint analysis as an instance of the iteration, Policy/Flows
--   is on secrets that flow to an egress operation, Policy/Termination on the end of the
--   analysis.
-- - AuthLogic/Datalog, AuthLogic/Ast: src/ir/datalog/program.h and src/ir/auth_logic/ast.h.
-- - AuthLogic/Lowering, AuthLogic/Declarations: src/ir/auth_logic/lowering_ast_datalog.{h,cc},
--   its rules, and its queries, declarations and programs. Lowering/Speakers is on who says a
--   rule, Lowering/Delegation on chains of delegations, Lowering/Fresh on fresh variables,
--   Declarations/Depth on declarations for a delegated predicate, Declarations/Shared on those for
--   two of them, Declarations/Programs on programs.
-- - AuthLogic/Visiting, AuthLogic/Environments: auth_logic_ast_traversing_visitor.h, and
--   declaration_environment.cc, type_environment.cc and is_name_constant.cc, with
--   Abseil's string functions and what a read beyond the end of a vector yields as a parameter;
--   Environments/Typing and Environments/Declared are on what they find.
-- - AuthLogic/Universes: universe_relation_insertion.cc; Universes/Grounding is on the conditions that
--   it adds, Universes/Populated on the universes, Universes/Programs on whole programs.
-- - Ambient/Names, Ambient/PolicyChecker: src/frontends/ambient/policy_checker.{h,cc}, with what its
--   Datalog program answers as a parameter. PolicyChecker/Edges is on the edges of its context,
--   PolicyChecker/Changes on its settings, PolicyChecker/Reached on the states of a run.
-- - Sql/Ops: src/frontends/sql/ops; Ops/RoundTrip is on what is read back from an operation.
-- - Sql/Context, Sql/Decode: decoder_context.{h,cc}, decode.cc and sql_ir.proto; Sql/Driver: driver.cc. Context/Wired,
--   Decode/Placed and Decode/Sound are on the wiring of the operations.
-- - Sql/PolicyRules: decode_sql_policy_rules.cc; Ranges, Bounds, Fit and InRange below it are on
--   indices and ids in range.
-- - Sql/Analysis: the taint analysis of what the frontend decodes.
-- - Tests: runs on small programs, and instances of the theorems.
--
-- State is passed explicitly. A CHECK or LOG(FATAL) that fails is the outcome `fatal`. A hash
-- set has no order that the code may rely on, so a round of the iteration takes any member of
-- the worklist: the iteration is the relation `Step`, and `run` follows a given choice with some
-- fuel, which ends with `none` when it is used up. Some fuel is enough for every choice where
-- the states have a bounded rank, as those of the taint analysis have when the rules add tags of
-- a finite list.
--
-- Not modelled: the printer and the parsers; the text form of protocol buffers; the parents of blocks
-- and operations; the Datalog engine, which is no code of the repository, and the emitters and fact
-- tables that feed it.
pub mod Ambient
pub mod Analysis
pub mod AuthLogic
pub mod Common
pub mod Ir
pub mod Policy
pub mod Sql
pub mod Taint
pub mod Tests
