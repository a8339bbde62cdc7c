-- ===== src/Sql/Driver.antt =====
-- src/frontends/sql/driver.cc. The policy checker that it calls answers by a generated Datalog program, and
-- is a parameter.
use raksha.Common.{Bool, Outcome, ◌>>=◌}
use raksha.Ir.Context.{make_ir_context}
use raksha.Ir.Modules.{Module}
use raksha.Sql.Context.{make_decoder_context, build_top_level_block}
use raksha.Sql.Decode.{ExpressionArena, decode_expression_arena}

unfoldable pub verify :
    {Policy : Type 0} → (Module → Policy → Outcome Bool) → ExpressionArena → Policy → Outcome Bool
unfolding make_decoder_context decode_expression_arena build_top_level_block
verify is_module_policy_compliant arena policy = do
  d ← make_decoder_context make_ir_context
  (d, _) ← decode_expression_arena arena d
  d ← build_top_level_block d
  is_module_policy_compliant d.global_module policy
