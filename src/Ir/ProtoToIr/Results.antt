-- ===== src/Ir/ProtoToIr/Results.antt =====
-- What a module with results becomes when src/ir/ir_to_proto.cc writes it and src/ir/proto_to_ir.cc reads it.
use raksha.Ir.ProtoToIr.Undeclared.{convert_from_proto-NoResults}
use raksha.Ir.IrToProto.Named.{BlockNamed, ResultNamed, module_to_proto-Named}
use raksha.Ir.IrToProto.{convert_to_proto, IrToProto, module_to_proto, make_ir_to_proto}
use raksha.Common.{
  nat_eq, string_eq, List, [], ◌∷◌, String, ok, >>=-eq-ok, ok-injective, All, ◌≡◌, refl, subst, ap,
  IsAmong, fatal, AllPairs, Outcome, All-IsAmong, sym,
}
use raksha.Ir.Values.{Value}
use raksha.Ir.Modules.{Module, Block}
use raksha.Ir.Proto.{BlockWithId, ModuleProto, IrTranslationUnit}
use raksha.Ir.ProtoToIr.{convert_from_proto, IrContext, Result}

NoResults_of_message :
    (m : Module) (s : IrToProto) (p : ModuleProto)
    → module_to_proto make_ir_to_proto m ≡ ok (s, p)
    → All (λ b. b.block.results ≡ []) p.blocks
    → All (λ b. b.results ≡ []) m.blocks
NoResults_of_message m s p h none_there =
    go m.blocks p.blocks (module_to_proto-Named m s p h).0 none_there
  where
    go :
        (bs : List Block) (ps : List BlockWithId)
        → AllPairs (BlockNamed s) bs ps
        → All (λ b. b.block.results ≡ []) ps
        → All (λ b. b.results ≡ []) bs
    go [] ps all none_there = tt
    go (b ∷ bs) [] all none_there = absurd all
    go (b ∷ bs) (p ∷ ps) ((_, (_, results)), all) (here, later) = (
      none_of b.results (subst (AllPairs (ResultNamed s) b.results) here results),
      go bs ps all later,
    )
      where
        none_of : (rs : List (String × Value)) → AllPairs (ResultNamed s) rs [] → rs ≡ []
        none_of [] all = refl
        none_of (r ∷ rs) all = absurd all

-- The message of a module of which some block has a result is never read: the conversion stops at a
-- failed CHECK, whatever operators the context has.
pub convert_from_proto-results :
    (c c' : IrContext) (m : Module) (b : Block) (root : IrTranslationUnit)
    → IsAmong b m.blocks
    → ¬ (b.results ≡ [])
    → convert_to_proto c m ≡ ok root
    → convert_from_proto c' root ≡ fatal
unfolding convert_to_proto
convert_from_proto-results c c' m b root among some_there h =
    let ((s, p), run, e) = >>=-eq-ok (module_to_proto make_ir_to_proto m) _ h in
    fails (convert_from_proto c' root) (λ r returned.
      let none_there = convert_from_proto-NoResults c' root r returned in
      some_there (
        All-IsAmong (λ b. b.results ≡ []) b m.blocks
          (NoResults_of_message m s p run (
            subst (λ m. All (λ b. b.block.results ≡ []) m.blocks)
              (sym (ap (λ u. u.top_level_module) (ok-injective e))) none_there))
          among))
  where
    fails :
        (run : Outcome (IrContext × Result))
        → ((r : IrContext × Result) → run ≡ ok r → ⊥)
        → run ≡ fatal
    fails (ok r) not_ok = absurd (not_ok r refl)
    fails fatal not_ok = refl
