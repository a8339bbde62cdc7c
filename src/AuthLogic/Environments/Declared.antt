-- ===== src/AuthLogic/Environments/Declared.antt =====
-- What src/ir/auth_logic/declaration_environment.cc finds.
use raksha.Common.{
  List, [], ◌∷◌, ◌≡◌, subst, some, ok, fold_m, nat_eq, string_eq, All, >>=-eq-ok, ok-injective,
  Option-cases, inl, inr,
}
use raksha.AuthLogic.Ast.{AuthProgram}
use raksha.AuthLogic.Visiting.{visit_program}
use raksha.Common.Maps.{insert_new, find, try_insert}
use raksha.AuthLogic.Visiting.{Leaf, declared, acting, applied}
use raksha.AuthLogic.Environments.{DeclarationMap, add_declaration, make_declaration_environment}
use raksha.AuthLogic.Environments.Typing.{Extends, try_insert-Extends}

-- The declaration is found under its name.
abbrev pub IsDeclared : DeclarationMap → Leaf → Type 0
IsDeclared env (declared d) = find env d.relation_name ≡ some d
IsDeclared env (acting p) = Unit
IsDeclared env (applied p) = Unit

IsDeclared-Extends :
    (env env' : DeclarationMap) (leaf : Leaf)
    → Extends env env'
    → IsDeclared env leaf
    → IsDeclared env' leaf
IsDeclared-Extends env env' (declared d) e h = e d.relation_name d h
IsDeclared-Extends env env' (acting p) e h = tt
IsDeclared-Extends env env' (applied p) e h = tt

add_declaration-IsDeclared :
    (env env' : DeclarationMap) (leaf : Leaf)
    → add_declaration env leaf ≡ ok env'
    → Extends env env' × IsDeclared env' leaf
unfolding add_declaration insert_new
add_declaration-IsDeclared env env' (declared d) h =
    elim (Option-cases (find env d.relation_name)) [
      | inl new ↦
          let same : try_insert env d.relation_name d ≡ env' =
            ok-injective (rw (new, add_declaration, insert_new) at h) in
          subst (λ m. Extends env m × (find m d.relation_name ≡ some d)) same
            (try_insert-Extends env d.relation_name d new)
      | inr (old, there) ↦ absurd (let h' = rw (there, add_declaration, insert_new) at h in cc)
    ]
add_declaration-IsDeclared env env' (acting p) h =
    (subst (Extends env) (ok-injective h) (λ k v e. e), tt)
add_declaration-IsDeclared env env' (applied p) h =
    (subst (Extends env) (ok-injective h) (λ k v e. e), tt)

fold-IsDeclared :
    (env env' : DeclarationMap) (leaves : List Leaf)
    → fold_m add_declaration env leaves ≡ ok env'
    → Extends env env' × All (IsDeclared env') leaves
fold-IsDeclared env env' [] h = (subst (Extends env) (ok-injective h) (λ k v e. e), tt)
fold-IsDeclared env env' (leaf ∷ leaves) h =
    let (mid, first, rest) = >>=-eq-ok (add_declaration env leaf) _ h in
    let (e, declared_here) = add_declaration-IsDeclared env mid leaf first in
    let (e', all) = fold-IsDeclared mid env' leaves rest in
    (λ k v x. e' k v (e k v x), (IsDeclared-Extends mid env' leaf e' declared_here, all))

-- When the declaration environment of a program is made, every declaration of the program is found
-- in it under its name.
pub make_declaration_environment-IsDeclared :
    (program : AuthProgram) (env : DeclarationMap)
    → make_declaration_environment program ≡ ok env
    → All (IsDeclared env) (visit_program program)
unfolding make_declaration_environment
make_declaration_environment-IsDeclared program env h =
    (fold-IsDeclared [] env (visit_program program) h).1
