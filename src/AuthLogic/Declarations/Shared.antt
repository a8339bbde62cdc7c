-- ===== src/AuthLogic/Declarations/Shared.antt =====
-- Two delegated predicates in src/ir/auth_logic/lowering_ast_datalog.cc, whose declarations share a vector.
use raksha.Common.{
  append_assoc, string_eq, ℕ, suc, zero, ◌+◌, ◌-◌, ◌≤◌, String, List, [], ◌∷◌, ◌++◌, ◌≡◌, refl,
  arith, some, ok, All, Returns, returns, Returns-bind, Returns-weaken, length, length-append,
  get_elem?, get_elem?_of_lt, get_elem?-concat, Bool-cases, inl, inr, nat_beq, nat_beq_iff, nat_eq,
  some-injective, subst,
}
use raksha.Common.Maps.{find}
use raksha.AuthLogic.Datalog.{RelationDeclaration}
use raksha.AuthLogic.Lowering.{LoweringToDatalogPass}
use raksha.AuthLogic.Declarations.{
  can_say_declaration, declaration_at, add_can_say_declarations, can_say_loop,
  get_can_say_declarations,
}
use raksha.AuthLogic.Declarations.Depth.{
  not_one, DeclaresDepth, DeclaresDepths, IsIdle, can_say_loop_idle, can_say_loop_all_idle,
  can_say_declaration-DeclaresDepth, add_can_say_declarations-DeclaresDepths, not_one,
}

-- From depth 2 on, the declarations are those of the predicate that `d` declares.
abbrev pub DeclaresLater : RelationDeclaration → List RelationDeclaration → Type 0
DeclaresLater d ds =
    (j : ℕ) (x : RelationDeclaration) → get_elem? ds j ≡ some x → DeclaresDepth d (suc (suc j)) x

declaration_at-front :
    (ds rest : List RelationDeclaration) (i : ℕ) (x : RelationDeclaration)
    → get_elem? ds i ≡ some x
    → declaration_at (ds ++ rest) i ≡ ok x
unfolding declaration_at
declaration_at-front [] rest i x h = cc
declaration_at-front (y ∷ ds) rest zero x h = ground arith
declaration_at-front (y ∷ ds) rest (suc i) x h = declaration_at-front ds rest i x h

DeclaresLater-concat :
    (d x : RelationDeclaration) (ds : List RelationDeclaration)
    → DeclaresLater d ds
    → DeclaresDepth d (suc (suc (length ds))) x
    → DeclaresLater d (ds ++ x ∷ [])
DeclaresLater-concat d x ds all p j y h = elim (Bool-cases (nat_beq j (length ds))) [
  | inl last ↦
      let here : x ≡ y = some-injective _ _ (rw (get_elem?-concat ds x j, last) at h) in
      rw ((nat_beq_iff j (length ds)).0 last)
        (subst (DeclaresDepth d (suc (suc (length ds)))) here p)
  | inr before ↦ all j y (rw (get_elem?-concat ds x j, before) at h)
]

-- The loop for the second predicate from depth 2 on, after the declarations `first`.
add_can_say_declarations-DeclaresLater :
    (d e : RelationDeclaration) (first : List RelationDeclaration) (one : RelationDeclaration)
    (k : ℕ) (later : List RelationDeclaration)
    → DeclaresDepths d first
    → DeclaresLater d later
    → length later + k ≤ length first
    → Returns
        (λ r.
          (later' : List RelationDeclaration) × (r ≡ first ++ one ∷ later')
          × (length later' ≡ length later + k)
          × DeclaresLater d later')
        (add_can_say_declarations e (suc (suc (length later))) k (first ++ one ∷ later))
unfolding add_can_say_declarations
add_can_say_declarations-DeclaresLater d e first one zero later all all' fit =
    returns (later, refl, omega arith, all')
add_can_say_declarations-DeclaresLater d e first one (suc k) later all all' fit =
    let (x, at) = get_elem?_of_lt first (length later) (omega arith) in
    let n = length later in
    let new = can_say_declaration (suc (suc n)) x in
    let size : length (later ++ new ∷ []) ≡ suc n = omega (arith, length-append later (new ∷ [])) in
    let index : suc (suc n) - 2 ≡ n = omega arith in
    let next =
      add_can_say_declarations-DeclaresLater d e first one k (later ++ new ∷ []) all
        (DeclaresLater-concat d new later all'
          (can_say_declaration-DeclaresDepth d x (suc (suc n)) (suc n) (all n x at)))
        (omega (arith, size)) in
    rw
      (
        not_one n,
        index,
        declaration_at-front first (one ∷ later) n x at,
        append_assoc first (one ∷ later) (new ∷ []),
      )
      (Returns-weaken (rw size at next)
        (λ r (later', e, l, h). (later', e, omega (arith, l, size), h)))

-- If two predicates with recorded depths of at least 1 are declared, every other predicate with a
-- recorded depth either has depth 0 or is not declared, and the depth of the second is at most one
-- more than that of the first, then the declarations that are made are one for each depth of the
-- first predicate, the one for depth 1 of the second, and for each greater depth of the second the
-- one for that depth of the first predicate again, whose name is canSay_ once for each level before
-- that of the first and which has as many arguments as the first and one for each level.
pub get_can_say_declarations-shared :
    (s : LoweringToDatalogPass) (env : List (String × RelationDeclaration)) (name name' : String)
    (a b : ℕ) (before between after : List (String × ℕ)) (d e : RelationDeclaration)
    → s.can_say_depth ≡ before ++ (name, suc a) ∷ (between ++ (name', suc b) ∷ after)
    → All (IsIdle env) before
    → All (IsIdle env) between
    → All (IsIdle env) after
    → find env name ≡ some d
    → find env name' ≡ some e
    → b ≤ suc a
    → Returns
        (λ ds.
          (first : List RelationDeclaration) × (later : List RelationDeclaration) × (ds
            ≡ first ++ can_say_declaration 1 e ∷ later)
          × (length first ≡ suc a)
          × DeclaresDepths d first
          × (length later ≡ b)
          × DeclaresLater d later)
        (get_can_say_declarations s env)
unfolding get_can_say_declarations can_say_loop add_can_say_declarations
get_can_say_declarations-shared s env name name' a b before between after d e both idle idle' idle''
      found found' fit =
    rw
      (
        both,
        can_say_loop_idle env before ((name, suc a) ∷ (between ++ (name', suc b) ∷ after)) [] idle,
        found,
      )
      (Returns-bind (add_can_say_declarations-DeclaresDepths d (suc a) [] (λ j e. cc))
        λ first (size, all).
          rw (can_say_loop_idle env between ((name', suc b) ∷ after) first idle', found')
            (Returns-bind
              (add_can_say_declarations-DeclaresLater d e first (can_say_declaration 1 e) b [] all
                (λ j x. cc) (omega (arith, size)))
              λ ds (later, same, n, all').
                rw (can_say_loop_all_idle env after ds idle'')
                  (returns (first, later, same, omega (arith, size), all, omega (arith, n), all'))))
