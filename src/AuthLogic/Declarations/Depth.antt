-- ===== src/AuthLogic/Declarations/Depth.antt =====
-- The declarations that src/ir/auth_logic/lowering_ast_datalog.cc makes for a delegated predicate.
use mathlib.Core.Option.{some-injective}
use raksha.Common.{
  none, ◌⊎◌, inl, inr, All, sym, ◌∙◌, append-nil, subst, nat_beq_iff, ℕ, zero, suc, ◌+◌, ◌-◌,
  String, ◌<>◌, false, List, [], ◌∷◌, ◌++◌, ◌≡◌, refl, ap, some, ok, ◌==◌, nat_eq, nat_beq,
  string_eq, Returns, returns, Returns-bind, Returns-of_ok, Returns-weaken, length, length-append,
  arith, Bool-cases, get_elem?, get_elem?-concat, get_elem?_of_lt, if◌then◌else◌,
}
use raksha.Common.Maps.{find}
use raksha.AuthLogic.Datalog.{RelationDeclaration}
use raksha.AuthLogic.Lowering.{LoweringToDatalogPass}
use raksha.AuthLogic.Lowering.Delegation.{can_say_name}
use raksha.AuthLogic.Declarations.{
  can_say_declaration, declaration_at, add_can_say_declarations, can_say_loop,
  get_can_say_declarations,
}

-- The declaration for depth `n` of the predicate that is declared: the name, and the number of arguments.
pub record DeclaresDepth (d : RelationDeclaration) (n : ℕ) (e : RelationDeclaration) : Type 0 where
  pub name : e.relation_name ≡ can_say_name n d.relation_name
  pub arity : length e.arguments ≡ n + length d.arguments

abbrev pub DeclaresDepths : RelationDeclaration → List RelationDeclaration → Type 0
DeclaresDepths d ds =
    (j : ℕ) (e : RelationDeclaration) → get_elem? ds j ≡ some e → DeclaresDepth d (suc j) e

pub not_one : (n : ℕ) → nat_beq (suc (suc n)) 1 ≡ false
not_one n = ground arith

found :
    (x : RelationDeclaration) (xs : List RelationDeclaration) (i : ℕ) (e : RelationDeclaration)
    → get_elem? (x ∷ xs) i ≡ some e
    → declaration_at (x ∷ xs) i ≡ ok e
unfolding declaration_at
found x xs i e h = ground arith

previous-DeclaresDepth :
    (d : RelationDeclaration) (ds : List RelationDeclaration)
    → DeclaresDepths d ds
    → Returns
        (DeclaresDepth d (length ds))
        (if suc (length ds) == 1 then ok d else declaration_at ds (suc (length ds) - 2))
previous-DeclaresDepth d [] all = returns (record { name = refl; arity = omega arith })
previous-DeclaresDepth d (x ∷ xs) all =
    let (e, at) = get_elem?_of_lt (x ∷ xs) (length xs) (omega arith) in
    let index : suc (suc (length xs)) - 2 ≡ length xs = omega arith in
    rw (not_one (length xs), index)
      (Returns-of_ok (found x xs (length xs) e at) (all (length xs) e at))

pub can_say_declaration-DeclaresDepth :
    (d e : RelationDeclaration) (i n : ℕ)
    → DeclaresDepth d n e
    → DeclaresDepth d (suc n) (can_say_declaration i e)
unfolding can_say_declaration
can_say_declaration-DeclaresDepth d e i n p = record {
  name = ap (λ x. "canSay_" <> x) p.name;
  arity = omega (arith, p.arity);
}

DeclaresDepths-concat :
    (d e : RelationDeclaration) (ds : List RelationDeclaration)
    → DeclaresDepths d ds
    → DeclaresDepth d (suc (length ds)) e
    → DeclaresDepths d (ds ++ e ∷ [])
DeclaresDepths-concat d e ds all p j x h = elim (Bool-cases (nat_beq j (length ds))) [
  | inl last ↦
      let here : e ≡ x = some-injective _ _ (rw (get_elem?-concat ds e j, last) at h) in
      rw ((nat_beq_iff j (length ds)).0 last) (subst (DeclaresDepth d (suc (length ds))) here p)
  | inr before ↦ all j x (rw (get_elem?-concat ds e j, before) at h)
]

pub add_can_say_declarations-DeclaresDepths :
    (d : RelationDeclaration) (k : ℕ) (ds : List RelationDeclaration)
    → DeclaresDepths d ds
    → Returns
        (λ r. (length r ≡ length ds + k) × DeclaresDepths d r)
        (add_can_say_declarations d (suc (length ds)) k ds)
unfolding add_can_say_declarations
add_can_say_declarations-DeclaresDepths d zero ds all = returns (omega arith, all)
add_can_say_declarations-DeclaresDepths d (suc k) ds all =
    Returns-bind (previous-DeclaresDepth d ds all) λ e p.
      let new = can_say_declaration (suc (length ds)) e in
      let size : length (ds ++ new ∷ []) ≡ suc (length ds) =
        omega (arith, length-append ds (new ∷ [])) in
      let next = add_can_say_declarations-DeclaresDepths d k (ds ++ new ∷ []) (
        DeclaresDepths-concat d new ds all
          (can_say_declaration-DeclaresDepth d e (suc (length ds)) (length ds) p)) in
      Returns-weaken (rw size at next) λ r (n, all'). (omega (arith, size), all')

-- The entry makes no declaration: the recorded depth is 0, or the predicate is not declared.
abbrev pub IsIdle : List (String × RelationDeclaration) → String × ℕ → Type 0
IsIdle env e = (e.1 ≡ 0) ⊎ (find env e.0 ≡ none)

pub can_say_loop_idle :
    (env : List (String × RelationDeclaration)) (idle rest : List (String × ℕ))
    (ds : List RelationDeclaration)
    → All (IsIdle env) idle
    → can_say_loop env (idle ++ rest) ds ≡ can_say_loop env rest ds
unfolding can_say_loop
can_say_loop_idle env [] rest ds all = refl
can_say_loop_idle env ((name, zero) ∷ idle) rest ds (h, all) =
    can_say_loop_idle env idle rest ds all
can_say_loop_idle env ((name, suc k) ∷ idle) rest ds (inl h, all) = cc
can_say_loop_idle env ((name, suc k) ∷ idle) rest ds (inr undeclared, all) =
    rw undeclared (can_say_loop_idle env idle rest ds all)

pub can_say_loop_all_idle :
    (env : List (String × RelationDeclaration)) (idle : List (String × ℕ))
    (ds : List RelationDeclaration)
    → All (IsIdle env) idle
    → can_say_loop env idle ds ≡ ok ds
unfolding can_say_loop
can_say_loop_all_idle env idle ds all =
    ap (λ l. can_say_loop env l ds) (sym (append-nil idle)) ∙ can_say_loop_idle env idle [] ds all

-- If a predicate is declared, and every other predicate with a recorded depth either has depth 0 or
-- is not declared, the declarations that are made are one for each depth of that predicate from 1
-- up to the recorded one, whose name has canSay_ once for each level and which has one more
-- argument than the one before.
pub get_can_say_declarations-DeclaresDepths :
    (s : LoweringToDatalogPass) (env : List (String × RelationDeclaration)) (name : String)
    (depth : ℕ) (before after : List (String × ℕ)) (d : RelationDeclaration)
    → s.can_say_depth ≡ before ++ (name, depth) ∷ after
    → All (IsIdle env) before
    → All (IsIdle env) after
    → find env name ≡ some d
    → Returns (λ ds. (length ds ≡ depth) × DeclaresDepths d ds) (get_can_say_declarations s env)
unfolding get_can_say_declarations can_say_loop
get_can_say_declarations-DeclaresDepths s env name zero before after d one idle idle' found =
    rw
      (
        one,
        can_say_loop_idle env before ((name, zero) ∷ after) [] idle,
        can_say_loop_all_idle env after [] idle',
      )
      (returns (refl, λ j e. cc))
get_can_say_declarations-DeclaresDepths s env name (suc k) before after d one idle idle' found =
    rw (one, can_say_loop_idle env before ((name, suc k) ∷ after) [] idle, found)
      (Returns-bind (add_can_say_declarations-DeclaresDepths d (suc k) [] (λ j e. cc))
        λ r (size, all).
          rw (can_say_loop_all_idle env after r idle') (returns (omega (arith, size), all)))
