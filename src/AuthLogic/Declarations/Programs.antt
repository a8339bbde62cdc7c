-- ===== src/AuthLogic/Declarations/Programs.antt =====
-- Where the rules of a lowered program come from: src/ir/auth_logic/lowering_ast_datalog.cc, `ProgToDLIR`.
use raksha.Common.{
  ℕ, zero, suc, ◌+◌, ◌≤◌, ◌-◌, ◌<◌, String, List, [], ◌∷◌, ◌++◌, map, ◌≡◌, refl, ok, ◌==◌, nat_eq,
  string_eq, Returns, returns, Returns-bind, length, length-append, arith, Bool-cases, Option-cases,
  inl, inr, ◌⊎◌, get_elem?_of_lt, if◌then◌else◌, All, All-append, All-map,
}
use raksha.Common.Maps.{find}
use raksha.AuthLogic.Datalog.{Predicate, positive, Rule, RelationDeclaration}
use raksha.AuthLogic.Ast.{SaysAssertion, Query, AuthProgram}
use raksha.AuthLogic.Lowering.{
  LoweringToDatalogPass, push_principal, max_uint64, says_assertions_to_dlir,
}
use raksha.AuthLogic.Lowering.Speakers.{
  SaidBy, Takes, fact_variables, assertions_variables, fact_to_dlir-Takes,
  says_assertion_to_dlir-SaidBy,
}
use raksha.AuthLogic.Declarations.{
  dummy_predicate, query_to_dlir, queries_to_dlir, can_say_declaration, declaration_at,
  add_can_say_declarations, can_say_loop, get_can_say_declarations, relation_declaration_to_dlir,
  prog_to_dlir,
}

-- Some item of the list has the property.
abbrev pub Some : {A : Type 0} → (A → Type 0) → List A → Type 0
Some P [] = ⊥
Some P (x ∷ xs) = P x ⊎ Some P xs

abbrev pub says_variables : List SaysAssertion → ℕ
says_variables [] = 0
says_variables (says ∷ rest) = assertions_variables says.assertions + says_variables rest

abbrev pub queries_variables : List Query → ℕ
queries_variables [] = 0
queries_variables (q ∷ qs) = fact_variables q.fact + queries_variables qs

-- The head of the rule for a query.
abbrev pub query_head : Query → Predicate
query_head q = record { name = q.name; args = "\"dummy_var\"" ∷ []; sign = positive }

-- The rule asks what the principal of the query says.
abbrev pub Asks : Query → Rule → Type 0
Asks q r =
    (r.lhs ≡ query_head q)
    × ((p : Predicate) × (r.rhs ≡ push_principal "says_" q.principal p ∷ dummy_predicate ∷ []))

-- A rule for each query, in order.
abbrev pub AsksAll : List Query → List Rule → Type 0
AsksAll [] [] = Unit
AsksAll [] (r ∷ rs) = ⊥
AsksAll (q ∷ qs) [] = ⊥
AsksAll (q ∷ qs) (r ∷ rs) = Asks q r × AsksAll qs rs

abbrev pub SaidByOne : List SaysAssertion → Rule → Type 0
SaidByOne blocks r = Some (λ says. SaidBy says.principal r) blocks

says_assertions_to_dlir-SaidByOne :
    (blocks : List SaysAssertion) (s : LoweringToDatalogPass)
    → s.fresh_var_count + says_variables blocks ≤ max_uint64
    → Takes (says_variables blocks) (All (SaidByOne blocks)) s (says_assertions_to_dlir blocks s)
unfolding says_assertions_to_dlir
says_assertions_to_dlir-SaidByOne [] s h = returns (omega arith, tt)
says_assertions_to_dlir-SaidByOne (says ∷ rest) s h =
    Returns-bind (says_assertion_to_dlir-SaidBy says s (omega arith)) λ (rules, t) (e, all).
      Returns-bind (says_assertions_to_dlir-SaidByOne rest t (omega arith)) λ (more, u) (e', all').
        returns (
          omega arith,
          All-append _ rules more (All-map _ _ rules (λ r h. inl h) all)
              (All-map _ _ more (λ r h. inr h) all'),
        )

query_to_dlir-Asks :
    (q : Query) (s : LoweringToDatalogPass)
    → s.fresh_var_count + fact_variables q.fact ≤ max_uint64
    → Takes (fact_variables q.fact) (Asks q) s (query_to_dlir q s)
unfolding query_to_dlir
query_to_dlir-Asks q s h =
    Returns-bind (fact_to_dlir-Takes q.principal q.fact s h)
      λ ((p, rules), t) (e, all). returns (e, (refl, (p, refl)))

queries_to_dlir-AsksAll :
    (qs : List Query) (s : LoweringToDatalogPass)
    → s.fresh_var_count + queries_variables qs ≤ max_uint64
    → Takes (queries_variables qs) (AsksAll qs) s (queries_to_dlir qs s)
unfolding queries_to_dlir query_to_dlir
queries_to_dlir-AsksAll [] s h = returns (omega arith, tt)
queries_to_dlir-AsksAll (q ∷ qs) s h =
    Returns-bind (query_to_dlir-Asks q s (omega arith)) λ (r, t) (e, asks).
      Returns-bind (queries_to_dlir-AsksAll qs t (omega arith))
        λ (rs, u) (e', all). returns (omega arith, (asks, all))

declaration_at_total :
    (ds : List RelationDeclaration) (i : ℕ)
    → i < length ds
    → Returns (λ _. Unit {0}) (declaration_at ds i)
unfolding declaration_at
declaration_at_total ds i h =
    let (d, at) = get_elem?_of_lt ds i h in rw (at, declaration_at) (returns tt)

previous_total :
    (d : RelationDeclaration) (i : ℕ) (ds : List RelationDeclaration)
    → 1 ≤ i
    → i ≤ suc (length ds)
    → Returns (λ _. Unit {0}) (if i == 1 then ok d else declaration_at ds (i - 2))
previous_total d i ds lo hi = elim (Bool-cases (i == 1)) [
  | inl first ↦ rw first (returns tt)
  | inr later ↦ rw later (declaration_at_total ds (i - 2) (ground arith))
]

-- The index `i - 2` is in range.
add_can_say_declarations_total :
    (d : RelationDeclaration) (i k : ℕ) (ds : List RelationDeclaration)
    → 1 ≤ i
    → i ≤ suc (length ds)
    → Returns (λ _. Unit {0}) (add_can_say_declarations d i k ds)
unfolding add_can_say_declarations
add_can_say_declarations_total d i zero ds lo hi = returns tt
add_can_say_declarations_total d i (suc k) ds lo hi =
    Returns-bind (previous_total d i ds lo hi) λ e _.
      let new = can_say_declaration i e in
      add_can_say_declarations_total d (suc i) k (ds ++ new ∷ []) (omega arith)
        (omega (arith, length-append ds (new ∷ [])))

can_say_loop_total :
    (env : List (String × RelationDeclaration)) (depths : List (String × ℕ))
    (ds : List RelationDeclaration)
    → Returns (λ _. Unit {0}) (can_say_loop env depths ds)
unfolding can_say_loop
can_say_loop_total env [] ds = returns tt
can_say_loop_total env ((name, zero) ∷ depths) ds = can_say_loop_total env depths ds
can_say_loop_total env ((name, suc k) ∷ depths) ds = elim (Option-cases (find env name)) [
  | inl absent ↦ rw (absent, can_say_loop) (can_say_loop_total env depths ds)
  | inr (d, there) ↦
      rw (there, can_say_loop)
        (Returns-bind (add_can_say_declarations_total d 1 (suc k) ds (omega arith) (omega arith))
          λ ds' _. can_say_loop_total env depths ds')
]

relation_declaration_to_dlir_total :
    (s : LoweringToDatalogPass) (ds : List RelationDeclaration)
    → Returns (λ _. Unit {0}) (relation_declaration_to_dlir s ds)
unfolding relation_declaration_to_dlir get_can_say_declarations
relation_declaration_to_dlir_total s ds =
    Returns-bind (can_say_loop_total _ s.can_say_depth []) λ r _. returns tt

-- If the variables that the program needs fit a 64-bit counter, the lowering returns; its outputs
-- are the names of the queries in order, and its rules are those that the principal of one of the
-- blocks says, then for each query in order a rule with its name that asks what its principal says,
-- and the fact that grounds the dummy variable.
pub prog_to_dlir-SaidByOne :
    (program : AuthProgram)
    → says_variables program.says_assertions + queries_variables program.queries ≤ max_uint64
    → Returns
        (λ p.
          (p.outputs ≡ map (λ q. q.name) program.queries)
          × ((said : List Rule) × (asked : List Rule) × (p.rules
                ≡ said ++ asked ++ record { lhs = dummy_predicate; rhs = [] } ∷ [])
              × All (SaidByOne program.says_assertions) said
              × AsksAll program.queries asked))
        (prog_to_dlir program)
unfolding prog_to_dlir
prog_to_dlir-SaidByOne program h =
    let s : LoweringToDatalogPass = record { fresh_var_count = 0; can_say_depth = [] } in
    Returns-bind (says_assertions_to_dlir-SaidByOne program.says_assertions s (omega arith))
      λ (said, t) (e, all).
        Returns-bind (queries_to_dlir-AsksAll program.queries t (omega arith))
          λ (asked, u) (e', asks).
            Returns-bind (relation_declaration_to_dlir_total u program.relation_declarations)
              λ ds _. returns (refl, (said, asked, refl, all, asks))
