-- ===== src/AuthLogic/Environments/Typing.antt =====
-- The types that src/ir/auth_logic/type_environment.cc has for the constants of a program when it returns.
use raksha.Common.{
  ℕ, suc, get_elem?, beq_refl, String, true, List, [], ◌∷◌, ◌≡◌, refl, sym, ap, ◌∙◌, subst, none,
  some, ok, ◌>>=◌, check, fold_m, ◌==◌, nat_eq, string_eq, All, >>=-eq-ok, ok-injective,
  true_of_check, Bool-cases, Option-cases, inl, inr, beq_refl, All-map,
}
use raksha.Common.Maps.{find, try_insert, find-try_insert_new}
use raksha.AuthLogic.Datalog.{ArgumentType, number, principal, Argument, RelationDeclaration}
use raksha.AuthLogic.Visiting.{Leaf, declared, acting, applied}
use raksha.AuthLogic.Environments.{
  Platform, is_name_constant, DeclarationMap, get_declaration_or_fatal, argument_type_beq,
  argument_type_beq_iff, is_numeric_operator, LiteralTypeMap, add_typing, add_typings, false,
  make_type_environment, visit_leaf, AuthProgram, visit_program, parameter_type,
}

-- Every entry is kept.
abbrev pub Extends : {V : Type 0} → List (String × V) → List (String × V) → Type 0
Extends {V} m n = (k : String) (v : V) → find m k ≡ some v → find n k ≡ some v

pub try_insert-Extends :
    {V : Type 0} (m : List (String × V)) (k : String) (v : V)
    → find m k ≡ none
    → Extends m (try_insert m k v) × (find (try_insert m k v) k ≡ some v)
try_insert-Extends m k v new = (
  λ j w there. elim (Bool-cases (k == j)) [
    | inl same ↦ absurd (
        let found : find m k ≡ some w = rw ((string_eq.beq_iff k j).0 same) there in
        let both = sym new ∙ found in cc)
    | inr differ ↦ rw (find-try_insert_new m k v j new, differ) there
  ],
  rw (find-try_insert_new m k v k new, beq_refl k) refl,
)

module _ (platform : Platform) where
  -- A constant has the type.
  abbrev pub HasType : LiteralTypeMap → String → ArgumentType → Type 0
  HasType types name t = is_name_constant platform name ≡ true → find types name ≡ some t

  add_typing_lem :
      (types types' : LiteralTypeMap) (name : String) (t : ArgumentType)
      → add_typing platform types name t ≡ ok types'
      → Extends types types' × HasType types' name t
  unfolding add_typing
  add_typing_lem types types' name t h = elim (Bool-cases (is_name_constant platform name)) [
    | inr variable ↦
        let same : types ≡ types' = ok-injective (rw variable at h) in
        (subst (Extends types) same (λ k v e. e), λ c. absurd (let both = sym c ∙ variable in cc))
    | inl constant ↦ elim (Option-cases (find types name)) [
      | inl new ↦
          let same : try_insert types name t ≡ types' =
            ok-injective (rw (constant, new, add_typing) at h) in
          let (e, f) = try_insert-Extends types name t new in
          subst (λ m. Extends types m × HasType m name t) same (e, λ c. f)
      | inr (old, there) ↦
          let h' : (check (argument_type_beq old t) >>= λ _. ok types) ≡ ok types' =
            rw (constant, there, add_typing) at h in
          let (_, checked, rest) = >>=-eq-ok (check (argument_type_beq old t)) _ h' in
          let same : types ≡ types' = ok-injective rest in
          let old_is : old ≡ t = (argument_type_beq_iff old t).0 (true_of_check _ checked) in
          subst (λ m. Extends types m × HasType m name t) same
            (λ k v e. e, λ c. there ∙ ap some old_is)
    ]
  ]

  -- Each argument, from index `i` on, has the type of the parameter at its place, if there is one.
  abbrev pub HaveTypes : LiteralTypeMap → ℕ → List String → List Argument → Type 0
  HaveTypes types i [] parameters = Unit
  HaveTypes types i (arg ∷ args) parameters =
      ((p : Argument) → get_elem? parameters i ≡ some p → HasType types arg p.argument_type)
      × HaveTypes types (suc i) args parameters

  HasType-Extends :
      (types types' : LiteralTypeMap) (name : String) (t : ArgumentType)
      → Extends types types'
      → HasType types name t
      → HasType types' name t
  HasType-Extends types types' name t e h = λ c. e name t (h c)

  HaveTypes-Extends :
      (types types' : LiteralTypeMap) (i : ℕ) (args : List String) (parameters : List Argument)
      → Extends types types'
      → HaveTypes types i args parameters
      → HaveTypes types' i args parameters
  HaveTypes-Extends types types' i [] parameters e h = tt
  HaveTypes-Extends types types' i (arg ∷ args) parameters e (h, hs) = (
    λ p there c. e arg _ (h p there c),
    HaveTypes-Extends types types' (suc i) args parameters e hs,
  )

  parameter_type-there :
      (parameters : List Argument) (i : ℕ) (p : Argument) (t : ArgumentType)
      → get_elem? parameters i ≡ some p
      → parameter_type platform parameters i ≡ ok t
      → t ≡ p.argument_type
  unfolding parameter_type
  parameter_type-there parameters i p t there h =
      sym (ok-injective (rw (there, parameter_type) at h))

  add_typings_lem :
      (types types' : LiteralTypeMap) (i : ℕ) (args : List String) (parameters : List Argument)
      → add_typings platform types i args parameters ≡ ok types'
      → Extends types types' × HaveTypes types' i args parameters
  unfolding add_typings
  add_typings_lem types types' i [] parameters h =
      (subst (Extends types) (ok-injective h) (λ k v e. e), tt)
  add_typings_lem types types' i (arg ∷ args) parameters h =
      let (t, read, h1) = >>=-eq-ok (parameter_type platform parameters i) _ h in
      let (mid, first, rest) = >>=-eq-ok (add_typing platform types arg t) _ h1 in
      let (e, typed) = add_typing_lem types mid arg t first in
      let (e', all) = add_typings_lem mid types' (suc i) args parameters rest in
      (
        λ k v x. e' k v (e k v x),
        (
          λ p there c.
              e' arg _ (typed c ∙ ap some (parameter_type-there parameters i p t there read)),
          all,
        ),
      )

  add_number_typings_lem :
      (types types' : LiteralTypeMap) (args : List String)
      → fold_m (λ m arg. add_typing platform m arg number) types args ≡ ok types'
      → Extends types types' × All (λ arg. HasType types' arg number) args
  add_number_typings_lem types types' [] h =
      (subst (Extends types) (ok-injective h) (λ k v e. e), tt)
  add_number_typings_lem types types' (arg ∷ args) h =
      let (mid, first, rest) = >>=-eq-ok (add_typing platform types arg number) _ h in
      let (e, typed) = add_typing_lem types mid arg number first in
      let (e', all) = add_number_typings_lem mid types' args rest in
      (λ k v x. e' k v (e k v x), (λ c. e' arg _ (typed c), all))

  -- What the type environment says of a leaf of the program.
  abbrev pub IsTyped : DeclarationMap → LiteralTypeMap → Leaf → Type 0
  IsTyped env types (declared d) = Unit
  IsTyped env types (acting p) = HasType types p.name principal
  IsTyped env types (applied p) =
      (is_numeric_operator p ≡ true → All (λ arg. HasType types arg number) p.args)
      × (is_numeric_operator p ≡ false
          → (d : RelationDeclaration) × (get_declaration_or_fatal env p.name ≡ ok d)
            × HaveTypes types 0 p.args d.arguments)

  IsTyped-Extends :
      (env : DeclarationMap) (types types' : LiteralTypeMap) (leaf : Leaf)
      → Extends types types'
      → IsTyped env types leaf
      → IsTyped env types' leaf
  IsTyped-Extends env types types' (declared d) e h = tt
  IsTyped-Extends env types types' (acting p) e h = λ c. e p.name principal (h c)
  IsTyped-Extends env types types' (applied p) e (n, r) = (
    λ c. All-map _ _ p.args (λ arg t x. e arg number (t x)) (n c),
    λ c.
        let (d, got, typed) = r c in
        (d, got, HaveTypes-Extends types types' 0 p.args d.arguments e typed),
  )

  visit_leaf-IsTyped :
      (env : DeclarationMap) (types types' : LiteralTypeMap) (leaf : Leaf)
      → visit_leaf platform env types leaf ≡ ok types'
      → Extends types types' × IsTyped env types' leaf
  unfolding visit_leaf
  visit_leaf-IsTyped env types types' (declared d) h =
      (subst (Extends types) (ok-injective h) (λ k v e. e), tt)
  visit_leaf-IsTyped env types types' (acting p) h = add_typing_lem types types' p.name principal h
  visit_leaf-IsTyped env types types' (applied p) h = elim (Bool-cases (is_numeric_operator p)) [
    | inl numeric ↦
        let (e, all) = add_number_typings_lem types types' p.args (rw (numeric, visit_leaf) at h) in
        (e, (λ _. all, λ c. absurd (let both = sym numeric ∙ c in cc)))
    | inr relation ↦
        let (d, got, rest) =
          >>=-eq-ok (get_declaration_or_fatal env p.name) _ (rw (relation, visit_leaf) at h) in
        let (e, typed) = add_typings_lem types types' 0 p.args d.arguments rest in
        (e, (λ c. absurd (let both = sym c ∙ relation in cc), λ _. (d, got, typed)))
  ]

  fold-IsTyped :
      (env : DeclarationMap) (types types' : LiteralTypeMap) (leaves : List Leaf)
      → fold_m (visit_leaf platform env) types leaves ≡ ok types'
      → Extends types types' × All (IsTyped env types') leaves
  fold-IsTyped env types types' [] h = (subst (Extends types) (ok-injective h) (λ k v e. e), tt)
  fold-IsTyped env types types' (leaf ∷ leaves) h =
      let (mid, first, rest) = >>=-eq-ok (visit_leaf platform env types leaf) _ h in
      let (e, typed) = visit_leaf-IsTyped env types mid leaf first in
      let (e', all) = fold-IsTyped env mid types' leaves rest in
      (λ k v x. e' k v (e k v x), (IsTyped-Extends env mid types' leaf e' typed, all))

  -- When the type environment of a program is made, every constant that acts as a principal has the
  -- principal type in it, every constant argument of a numeric comparison the number type, and
  -- every other predicate has a declaration, and each of its constant arguments has the type of the
  -- parameter at the place of the argument, if there is one.
  pub make_type_environment-IsTyped :
      (env : DeclarationMap) (program : AuthProgram) (types : LiteralTypeMap)
      → make_type_environment platform env program ≡ ok types
      → All (IsTyped env types) (visit_program program)
  unfolding make_type_environment
  make_type_environment-IsTyped env program types h =
      (fold-IsTyped env [] types (visit_program program) h).1
