-- ===== src/AuthLogic/Lowering.antt =====
-- src/ir/auth_logic/lowering_ast_datalog.{h,cc}, the rules: `LoweringToDatalogPass`. The members of the
-- pass are a record that each function takes and returns.
pub mod Speakers
pub mod Delegation
pub mod Fresh
use raksha.Common.{
  ℕ, suc, String, ◌<>◌, List, [], ◌∷◌, ◌++◌, none, some, Outcome, ok, ◌>>=◌, ◌>>◌, check, ltb,
  length, string_eq, if◌then◌else◌,
}
use raksha.Common.Maps.{find, assign, try_insert}
use raksha.Common.Text.{to_string}
use raksha.AuthLogic.Datalog.{positive, Predicate, Rule}
use raksha.AuthLogic.Ast.{
  Principal, Attribute, CanActAs, BaseFact, predicate, attribute, can_act_as, Fact, Assertion, fact,
  conditional, SaysAssertion,
}

pub record LoweringToDatalogPass : Type 0 where
  pub fresh_var_count : ℕ
  pub can_say_depth : List (String × ℕ)

-- A member function that may stop at a failed `CHECK`.
abbrev pub Lowered : Type 0 → Type 0
Lowered A = LoweringToDatalogPass → Outcome (A × LoweringToDatalogPass)

unfoldable pub push_onto_predicate : String → List String → Predicate → Predicate
push_onto_predicate modifier new_args p = record {
  name = modifier <> p.name;
  args = new_args ++ p.args;
  sign = p.sign;
}

unfoldable pub push_principal : String → Principal → Predicate → Predicate
unfolding push_onto_predicate
push_principal modifier p q = push_onto_predicate modifier (p.name ∷ []) q

unfoldable pub attribute_to_dlir : Attribute → Predicate
unfolding push_principal
attribute_to_dlir a = push_principal "" a.principal a.predicate

unfoldable pub can_act_as_to_dlir : CanActAs → Predicate
can_act_as_to_dlir c = record {
  name = "canActAs";
  args = c.left_principal.name ∷ c.right_principal.name ∷ [];
  sign = positive;
}

-- `std::numeric_limits<uint64_t>::max()`
abbrev pub max_uint64 : ℕ
max_uint64 = 18446744073709551615

unfoldable pub fresh_var : Lowered String
fresh_var s = do
  check (ltb s.fresh_var_count max_uint64)
  let n = suc s.fresh_var_count
  ok ("x__" <> to_string n, record s { fresh_var_count = n })

unfoldable pub max : ℕ → ℕ → ℕ
max m n = if ltb m n then n else m

unfoldable pub update_can_say_depth : String → ℕ → LoweringToDatalogPass → LoweringToDatalogPass
unfolding max
update_can_say_depth predicate_name depth s = elim (find s.can_say_depth predicate_name) [
  | none ↦ record s { can_say_depth = try_insert s.can_say_depth predicate_name depth }
  | some old ↦ record s { can_say_depth = assign s.can_say_depth predicate_name (max depth old) }
]

unfoldable pub spoken_attribute_to_dlir : Principal → Attribute → Lowered Rule
unfolding attribute_to_dlir can_act_as_to_dlir
spoken_attribute_to_dlir speaker a s = do
  (y, s) ← fresh_var s
  let prin_y : Principal = record { name = y }
  let y_pred_x = attribute_to_dlir (record { principal = prin_y; predicate = a.predicate })
  let y_can_act_as_x =
      can_act_as_to_dlir (record { left_principal = prin_y; right_principal = a.principal })
  ok (
    record {
      lhs = push_principal "says_" speaker y_pred_x;
      rhs =
          push_principal "says_" speaker y_can_act_as_x
          ∷ push_principal "says_" speaker (attribute_to_dlir a)
          ∷ [];
    },
    s,
  )

unfoldable pub spoken_can_act_as_to_dlir : Principal → CanActAs → Lowered Rule
unfolding can_act_as_to_dlir
spoken_can_act_as_to_dlir speaker c s = do
  (y, s) ← fresh_var s
  let prin_y : Principal = record { name = y }
  let y_can_act_as_z =
      can_act_as_to_dlir (record { left_principal = prin_y; right_principal = c.right_principal })
  let y_can_act_as_x =
      can_act_as_to_dlir (record { left_principal = prin_y; right_principal = c.left_principal })
  ok (
    record {
      lhs = push_principal "says_" speaker y_can_act_as_z;
      rhs =
          push_principal "says_" speaker y_can_act_as_x
          ∷ push_principal "says_" speaker (can_act_as_to_dlir c)
          ∷ [];
    },
    s,
  )

-- `BaseFactToDLIR` and its three helpers.
unfoldable pub base_fact_to_dlir : Principal → BaseFact → Lowered (Predicate × List Rule)
unfolding attribute_to_dlir can_act_as_to_dlir spoken_attribute_to_dlir spoken_can_act_as_to_dlir
base_fact_to_dlir speaker (predicate p) s = ok ((p, []), s)
base_fact_to_dlir speaker (attribute a) s = do
  (rule, s) ← spoken_attribute_to_dlir speaker a s
  ok ((attribute_to_dlir a, rule ∷ []), s)
base_fact_to_dlir speaker (can_act_as c) s = do
  (rule, s) ← spoken_can_act_as_to_dlir speaker c s
  ok ((can_act_as_to_dlir c, rule ∷ []), s)

-- The rule that delegates: `speaker says p :- x says p, speaker says x canSay p`.
unfoldable pub delegation_rule : Principal → Principal → Predicate → Rule
unfolding push_principal
delegation_rule speaker x p = record {
  lhs = push_principal "says_" speaker p;
  rhs =
      push_principal "says_" x p
      ∷ push_principal "says_" speaker (push_principal "canSay_" x p)
      ∷ [];
}

-- The loop over the delegation chain.
unfoldable pub delegate :
    Principal → List Principal → Predicate × List Rule → Lowered (Predicate × List Rule)
unfolding fresh_var delegation_rule
delegate speaker [] (inner, rules) s = ok ((inner, rules), s)
delegate speaker (delegatee ∷ chain) (inner, rules) s = do
  (x, s) ← fresh_var s
  let rule = delegation_rule speaker (record { name = x }) inner
  delegate speaker chain (push_principal "canSay_" delegatee inner, rules ++ rule ∷ []) s

unfoldable pub fact_to_dlir : Principal → Fact → Lowered (Predicate × List Rule)
unfolding base_fact_to_dlir delegate update_can_say_depth
fact_to_dlir speaker f s = do
  ((base, rules), s) ← base_fact_to_dlir speaker f.base_fact s
  (result, s) ← delegate speaker f.delegation_chain (base, rules) s
  ok (result, update_can_say_depth base.name (length f.delegation_chain) s)

-- `GenerateDLIRAssertions` for the two kinds of assertion; the first call of it for `rhs` drops the
-- rules that it generates.
map_base_facts : Principal → List BaseFact → Lowered (List Predicate)
unfolding base_fact_to_dlir
map_base_facts speaker [] s = ok ([], s)
map_base_facts speaker (b ∷ bs) s = do
  ((p, _), s) ← base_fact_to_dlir speaker b s
  (ps, s) ← map_base_facts speaker bs s
  ok (push_principal "says_" speaker p ∷ ps, s)

unfoldable pub single_says_assertion_to_dlir : Principal → Assertion → Lowered (List Rule)
unfolding fact_to_dlir map_base_facts
single_says_assertion_to_dlir speaker (fact f) s = do
  ((p, rules), s) ← fact_to_dlir speaker f s
  ok (rules ++ record { lhs = push_principal "says_" speaker p; rhs = [] } ∷ [], s)
single_says_assertion_to_dlir speaker (conditional c) s = do
  (rhs, s) ← map_base_facts speaker c.rhs s
  ((p, rules), s) ← fact_to_dlir speaker c.lhs s
  ok (rules ++ record { lhs = push_principal "says_" speaker p; rhs = rhs } ∷ [], s)

assertions_to_dlir : Principal → List Assertion → Lowered (List Rule)
unfolding single_says_assertion_to_dlir
assertions_to_dlir speaker [] s = ok ([], s)
assertions_to_dlir speaker (a ∷ rest) s = do
  (rules, s) ← single_says_assertion_to_dlir speaker a s
  (more, s) ← assertions_to_dlir speaker rest s
  ok (rules ++ more, s)

unfoldable pub says_assertion_to_dlir : SaysAssertion → Lowered (List Rule)
unfolding assertions_to_dlir
says_assertion_to_dlir says = assertions_to_dlir says.principal says.assertions

unfoldable pub says_assertions_to_dlir : List SaysAssertion → Lowered (List Rule)
unfolding says_assertion_to_dlir
says_assertions_to_dlir [] s = ok ([], s)
says_assertions_to_dlir (says ∷ rest) s = do
  (rules, s) ← says_assertion_to_dlir says s
  (more, s) ← says_assertions_to_dlir rest s
  ok (rules ++ more, s)
