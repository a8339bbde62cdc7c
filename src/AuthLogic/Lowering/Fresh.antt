-- ===== src/AuthLogic/Lowering/Fresh.antt =====
-- The fresh variables of src/ir/auth_logic/lowering_ast_datalog.h, `FreshVar`.
use raksha.Common.{
  suc, ◌≤◌, String, ◌<>◌, ◌≡◌, ◌≢◌, ◌∙◌, sym, ap, ok, check, >>=-eq-ok, ok-injective, ltb, arith,
}
use raksha.Common.Text.{to_string, to_string-injective}
use text.Mathlib.TextLemmas.{append_cancel_left}
use raksha.AuthLogic.Lowering.{LoweringToDatalogPass, fresh_var, max_uint64}

fresh_var-eq-ok :
    (s s' : LoweringToDatalogPass) (x : String)
    → fresh_var s ≡ ok (x, s')
    → (x ≡ "x__" <> to_string (suc s.fresh_var_count))
      × (s'.fresh_var_count ≡ suc s.fresh_var_count)
unfolding fresh_var
fresh_var-eq-ok s s' x h =
    let (_, _, e) = >>=-eq-ok (check (ltb s.fresh_var_count max_uint64)) _ h in
    let same = ok-injective e in
    (sym (ap (λ r. r.0) same), sym (ap (λ r. r.1.fresh_var_count) same))

-- A variable that is taken when the counter is at least what it was after an earlier one was taken
-- has another name than the earlier one.
pub fresh_var_distinct :
    (s s' t t' : LoweringToDatalogPass) (x y : String)
    → fresh_var s ≡ ok (x, s')
    → fresh_var t ≡ ok (y, t')
    → s'.fresh_var_count ≤ t.fresh_var_count
    → x ≢ y
fresh_var_distinct s s' t t' x y first later order same =
    let (is_x, count) = fresh_var-eq-ok s s' x first in
    let (is_y, _) = fresh_var-eq-ok t t' y later in
    let numbers = to_string-injective _ _ (append_cancel_left "x__" _ _ (sym is_x ∙ same ∙ is_y)) in
    omega (arith, numbers, count)
