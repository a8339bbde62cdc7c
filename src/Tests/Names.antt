-- ===== src/Tests/Names.antt =====
-- Names of values, made and added.
use raksha.Common.Maps.{find, assign, try_insert}
use raksha.Common.Text.{to_string}
use raksha.Common.{
  ◌>>=◌, Outcome, ℕ, String, ok, nat_eq, ◌≡◌, refl, ◌↔◌, ◌≢◌, Returns, fatal, Outcome, true,
}
use raksha.Ir.Values.{Value, value_eq, stored_value, value_beq}
use raksha.Ir.SsaNames.{
  make_ssa_names, make_id_manager, get_or_create_id, get_or_create_value_id, add_value_id, find_id,
}
use raksha.Ir.SsaNames.Distinct.{start, create, get_or_create_id-eq_iff, add_value_id_lem}

abbrev block_3 : ℕ
block_3 = 3

abbrev block_5 : ℕ
block_5 = 5

get_or_create_id-eq_iff_example :
    let m = (get_or_create_id (make_id_manager "b") block_3).0 in
    let r = get_or_create_id m block_5 in
    let s = get_or_create_id r.0 block_3 in (r.1 ≡ s.1) ↔ (block_5 ≡ block_3)
get_or_create_id-eq_iff_example =
    get_or_create_id-eq_iff (create block_3 (start "b")) block_5 block_3

abbrev v1 : Value
v1 = stored_value 1

abbrev w2 : Value
w2 = stored_value 2

is_new : find_id make_ssa_names.value_ids v1 ≡ true
unfolding find_id make_ssa_names find
is_new = refl

add_value_id_lem_example :
    Returns
      (λ r.
        (r.1 ≡ "%1")
        × (get_or_create_value_id r.0 v1 ≡ (r.0, "%1"))
        × (add_value_id r.0 v1 "%1" ≡ fatal)
        × ((w : Value) → w ≢ v1 → find_id r.0.value_ids w ≡ find_id make_ssa_names.value_ids w))
      (add_value_id make_ssa_names v1 "%1")
add_value_id_lem_example = add_value_id_lem make_ssa_names v1 "%1" is_new

-- The name of a value that a client added is made again for another value.
abbrev names_of_two_values : Outcome (String × String)
unfolding add_value_id get_or_create_value_id
names_of_two_values = do
  r ← add_value_id make_ssa_names v1 "%1"
  let s = get_or_create_value_id r.0 w2 in ok (r.1, s.1)

same_name : names_of_two_values ≡ ok ("%1", "%1")
unfolding add_value_id get_or_create_value_id make_ssa_names find assign try_insert value_eq
    value_beq to_string
same_name = refl
