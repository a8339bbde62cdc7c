-- ===== src/Sql/PolicyRules/Ranges.antt =====
-- The indices that src/frontends/sql/decode_sql_policy_rules.cc reads from operations are in range.
use raksha.Common.{
  ℕ, zero, suc, ◌+◌, ◌≤◌, ◌<◌, String, true, List, [], ◌∷◌, ok, check, length, ◌==◌, string_eq,
  nat_eq, ◌≡◌, refl, arith, All, >>=-eq-ok, ok-injective, subst, Bool-cases, inl, inr, ◌&&◌, leb,
  ltb, not, is_empty, true_of_check,
}
use raksha.Common.Maps.{All-try_insert, try_insert}
use raksha.Common.Sets.{contains}
use raksha.Ir.Attributes.{
  Attribute, int64_attribute, string_attribute, float_attribute, pos, negsuc, get_if_int64,
  NamedAttributeMap,
}
use raksha.Ir.Modules.{Operation}
use raksha.Sql.Ops.{
  precondition_index, add_precondition_indices, get_precondition_input_indices, rule_name_attribute,
  get_transformed_value_index, max_int64,
}
use raksha.Sql.PolicyRules.{numbers_from}

pub numbers_from-All : (i n k : ℕ) → i + n ≤ k → All (λ j. j < k) (numbers_from i n)
unfolding numbers_from
numbers_from-All i zero k h = tt
numbers_from-All i (suc n) k h = (omega arith, numbers_from-All (suc i) n k (omega arith))

pub contains-numbers_from : (i n t : ℕ) → i ≤ t → t < i + n → contains (numbers_from i n) t ≡ true
unfolding numbers_from contains
contains-numbers_from i zero t low high = absurd (omega arith)
contains-numbers_from i (suc n) t low high = elim (Bool-cases (i == t)) [
  | inl same ↦ rw same refl
  | inr differ ↦
      let above : suc i ≤ t = ground (arith, differ) in
      let rest = contains-numbers_from (suc i) n t above (omega arith) in ground (arith, rest)
]

precondition_index-lt : (size i : ℕ) (a : Attribute) → precondition_index size a ≡ ok i → i < size
unfolding precondition_index get_if_int64
precondition_index-lt size i (int64_attribute (pos n)) h =
    let (_, checked, e) = >>=-eq-ok (check (leb 1 n && ltb n size && leb size max_int64)) _ h in
    let given = true_of_check _ checked in
    let same = ok-injective e in subst (λ i. i < size) same (ground (arith, given))
precondition_index-lt size i (int64_attribute (negsuc n)) h = cc
precondition_index-lt size i (string_attribute s) h = cc
precondition_index-lt size i (float_attribute f) h = cc

add_precondition_indices-lt :
    (size : ℕ) (attributes : NamedAttributeMap) (result out : List (String × ℕ))
    → All (λ p. p.1 < size) result
    → add_precondition_indices size attributes result ≡ ok out
    → All (λ p. p.1 < size) out
unfolding add_precondition_indices
add_precondition_indices-lt size [] result out all h =
    subst (All (λ p. p.1 < size)) (ok-injective h) all
add_precondition_indices-lt size ((name, a) ∷ attributes) result out all h =
    elim (Bool-cases (name == rule_name_attribute)) [
      | inl skip ↦
          add_precondition_indices-lt size attributes result out all
            (rw (skip, add_precondition_indices) at h)
      | inr other ↦
          let (i, run, rest) =
            >>=-eq-ok (precondition_index size a) _ (rw (other, add_precondition_indices) at h) in
          add_precondition_indices-lt size attributes (try_insert result name i) out
            (All-try_insert (λ p. p.1 < size) result name i all
              (precondition_index-lt size i a run))
            rest
    ]

pub get_precondition_input_indices-lt :
    (o : Operation) (indices : List (String × ℕ))
    → get_precondition_input_indices o ≡ ok indices
    → All (λ p. p.1 < length o.inputs) indices
unfolding get_precondition_input_indices
get_precondition_input_indices-lt o indices h =
    add_precondition_indices-lt (length o.inputs) o.attributes [] indices tt h

pub get_transformed_value_index-lt :
    (o : Operation) (i : ℕ) → get_transformed_value_index o ≡ ok i → i < length o.inputs
unfolding get_transformed_value_index
get_transformed_value_index-lt o i h =
    let (_, checked, e) = >>=-eq-ok (check (not (is_empty o.inputs))) _ h in
    let given = true_of_check _ checked in
    subst (λ i. i < length o.inputs) (ok-injective e) (ground (arith, given))
