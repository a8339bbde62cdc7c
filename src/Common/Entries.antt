-- ===== src/Common/Entries.antt =====
-- An entry in the middle of a map, for loops that treat the entries in order.
use raksha.Common.Equality.{Eq, ◌==◌, Bool-cases}
use raksha.Common.Maps.{find, assign, keys, find_of_contains-keys}
use raksha.Common.Sets.{contains, contains-append}
use mathlib.Core.Logic.{inl, inr}
use mathlib.Core.Path.{◌≡◌, refl, subst, ap}
use mathlib.Core.Bool.{true, false}
use mathlib.Core.Option.{none, some}
use mathlib.Core.List.{List, [], ◌∷◌, ◌++◌}
use native.Mathlib.Omega.{arith}

-- No item is listed twice.
abbrev pub Distinct {ℓ} : {A : Type ℓ} ⦃e : Eq A⦄ → List A → Type 0
Distinct [] = Unit
Distinct (x ∷ xs) = (contains xs x ≡ false) × Distinct xs

pub Distinct-left {ℓ} : {A : Type ℓ} ⦃e : Eq A⦄ (xs ys : List A) → Distinct (xs ++ ys) → Distinct xs
unfolding contains
Distinct-left [] ys h = tt
Distinct-left (x ∷ xs) ys (new, h) =
    (ground (arith, contains-append xs ys x, new), Distinct-left xs ys h)

pub contains-before {ℓ} :
    {A : Type ℓ} ⦃e : Eq A⦄ (xs ys : List A) (x : A)
    → Distinct (xs ++ x ∷ ys)
    → contains xs x ≡ false
unfolding contains
contains-before [] ys x h = refl
contains-before ⦃e = e⦄ (z ∷ xs) ys x (new, h) = ground (
  arith,
  contains-before xs ys x h,
  contains-append xs (x ∷ ys) z,
  e.beq_iff z x,
  e.beq_iff x z,
  new,
)

module _ {ℓ κ} {K : Type ℓ} {V : Type κ} ⦃e : Eq K⦄ where
  pub find-middle :
      (m n : List (K × V)) (k : K) (v : V) → find m k ≡ none → find (m ++ (k, v) ∷ n) k ≡ some v
  unfolding find
  find-middle [] n k v h = ground (arith, e.beq_iff k k)
  find-middle ((j, w) ∷ m) n k v h = ground (arith, find-middle m n k v)

  pub assign-middle :
      (m n : List (K × V)) (k : K) (v w : V)
      → find m k ≡ none
      → assign (m ++ (k, v) ∷ n) k w ≡ m ++ (k, w) ∷ n
  unfolding find assign
  assign-middle [] n k v w h = ground (arith, e.beq_iff k k)
  assign-middle ((j, u) ∷ m) n k v w h = ground (arith, assign-middle m n k v w)

  pub find-before :
      (m n : List (K × V)) (k : K) (v : V) → Distinct (keys (m ++ (k, v) ∷ n)) → find m k ≡ none
  unfolding find
  find-before [] n k v h = refl
  find-before ((j, w) ∷ m) n k v (new, h) =
      let rest = find-before m n k v h in
      elim (Bool-cases (j == k)) [
        | inl same ↦ absurd (clash same (find-middle m n k v rest))
        | inr differ ↦ rw differ rest
      ]
    where
      clash : (j == k) ≡ true → find (m ++ (k, v) ∷ n) k ≡ some v → ⊥
      clash same there =
          let new' : find (m ++ (k, v) ∷ n) k ≡ none =
            subst (λ j. find (m ++ (k, v) ∷ n) j ≡ none) ((e.beq_iff j k).0 same)
              (find_of_contains-keys (m ++ (k, v) ∷ n) j new) in
          cc

  pub keys-middle :
      (m n : List (K × V)) (k : K) (v w : V) → keys (m ++ (k, v) ∷ n) ≡ keys (m ++ (k, w) ∷ n)
  keys-middle [] n k v w = refl
  keys-middle ((j, u) ∷ m) n k v w = ap (◌∷◌ j) (keys-middle m n k v w)
