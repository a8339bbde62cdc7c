-- ===== src/Common/Sets.antt =====
-- `absl::flat_hash_set` as a list without repeats. What the code observes of a set is `contains`.
use raksha.Common.Equality.{Eq, ◌==◌, beq_refl, if◌then◌else◌, Bool-cases}
use mathlib.Core.Path.{◌≡◌, refl, sym, ◌∙◌}
use mathlib.Core.Logic.{◌↔◌}
use mathlib.Core.Bool.{Bool, true, false, not, ◌&&◌, ◌||◌}
use mathlib.Core.List.{List, [], ◌∷◌, ◌++◌}
use native.Mathlib.Omega.{arith}

module _ {ℓ} {A : Type ℓ} ⦃e : Eq A⦄ where
  unfoldable pub contains : List A → A → Bool
  contains [] a = false
  contains (x ∷ xs) a = x == a || contains xs a

  unfoldable pub insert : List A → A → List A
  unfolding contains
  insert xs a = if contains xs a then xs else xs ++ a ∷ []

  unfoldable pub erase : List A → A → List A
  erase [] a = []
  erase (x ∷ xs) a = let rest = erase xs a in if x == a then rest else x ∷ rest

  -- `absl::c_copy` of the second set into the first.
  unfoldable pub union : List A → List A → List A
  unfolding insert
  union xs [] = xs
  union xs (y ∷ ys) = union (insert xs y) ys

  -- The items of the first set that the second contains, inserted one by one.
  unfoldable pub inter : List A → List A → List A
  unfolding contains
  inter [] ys = []
  inter (x ∷ xs) ys = let rest = inter xs ys in if contains ys x then x ∷ rest else rest

  unfoldable pub subset : List A → List A → Bool
  unfolding contains
  subset [] ys = true
  subset (x ∷ xs) ys = contains ys x && subset xs ys

  -- `operator==` of two sets
  unfoldable pub set_eq : List A → List A → Bool
  unfolding subset
  set_eq xs ys = subset xs ys && subset ys xs

  pub contains-append :
      (xs ys : List A) (a : A) → contains (xs ++ ys) a ≡ (contains xs a || contains ys a)
  unfolding contains
  contains-append [] ys a = refl
  contains-append (x ∷ xs) ys a = ground (arith, contains-append xs ys a)

  pub contains-insert :
      (xs : List A) (b a : A) → contains (insert xs b) a ≡ (contains xs a || b == a)
  unfolding insert contains
  contains-insert xs b a = ground (arith, contains-append xs (b ∷ []) a, e.beq_iff b a)

  pub contains-erase :
      (xs : List A) (b a : A) → contains (erase xs b) a ≡ (contains xs a && not (b == a))
  unfolding contains erase
  contains-erase [] b a = refl
  contains-erase (x ∷ xs) b a =
      ground (arith, contains-erase xs b a, e.beq_iff x a, e.beq_iff x b, e.beq_iff b a)

  pub insert_present : (xs : List A) (a : A) → contains xs a ≡ true → insert xs a ≡ xs
  unfolding insert
  insert_present xs a h = rw h

  pub erase-append_new : (xs : List A) (a : A) → contains xs a ≡ false → erase (xs ++ a ∷ []) a ≡ xs
  unfolding contains erase
  erase-append_new [] a h = ground (arith, beq_refl a)
  erase-append_new (x ∷ xs) a h = ground (arith, erase-append_new xs a)

  pub erase-insert_new : (xs : List A) (a : A) → contains xs a ≡ false → erase (insert xs a) a ≡ xs
  unfolding insert
  erase-insert_new xs a h = rw h (erase-append_new xs a h)

  pub contains-union :
      (xs ys : List A) (a : A) → contains (union xs ys) a ≡ (contains xs a || contains ys a)
  unfolding union
  contains-union xs [] a = unfold contains in ground arith
  contains-union xs (y ∷ ys) a =
      unfold contains in ground (arith, contains-union (insert xs y) ys a, contains-insert xs y a)

  pub contains-inter :
      (xs ys : List A) (a : A) → contains (inter xs ys) a ≡ (contains xs a && contains ys a)
  unfolding inter contains
  contains-inter [] ys a = refl
  contains-inter (x ∷ xs) ys a = ground (arith, contains-inter xs ys a, e.beq_iff x a)

  pub subset_sound :
      (xs ys : List A) → subset xs ys ≡ true → (a : A) → contains xs a ≡ true → contains ys a ≡ true
  unfolding subset contains
  subset_sound [] ys h a m = cc
  subset_sound (x ∷ xs) ys h a m = ground (arith, subset_sound xs ys _ a, e.beq_iff x a)

  pub subset_complete :
      (xs ys : List A)
      → ((a : A) → contains xs a ≡ true → contains ys a ≡ true)
      → subset xs ys ≡ true
  unfolding subset contains
  subset_complete [] ys h = refl
  subset_complete (x ∷ xs) ys h = ground (
    arith,
    h x,
    beq_refl x,
    subset_complete xs ys (λ a m. h a (ground (arith, Bool-cases (x == a)))),
  )

  abbrev pub SameItems : List A → List A → Type ℓ
  SameItems xs ys = (a : A) → contains xs a ≡ contains ys a

  pub set_eq_iff : (xs ys : List A) → (set_eq xs ys ≡ true) ↔ SameItems xs ys
  unfolding set_eq
  set_eq_iff xs ys = (
    λ h a. ground (arith, subset_sound xs ys (ground arith) a, subset_sound ys xs (ground arith) a),
    λ same. ground (
      arith,
      subset_complete xs ys (λ a m. sym (same a) ∙ m),
      subset_complete ys xs (λ a m. same a ∙ m),
    ),
  )
