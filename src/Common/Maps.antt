-- ===== src/Common/Maps.antt =====
-- `absl::flat_hash_map` as an association list, in the order of insertion.
use raksha.Common.Equality.{Eq, ◌==◌, if◌then◌else◌, Bool-cases, Option-cases}
use mathlib.Core.Logic.{◌⊎◌, inl, inr}
use raksha.Common.Checks.{Outcome, ok, fatal, ok-injective}
use raksha.Common.Sets.{contains}
use mathlib.Core.Bool.{false}
use raksha.Common.Lists.{length, All}
use Prim.Native.Nat.{suc}
use mathlib.Core.Path.{◌≡◌, refl, subst, ap, sym, ◌∙◌}
use mathlib.Core.Option.{Option, none, some, some-injective}
use mathlib.Core.List.{List, [], ◌∷◌, ◌++◌}
use native.Mathlib.Omega.{arith}

module _ {ℓ κ} {K : Type ℓ} {V : Type κ} ⦃e : Eq K⦄ where
  unfoldable pub find : List (K × V) → K → Option V
  find [] k = none
  find ((j, v) ∷ m) k = if j == k then some v else find m k

  -- `insert_or_assign`
  unfoldable pub assign : List (K × V) → K → V → List (K × V)
  assign [] k v = (k, v) ∷ []
  assign ((j, w) ∷ m) k v = if j == k then (k, v) ∷ m else (j, w) ∷ assign m k v

  -- `insert`, which leaves an entry alone that is there
  unfoldable pub try_insert : List (K × V) → K → V → List (K × V)
  try_insert [] k v = (k, v) ∷ []
  try_insert ((j, w) ∷ m) k v = if j == k then (j, w) ∷ m else (j, w) ∷ try_insert m k v

  pub find-assign :
      (m : List (K × V)) (k : K) (v : V) (j : K)
      → find (assign m k v) j ≡ (if k == j then some v else find m j)
  unfolding find assign
  find-assign [] k v j = refl
  find-assign ((i, w) ∷ m) k v j =
      ground (arith, find-assign m k v j, e.beq_iff i k, e.beq_iff i j, e.beq_iff k j)

  pub find-try_insert :
      (m : List (K × V)) (k : K) (v : V) (j : K)
      → find (try_insert m k v) j
        ≡ (if k == j then (elim (find m k) [ some w ↦ some w | none ↦ some v ]) else find m j)
  unfolding find try_insert
  find-try_insert [] k v j = refl
  find-try_insert ((i, w) ∷ m) k v j =
      ground (arith, find-try_insert m k v j, e.beq_iff i k, e.beq_iff i j, e.beq_iff k j)

  pub find-try_insert_new :
      (m : List (K × V)) (k : K) (v : V) (j : K)
      → find m k ≡ none
      → find (try_insert m k v) j ≡ (if k == j then some v else find m j)
  find-try_insert_new m k v j h = rw (find-try_insert, h)

  pub length-try_insert :
      (m : List (K × V)) (k : K) (v : V)
      → find m k ≡ none
      → length (try_insert m k v) ≡ suc (length m)
  unfolding find try_insert
  length-try_insert [] k v h = refl
  length-try_insert ((i, w) ∷ m) k v h = ground (arith, length-try_insert m k v)

  pub try_insert_old :
      (m : List (K × V)) (k : K) (v w : V) → find m k ≡ some w → try_insert m k v ≡ m
  unfolding find try_insert
  try_insert_old [] k v w h = cc
  try_insert_old ((i, u) ∷ m) k v w h = ground (arith, try_insert_old m k v w)

  -- No key is listed twice.
  abbrev pub NodupKeys : List (K × V) → Type κ
  NodupKeys [] = Unit
  NodupKeys ((k, _) ∷ m) = (find m k ≡ none) × NodupKeys m

  -- `insert` with the `CHECK` that the key was new
  unfoldable pub insert_new : List (K × V) → K → V → Outcome (List (K × V))
  unfolding find try_insert
  insert_new m k v = elim (find m k) [ none ↦ ok (try_insert m k v) | some _ ↦ fatal ]

  pub All-assign {μ} :
      (P : K × V → Type μ) (m : List (K × V)) (k : K) (v : V)
      → All P m
      → P (k, v)
      → All P (assign m k v)
  unfolding assign
  All-assign P [] k v all h = (h, tt)
  All-assign P ((j, w) ∷ m) k v (g, all) h = elim (Bool-cases (j == k)) [
    | inl same ↦ rw same (h, all)
    | inr differ ↦ rw differ (g, All-assign P m k v all h)
  ]

  pub All-try_insert {μ} :
      (P : K × V → Type μ) (m : List (K × V)) (k : K) (v : V)
      → All P m
      → P (k, v)
      → All P (try_insert m k v)
  unfolding try_insert
  All-try_insert P [] k v all h = (h, tt)
  All-try_insert P ((j, w) ∷ m) k v (g, all) h = elim (Bool-cases (j == k)) [
    | inl same ↦ rw same (g, all)
    | inr differ ↦ rw differ (g, All-try_insert P m k v all h)
  ]

  pub All-find {μ} :
      (Q : V → Type μ) (m : List (K × V)) (k : K) (v : V)
      → All (λ p. Q p.1) m
      → find m k ≡ some v
      → Q v
  unfolding find
  All-find Q [] k v all h = cc
  All-find Q ((j, w) ∷ m) k v (g, all) h = elim (Bool-cases (j == k)) [
    | inl same ↦ subst Q (some-injective _ _ (rw same at h)) g
    | inr differ ↦ All-find Q m k v all (rw differ at h)
  ]

  abbrev pub keys : List (K × V) → List K
  keys [] = []
  keys ((k, _) ∷ m) = k ∷ keys m

  pub contains-keys_of_find :
      (m : List (K × V)) (k : K) → find m k ≡ none → contains (keys m) k ≡ false
  unfolding find contains
  contains-keys_of_find [] k h = refl
  contains-keys_of_find ((j, v) ∷ m) k h = ground (arith, contains-keys_of_find m k)

  pub find_of_contains-keys :
      (m : List (K × V)) (k : K) → contains (keys m) k ≡ false → find m k ≡ none
  unfolding find contains
  find_of_contains-keys [] k h = refl
  find_of_contains-keys ((j, v) ∷ m) k h = ground (arith, find_of_contains-keys m k)

  pub try_insert-append :
      (m : List (K × V)) (k : K) (v : V) → find m k ≡ none → try_insert m k v ≡ m ++ (k, v) ∷ []
  unfolding find try_insert
  try_insert-append [] k v h = refl
  try_insert-append ((j, w) ∷ m) k v h = ground (arith, try_insert-append m k v)

  pub keys-append : (m n : List (K × V)) → keys (m ++ n) ≡ keys m ++ keys n
  keys-append [] n = refl
  keys-append ((k, v) ∷ m) n = ap (◌∷◌ k) (keys-append m n)

  pub insert_new-eq-ok :
      (m n : List (K × V)) (k : K) (v : V)
      → insert_new m k v ≡ ok n
      → (find m k ≡ none) × (n ≡ m ++ (k, v) ∷ [])
  unfolding insert_new
  insert_new-eq-ok m n k v h = elim (Option-cases (find m k)) [
    | inl new ↦
        let same : try_insert m k v ≡ n = ok-injective (rw (new, insert_new) at h) in
        (new, sym same ∙ try_insert-append m k v new)
    | inr (w, old) ↦ absurd (let h' = rw (old, insert_new) at h in cc)
  ]

  pub insert_new-find :
      (m n : List (K × V)) (k : K) (v : V)
      → insert_new m k v ≡ ok n
      → (find n k ≡ some v) × ((j : K) (w : V) → find m j ≡ some w → find n j ≡ some w)
  unfolding insert_new
  insert_new-find m n k v h = elim (Option-cases (find m k)) [
    | inl new ↦
        let same : try_insert m k v ≡ n = ok-injective (rw (new, insert_new) at h) in
        let law = find-try_insert_new m k v k new in
        subst (λ n. (find n k ≡ some v) × ((j : K) (w : V) → find m j ≡ some w → find n j ≡ some w))
          same
          (
            ground (arith, law, e.beq_iff k k),
            λ j w there. ground (arith, find-try_insert_new m k v j new, e.beq_iff k j, new),
          )
    | inr (w, old) ↦ absurd (let h' = rw (old, insert_new) at h in cc)
  ]

  pub insert_new-entry :
      (m n : List (K × V)) (k : K) (v : V) (j : K) (w : V)
      → insert_new m k v ≡ ok n
      → find n j ≡ some w
      → ((k ≡ j) × (v ≡ w)) ⊎ (find m j ≡ some w)
  unfolding insert_new
  insert_new-entry m n k v j w h found = elim (Option-cases (find m k)) [
    | inr (u, old) ↦ absurd (let h' = rw (old, insert_new) at h in cc)
    | inl new ↦
        let same : try_insert m k v ≡ n = ok-injective (rw (new, insert_new) at h) in
        let there : find (try_insert m k v) j ≡ some w = ap (λ n. find n j) same ∙ found in
        ground (arith, find-try_insert_new m k v j new, e.beq_iff k j, there)
  ]
