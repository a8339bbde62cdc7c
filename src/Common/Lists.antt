-- ===== src/Common/Lists.antt =====
-- Lists measured and indexed by native numbers, and predicates on all of their items.
use Prim.Native.Nat.{ℕ, zero, suc, ◌+◌, ◌<◌}
use raksha.Common.Equality.{nat_beq, if◌then◌else◌}
use mathlib.Core.Path.{◌≡◌, refl, ap, subst, sym}
use mathlib.Core.Bool.{Bool, true, false, ◌&&◌, ◌||◌}
use mathlib.Core.Logic.{◌⊎◌, inl, inr}
use mathlib.Core.Option.{Option, none, some, some-injective}
use mathlib.Core.List.{List, [], ◌∷◌, ◌++◌, map}
use native.Mathlib.Omega.{arith}

module _ {ℓ} {A : Type ℓ} where
  abbrev pub length : List A → ℕ
  length [] = 0
  length (x ∷ xs) = suc (length xs)

  abbrev pub get_elem? : List A → ℕ → Option A
  get_elem? [] i = none
  get_elem? (x ∷ xs) zero = some x
  get_elem? (x ∷ xs) (suc i) = get_elem? xs i

  -- A write out of bounds changes nothing.
  abbrev pub set : List A → ℕ → A → List A
  set [] i v = []
  set (x ∷ xs) zero v = v ∷ xs
  set (x ∷ xs) (suc i) v = x ∷ set xs i v

  abbrev pub take : ℕ → List A → List A
  take zero xs = []
  take (suc n) [] = []
  take (suc n) (x ∷ xs) = x ∷ take n xs

  abbrev pub drop : ℕ → List A → List A
  drop zero xs = xs
  drop (suc n) [] = []
  drop (suc n) (x ∷ xs) = drop n xs

  abbrev pub replicate : ℕ → A → List A
  replicate zero a = []
  replicate (suc n) a = a ∷ replicate n a

  pub length-append : (xs ys : List A) → length (xs ++ ys) ≡ length xs + length ys
  length-append [] ys = omega arith
  length-append (x ∷ xs) ys = omega (arith, length-append xs ys)

  pub length-set : (xs : List A) (i : ℕ) (v : A) → length (set xs i v) ≡ length xs
  length-set [] i v = refl
  length-set (x ∷ xs) zero v = refl
  length-set (x ∷ xs) (suc i) v = ap suc (length-set xs i v)

  pub length-replicate : (n : ℕ) (a : A) → length (replicate n a) ≡ n
  length-replicate zero a = refl
  length-replicate (suc n) a = ap suc (length-replicate n a)

module _ {ℓ} {A : Type ℓ} where
  pub get_elem?-concat :
      (xs : List A) (y : A) (t : ℕ)
      → get_elem? (xs ++ y ∷ []) t ≡ (if nat_beq t (length xs) then some y else get_elem? xs t)
  get_elem?-concat [] y zero = refl
  get_elem?-concat [] y (suc t) = ground arith
  get_elem?-concat (x ∷ xs) y zero = ground arith
  get_elem?-concat (x ∷ xs) y (suc t) = ground (arith, get_elem?-concat xs y t)

  pub lt-length_of_get_elem? :
      (xs : List A) (t : ℕ) {x : A} → get_elem? xs t ≡ some x → t < length xs
  lt-length_of_get_elem? [] t h = cc
  lt-length_of_get_elem? (y ∷ xs) zero h = omega arith
  lt-length_of_get_elem? (y ∷ xs) (suc t) h = omega (arith, lt-length_of_get_elem? xs t h)

  pub get_elem?_of_lt : (xs : List A) (t : ℕ) → t < length xs → (x : A) × (get_elem? xs t ≡ some x)
  get_elem?_of_lt [] t h = absurd (omega arith)
  get_elem?_of_lt (y ∷ xs) zero h = (y, refl)
  get_elem?_of_lt (y ∷ xs) (suc t) h = get_elem?_of_lt xs t (omega arith)

  pub get_elem?-set :
      (xs : List A) (i : ℕ) (v : A) (j : ℕ)
      → i < length xs
      → get_elem? (set xs i v) j ≡ (if nat_beq i j then some v else get_elem? xs j)
  get_elem?-set [] i v j h = absurd (omega arith)
  get_elem?-set (x ∷ xs) zero v zero h = ground arith
  get_elem?-set (x ∷ xs) zero v (suc j) h = ground arith
  get_elem?-set (x ∷ xs) (suc i) v zero h = ground arith
  get_elem?-set (x ∷ xs) (suc i) v (suc j) h = ground (arith, get_elem?-set xs i v j (omega arith))

  pub get_elem?-replicate : (n : ℕ) (a : A) (j : ℕ) → j < n → get_elem? (replicate n a) j ≡ some a
  get_elem?-replicate zero a j h = absurd (omega arith)
  get_elem?-replicate (suc n) a zero h = refl
  get_elem?-replicate (suc n) a (suc j) h = get_elem?-replicate n a j (omega arith)

pub List-cases {ℓ} :
    {A : Type ℓ} (xs : List A) → (xs ≡ []) ⊎ ((x : A) × (ys : List A) × (xs ≡ x ∷ ys))
List-cases [] = inl refl
List-cases (x ∷ ys) = inr (x, ys, refl)

-- `empty()`
abbrev pub is_empty {ℓ} : {A : Type ℓ} → List A → Bool
is_empty [] = true
is_empty (_ ∷ _) = false

-- `absl::c_any_of`
abbrev pub any_of {ℓ} : {A : Type ℓ} → (A → Bool) → List A → Bool
any_of p [] = false
any_of p (x ∷ xs) = p x || any_of p xs

pub any_of-append {ℓ} :
    {A : Type ℓ} (p : A → Bool) (xs ys : List A)
    → any_of p (xs ++ ys) ≡ (any_of p xs || any_of p ys)
any_of-append p [] ys = refl
any_of-append p (x ∷ xs) ys = ground (arith, any_of-append p xs ys)

-- `absl::c_all_of`
abbrev pub all_of {ℓ} : {A : Type ℓ} → (A → Bool) → List A → Bool
all_of p [] = true
all_of p (x ∷ xs) = p x && all_of p xs

pub length-map {ℓ κ} :
    {A : Type ℓ} {B : Type κ} (f : A → B) (xs : List A) → length (map f xs) ≡ length xs
length-map f [] = refl
length-map f (x ∷ xs) = ap suc (length-map f xs)

module _ {ℓ κ} {A : Type ℓ} (P : A → Type κ) where
  abbrev pub All : List A → Type κ
  All [] = Unit
  All (x ∷ xs) = P x × All xs

  pub All-append : (xs ys : List A) → All xs → All ys → All (xs ++ ys)
  All-append [] ys _ q = q
  All-append (x ∷ xs) ys (h, p) q = (h, All-append xs ys p q)

  pub All-split : (xs ys : List A) → All (xs ++ ys) → All xs × All ys
  All-split [] ys q = (tt, q)
  All-split (x ∷ xs) ys (h, p) = let (q, r) = All-split xs ys p in ((h, q), r)

  pub All-set : (xs : List A) (i : ℕ) (v : A) → All xs → P v → All (set xs i v)
  All-set [] i v a h = tt
  All-set (x ∷ xs) zero v (_, a) h = (h, a)
  All-set (x ∷ xs) (suc i) v (p, a) h = (p, All-set xs i v a h)

  pub All-replicate : (n : ℕ) (x : A) → P x → All (replicate n x)
  All-replicate zero x h = tt
  All-replicate (suc n) x h = (h, All-replicate n x h)

  pub All-get_elem? : (xs : List A) (i : ℕ) {x : A} → All xs → get_elem? xs i ≡ some x → P x
  All-get_elem? [] i a h = cc
  All-get_elem? (y ∷ xs) zero (p, _) h = subst P (some-injective _ _ h) p
  All-get_elem? (y ∷ xs) (suc i) (_, a) h = All-get_elem? xs i a h

pub All-zip {ℓ κ μ} :
    {A : Type ℓ} (P : A → Type κ) (Q : A → Type μ) (xs : List A)
    → All P xs
    → All Q xs
    → All (λ x. P x × Q x) xs
All-zip P Q [] p q = tt
All-zip P Q (x ∷ xs) (h, p) (g, q) = ((h, g), All-zip P Q xs p q)

pub All-map {ℓ κ μ} :
    {A : Type ℓ} (P : A → Type κ) (Q : A → Type μ) (xs : List A)
    → ((x : A) → P x → Q x)
    → All P xs
    → All Q xs
All-map P Q [] f a = tt
All-map P Q (x ∷ xs) f (p, a) = (f x p, All-map P Q xs f a)

module _ {ℓ} {A : Type ℓ} where
  pub take-append : (xs ys : List A) → take (length xs) (xs ++ ys) ≡ xs
  take-append [] ys = refl
  take-append (x ∷ xs) ys = ap (◌∷◌ x) (take-append xs ys)

  pub drop-append : (xs ys : List A) → drop (length xs) (xs ++ ys) ≡ ys
  drop-append [] ys = refl
  drop-append (x ∷ xs) ys = drop-append xs ys

  pub get_elem?-append_length :
      (xs : List A) (y : A) (ys : List A) → get_elem? (xs ++ y ∷ ys) (length xs) ≡ some y
  get_elem?-append_length [] y ys = refl
  get_elem?-append_length (x ∷ xs) y ys = get_elem?-append_length xs y ys

-- The item is one of the list.
abbrev pub IsAmong : {A : Type 0} → A → List A → Type 0
IsAmong a [] = ⊥
IsAmong a (x ∷ xs) = (a ≡ x) ⊎ IsAmong a xs

module _ {A : Type 0} where
  pub All-IsAmong : (P : A → Type 0) (a : A) (xs : List A) → All P xs → IsAmong a xs → P a
  All-IsAmong P a [] all among = absurd among
  All-IsAmong P a (x ∷ xs) (here, later) (inl same) = subst P (sym same) here
  All-IsAmong P a (x ∷ xs) (here, later) (inr there) = All-IsAmong P a xs later there

  pub IsAmong-left : (a : A) (xs ys : List A) → IsAmong a xs → IsAmong a (xs ++ ys)
  IsAmong-left a [] ys h = absurd h
  IsAmong-left a (x ∷ xs) ys (inl here) = inl here
  IsAmong-left a (x ∷ xs) ys (inr there) = inr (IsAmong-left a xs ys there)

  pub IsAmong-right : (a : A) (xs ys : List A) → IsAmong a ys → IsAmong a (xs ++ ys)
  IsAmong-right a [] ys h = h
  IsAmong-right a (x ∷ xs) ys h = inr (IsAmong-right a xs ys h)

  pub IsAmong-append : (a : A) (xs ys : List A) → IsAmong a (xs ++ ys) → IsAmong a xs ⊎ IsAmong a ys
  IsAmong-append a [] ys h = inr h
  IsAmong-append a (x ∷ xs) ys (inl same) = inl (inl same)
  IsAmong-append a (x ∷ xs) ys (inr later) = elim (IsAmong-append a xs ys later) [
    | inl left ↦ inl (inr left)
    | inr right ↦ inr right
  ]

module _ {A B : Type 0} (f : A → B) where
  pub IsAmong-map :
      (xs : List A) (b : B) → IsAmong b (map f xs) → (a : A) × IsAmong a xs × (b ≡ f a)
  IsAmong-map [] b h = absurd h
  IsAmong-map (x ∷ xs) b (inl same) = (x, inl refl, same)
  IsAmong-map (x ∷ xs) b (inr later) =
      let (a, among, same) = IsAmong-map xs b later in (a, inr among, same)

  pub IsAmong-map_of : (xs : List A) (a : A) → IsAmong a xs → IsAmong (f a) (map f xs)
  IsAmong-map_of [] a h = absurd h
  IsAmong-map_of (x ∷ xs) a (inl same) = inl (ap f same)
  IsAmong-map_of (x ∷ xs) a (inr later) = inr (IsAmong-map_of xs a later)

-- The items of two lists are related one by one.
abbrev pub AllPairs {ℓ κ} : {A : Type ℓ} {B : Type κ} → (A → B → Type 0) → List A → List B → Type 0
AllPairs R [] [] = Unit
AllPairs R [] (y ∷ ys) = ⊥
AllPairs R (x ∷ xs) [] = ⊥
AllPairs R (x ∷ xs) (y ∷ ys) = R x y × AllPairs R xs ys

pub AllPairs-map {ℓ κ} :
    {A : Type ℓ} {B : Type κ} (R S : A → B → Type 0) (xs : List A) (ys : List B)
    → ((x : A) (y : B) → R x y → S x y)
    → AllPairs R xs ys
    → AllPairs S xs ys
AllPairs-map R S [] [] f all = tt
AllPairs-map R S [] (y ∷ ys) f all = absurd all
AllPairs-map R S (x ∷ xs) [] f all = absurd all
AllPairs-map R S (x ∷ xs) (y ∷ ys) f (h, all) = (f x y h, AllPairs-map R S xs ys f all)

pub AllPairs-append {ℓ κ} :
    {A : Type ℓ} {B : Type κ} (R : A → B → Type 0) (xs xs' : List A) (ys ys' : List B)
    → AllPairs R xs ys
    → AllPairs R xs' ys'
    → AllPairs R (xs ++ xs') (ys ++ ys')
AllPairs-append R [] xs' [] ys' all all' = all'
AllPairs-append R [] xs' (y ∷ ys) ys' all all' = absurd all
AllPairs-append R (x ∷ xs) xs' [] ys' all all' = absurd all
AllPairs-append R (x ∷ xs) xs' (y ∷ ys) ys' (h, all) all' =
    (h, AllPairs-append R xs xs' ys ys' all all')

pub AllPairs-split {ℓ κ} :
    {A : Type ℓ} {B : Type κ} (R : A → B → Type 0) (xs xs' : List A) (zs : List B)
    → AllPairs R (xs ++ xs') zs
    → (ys : List B) × (ys' : List B) × (zs ≡ ys ++ ys') × AllPairs R xs ys × AllPairs R xs' ys'
AllPairs-split R [] xs' zs all = ([], zs, refl, tt, all)
AllPairs-split R (x ∷ xs) xs' [] all = absurd all
AllPairs-split R (x ∷ xs) xs' (z ∷ zs) (h, all) =
    let (ys, ys', e, here, later) = AllPairs-split R xs xs' zs all in
    (z ∷ ys, ys', ap (◌∷◌ z) e, (h, here), later)
