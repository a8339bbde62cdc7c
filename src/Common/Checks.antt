-- ===== src/Common/Checks.antt =====
-- A run of code that may stop at a failed `CHECK` or a `LOG(FATAL)`.
use mathlib.Core.Path.{◌≡◌, refl, subst}
use mathlib.Core.Bool.{Bool, true, false}
use mathlib.Core.Option.{Option, none, some}
use mathlib.Core.List.{List, [], ◌∷◌}
use raksha.Common.Lists.{All, AllPairs}

pub data Outcome {ℓ} (A : Type ℓ) : Type ℓ where
  ok : A → Outcome A
  fatal : Outcome A

infixl 5 ◌>>=◌ ◌>>◌
abbrev pub ◌>>=◌ {ℓ κ} : {A : Type ℓ} {B : Type κ} → Outcome A → (A → Outcome B) → Outcome B
ok a >>= f = f a
fatal >>= f = fatal

abbrev pub ◌>>◌ {ℓ} : {B : Type ℓ} → Outcome (Unit {0}) → Outcome B → Outcome B
m >> k = m >>= λ _. k

-- `CHECK(b)`
abbrev pub check : Bool → Outcome (Unit {0})
check true = ok tt
check false = fatal

-- A `CHECK` that a lookup finds something, and `ABSL_DIE_IF_NULL`.
abbrev pub die_if_null {ℓ} : {A : Type ℓ} → Option A → Outcome A
die_if_null none = fatal
die_if_null (some a) = ok a

pub true_of_check : (b : Bool) {u : Unit {0}} → check b ≡ ok u → b ≡ true
true_of_check true h = refl
true_of_check false h = cc

pub some_of_die_if_null {ℓ} :
    {A : Type ℓ} (o : Option A) {a : A} → die_if_null o ≡ ok a → o ≡ some a
some_of_die_if_null none h = cc
some_of_die_if_null (some b) h = cc

pub ok-injective {ℓ} : {A : Type ℓ} {a b : A} → ok a ≡ ok b → a ≡ b
ok-injective h = cc

pub >>=-eq-ok {ℓ κ} :
    {A : Type ℓ} {B : Type κ} (run : Outcome A) (k : A → Outcome B) {y : B}
    → (run >>= k) ≡ ok y
    → (x : A) × (run ≡ ok x) × (k x ≡ ok y)
>>=-eq-ok fatal k h = cc
>>=-eq-ok (ok x) k h = (x, refl, h)

-- The code returns, and what it returns satisfies `P`.
pub data Returns {ℓ κ} {A : Type ℓ} (P : A → Type κ) : Outcome A → Type (ℓ ⊔ κ) where
  returns : {x : A} → P x → Returns P (ok x)

module _ {ℓ κ} {A : Type ℓ} {P : A → Type κ} where
  pub Returns-bind {ℓ' κ'} :
      {B : Type ℓ'} {Q : B → Type κ'} {m : Outcome A} {f : A → Outcome B}
      → Returns P m
      → ((a : A) → P a → Returns Q (f a))
      → Returns Q (m >>= f)
  Returns-bind (returns {x = a} h) k = k a h

  pub Returns-weaken {κ'} :
      {Q : A → Type κ'} {m : Outcome A} → Returns P m → ((a : A) → P a → Q a) → Returns Q m
  Returns-weaken (returns {x = a} h) f = returns (f a h)

  pub Returns-of_ok : {m : Outcome A} {a : A} → m ≡ ok a → P a → Returns P m
  Returns-of_ok e h = rw e (returns h)

  pub Returns-eq-ok : {m : Outcome A} → Returns P m → (a : A) × (m ≡ ok a) × P a
  Returns-eq-ok (returns {x = a} h) = (a, refl, h)

-- `utils::MapIter` with a function that may stop, and the left fold of `utils::fold`.
module _ {ℓ κ} {A : Type ℓ} {B : Type κ} where
  abbrev pub map_m : (A → Outcome B) → List A → Outcome (List B)
  map_m f [] = ok []
  map_m f (x ∷ xs) = f x >>= λ y. map_m f xs >>= λ ys. ok (y ∷ ys)

  abbrev pub fold_m : (B → A → Outcome B) → B → List A → Outcome B
  fold_m f b [] = ok b
  fold_m f b (x ∷ xs) = f b x >>= λ b'. fold_m f b' xs

  pub fold_m-Returns {μ} :
      (P : A → Type μ) (f : B → A → Outcome B) (b : B) (xs : List A)
      → All P xs
      → ((b : B) (x : A) → P x → Returns (λ _. Unit {0}) (f b x))
      → Returns (λ _. Unit {0}) (fold_m f b xs)
  fold_m-Returns P f b [] all step = returns tt
  fold_m-Returns P f b (x ∷ xs) (h, all) step =
      Returns-bind (step b x h) (λ b' _. fold_m-Returns P f b' xs all step)

  pub map_m-All {μ} :
      (P : B → Type μ) (f : A → Outcome B) (xs : List A) (ys : List B)
      → ((x : A) (y : B) → f x ≡ ok y → P y)
      → map_m f xs ≡ ok ys
      → All P ys
  map_m-All P f [] ys step h = subst (All P) (ok-injective h) tt
  map_m-All P f (x ∷ xs) ys step h =
      let (y, first, h1) = >>=-eq-ok (f x) _ h in
      let (rest, others, h2) = >>=-eq-ok (map_m f xs) _ h1 in
      subst (All P) (ok-injective h2) (step x y first, map_m-All P f xs rest step others)

  pub fold_m-invariant {μ ν} :
      (I : B → Type ν) (P : A → Type μ) (f : B → A → Outcome B) (b c : B) (xs : List A)
      → ((b : B) (x : A) (c : B) → P x → I b → f b x ≡ ok c → I c)
      → All P xs
      → I b
      → fold_m f b xs ≡ ok c
      → I c
  fold_m-invariant I P f b c [] step all i h = subst I (ok-injective h) i
  fold_m-invariant I P f b c (x ∷ xs) step (here, all) i h =
      let (b', run, rest) = >>=-eq-ok (f b x) _ h in
      fold_m-invariant I P f b' c xs step all (step b x b' here i run) rest

  -- Each step that ends tells of its item.
  pub fold_m-All {μ ν} :
      (I : B → Type ν) (P : A → Type μ) (f : B → A → Outcome B) (b c : B) (xs : List A)
      → ((b : B) (x : A) (c : B) → I b → f b x ≡ ok c → P x × I c)
      → I b
      → fold_m f b xs ≡ ok c
      → All P xs × I c
  fold_m-All I P f b c [] step i h = (tt, subst I (ok-injective h) i)
  fold_m-All I P f b c (x ∷ xs) step i h =
      let (b', run, rest) = >>=-eq-ok (f b x) _ h in
      let (here, i') = step b x b' i run in
      let (all, last) = fold_m-All I P f b' c xs step i' rest in ((here, all), last)

  pub map_m-AllPairs :
      (R : A → B → Type 0) (f : A → Outcome B) (xs : List A) (ys : List B)
      → ((x : A) (y : B) → f x ≡ ok y → R x y)
      → map_m f xs ≡ ok ys
      → AllPairs R xs ys
  map_m-AllPairs R f [] ys step h = subst (AllPairs R []) (ok-injective h) tt
  map_m-AllPairs R f (x ∷ xs) ys step h =
      let (y, first, h1) = >>=-eq-ok (f x) _ h in
      let (rest, others, h2) = >>=-eq-ok (map_m f xs) _ h1 in
      subst (AllPairs R (x ∷ xs)) (ok-injective h2)
        (step x y first, map_m-AllPairs R f xs rest step others)

-- A loop that passes a state along and makes an item for each item.
module _ {ℓ κ μ} {S : Type ℓ} {A : Type κ} {B : Type μ} where
  abbrev pub map_state : (S → A → Outcome (S × B)) → S → List A → Outcome (S × List B)
  map_state f s [] = ok (s, [])
  map_state f s (x ∷ xs) = f s x >>= λ r. map_state f r.0 xs >>= λ rest. ok (rest.0, r.1 ∷ rest.1)

  -- What each step keeps of the state and says of the items, the loop does, if later states keep it.
  pub map_state-AllPairs :
      (Before : S → S → Type 0) (R : S → A → B → Type 0) (f : S → A → Outcome (S × B)) (s : S)
      (xs : List A) (t : S) (ys : List B)
      → ((s : S) → Before s s)
      → ((s t u : S) → Before s t → Before t u → Before s u)
      → ((s t : S) (x : A) (y : B) → Before s t → R s x y → R t x y)
      → ((s : S) (x : A) (t : S) (y : B) → f s x ≡ ok (t, y) → Before s t × R t x y)
      → map_state f s xs ≡ ok (t, ys)
      → Before s t × AllPairs (R t) xs ys
  map_state-AllPairs Before R f s [] t ys same trans keep step h =
      subst (λ r. Before s r.0 × AllPairs (R r.0) [] r.1) (ok-injective h) (same s, tt)
  map_state-AllPairs Before R f s (x ∷ xs) t ys same trans keep step h =
      let (first, run1, h1) = >>=-eq-ok (f s x) _ h in
      let (rest, run2, h2) = >>=-eq-ok (map_state f first.0 xs) _ h1 in
      let (before, here) = step s x first.0 first.1 run1 in
      let (after, all) =
        map_state-AllPairs Before R f first.0 xs rest.0 rest.1 same trans keep step run2 in
      subst (λ r. Before s r.0 × AllPairs (R r.0) (x ∷ xs) r.1) (ok-injective h2)
        (trans s first.0 rest.0 before after, (keep first.0 rest.0 x first.1 after here, all))
