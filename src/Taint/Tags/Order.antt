-- ===== src/Taint/Tags/Order.antt =====
-- The information order of the domain, and `Join` as its least upper bound.
use raksha.Common.{true, ◌≡◌, refl, sym, ◌∙◌, ◌↔◌, arith, nat_eq}
use raksha.Common.Sets.{contains, SameItems, set_eq_iff, contains-union, contains-inter}
use raksha.Taint.Tags.{AbstractIfcTags, bottom, tags, TagId, is_equivalent_to, join}

-- More secrecy and less integrity is higher; nothing is below bottom but bottom.
abbrev pub Below : AbstractIfcTags → AbstractIfcTags → Type 0
Below bottom b = Unit
Below (tags x) bottom = ⊥
Below (tags x) (tags y) =
    ((t : TagId) → contains x.secrecy_tags t ≡ true → contains y.secrecy_tags t ≡ true)
    × ((t : TagId) → contains y.integrity_tags t ≡ true → contains x.integrity_tags t ≡ true)

-- Two values that hold the same tags.
abbrev pub SameTags : AbstractIfcTags → AbstractIfcTags → Type 0
SameTags bottom bottom = Unit
SameTags bottom (tags y) = ⊥
SameTags (tags x) bottom = ⊥
SameTags (tags x) (tags y) =
    SameItems x.secrecy_tags y.secrecy_tags × SameItems x.integrity_tags y.integrity_tags

-- Two values are reported as equivalent exactly if both are bottom or both hold the same secrecy
-- and integrity tags.
pub is_equivalent_to_iff : (a b : AbstractIfcTags) → (is_equivalent_to a b ≡ true) ↔ SameTags a b
unfolding is_equivalent_to
is_equivalent_to_iff bottom bottom = (λ _. tt, λ _. refl)
is_equivalent_to_iff bottom (tags y) = (λ h. cc, λ h. absurd h)
is_equivalent_to_iff (tags x) bottom = (λ h. cc, λ h. absurd h)
is_equivalent_to_iff (tags x) (tags y) =
    let s = set_eq_iff x.secrecy_tags y.secrecy_tags in
    let i = set_eq_iff x.integrity_tags y.integrity_tags in
    (λ h. (s.0 (ground arith), i.0 (ground arith)), λ (hs, hi). ground (arith, s.1 hs, i.1 hi))

pub Below-refl : (a : AbstractIfcTags) → Below a a
Below-refl bottom = tt
Below-refl (tags x) = (λ t h. h, λ t h. h)

pub Below-trans : (a b c : AbstractIfcTags) → Below a b → Below b c → Below a c
Below-trans bottom b c p q = tt
Below-trans (tags x) bottom c p q = absurd p
Below-trans (tags x) (tags y) bottom p q = q
Below-trans (tags x) (tags y) (tags z) p q = (λ t h. q.0 t (p.0 t h), λ t h. p.1 t (q.1 t h))

pub Below-antisym : (a b : AbstractIfcTags) → Below a b → Below b a → is_equivalent_to a b ≡ true
Below-antisym bottom bottom p q = (is_equivalent_to_iff bottom bottom).1 tt
Below-antisym bottom (tags y) p q = absurd q
Below-antisym (tags x) bottom p q = absurd p
Below-antisym (tags x) (tags y) p q =
    (is_equivalent_to_iff (tags x) (tags y)).1
      (λ t. ground (arith, p.0 t, q.0 t), λ t. ground (arith, p.1 t, q.1 t))

pub Below-of_equivalent :
    (a b : AbstractIfcTags) → is_equivalent_to a b ≡ true → Below a b × Below b a
Below-of_equivalent bottom bottom h = (tt, tt)
Below-of_equivalent bottom (tags y) h = absurd ((is_equivalent_to_iff bottom (tags y)).0 h)
Below-of_equivalent (tags x) bottom h = absurd ((is_equivalent_to_iff (tags x) bottom).0 h)
Below-of_equivalent (tags x) (tags y) h =
    let same = (is_equivalent_to_iff (tags x) (tags y)).0 h in
    (
      (λ t m. sym (same.0 t) ∙ m, λ t m. same.1 t ∙ m),
      (λ t m. same.0 t ∙ m, λ t m. sym (same.1 t) ∙ m),
    )

pub join_left : (a b : AbstractIfcTags) → Below a (join a b)
unfolding join
join_left bottom b = tt
join_left (tags x) bottom = Below-refl (tags x)
join_left (tags x) (tags y) = (
  λ t h. ground (arith, contains-union x.secrecy_tags y.secrecy_tags t),
  λ t h. ground (arith, contains-inter x.integrity_tags y.integrity_tags t),
)

pub join_right : (a b : AbstractIfcTags) → Below b (join a b)
unfolding join
join_right bottom b = Below-refl b
join_right (tags x) bottom = tt
join_right (tags x) (tags y) = (
  λ t h. ground (arith, contains-union x.secrecy_tags y.secrecy_tags t),
  λ t h. ground (arith, contains-inter x.integrity_tags y.integrity_tags t),
)

pub join_least : (a b c : AbstractIfcTags) → Below a c → Below b c → Below (join a b) c
unfolding join
join_least bottom b c p q = q
join_least (tags x) bottom c p q = p
join_least (tags x) (tags y) bottom p q = p
join_least (tags x) (tags y) (tags z) p q = (
  λ t h. ground (arith, contains-union x.secrecy_tags y.secrecy_tags t, p.0 t, q.0 t),
  λ t h. ground (arith, contains-inter x.integrity_tags y.integrity_tags t, p.1 t, q.1 t),
)

-- Join is the least upper bound: it lies above a value exactly when both operands do.
pub join-Below_iff : (a b c : AbstractIfcTags) → Below (join a b) c ↔ (Below a c × Below b c)
join-Below_iff a b c = (
  λ h. (Below-trans a _ c (join_left a b) h, Below-trans b _ c (join_right a b) h),
  λ (p, q). join_least a b c p q,
)

-- The iterator's test for no change holds exactly if the new value lies below the old one.
pub join-eq_iff_Below :
    (old new : AbstractIfcTags) → (is_equivalent_to (join old new) old ≡ true) ↔ Below new old
join-eq_iff_Below a b = (
  λ h. Below-trans b _ a (join_right a b) (Below-of_equivalent _ _ h).0,
  λ h. Below-antisym _ a (join_least a b a (Below-refl a) h) (join_left a b),
)
