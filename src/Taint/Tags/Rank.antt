-- ===== src/Taint/Tags/Rank.antt =====
-- The rank of a tag set when all tags come from a list: `Join` raises it or changes nothing.
use raksha.Common.{
  ℕ, suc, ◌+◌, ◌≤◌, ◌<◌, Bool, true, false, not, ◌≡◌, List, [], ◌∷◌, ◌==◌, nat_eq, length, arith,
  Bool-cases, inl, inr, ◌⊎◌, ℕ-compare, if◌then◌else◌, subst,
}
use raksha.Common.Sets.{union, inter, contains, contains-union, contains-inter, union, inter}
use raksha.Taint.Tags.{
  IfcTags, AbstractIfcTags, bottom, tags, TagId, TagIdSet, join, is_equivalent_to, IfcTags,
}
use raksha.Taint.Tags.Order.{Below, Below-antisym, Below-refl, join_left}

abbrev pub count : (TagId → Bool) → List TagId → ℕ
count p [] = 0
count p (u ∷ us) = (if p u then 1 else 0) + count p us

count_le_length : (p : TagId → Bool) (us : List TagId) → count p us ≤ length us
count_le_length p [] = omega arith
count_le_length p (u ∷ us) = ground (arith, count_le_length p us)

count_le :
    (p q : TagId → Bool) (us : List TagId)
    → ((u : TagId) → p u ≡ true → q u ≡ true)
    → count p us ≤ count q us
count_le p q [] h = omega arith
count_le p q (u ∷ us) h = ground (arith, h u, count_le p q us h)

-- If no more of the tags pass the wider test, it is no wider on them.
of_count_le :
    (p q : TagId → Bool) (us : List TagId)
    → ((u : TagId) → p u ≡ true → q u ≡ true)
    → count q us ≤ count p us
    → (u : TagId) → contains us u ≡ true
    → q u ≡ true
    → p u ≡ true
unfolding contains
of_count_le p q [] h le u m e = cc
of_count_le p q (v ∷ us) h le u m e = elim (Bool-cases (v == u)) [
  | inl here ↦
      let same : v ≡ u = (nat_eq.beq_iff v u).0 here in
      subst (λ x. p x ≡ true) same
        (let e' : q v ≡ true = rw same e in
          let smaller = count_le p q us h in ground (arith, e', smaller))
  | inr there ↦ of_count_le p q us h (let hv = h v in ground (arith, hv)) u (rw there at m) e
]

not_lt : (a b : ℕ) → (a ≡ b) ⊎ (b < a) → b ≤ a
not_lt a b (inl e) = omega (arith, e)
not_lt a b (inr lt) = omega (arith, lt)

module _ (universe : List TagId) where
  abbrev pub AllIn : TagIdSet → Type 0
  AllIn held = (t : TagId) → contains held t ≡ true → contains universe t ≡ true

  -- All tags come from the list.
  abbrev pub TagsIn : AbstractIfcTags → Type 0
  TagsIn bottom = Unit
  TagsIn (tags x) = AllIn x.secrecy_tags × AllIn x.integrity_tags

  abbrev pub rank : AbstractIfcTags → ℕ
  rank bottom = 0
  rank (tags x) = suc (
      count (contains x.secrecy_tags) universe
      + count (λ t. not (contains x.integrity_tags t)) universe)

  pub rank_le : (a : AbstractIfcTags) → rank a ≤ suc (length universe + length universe)
  rank_le bottom = omega arith
  rank_le (tags x) = omega (
    arith,
    count_le_length (contains x.secrecy_tags) universe,
    count_le_length (λ t. not (contains x.integrity_tags t)) universe,
  )

  pub TagsIn-join : (a b : AbstractIfcTags) → TagsIn a → TagsIn b → TagsIn (join a b)
  unfolding join
  TagsIn-join bottom b h k = k
  TagsIn-join (tags x) bottom h k = h
  TagsIn-join (tags x) (tags y) (hs, hi) (ks, ki) = (
    λ t e. ground (arith, contains-union x.secrecy_tags y.secrecy_tags t, hs t, ks t),
    λ t e. ground (arith, contains-inter x.integrity_tags y.integrity_tags t, hi t),
  )

  union-wider :
      (xs ys : TagIdSet) (t : TagId) → contains xs t ≡ true → contains (union xs ys) t ≡ true
  union-wider xs ys t e = ground (arith, contains-union xs ys t)

  inter-wider :
      (xs ys : TagIdSet) (t : TagId)
      → not (contains xs t) ≡ true
      → not (contains (inter xs ys) t) ≡ true
  inter-wider xs ys t e = ground (arith, contains-inter xs ys t)

  -- Without a higher rank, what is joined lies below.
  Below-of_rank :
      (x y : IfcTags)
      → TagsIn (tags x)
      → TagsIn (tags y)
      → rank (join (tags x) (tags y)) ≤ rank (tags x)
      → Below (join (tags x) (tags y)) (tags x)
  unfolding join
  Below-of_rank x y (xs, xi) (ys, yi) le =
      let p = contains x.secrecy_tags in
      let q = contains (union x.secrecy_tags y.secrecy_tags) in
      let p' = λ (t : TagId). not (contains x.integrity_tags t) in
      let q' = λ (t : TagId). not (contains (inter x.integrity_tags y.integrity_tags) t) in
      let wider = λ (t : TagId) (e : p t ≡ true). union-wider x.secrecy_tags y.secrecy_tags t e in
      let wider' =
        λ (t : TagId) (e : p' t ≡ true). inter-wider x.integrity_tags y.integrity_tags t e in
      let less = count_le p q universe wider in
      let less' = count_le p' q' universe wider' in
      (
        λ t e.
            of_count_le p q universe wider (omega (arith, le, less, less')) t
              (ground (arith, contains-union x.secrecy_tags y.secrecy_tags t, xs t, ys t)) e,
        λ t e. elim (Bool-cases (contains (inter x.integrity_tags y.integrity_tags) t)) [
          | inl kept ↦ kept
          | inr lost ↦ absurd (
              let still : p' t ≡ true =
                of_count_le p' q' universe wider' (omega (arith, le, less, less')) t (xi t e)
                  (ground (arith, lost)) in
              ground (arith, still, e))
        ],
      )

  pub rank_lt :
      (a b : AbstractIfcTags)
      → TagsIn a
      → TagsIn b
      → is_equivalent_to (join a b) a ≡ false
      → rank a < rank (join a b)
  unfolding join
  rank_lt bottom bottom h k e = absurd (let same = Below-antisym bottom bottom tt tt in cc)
  rank_lt bottom (tags y) h k e = omega arith
  rank_lt (tags x) bottom h k e = absurd (
      let refl_x = Below-refl (tags x) in
      let same = Below-antisym (tags x) (tags x) refl_x refl_x in cc)
  rank_lt (tags x) (tags y) h k e =
      elim (ℕ-compare (rank (tags x)) (rank (join (tags x) (tags y)))) [
        | inl lt ↦ lt
        | inr other ↦ absurd (
            let le : rank (join (tags x) (tags y)) ≤ rank (tags x) = not_lt _ _ other in
            let below = Below-of_rank x y h k le in
            let same =
              Below-antisym (join (tags x) (tags y)) (tags x) below (join_left (tags x) (tags y)) in
            cc)
      ]
