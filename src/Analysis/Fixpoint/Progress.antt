-- ===== src/Analysis/Fixpoint/Progress.antt =====
-- What pushing the outputs of an operation changes: states grow, and the users of a value that
-- changed are in the worklist.
use raksha.Common.{
  ℕ, true, not, ◌||◌, ◌≡◌, refl, List, [], ◌∷◌, some, ◌==◌, nat_eq, pair_eq, ◌∙◌, subst, ok, ◌>>=◌,
  get_elem?, if◌then◌else◌, ◌⊎◌, inl, inr, >>=-eq-ok, ok-injective, Bool-cases, arith, any_of,
  beq_refl,
}
use raksha.Common.Sets.{insert, contains, contains-insert}
use raksha.Common.Maps.{find, assign, find-assign}
use raksha.Ir.Values.{Value, value_eq}
use raksha.Ir.Modules.{Module}
use raksha.Analysis.Graph.{value, operation, node_eq, get_uses}
use raksha.Analysis.Graph.Edges.{has_edge}
use raksha.Analysis.Graph.Queries.{contains-get_uses}
use raksha.Analysis.Fixpoint.{
  AbstractSemantics, FixState, get_current_state, add_uses, graph, push_output, output_at,
}

-- What the iteration needs of the states: an order with a least element, of which `join` is an
-- upper bound and which the test for equal states respects.
pub record IsOrdered (S : AbstractSemantics) : Type 1 where
  pub Below : S.State → S.State → Type 0
  pub Below-refl : (a : S.State) → Below a a
  pub Below-trans : (a b c : S.State) → Below a b → Below b c → Below a c
  pub bottom_least : (a : S.State) → Below S.bottom a
  pub join_left : (a b : S.State) → Below a (S.join a b)
  pub join_right : (a b : S.State) → Below b (S.join a b)
  pub Below-of_equivalent : (a b : S.State) → S.is_equivalent_to a b ≡ true → Below a b

pub contains-add_uses :
    (S : AbstractSemantics) (worklist : List ℕ) (us : List (ℕ × ℕ)) (o : ℕ)
    → contains (add_uses S worklist us) o ≡ (contains worklist o || any_of (λ (i, p). p == o) us)
unfolding add_uses
contains-add_uses S worklist [] o = ground arith
contains-add_uses S worklist ((i, p) ∷ us) o =
    ground (arith, contains-add_uses S (insert worklist p) us o, contains-insert worklist p o)

pub any_use :
    (us : List (ℕ × ℕ)) (i o : ℕ) → contains us (i, o) ≡ true → any_of (λ (j, p). p == o) us ≡ true
unfolding contains pair_eq
any_use [] i o h = cc
any_use ((j, p) ∷ us) i o h = ground (arith, any_use us i o)

output_at-eq-ok :
    {A : Type 0} (outputs : List A) (i : ℕ) (x : A)
    → output_at outputs i ≡ ok x
    → get_elem? outputs i ≡ some x
unfolding output_at
output_at-eq-ok outputs i x h = ground arith

module _ (S : AbstractSemantics) (L : IsOrdered S) (m : Module) where
  abbrev pub state_of : FixState S → Value → S.State
  state_of s v = (get_current_state S s.value_states v).0

  pub record Progress (s t : FixState S) : Type 0 where
    pub grows : (v : Value) → L.Below (state_of s v) (state_of t v)
    pub keeps : (o : ℕ) → contains s.worklist o ≡ true → contains t.worklist o ≡ true
    pub noted :
        (v : Value)
        → (find t.value_states v ≡ find s.value_states v)
          ⊎ ((j o : ℕ)
              → has_edge (graph S m) (value v) (j, operation o) ≡ true
              → contains t.worklist o ≡ true)

  pub Progress-refl : (s : FixState S) → Progress s s
  Progress-refl s = record { grows = λ v. L.Below-refl _; keeps = λ o h. h; noted = λ v. inl refl }

  pub Progress-trans : (s t u : FixState S) → Progress s t → Progress t u → Progress s u
  Progress-trans s t u p q = record {
    grows = λ v. L.Below-trans _ _ _ (p.grows v) (q.grows v);
    keeps = λ o h. q.keeps o (p.keeps o h);
    noted = λ v. elim (q.noted v) [
      | inr users ↦ inr users
      | inl same ↦ elim (p.noted v) [
        | inl same' ↦ inl (same ∙ same')
        | inr users ↦ inr (λ j o e. q.keeps o (users j o e))
      ]
    ];
  }

  state_of-assign :
      (states : List (Value × S.State)) (w : Value) (x : S.State) (v : Value)
      → (get_current_state S (assign states w x) v).0
        ≡ (if w == v then x else (get_current_state S states v).0)
  unfolding get_current_state
  state_of-assign states w x v = ground (arith, find-assign states w x v)

  -- A state that is written lies above the old one, and the users of its value are added.
  Progress-write :
      (s : FixState S) (w : Value) (x : S.State) (uses : List (ℕ × ℕ))
      → L.Below (state_of s w) x
      → get_uses (graph S m) w ≡ ok uses
      → Progress s (record {
        value_states = assign s.value_states w x;
        worklist = add_uses S s.worklist uses;
      })
  Progress-write s w x uses below found = record {
    grows = λ v. elim (Bool-cases (w == v)) [
      | inl same ↦
          rw (state_of-assign s.value_states w x v, same)
            (subst (λ y. L.Below (state_of s y) x) ((value_eq.beq_iff w v).0 same) below)
      | inr differ ↦ rw (state_of-assign s.value_states w x v, differ) (L.Below-refl _)
    ];
    keeps = λ o h. ground (arith, contains-add_uses S s.worklist uses o);
    noted = λ v. elim (Bool-cases (w == v)) [
      | inl same ↦ inr λ j o e. ground (
        arith,
        contains-add_uses S s.worklist uses o,
        any_use uses j o,
        contains-get_uses (graph S m) w uses j o found,
        value_eq.beq_iff w v,
      )
      | inr differ ↦ inl (ground (arith, find-assign s.value_states w x v))
    ];
  }

  output-Below_written :
      (s : FixState S) (w : Value) (x out : S.State) (worklist : List ℕ)
      → L.Below out x
      → L.Below out
          (state_of (record { value_states = assign s.value_states w x; worklist = worklist }) w)
  output-Below_written s w x out worklist below =
      rw (state_of-assign s.value_states w x w, beq_refl w) below

  push_output-Below :
      (outputs : List S.State) (s t : FixState S) (i : ℕ) (w : Value) (out : S.State)
      → (let (old, first_visit) = get_current_state S s.value_states w in
          let new = S.join old out in
          if first_visit || not (S.is_equivalent_to new old)
          then (get_uses (graph S m) w >>= λ uses. ok (record {
            value_states = assign s.value_states w new;
            worklist = add_uses S s.worklist uses;
          }))
          else ok s)
        ≡ ok t
      → Progress s t × L.Below out (state_of t w)
  push_output-Below outputs s t i w out h =
      let old = state_of s w in
      let new = S.join old out in
      let first_visit = (get_current_state S s.value_states w).1 in
      elim (Bool-cases (first_visit || not (S.is_equivalent_to new old))) [
        | inl changed ↦
            let (uses, found, written) = >>=-eq-ok (get_uses (graph S m) w) _ (rw changed at h) in
            subst (λ u. Progress s u × L.Below out (state_of u w)) (ok-injective written)
              (
                Progress-write s w new uses (L.join_left old out) found,
                output-Below_written s w new out (add_uses S s.worklist uses)
                    (L.join_right old out),
              )
        | inr unchanged ↦
            subst (λ u. Progress s u × L.Below out (state_of u w))
              (ok-injective (rw unchanged at h))
              (
                Progress-refl s,
                L.Below-trans out new old (L.join_right old out)
                    (L.Below-of_equivalent new old (ground arith)),
              )
      ]

  -- The output that is pushed lies below the state of its value from then on.
  pub push_output-Progress :
      (outputs : List S.State) (s t : FixState S) (i : ℕ) (w : Value)
      → push_output S m outputs s (i, w) ≡ ok t
      → Progress s t
        × ((out : S.State) × (get_elem? outputs i ≡ some out) × L.Below out (state_of t w))
  unfolding push_output
  push_output-Progress outputs s t i w h =
      let (out, found, rest) = >>=-eq-ok (output_at outputs i) _ h in
      let old = state_of s w in
      let first_visit = (get_current_state S s.value_states w).1 in
      let new = S.join old out in
      let below = push_output-Below outputs s t i w out rest in
      (below.0, (out, output_at-eq-ok outputs i out found, below.1))
