-- ===== src/Analysis/Fixpoint/Pushes.antt =====
-- Pushing an output, in src/analysis/common/module_fixpoint_iterator.h, returns, and leaves less room or
-- changes nothing.
use mathlib.Core.Option.{some-injective}
use raksha.Common.{
  ℕ, ◌-◌, ◌<◌, Bool, true, false, not, ◌||◌, ◌≡◌, refl, sym, subst, ◌∙◌, List, ◌==◌, nat_eq,
  pair_eq, ok, ◌>>=◌, length, if◌then◌else◌, ◌⊎◌, inl, inr, Bool-cases, Option-cases, arith, any_of,
  Returns, returns, Returns-eq-ok, All, All-get_elem?, get_elem?_of_lt,
}
use raksha.Common.Sets.{contains}
use raksha.Common.Maps.{find, assign, find-assign}
use raksha.Ir.Values.{Value, value_eq}
use raksha.Ir.Modules.{Module, operations_of}
use raksha.Analysis.Graph.{value, operation, node_eq, get_uses}
use raksha.Analysis.Graph.Edges.{has_edge-compute_adjacency_list}
use raksha.Analysis.Graph.Queries.{is_node, contains-get_uses}
use raksha.Analysis.Graph.Total.{get_uses_total}
use raksha.Analysis.Fixpoint.{
  AbstractSemantics, FixState, get_current_state, add_uses, graph, push_output, output_at,
}
use raksha.Analysis.Fixpoint.Progress.{contains-add_uses}
use raksha.Analysis.Fixpoint.Measure.{
  IsFinite, IsGood, total_room, total_room-assign, room, use_is_known, use_of, is_known,
}

not_equivalent : (b : Bool) → not b ≡ true → b ≡ false
not_equivalent true h = cc
not_equivalent false h = refl

module _ (S : AbstractSemantics) (m : Module) (F : IsFinite S m) where
  pub old_fits :
      (s : FixState S) (w : Value)
      → IsGood S m F s
      → F.Fits (get_current_state S s.value_states w).0
  unfolding get_current_state
  old_fits s w good = elim (Option-cases (find s.value_states w)) [
    | inl new ↦ rw (new, get_current_state) F.bottom_fits
    | inr (x, there) ↦ rw (there, get_current_state) (good.fits w x there)
  ]

  -- A state that is written leaves less room.
  room_lt :
      (s : FixState S) (w : Value) (out : S.State)
      → IsGood S m F s
      → F.Fits out
      → (let (old, first_visit) = get_current_state S s.value_states w in
          (first_visit || not (S.is_equivalent_to (S.join old out) old)) ≡ true)
      → F.bound - F.rank (S.join (get_current_state S s.value_states w).0 out)
        < room S m F (find s.value_states w)
  unfolding get_current_state
  room_lt s w out good fits changed = elim (Option-cases (find s.value_states w)) [
    | inl new ↦ rw (new, get_current_state) (omega arith)
    | inr (x, there) ↦
        let differ : S.is_equivalent_to (S.join x out) x ≡ false =
          not_equivalent _ (rw (there, get_current_state) at changed) in
        let old = good.fits w x there in
        let lt = F.rank_lt x out old fits differ in
        let le = F.rank_le (S.join x out) (F.join_fits x out old fits) in
        rw (there, get_current_state) (omega (arith, lt, le))
  ]

  pub known-add_uses :
      (s : FixState S) (w : Value) (uses : List (ℕ × ℕ))
      → get_uses (graph S m) w ≡ ok uses
      → IsGood S m F s
      → (a : ℕ) → contains (add_uses S s.worklist uses) a ≡ true
      → is_known S m F a ≡ true
  unfolding graph
  known-add_uses s w uses got good a e = elim (Bool-cases (contains s.worklist a)) [
    | inl before ↦ good.known a before
    | inr absent ↦
        let used : any_of (λ (i, p). p == a) uses ≡ true =
          rw (contains-add_uses S s.worklist uses a, absent) at e in
        let (j, there) = use_of S m F uses a used in
        use_is_known S m F (operations_of m) w j a (
          sym (has_edge-compute_adjacency_list m (value w) j (operation a))
          ∙ (sym (contains-get_uses (graph S m) w uses j a got) ∙ there))
  ]

  IsGood-write :
      (s : FixState S) (w : Value) (x : S.State) (uses : List (ℕ × ℕ))
      → IsGood S m F s
      → F.Fits x
      → get_uses (graph S m) w ≡ ok uses
      → IsGood S m F (record {
        value_states = assign s.value_states w x;
        worklist = add_uses S s.worklist uses;
      })
  unfolding graph
  IsGood-write s w x uses good fits got = record {
    fits = λ v y e. elim (Bool-cases (w == v)) [
      | inl same ↦
          let is_x : x ≡ y =
            some-injective _ _ (rw (find-assign s.value_states w x v, same) at e) in
          subst F.Fits is_x fits
      | inr differ ↦ good.fits v y (rw (find-assign s.value_states w x v, differ) at e)
    ];
    known = known-add_uses s w uses got good;
  }

  abbrev pub Moves : FixState S → FixState S → Type 0
  Moves s t = (total_room S m F t < total_room S m F s) ⊎ (t ≡ s)

  push_changed :
      (s : FixState S) (w : Value) (out : S.State) (changed : Bool)
      → IsGood S m F s
      → F.Fits out
      → is_node (graph S m) (value w) ≡ true
      → (changed ≡ true
          → F.bound - F.rank (S.join (get_current_state S s.value_states w).0 out)
            < room S m F (find s.value_states w))
      → Returns
          (λ t. IsGood S m F t × Moves s t)
          (if changed
            then (get_uses (graph S m) w >>= λ uses. ok (record {
              value_states =
                  assign s.value_states w (S.join (get_current_state S s.value_states w).0 out);
              worklist = add_uses S s.worklist uses;
            }))
            else ok s)
  unfolding graph
  push_changed s w out false good fits node lt = returns (good, inr refl)
  push_changed s w out true good fits node lt =
      let new = S.join (get_current_state S s.value_states w).0 out in
      let (uses, got, _) = Returns-eq-ok (get_uses_total m w node) in
      rw got (
        returns (
          IsGood-write s w new uses good (F.join_fits _ out (old_fits s w good) fits) got,
          inl (total_room-assign S m F s w new (add_uses S s.worklist uses) node (lt refl)),
        ))

  pub push_output-Returns :
      (outputs : List S.State) (s : FixState S) (i : ℕ) (w : Value)
      → IsGood S m F s
      → All F.Fits outputs
      → i < length outputs
      → is_node (graph S m) (value w) ≡ true
      → Returns (λ t. IsGood S m F t × Moves s t) (push_output S m outputs s (i, w))
  unfolding push_output output_at
  push_output-Returns outputs s i w good all lt node =
      let (out, at) = get_elem?_of_lt outputs i lt in
      let fits = All-get_elem? F.Fits outputs i all at in
      rw (at, push_output, output_at)
        (push_changed s w out
          ((get_current_state S s.value_states w).1
            || not (
                S.is_equivalent_to (S.join (get_current_state S s.value_states w).0 out)
                  (get_current_state S s.value_states w).0))
          good fits node (room_lt s w out good fits))
