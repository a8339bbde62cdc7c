-- ===== src/Analysis/Fixpoint/Processing.antt =====
-- A round of src/analysis/common/module_fixpoint_iterator.h returns for every member of the worklist.
use raksha.Analysis.Graph.Total.{get_results_total, is_node-compute_adjacency_list_output}
use raksha.Analysis.Graph.Edges.{edge_of, has_edge-compute_adjacency_list}
use raksha.Common.{
  ℕ, ◌≤◌, ◌<◌, true, ◌≡◌, refl, sym, subst, List, [], ◌∷◌, ◌==◌, nat_eq, pair_eq, ok, fold_m,
  length, inl, inr, Bool-cases, arith, any_of, Returns, returns, Returns-bind, Returns-weaken, All,
  beq_refl, ◌&&◌, Returns-eq-ok, ltb, length-map, ok-injective, ◌∙◌, ap, lt→ltb,
}
use raksha.Common.Sets.{contains, erase, contains-erase}
use raksha.Ir.Values.{Value, value_eq, operation_result}
use raksha.Ir.Modules.{Operation, Module, operations_of}
use raksha.Analysis.Graph.{value, node_eq}
use raksha.Analysis.Graph.Queries.{is_node, contains-get_results, is_node-compute_adjacency_list}
use raksha.Analysis.Fixpoint.{
  AbstractSemantics, FixState, graph, push_output, find_operation, map, number_of_outputs, process,
  get_current_state, get_results, operation_inputs, operation,
}
use raksha.Analysis.Fixpoint.Measure.{IsFinite, IsGood, total_room}
use raksha.Analysis.Fixpoint.Pushes.{Moves, push_output-Returns, old_fits}

length-erase_le : (xs : List ℕ) (a : ℕ) → length (erase xs a) ≤ length xs
unfolding erase
length-erase_le [] a = omega arith
length-erase_le (x ∷ xs) a = ground (arith, length-erase_le xs a)

pub length-erase_lt : (xs : List ℕ) (a : ℕ) → contains xs a ≡ true → length (erase xs a) < length xs
unfolding erase contains
length-erase_lt [] a h = cc
length-erase_lt (x ∷ xs) a h = elim (Bool-cases (x == a)) [
  | inl here ↦ rw here (omega (arith, length-erase_le xs a))
  | inr there ↦ rw there (omega (arith, length-erase_lt xs a (rw there at h)))
]

pub find_operation_total :
    (os : List Operation) (a : ℕ)
    → any_of (λ o. o.address == a) os ≡ true
    → (o : Operation) × (find_operation os a ≡ ok o)
unfolding find_operation
find_operation_total [] a h = cc
find_operation_total (p ∷ os) a h = elim (Bool-cases (p.address == a)) [
  | inl here ↦ (p, rw (here, find_operation) refl)
  | inr there ↦
      let (o, e) = find_operation_total os a (rw there at h) in (o, rw (there, find_operation) e)
]

module _ (S : AbstractSemantics) (m : Module) (F : IsFinite S m) where
  -- The results that are pushed have an output each, and their values are nodes.
  abbrev InRange : List S.State → List (ℕ × Value) → Type 0
  InRange outputs rs =
      All (λ (i, w). (i < length outputs) × (is_node (graph S m) (value w) ≡ true)) rs

  Moves-trans : (s t u : FixState S) → Moves S m F s t → Moves S m F t u → Moves S m F s u
  Moves-trans s t u (inl p) (inl q) = inl (omega (arith, p, q))
  Moves-trans s t u (inl p) (inr q) =
      inl (subst (λ x. total_room S m F x < total_room S m F s) (sym q) p)
  Moves-trans s t u (inr p) q = subst (λ x. Moves S m F x u) p q

  fold-Returns :
      (outputs : List S.State) (rs : List (ℕ × Value)) (s : FixState S)
      → IsGood S m F s
      → All F.Fits outputs
      → InRange outputs rs
      → Returns (λ t. IsGood S m F t × Moves S m F s t) (fold_m (push_output S m outputs) s rs)
  fold-Returns outputs [] s good all range = returns (good, inr refl)
  fold-Returns outputs ((i, w) ∷ rs) s good all ((lt, node), range) =
      Returns-bind (push_output-Returns S m F outputs s i w good all lt node) λ t (good', moved).
        Returns-weaken (fold-Returns outputs rs t good' all range)
          λ u (good'', moved'). (good'', Moves-trans s t u moved moved')

  -- One operation has this address.
  abbrev pub HasUniqueAddresses : Type 0
  HasUniqueAddresses =
      All (λ o. find_operation (operations_of m) o.address ≡ ok o) (operations_of m)

  All-of_contains :
      (P : ℕ × Value → Type 0) (rs : List (ℕ × Value))
      → ((r : ℕ × Value) → contains rs r ≡ true → P r)
      → All P rs
  unfolding contains
  All-of_contains P [] h = tt
  All-of_contains P (r ∷ rs) h =
      (h r (rw (beq_refl r) refl), All-of_contains P rs (λ q e. h q (ground arith)))

  -- An edge from an operation is to one of its outputs.
  output_of_edge :
      (os : List Operation) (a i : ℕ) (w : Value) (o : Operation)
      → All (λ p. find_operation (operations_of m) p.address ≡ ok p) os
      → find_operation (operations_of m) a ≡ ok o
      → any_of (λ p. edge_of p (operation a) i (value w)) os ≡ true
      → (i < number_of_outputs o) × (operation_result a i ≡ w)
  output_of_edge [] a i w o all found h = cc
  output_of_edge (p ∷ os) a i w o (here, all) found h =
      elim (Bool-cases (edge_of p (operation a) i (value w))) [
        | inl edge ↦
            let at : p.address ≡ a = ground (arith, nat_eq.beq_iff p.address a) in
            let same : p ≡ o =
              ok-injective (sym here ∙ ap (find_operation (operations_of m)) at ∙ found) in
            let lt : i < number_of_outputs p = ground arith in
            let target : operation_result p.address i ≡ w =
              (value_eq.beq_iff (operation_result p.address i) w).0 (ground arith) in
            (
              subst (λ x. i < number_of_outputs x) same lt,
              subst (λ x. operation_result x i ≡ w) at target,
            )
        | inr other ↦ output_of_edge os a i w o all found (ground arith)
      ]

  output_known :
      (os : List Operation) (a i : ℕ) (o : Operation)
      → find_operation os a ≡ ok o
      → i < number_of_outputs o
      → any_of (λ p. p.address == a && ltb i (number_of_outputs p)) os ≡ true
  unfolding find_operation
  output_known [] a i o h lt = cc
  output_known (p ∷ os) a i o h lt = elim (Bool-cases (p.address == a)) [
    | inl here ↦
        let same : p ≡ o = ok-injective (rw here at h) in
        let lt' : i < number_of_outputs p = subst (λ x. i < number_of_outputs x) (sym same) lt in
        rw (here, lt→ltb i (number_of_outputs p) lt') refl
    | inr there ↦ rw there (output_known os a i o (rw there at h) lt)
  ]

  results-InRange :
      (a : ℕ) (o : Operation) (outputs : List S.State) (rs : List (ℕ × Value))
      → HasUniqueAddresses
      → find_operation (operations_of m) a ≡ ok o
      → length outputs ≡ number_of_outputs o
      → get_results (graph S m) a ≡ ok rs
      → InRange outputs rs
  unfolding graph
  results-InRange a o outputs rs unique found size got = All-of_contains _ rs λ (i, w) there.
      let edge =
        sym (has_edge-compute_adjacency_list m (operation a) i (value w))
        ∙ (sym (contains-get_results (graph S m) a rs i w got) ∙ there) in
      let (lt, is_w) = output_of_edge (operations_of m) a i w o unique found edge in
      let known = output_known (operations_of m) a i o found lt in
      (
        rw size lt,
        subst (λ x. is_node (graph S m) (value x) ≡ true) is_w
            (is_node-compute_adjacency_list_output m a i known),
      )

  inputs_fit :
      (s : FixState S) (vs : List Value)
      → IsGood S m F s
      → All F.Fits (map (λ v. (get_current_state S s.value_states v).0) vs)
  inputs_fit s [] good = tt
  inputs_fit s (v ∷ vs) good = (old_fits S m F s v good, inputs_fit s vs good)

  IsGood-erase :
      (s : FixState S) (a : ℕ)
      → IsGood S m F s
      → IsGood S m F (record s { worklist = erase s.worklist a })
  IsGood-erase s a good = record {
    fits = good.fits;
    known = λ b e. good.known b (ground (arith, contains-erase s.worklist a b));
  }

  pub process-Returns :
      (s : FixState S) (a : ℕ)
      → HasUniqueAddresses
      → IsGood S m F s
      → contains s.worklist a ≡ true
      → Returns
          (λ t. IsGood S m F t × Moves S m F (record s { worklist = erase s.worklist a }) t)
          (process S m s a)
  unfolding process operation_inputs graph
  process-Returns s a unique good member =
      let s' : FixState S = record s { worklist = erase s.worklist a } in
      let good' = IsGood-erase s a good in
      let known = good.known a member in
      let (o, found) = find_operation_total (operations_of m) a known in
      let (outputs, applied, (size, fit)) = Returns-eq-ok (
        F.apply a o (operation_inputs S m s' o) found (length-map _ o.inputs)
          (inputs_fit s' o.inputs good')) in
      let (rs, got, _) =
        Returns-eq-ok (get_results_total m a (is_node-compute_adjacency_list m a known)) in
      let checked = (nat_eq.beq_iff (length outputs) (number_of_outputs o)).1 size in
      rw (found, applied, checked, got)
        (fold-Returns outputs rs s' good' fit
          (results-InRange a o outputs rs unique found size got))
