-- ===== src/Analysis/Fixpoint/Rounds.antt =====
-- A round of the loop in src/analysis/common/module_fixpoint_iterator.h: an operation that is not in
-- the worklist has outputs below the states of its results.
use raksha.Analysis.Graph.Queries.{contains-get_results}
use mathlib.Core.Option.{some-injective}
use raksha.Common.{
  length, check, ℕ, suc, true, false, ◌≡◌, refl, List, [], ◌∷◌, some, ◌==◌, nat_eq, ok, map, fold_m,
  get_elem?, any_of, Returns, Returns-weaken, arith, beq_refl, Bool-cases, inl, inr, ok-injective,
  lt→ltb, ◌<◌, >>=-eq-ok, subst, ◌∙◌, pair_eq, Returns-of_ok, lt-length_of_get_elem?, true_of_check,
  sym, ap,
}
use raksha.Common.Sets.{erase, contains, contains-erase}
use raksha.Common.Maps.{find}
use raksha.Ir.Values.{Value, operation_result, value_eq}
use raksha.Ir.Modules.{Operation, Module, operations_of, number_of_outputs}
use raksha.Analysis.Graph.{get_results, value, operation, node_eq}
use raksha.Analysis.Graph.Edges.{edge_of, has_edge-compute_adjacency_list}
use raksha.Analysis.Fixpoint.{
  AbstractSemantics, FixState, get_current_state, graph, push_output, find_operation,
  operation_inputs, process,
}
use raksha.Analysis.Fixpoint.Progress.{
  IsOrdered, Progress, Progress-refl, Progress-trans, push_output-Progress, state_of,
}

-- The operation that is found at an address has that address.
pub find_operation-address :
    (os : List Operation) (a : ℕ) (o : Operation) → find_operation os a ≡ ok o → o.address ≡ a
unfolding find_operation
find_operation-address [] a o h = cc
find_operation-address (p ∷ os) a o h =
    ground (arith, find_operation-address os a o, nat_eq.beq_iff p.address a)

pub find_operation-use :
    (os : List Operation) (a : ℕ) (o : Operation) (j : ℕ) (v : Value)
    → find_operation os a ≡ ok o
    → get_elem? o.inputs j ≡ some v
    → any_of (λ p. edge_of p (value v) j (operation a)) os ≡ true
unfolding find_operation
find_operation-use [] a o j v h e = cc
find_operation-use (p ∷ os) a o j v h e = elim (Bool-cases (p.address == a)) [
  | inl here ↦
      let same : p ≡ o = ok-injective (rw here at h) in
      let e' : get_elem? p.inputs j ≡ some v = rw same e in ground (arith, here, e', beq_refl v)
  | inr differ ↦ ground (arith, find_operation-use os a o j v (rw differ at h) e)
]

pub find_operation-result :
    (os : List Operation) (a : ℕ) (o : Operation) (i : ℕ)
    → find_operation os a ≡ ok o
    → i < number_of_outputs o
    → any_of (λ p. edge_of p (operation a) i (value (operation_result a i))) os ≡ true
unfolding find_operation
find_operation-result [] a o i h lt = cc
find_operation-result (p ∷ os) a o i h lt = elim (Bool-cases (p.address == a)) [
  | inl here ↦
      let same : p ≡ o = ok-injective (rw here at h) in
      let lt' : i < number_of_outputs p = rw same lt in
      let at : p.address ≡ a = (nat_eq.beq_iff p.address a).0 here in
      rw (here, lt→ltb i (number_of_outputs p) lt', at, beq_refl (operation_result a i))
  | inr differ ↦ ground (arith, find_operation-result os a o i (rw differ at h) lt)
]

module _ (S : AbstractSemantics) (L : IsOrdered S) (m : Module) where
  -- The outputs of the operation for the current states lie below the states of its results.
  abbrev pub Consistent : FixState S → Operation → Type 0
  Consistent s o =
      Returns
        (λ outputs.
          (i : ℕ) (out : S.State)
          → get_elem? outputs i ≡ some out
          → L.Below out (state_of S L m s (operation_result o.address i)))
        (S.apply_operation_transformer o (operation_inputs S m s o))

  state-same :
      (s t : FixState S) (v : Value)
      → find t.value_states v ≡ find s.value_states v
      → (get_current_state S t.value_states v).0 ≡ (get_current_state S s.value_states v).0
  unfolding get_current_state
  state-same s t v e = ground arith

  map-same :
      (s t : FixState S) (vs : List Value)
      → ((j : ℕ) (v : Value)
          → get_elem? vs j ≡ some v
          → find t.value_states v ≡ find s.value_states v)
      → map (λ v. (get_current_state S t.value_states v).0) vs
        ≡ map (λ v. (get_current_state S s.value_states v).0) vs
  unfolding get_current_state
  map-same s t [] f = refl
  map-same s t (v ∷ vs) f =
      let rest = map-same s t vs (λ j w e. f (suc j) w e) in
      let head = state-same s t v (f 0 v refl) in cc

  -- An operation whose inputs changed is in the worklist.
  operation_inputs-same :
      (s t : FixState S) (a : ℕ) (o : Operation)
      → find_operation (operations_of m) a ≡ ok o
      → Progress S L m s t
      → contains t.worklist a ≡ false
      → operation_inputs S m t o ≡ operation_inputs S m s o
  unfolding operation_inputs graph
  operation_inputs-same s t a o found p out = map-same s t o.inputs λ j v e. elim (p.noted v) [
    | inl same ↦ same
    | inr users ↦ absurd (
        let edge =
          has_edge-compute_adjacency_list m (value v) j (operation a)
          ∙ find_operation-use (operations_of m) a o j v found e in
        let h = users j a edge in cc)
  ]

  Consistent-Progress :
      (s t : FixState S) (a : ℕ) (o : Operation)
      → find_operation (operations_of m) a ≡ ok o
      → Progress S L m s t
      → contains t.worklist a ≡ false
      → Consistent s o
      → Consistent t o
  Consistent-Progress s t a o found p out c = rw (operation_inputs-same s t a o found p out) (
      Returns-weaken c λ outputs below i x e.
        L.Below-trans x _ _ (below i x e) (p.grows (operation_result o.address i)))

  contains_of_later :
      (rs : List (ℕ × Value)) (r q : ℕ × Value)
      → contains (r ∷ rs) q ≡ true
      → (r == q) ≡ false
      → contains rs q ≡ true
  unfolding contains
  contains_of_later rs r q e there = rw there at e

  not_kept :
      (s t : FixState S) (a : ℕ)
      → Progress S L m s t
      → contains t.worklist a ≡ false
      → contains s.worklist a ≡ false
  not_kept s t a p out = elim (Bool-cases (contains s.worklist a)) [
    | inl there ↦ absurd (let h = p.keeps a there in cc)
    | inr absent ↦ absent
  ]

  fold_outputs :
      (outputs : List S.State) (rs : List (ℕ × Value)) (s t : FixState S)
      → fold_m (push_output S m outputs) s rs ≡ ok t
      → Progress S L m s t
        × ((i : ℕ) (w : Value)
            → contains rs (i, w) ≡ true
            → (out : S.State) × (get_elem? outputs i ≡ some out) × L.Below out (state_of S L m t w))
  unfolding contains pair_eq
  fold_outputs outputs [] s t h =
      (subst (Progress S L m s) (ok-injective h) (Progress-refl S L m s), λ i w e. cc)
  fold_outputs outputs ((j, v) ∷ rs) s t h =
      let (u, step, run) = >>=-eq-ok (push_output S m outputs s (j, v)) _ h in
      let (p, (x, at, below)) = push_output-Progress S L m outputs s u j v step in
      let (q, rest) = fold_outputs outputs rs u t run in
      (
        Progress-trans S L m s u t p q,
        λ i w e.
            let first : ℕ × Value = (j, v) in
            let sought : ℕ × Value = (i, w) in
            elim (Bool-cases (first == sought)) [
              | inl here ↦
                  let same : (j, v) ≡ (i, w) = (pair_eq.beq_iff (j, v) (i, w)).0 here in
                  subst
                    (λ (k, z).
                      (out : S.State) × (get_elem? outputs k ≡ some out)
                      × L.Below out (state_of S L m t z))
                    same (x, at, L.Below-trans x _ _ below (q.grows v))
              | inr there ↦ rest i w (contains_of_later rs first sought e there)
            ],
      )

  -- The operations outside the worklist are consistent.
  abbrev pub AllConsistent : FixState S → Type 0
  AllConsistent s =
      (a : ℕ) (o : Operation)
      → find_operation (operations_of m) a ≡ ok o
      → contains s.worklist a ≡ false
      → Consistent s o

  -- The operation that was processed, if no input of it changed.
  processed :
      (s t : FixState S) (a : ℕ) (o : Operation) (outputs : List S.State) (rs : List (ℕ × Value))
      → find_operation (operations_of m) a ≡ ok o
      → S.apply_operation_transformer o (operation_inputs S m s o) ≡ ok outputs
      → length outputs ≡ number_of_outputs o
      → get_results (graph S m) a ≡ ok rs
      → fold_m (push_output S m outputs) s rs ≡ ok t
      → contains t.worklist a ≡ false
      → Consistent t o
  unfolding graph
  processed s t a o outputs rs found applied size results run out =
      let (p, below) = fold_outputs outputs rs s t run in
      rw (operation_inputs-same s t a o found p out) (
        Returns-of_ok applied λ i x e.
          let lt : i < number_of_outputs o = rw size at (lt-length_of_get_elem? outputs i e) in
          let edge =
            contains-get_results (graph S m) a rs i (operation_result a i) results
            ∙ has_edge-compute_adjacency_list m (operation a) i (value (operation_result a i))
            ∙ find_operation-result (operations_of m) a o i found lt in
          let (y, at, b) = below i (operation_result a i) edge in
          let same : y ≡ x = some-injective _ _ (sym at ∙ e) in
          let address : o.address ≡ a = find_operation-address (operations_of m) a o found in
          rw address (subst (λ z. L.Below z (state_of S L m t (operation_result a i))) same b))

  -- A round keeps the operations outside the worklist consistent, and no state shrinks.
  pub process-AllConsistent :
      (s t : FixState S) (a : ℕ)
      → process S m s a ≡ ok t
      → AllConsistent s
      → AllConsistent t × ((v : Value) → L.Below (state_of S L m s v) (state_of S L m t v))
  unfolding process
  process-AllConsistent s t a h all =
      let s' : FixState S = record s { worklist = erase s.worklist a } in
      let (o, found, h1) = >>=-eq-ok (find_operation (operations_of m) a) _ h in
      let (outputs, applied, h2) =
        >>=-eq-ok (S.apply_operation_transformer o (operation_inputs S m s' o)) _ h1 in
      let (_, checked, h3) = >>=-eq-ok (check (length outputs == number_of_outputs o)) _ h2 in
      let (rs, results, run) = >>=-eq-ok (get_results (graph S m) a) _ h3 in
      let size =
        (nat_eq.beq_iff (length outputs) (number_of_outputs o)).0 (true_of_check _ checked) in
      let (p, _) = fold_outputs outputs rs s' t run in
      (
        λ b o' found' out. elim (Bool-cases (a == b)) [
          | inl here ↦
              let same : a ≡ b = (nat_eq.beq_iff a b).0 here in
              let same_op : o ≡ o' =
                ok-injective (sym found ∙ ap (find_operation (operations_of m)) same ∙ found') in
              subst (Consistent t) same_op
                (processed s' t a o outputs rs found applied size results run (rw same out))
          | inr there ↦
              let absent = not_kept s' t b p out in
              Consistent-Progress s' t b o' found' p out
                (all b o' found' (ground (arith, contains-erase s.worklist a b)))
        ],
        p.grows,
      )
