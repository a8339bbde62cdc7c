-- ===== src/Analysis/Fixpoint/Termination.antt =====
-- The loop of src/analysis/common/module_fixpoint_iterator.h ends, whatever member of the worklist comes
-- first.
use mathlib.Core.Option.{some-injective}
use raksha.Common.{
  is_empty, List-cases, ℕ, zero, suc, ◌<◌, true, ◌≡◌, sym, subst, List, [], ◌∷◌, some, ◌==◌, nat_eq,
  ok, fold_m, length, if◌then◌else◌, inl, inr, Bool-cases, arith, Returns-eq-ok, >>=-eq-ok,
  ok-injective,
}
use raksha.Common.Sets.{contains, erase, insert, contains-insert}
use raksha.Common.Maps.{insert_new, find}
use raksha.Ir.Values.{Value, value_eq, is_operation_result}
use raksha.Ir.Modules.{Operation, Module, operations_of}
use raksha.Analysis.Graph.{Node, value, operation, node_eq, get_uses, get_nodes}
use raksha.Analysis.Fixpoint.{
  AbstractSemantics, FixState, graph, find_operation, process, run, initialize, visit_node,
  add_uses,
}
use raksha.Analysis.Fixpoint.Start.{insert_new-eq-ok}
use raksha.Analysis.Fixpoint.Measure.{IsFinite, IsGood, total_room, is_known}
use raksha.Analysis.Fixpoint.Pushes.{known-add_uses}
use raksha.Analysis.Fixpoint.Processing.{process-Returns, HasUniqueAddresses, length-erase_lt}
use raksha.Analysis.Fixpoint.Soundness.{find_operation-any_of}

module _ (S : AbstractSemantics) (m : Module) (F : IsFinite S m) where
  module _ (unique : HasUniqueAddresses S m F) (first : List ℕ → ℕ)
      (member : (o : ℕ) (os : List ℕ) → contains (o ∷ os) (first (o ∷ os)) ≡ true) where
    abbrev Ends : FixState S → Type 0
    Ends s = (fuel : ℕ) × (t : FixState S) × (run S m first fuel s ≡ ok (some t))

    Ends-process :
        (s t : FixState S) (o : ℕ) (os : List ℕ)
        → s.worklist ≡ o ∷ os
        → process S m s (first (o ∷ os)) ≡ ok t
        → Ends t
        → Ends s
    unfolding run
    Ends-process s t o os work step (fuel, u, e) = (suc fuel, u, rw (work, run, step) e)

    Ends-empty : (s : FixState S) → s.worklist ≡ [] → Ends s
    unfolding run
    Ends-empty s empty = (1, s, ground (arith, empty))

    -- By recursion on the length of the worklist, when states with less room are known to end.
    Ends-of_less :
        (l : ℕ) (s : FixState S)
        → ((t : FixState S) → IsGood S m F t → total_room S m F t < total_room S m F s → Ends t)
        → IsGood S m F s
        → length s.worklist < l
        → Ends s
    Ends-of_less zero s less good short = absurd (omega arith)
    Ends-of_less (suc l) s less good short = elim (List-cases s.worklist) [
      | inl empty ↦ Ends-empty s empty
      | inr (o, os, work) ↦
          let there : contains s.worklist (first (o ∷ os)) ≡ true = rw work (member o os) in
          let (t, step, (good', moved)) =
            Returns-eq-ok (process-Returns S m F s (first (o ∷ os)) unique good there) in
          Ends-process s t o os work step (elim moved [
            | inl lt ↦ less t good' lt
            | inr same ↦
                let shorter = length-erase_lt s.worklist (first (o ∷ os)) there in
                subst Ends (sym same) (
                  Ends-of_less l (record s { worklist = erase s.worklist (first (o ∷ os)) }) less
                    (subst (IsGood S m F) same good') (omega (arith, shorter)))
          ])
    ]

    Ends-of_room : (n : ℕ) (s : FixState S) → IsGood S m F s → total_room S m F s < n → Ends s
    Ends-of_room zero s good lt = absurd (omega arith)
    Ends-of_room (suc n) s good lt =
        Ends-of_less (suc (length s.worklist)) s
          (λ t good' lt'. Ends-of_room n t good' (omega (arith, lt, lt'))) good (omega arith)

  visit_operation-IsGood :
      (s : FixState S) (a : ℕ) (o : Operation)
      → find_operation (operations_of m) a ≡ ok o
      → IsGood S m F s
      → IsGood S m F (if is_empty o.inputs then record s { worklist = insert s.worklist a } else s)
  visit_operation-IsGood s a o found good = elim (Bool-cases (is_empty o.inputs)) [
    | inr some_input ↦ rw some_input good
    | inl empty ↦ rw empty (record {
      fits = good.fits;
      known = λ b e. elim (Bool-cases (a == b)) [
        | inl same ↦
            subst (λ x. is_known S m F x ≡ true) ((nat_eq.beq_iff a b).0 same)
              (find_operation-any_of (operations_of m) a o found)
        | inr differ ↦ good.known b (ground (arith, contains-insert s.worklist a b))
      ];
    })
  ]

  visit_value-IsGood :
      (s : FixState S) (v : Value) (states : List (Value × S.State)) (uses : List (ℕ × ℕ))
      → ((w : Value)
          → find states w
            ≡ (if v == w then some (S.get_initial_state v) else find s.value_states w))
      → get_uses (graph S m) v ≡ ok uses
      → IsGood S m F s
      → IsGood S m F (record { value_states = states; worklist = add_uses S s.worklist uses })
  unfolding graph
  visit_value-IsGood s v states uses found got good = record {
    fits = λ w x e. elim (Bool-cases (v == w)) [
      | inl same ↦
          let is_x : S.get_initial_state v ≡ x = some-injective _ _ (rw (found w, same) at e) in
          subst F.Fits is_x (F.initial_fits v)
      | inr differ ↦ good.fits w x (rw (found w, differ) at e)
    ];
    known = known-add_uses S m F s v uses got good;
  }

  visit_node-IsGood :
      (s t : FixState S) (n : Node) → visit_node S m s n ≡ ok t → IsGood S m F s → IsGood S m F t
  unfolding visit_node
  visit_node-IsGood s t (operation a) h good =
      let (o, found, e) = >>=-eq-ok (find_operation (operations_of m) a) _ h in
      subst (IsGood S m F) (ok-injective e) (visit_operation-IsGood s a o found good)
  visit_node-IsGood s t (value v) h good = elim (Bool-cases (is_operation_result v)) [
    | inl result ↦ subst (IsGood S m F) (ok-injective (rw result at h)) good
    | inr other ↦
        let (states, inserted, rest) =
          >>=-eq-ok (insert_new s.value_states v (S.get_initial_state v)) _ (rw other at h) in
        let (uses, got, e) = >>=-eq-ok (get_uses (graph S m) v) _ rest in
        let found = insert_new-eq-ok s.value_states v (S.get_initial_state v) states inserted in
        subst (IsGood S m F) (ok-injective e) (visit_value-IsGood s v states uses found got good)
  ]

  fold-IsGood :
      (ns : List Node) (s t : FixState S)
      → fold_m (visit_node S m) s ns ≡ ok t
      → IsGood S m F s
      → IsGood S m F t
  fold-IsGood [] s t h good = subst (IsGood S m F) (ok-injective h) good
  fold-IsGood (n ∷ ns) s t h good =
      let (u, step, rest) = >>=-eq-ok (visit_node S m s n) _ h in
      fold-IsGood ns u t rest (visit_node-IsGood s u n step good)

  -- If the states have a bounded rank that a join which changes a state raises, the transformer
  -- returns a fitting state for each output, one operation has each address, and each round takes a
  -- member of the worklist, then there is some fuel with which the loop ends from the worklist that
  -- was set up.
  pub run_total :
      (first : List ℕ → ℕ) (s : FixState S)
      → HasUniqueAddresses S m F
      → ((o : ℕ) (os : List ℕ) → contains (o ∷ os) (first (o ∷ os)) ≡ true)
      → initialize S m ≡ ok s
      → (fuel : ℕ) × (t : FixState S) × (run S m first fuel s ≡ ok (some t))
  unfolding initialize find contains
  run_total first s unique member h =
      Ends-of_room unique first member (suc (total_room S m F s)) s
        (fold-IsGood (get_nodes (graph S m)) (record { value_states = []; worklist = [] }) s h
          (record { fits = λ v x e. cc; known = λ a e. cc }))
        (omega arith)
