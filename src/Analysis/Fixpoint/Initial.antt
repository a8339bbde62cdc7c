-- ===== src/Analysis/Fixpoint/Initial.antt =====
-- The visitor that sets up src/analysis/common/module_fixpoint_iterator.h returns for every module.
use raksha.Common.{
  ℕ, true, false, ◌≡◌, refl, sym, ◌∙◌, subst, List, [], ◌∷◌, none, ◌==◌, nat_eq, ok, fold_m, arith,
  Bool-cases, inl, inr, Returns, returns, Returns-bind, Returns-eq-ok, is_empty, beq_refl,
}
use raksha.Common.Maps.{find, insert_new, try_insert, find-try_insert_new, NodupKeys}
use raksha.Ir.Values.{Value, value_eq, is_operation_result}
use raksha.Ir.Modules.{Module, operations_of}
use raksha.Analysis.Graph.{Node, value, operation, node_eq, AdjacencyList, get_nodes}
use raksha.Analysis.Graph.Queries.{is_node}
use raksha.Analysis.Graph.Total.{get_uses_total}
use raksha.Analysis.Graph.Distinct.{compute_adjacency_list-NodupKeys}
use raksha.Analysis.Graph.Operations.{is_operation-compute_adjacency_list}
use raksha.Analysis.Fixpoint.{AbstractSemantics, FixState, graph, visit_node, initialize}
use raksha.Analysis.Fixpoint.Processing.{find_operation_total}

head_node :
    (n : Node) (nodes : List (ℕ × Node)) (a : AdjacencyList) → is_node ((n, nodes) ∷ a) n ≡ true
unfolding find
head_node n nodes a = ground (arith, beq_refl n)

tail_node :
    (n : Node) (nodes : List (ℕ × Node)) (a : AdjacencyList) (k : Node)
    → is_node a k ≡ true
    → is_node ((n, nodes) ∷ a) k ≡ true
unfolding find
tail_node n nodes a k h = elim (Bool-cases (n == k)) [
  | inl same ↦ ground (arith, same)
  | inr differ ↦ ground (arith, differ, h)
]

other_node :
    (a : AdjacencyList) (n k : Node) → find a n ≡ none → is_node a k ≡ true → (n == k) ≡ false
other_node a n k fresh h = elim (Bool-cases (n == k)) [
  | inr differ ↦ differ
  | inl same ↦
      let is_k : n ≡ k = (node_eq.beq_iff n k).0 same in
      let missing : find a k ≡ none = subst (λ x. find a x ≡ none) is_k fresh in
      absurd (ground (arith, missing, h))
]

module _ (S : AbstractSemantics) (m : Module) where
  -- Nothing but the value that is visited gets a state.
  abbrev Adds : FixState S → Node → FixState S → Type 0
  Adds s n t =
      (w : Value)
      → (n == value w) ≡ false
      → find s.value_states w ≡ none
      → find t.value_states w ≡ none

  kept :
      (s : FixState S) (v w : Value)
      → find s.value_states v ≡ none
      → (value v == value w) ≡ false
      → find s.value_states w ≡ none
      → find (try_insert s.value_states v (S.get_initial_state v)) w ≡ none
  unfolding node_eq
  kept s v w new differ e =
      rw (find-try_insert_new s.value_states v (S.get_initial_state v) w new, differ) e

  visit_value_total :
      (s : FixState S) (v : Value)
      → is_node (graph S m) (value v) ≡ true
      → find s.value_states v ≡ none
      → Returns (Adds s (value v)) (visit_node S m s (value v))
  unfolding visit_node graph insert_new node_eq
  visit_value_total s v node new = elim (Bool-cases (is_operation_result v)) [
    | inl result ↦ rw (result, visit_node) (returns (λ w d e. e))
    | inr other ↦
        let (uses, got, _) = Returns-eq-ok (get_uses_total m v node) in
        rw (other, visit_node, new, insert_new, got) (returns (λ w d e. kept s v w new d e))
  ]

  visit_operation_total :
      (s : FixState S) (a : ℕ)
      → is_node (graph S m) (operation a) ≡ true
      → Returns (Adds s (operation a)) (visit_node S m s (operation a))
  unfolding visit_node graph
  visit_operation_total s a node =
      let (o, found) =
        find_operation_total (operations_of m) a
          (sym (is_operation-compute_adjacency_list m a) ∙ node) in
      rw (found, visit_node)
        (returns (λ w d e. elim (Bool-cases (is_empty o.inputs)) [
          | inl empty ↦ rw empty e
          | inr some_input ↦ rw some_input e
        ]))

  visit_total :
      (s : FixState S) (n : Node)
      → is_node (graph S m) n ≡ true
      → ((v : Value) → n ≡ value v → find s.value_states v ≡ none)
      → Returns (Adds s n) (visit_node S m s n)
  visit_total s (value v) node new = visit_value_total s v node (new v refl)
  visit_total s (operation a) node new = visit_operation_total s a node

  fold_total :
      (a : AdjacencyList) (s : FixState S)
      → NodupKeys a
      → ((n : Node) → is_node a n ≡ true → is_node (graph S m) n ≡ true)
      → ((v : Value) → is_node a (value v) ≡ true → find s.value_states v ≡ none)
      → Returns (λ t. Unit {0}) (fold_m (visit_node S m) s (get_nodes a))
  unfolding get_nodes find
  fold_total [] s distinct sub new = returns tt
  fold_total ((n, nodes) ∷ a) s (fresh, distinct) sub new =
      Returns-bind
        (visit_total s n (sub n (head_node n nodes a))
          (λ v e. new v (subst (λ k. is_node ((n, nodes) ∷ a) k ≡ true) e (head_node n nodes a))))
        λ t adds.
          fold_total a t distinct (λ k h. sub k (tail_node n nodes a k h))
            λ v h.
              adds v (other_node a n (value v) fresh h) (new v (tail_node n nodes a (value v) h))

  pub initialize_total : (s : FixState S) × (initialize S m ≡ ok s)
  unfolding initialize graph find
  initialize_total =
      let (s, e, _) = Returns-eq-ok (
        fold_total (graph S m) (record { value_states = []; worklist = [] })
          (compute_adjacency_list-NodupKeys m) (λ n h. h) (λ v h. refl)) in
      (s, e)
