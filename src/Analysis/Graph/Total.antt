-- ===== src/Analysis/Graph/Total.antt =====
-- The queries of src/analysis/common/module_graph.h return on the nodes of a module's graph.
use raksha.Common.{
  subst, ltb, ◌&&◌, Bool-cases, ℕ, zero, suc, ◌+◌, ◌≤◌, ◌<◌, Bool, true, false, ◌||◌, ◌≡◌, refl,
  ◌∙◌, List, [], ◌∷◌, ◌==◌, nat_eq, pair_eq, arith, any_of, Option-cases, ℕ-compare, inl, inr, ok,
  map_m, Returns, returns, Returns-bind, beq_refl,
}
use raksha.Common.Sets.{contains}
use raksha.Common.Maps.{find}
use mathlib.Core.List.{foldl}
use raksha.Ir.Values.{Value, value_eq, operation_result}
use raksha.Ir.Modules.{Operation, Module, number_of_outputs, operations_of}
use raksha.Analysis.Graph.{
  Node, value, operation, node_eq, AdjacencyList, add_node, add_edge, add_output_edges, pre_visit,
  compute_adjacency_list, as_operation, as_value, get_uses, get_results, get_adjacent_nodes,
}
use raksha.Analysis.Graph.Edges.{has_edge, edge_of, has_edge-compute_adjacency_list}
use raksha.Analysis.Graph.Queries.{
  is_node, is_node-add_node, is_node-add_edge, is_node-add_output_edges, is_node-pre_visit,
}

map_m-as_operation_total :
    (nodes : List (ℕ × Node))
    → ((i : ℕ) (v : Value) → contains nodes (i, value v) ≡ false)
    → Returns (λ _. Unit {0}) (map_m as_operation nodes)
unfolding as_operation contains
map_m-as_operation_total [] h = returns tt
map_m-as_operation_total ((i, operation o) ∷ nodes) h =
    Returns-bind (map_m-as_operation_total nodes (λ j v. ground (arith, h j v))) λ us _. returns tt
map_m-as_operation_total ((i, value v) ∷ nodes) h = absurd (
    let here = h i v in
    let same = beq_refl {A = ℕ × Node} (i, value v) in ground (arith, here, same))

map_m-as_value_total :
    (nodes : List (ℕ × Node))
    → ((i o : ℕ) → contains nodes (i, operation o) ≡ false)
    → Returns (λ _. Unit {0}) (map_m as_value nodes)
unfolding as_value contains
map_m-as_value_total [] h = returns tt
map_m-as_value_total ((i, value v) ∷ nodes) h =
    Returns-bind (map_m-as_value_total nodes (λ j o. ground (arith, h j o))) λ us _. returns tt
map_m-as_value_total ((i, operation o) ∷ nodes) h = absurd (
    let here = h i o in
    let same = beq_refl {A = ℕ × Node} (i, operation o) in ground (arith, here, same))

any_of-never :
    (p : Operation → Bool) (os : List Operation)
    → ((o : Operation) → p o ≡ false)
    → any_of p os ≡ false
any_of-never p [] h = refl
any_of-never p (o ∷ os) h = rw (h o) (any_of-never p os h)

adjacent_nodes :
    (adjacency : AdjacencyList) (n : Node)
    → is_node adjacency n ≡ true
    → (nodes : List (ℕ × Node)) × (get_adjacent_nodes adjacency n ≡ ok nodes)
      × ((e : ℕ × Node) → contains nodes e ≡ has_edge adjacency n e)
unfolding get_adjacent_nodes has_edge
adjacent_nodes adjacency n h = elim (Option-cases (find adjacency n)) [
  | inl absent ↦ absurd (ground arith)
  | inr (nodes, there) ↦
      (nodes, rw (there, get_adjacent_nodes) refl, λ e. rw (there, has_edge) refl)
]

pub get_uses_total :
    (m : Module) (v : Value)
    → is_node (compute_adjacency_list m) (value v) ≡ true
    → Returns (λ _. Unit {0}) (get_uses (compute_adjacency_list m) v)
unfolding get_uses
get_uses_total m v h =
    let (nodes, found, edges) = adjacent_nodes (compute_adjacency_list m) (value v) h in
    rw found (
      map_m-as_operation_total nodes λ i w.
        edges (i, value w)
        ∙ has_edge-compute_adjacency_list m (value v) i (value w)
        ∙ any_of-never (λ o. edge_of o (value v) i (value w)) (operations_of m) (λ o. refl))

pub get_results_total :
    (m : Module) (a : ℕ)
    → is_node (compute_adjacency_list m) (operation a) ≡ true
    → Returns (λ _. Unit {0}) (get_results (compute_adjacency_list m) a)
unfolding get_results
get_results_total m a h =
    let (nodes, found, edges) = adjacent_nodes (compute_adjacency_list m) (operation a) h in
    rw found (
      map_m-as_value_total nodes λ i p.
        edges (i, operation p)
        ∙ has_edge-compute_adjacency_list m (operation a) i (operation p)
        ∙ any_of-never (λ o. edge_of o (operation a) i (operation p)) (operations_of m) (λ o. refl))

-- The outputs are nodes.
is_node-written :
    (address i : ℕ) (adjacency : AdjacencyList)
    → let output = value (operation_result address i) in
      is_node (add_edge (add_node adjacency output) (operation address) (i, output)) output ≡ true
is_node-written address i adjacency =
    let output = value (operation_result address i) in
    ground (
      arith,
      is_node-add_edge (add_node adjacency output) (operation address) output (i, output),
      is_node-add_node adjacency output output,
      beq_refl {A = Node} output,
    )

is_node-output :
    (address i k j : ℕ) (adjacency : AdjacencyList)
    → i ≤ j
    → j < i + k
    → is_node (add_output_edges address i k adjacency) (value (operation_result address j)) ≡ true
unfolding add_output_edges
is_node-output address i zero j adjacency lo hi = absurd (omega arith)
is_node-output address i (suc k) j adjacency lo hi = elim (ℕ-compare i j) [
  | inl before ↦ is_node-output address (suc i) k j _ before (omega arith)
  | inr (inl same) ↦
      is_node-add_output_edges address (suc i) k _ (value (operation_result address j)) (
        subst
          (λ x.
            is_node
              (add_edge (add_node adjacency (value (operation_result address i)))
                (operation address) (i, value (operation_result address i)))
              (value (operation_result address x))
            ≡ true)
          same (is_node-written address i adjacency))
  | inr (inr after) ↦ absurd (omega arith)
]

is_node-pre_visit_output :
    (adjacency : AdjacencyList) (o : Operation) (j : ℕ)
    → j < number_of_outputs o
    → is_node (pre_visit adjacency o) (value (operation_result o.address j)) ≡ true
unfolding pre_visit
is_node-pre_visit_output adjacency o j lt =
    is_node-output o.address 0 (number_of_outputs o) j _ (omega arith) (omega arith)

is_node-visited :
    (adjacency : AdjacencyList) (o : Operation) (a j : ℕ)
    → (o.address == a && ltb j (number_of_outputs o)) ≡ true
    → is_node (pre_visit adjacency o) (value (operation_result a j)) ≡ true
is_node-visited adjacency o a j h =
    let same : o.address ≡ a = ground (arith, nat_eq.beq_iff o.address a) in
    let lt : j < number_of_outputs o = ground arith in
    subst (λ x. is_node (pre_visit adjacency o) (value (operation_result x j)) ≡ true) same
      (is_node-pre_visit_output adjacency o j lt)

is_node-foldl_output :
    (os : List Operation) (adjacency : AdjacencyList) (a j : ℕ)
    → (is_node adjacency (value (operation_result a j))
        || any_of (λ o. o.address == a && ltb j (number_of_outputs o)) os)
      ≡ true
    → is_node (foldl pre_visit adjacency os) (value (operation_result a j)) ≡ true
is_node-foldl_output [] adjacency a j h = ground arith
is_node-foldl_output (o ∷ os) adjacency a j h =
    is_node-foldl_output os (pre_visit adjacency o) a j
      (elim (Bool-cases (o.address == a && ltb j (number_of_outputs o))) [
        | inl here ↦ rw (is_node-visited adjacency o a j here) refl
        | inr other ↦ ground (arith, is_node-pre_visit adjacency o (value (operation_result a j)))
      ])

pub is_node-compute_adjacency_list_output :
    (m : Module) (a j : ℕ)
    → any_of (λ o. o.address == a && ltb j (number_of_outputs o)) (operations_of m) ≡ true
    → is_node (compute_adjacency_list m) (value (operation_result a j)) ≡ true
unfolding compute_adjacency_list find
is_node-compute_adjacency_list_output m a j h = is_node-foldl_output (operations_of m) [] a j h
