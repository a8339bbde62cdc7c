-- ===== src/Analysis/Graph/Distinct.antt =====
-- No node of the graph of src/analysis/common/module_graph.cc is listed twice.
use raksha.Common.{
  subst, ℕ, zero, suc, false, ◌≡◌, refl, List, [], ◌∷◌, none, ◌==◌, nat_eq, arith, Bool-cases,
  Option-cases, inl, inr, pair_eq,
}
use raksha.Common.Sets.{insert}
use raksha.Common.Maps.{find, assign, try_insert, NodupKeys, find-assign, find-try_insert}
use mathlib.Core.List.{foldl}
use raksha.Ir.Values.{Value, value_eq, operation_result}
use raksha.Ir.Modules.{Operation, Module, number_of_outputs, operations_of}
use raksha.Analysis.Graph.{
  Node, value, operation, node_eq, AdjacencyList, add_node, add_edge, add_input_edges,
  add_output_edges, pre_visit, compute_adjacency_list,
}

find-try_insert_ne :
    (a : AdjacencyList) (k : Node) (v : List (ℕ × Node)) (j : Node)
    → find a j ≡ none
    → (k == j) ≡ false
    → find (try_insert a k v) j ≡ none
find-try_insert_ne a k v j h differ = rw (find-try_insert a k v j, differ) h

find-assign_ne :
    (a : AdjacencyList) (k : Node) (v : List (ℕ × Node)) (j : Node)
    → find a j ≡ none
    → (k == j) ≡ false
    → find (assign a k v) j ≡ none
find-assign_ne a k v j h differ = rw (find-assign a k v j, differ) h

differs : (j k : Node) → (j == k) ≡ false → (k == j) ≡ false
differs j k h = ground (arith, node_eq.beq_iff j k, node_eq.beq_iff k j)

try_insert-NodupKeys :
    (a : AdjacencyList) (k : Node) (v : List (ℕ × Node))
    → NodupKeys a
    → NodupKeys (try_insert a k v)
unfolding try_insert find
try_insert-NodupKeys [] k v h = (refl, tt)
try_insert-NodupKeys ((j, w) ∷ a) k v (new, h) = elim (Bool-cases (j == k)) [
  | inl same ↦ rw (same, try_insert) (new, h)
  | inr differ ↦
      rw (differ, try_insert)
        (find-try_insert_ne a k v j new (differs j k differ), try_insert-NodupKeys a k v h)
]

assign-NodupKeys :
    (a : AdjacencyList) (k : Node) (v : List (ℕ × Node)) → NodupKeys a → NodupKeys (assign a k v)
unfolding assign find
assign-NodupKeys [] k v h = (refl, tt)
assign-NodupKeys ((j, w) ∷ a) k v (new, h) = elim (Bool-cases (j == k)) [
  | inl same ↦
      rw (same, assign) (subst (λ x. find a x ≡ none) ((node_eq.beq_iff j k).0 same) new, h)
  | inr differ ↦
      rw (differ, assign)
        (find-assign_ne a k v j new (differs j k differ), assign-NodupKeys a k v h)
]

add_edge-NodupKeys :
    (a : AdjacencyList) (n : Node) (e : ℕ × Node) → NodupKeys a → NodupKeys (add_edge a n e)
unfolding add_edge add_node
add_edge-NodupKeys a n e h =
    let entries = add_node a n in
    let fine = try_insert-NodupKeys a n [] h in
    elim (Option-cases (find entries n)) [
      | inl absent ↦ rw (absent, add_edge) fine
      | inr (nodes, there) ↦ rw (there, add_edge) (assign-NodupKeys entries n (insert nodes e) fine)
    ]

add_input_edges-NodupKeys :
    (address i : ℕ) (inputs : List Value) (a : AdjacencyList)
    → NodupKeys a
    → NodupKeys (add_input_edges address i inputs a)
unfolding add_input_edges
add_input_edges-NodupKeys address i [] a h = h
add_input_edges-NodupKeys address i (v ∷ inputs) a h =
    add_input_edges-NodupKeys address (suc i) inputs _
      (add_edge-NodupKeys a (value v) (i, operation address) h)

add_output_edges-NodupKeys :
    (address i k : ℕ) (a : AdjacencyList) → NodupKeys a → NodupKeys (add_output_edges address i k a)
unfolding add_output_edges add_node
add_output_edges-NodupKeys address i zero a h = h
add_output_edges-NodupKeys address i (suc k) a h =
    let output = value (operation_result address i) in
    add_output_edges-NodupKeys address (suc i) k _ (
      add_edge-NodupKeys (add_node a output) (operation address) (i, output)
        (try_insert-NodupKeys a output [] h))

foldl-NodupKeys :
    (os : List Operation) (a : AdjacencyList) → NodupKeys a → NodupKeys (foldl pre_visit a os)
unfolding pre_visit add_node
foldl-NodupKeys [] a h = h
foldl-NodupKeys (o ∷ os) a h = foldl-NodupKeys os (pre_visit a o) (
    add_output_edges-NodupKeys o.address 0 (number_of_outputs o) _ (
      add_input_edges-NodupKeys o.address 0 o.inputs _
        (try_insert-NodupKeys a (operation o.address) [] h)))

pub compute_adjacency_list-NodupKeys : (m : Module) → NodupKeys (compute_adjacency_list m)
unfolding compute_adjacency_list
compute_adjacency_list-NodupKeys m = foldl-NodupKeys (operations_of m) [] tt
