-- ===== src/Analysis/Graph/Operations.antt =====
-- The operations among the nodes of the graph of src/analysis/common/module_graph.cc.
use raksha.Common.Maps.{find}
use raksha.Common.{
  subst, beq_refl, Bool-cases, inl, inr, ℕ, zero, suc, true, false, ◌||◌, ◌≡◌, refl, ◌∙◌, List, [],
  ◌∷◌, ◌==◌, nat_eq, arith, any_of,
}
use mathlib.Core.List.{foldl}
use raksha.Ir.Values.{Value, value_eq, operation_result}
use raksha.Ir.Modules.{Operation, Module, number_of_outputs, operations_of}
use raksha.Analysis.Graph.{
  Node, value, operation, node_eq, AdjacencyList, add_node, add_edge, add_input_edges,
  add_output_edges, pre_visit, compute_adjacency_list,
}
use raksha.Analysis.Graph.Queries.{is_node, is_node-add_node, is_node-add_edge}

added :
    (a : AdjacencyList) (v : Value) (e : ℕ × Node) (p : ℕ)
    → is_node (add_edge a (value v) e) (operation p) ≡ is_node a (operation p)
unfolding node_eq
added a v e p = ground (arith, is_node-add_edge a (value v) (operation p) e)

no_value :
    (a : AdjacencyList) (v : Value) (p : ℕ)
    → (is_node (add_node a (value v)) (operation p) || false) ≡ is_node a (operation p)
unfolding node_eq
no_value a v p = ground (arith, is_node-add_node a (value v) (operation p))

-- The two nodes that an output adds, when the operation is there.
was_there :
    (a : AdjacencyList) (v : Value) (address p : ℕ)
    → is_node a (operation address) ≡ true
    → (is_node (add_node a (value v)) (operation p) || operation address == operation p)
      ≡ is_node a (operation p)
was_there a v address p h = elim (Bool-cases (operation address == operation p)) [
  | inl same ↦
      let is_p : operation address ≡ operation p =
        (node_eq.beq_iff (operation address) (operation p)).0 same in
      let h' : is_node a (operation p) ≡ true = subst (λ n. is_node a n ≡ true) is_p h in
      rw (same, h') (ground arith)
  | inr differ ↦ rw differ (no_value a v p)
]

written :
    (a : AdjacencyList) (v : Value) (address i p : ℕ)
    → is_node a (operation address) ≡ true
    → is_node (add_edge (add_node a (value v)) (operation address) (i, value v)) (operation p)
      ≡ is_node a (operation p)
unfolding node_eq
written a v address i p h =
    is_node-add_edge (add_node a (value v)) (operation address) (operation p) (i, value v)
    ∙ was_there a v address p h

is_operation-add_input_edges :
    (address i : ℕ) (inputs : List Value) (a : AdjacencyList) (p : ℕ)
    → is_node (add_input_edges address i inputs a) (operation p) ≡ is_node a (operation p)
unfolding add_input_edges
is_operation-add_input_edges address i [] a p = refl
is_operation-add_input_edges address i (v ∷ inputs) a p =
    is_operation-add_input_edges address (suc i) inputs _ p ∙ added a v (i, operation address) p

is_operation-add_output_edges :
    (address i k : ℕ) (a : AdjacencyList) (p : ℕ)
    → is_node a (operation address) ≡ true
    → is_node (add_output_edges address i k a) (operation p) ≡ is_node a (operation p)
unfolding add_output_edges
is_operation-add_output_edges address i zero a p h = refl
is_operation-add_output_edges address i (suc k) a p h =
    let output = operation_result address i in
    is_operation-add_output_edges address (suc i) k _ p (written a output address i address h ∙ h)
    ∙ written a output address i p h

is_operation-pre_visit :
    (a : AdjacencyList) (o : Operation) (p : ℕ)
    → is_node (pre_visit a o) (operation p) ≡ (is_node a (operation p) || o.address == p)
unfolding pre_visit node_eq
is_operation-pre_visit a o p =
    let b = add_node a (operation o.address) in
    let c = add_input_edges o.address 0 o.inputs b in
    let there : is_node c (operation o.address) ≡ true =
      is_operation-add_input_edges o.address 0 o.inputs b o.address
      ∙ ground (
        arith,
        is_node-add_node a (operation o.address) (operation o.address),
        beq_refl o.address,
      ) in
    is_operation-add_output_edges o.address 0 (number_of_outputs o) c p there
    ∙ is_operation-add_input_edges o.address 0 o.inputs b p
    ∙ is_node-add_node a (operation o.address) (operation p)

is_operation-foldl :
    (os : List Operation) (a : AdjacencyList) (p : ℕ)
    → is_node (foldl pre_visit a os) (operation p)
      ≡ (is_node a (operation p) || any_of (λ o. o.address == p) os)
is_operation-foldl [] a p = ground arith
is_operation-foldl (o ∷ os) a p =
    ground (arith, is_operation-foldl os (pre_visit a o) p, is_operation-pre_visit a o p)

pub is_operation-compute_adjacency_list :
    (m : Module) (p : ℕ)
    → is_node (compute_adjacency_list m) (operation p)
      ≡ any_of (λ o. o.address == p) (operations_of m)
unfolding compute_adjacency_list find
is_operation-compute_adjacency_list m p = is_operation-foldl (operations_of m) [] p
