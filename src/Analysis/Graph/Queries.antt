-- ===== src/Analysis/Graph/Queries.antt =====
-- `GetNodes`, `GetUses` and `GetResults` against the edges.
use raksha.Common.{
  ℕ, zero, suc, Bool, true, false, ◌||◌, ◌≡◌, refl, List, [], ◌∷◌, none, some, ◌==◌, nat_eq,
  pair_eq, arith, any_of, Option-cases, inl, inr, ok, >>=-eq-ok, ok-injective, sym, map_m, ◌∙◌,
}
use raksha.Common.Sets.{insert, contains}
use raksha.Common.Maps.{find, assign, find-assign, find-try_insert}
use mathlib.Core.List.{foldl}
use raksha.Ir.Values.{Value, value_eq, operation_result}
use raksha.Ir.Modules.{Operation, Module, number_of_outputs, operations_of}
use raksha.Analysis.Graph.{
  Node, value, operation, node_eq, AdjacencyList, add_node, add_edge, add_input_edges,
  add_output_edges, pre_visit, compute_adjacency_list, as_operation, as_value, get_uses,
  get_results, get_nodes, get_adjacent_nodes,
}
use raksha.Analysis.Graph.Edges.{has_edge}

abbrev pub is_node : AdjacencyList → Node → Bool
is_node adjacency n = elim (find adjacency n) [ none ↦ false | some _ ↦ true ]

pub is_node-add_node :
    (adjacency : AdjacencyList) (m n : Node)
    → is_node (add_node adjacency m) n ≡ (is_node adjacency n || m == n)
unfolding add_node
is_node-add_node adjacency m n =
    ground (arith, find-try_insert adjacency m [] n, node_eq.beq_iff m n)

is_node-assign :
    (adjacency : AdjacencyList) (m n : Node) (nodes : List (ℕ × Node))
    → is_node (assign adjacency m nodes) n ≡ (is_node adjacency n || m == n)
is_node-assign adjacency m n nodes = ground (arith, find-assign adjacency m nodes n)

pub is_node-add_edge :
    (adjacency : AdjacencyList) (m n : Node) (e : ℕ × Node)
    → is_node (add_edge adjacency m e) n ≡ (is_node adjacency n || m == n)
unfolding add_edge
is_node-add_edge adjacency m n e = elim (Option-cases (find (add_node adjacency m) m)) [
  | inl h ↦ rw (h, add_edge) (is_node-add_node adjacency m n)
  | inr (nodes, h) ↦
      rw (h, add_edge)
        (ground (
          arith,
          is_node-add_node adjacency m n,
          is_node-assign (add_node adjacency m) m n (insert nodes e),
        ))
]

is_node-add_input_edges :
    (address i : ℕ) (inputs : List Value) (adjacency : AdjacencyList) (n : Node)
    → is_node adjacency n ≡ true
    → is_node (add_input_edges address i inputs adjacency) n ≡ true
unfolding add_input_edges
is_node-add_input_edges address i [] adjacency n h = h
is_node-add_input_edges address i (v ∷ inputs) adjacency n h =
    is_node-add_input_edges address (suc i) inputs _ n
      (ground (arith, is_node-add_edge adjacency (value v) n (i, operation address)))

pub is_node-add_output_edges :
    (address i k : ℕ) (adjacency : AdjacencyList) (n : Node)
    → is_node adjacency n ≡ true
    → is_node (add_output_edges address i k adjacency) n ≡ true
unfolding add_output_edges
is_node-add_output_edges address i zero adjacency n h = h
is_node-add_output_edges address i (suc k) adjacency n h =
    let output = value (operation_result address i) in
    is_node-add_output_edges address (suc i) k _ n (
      ground (
        arith,
        is_node-add_edge (add_node adjacency output) (operation address) n (i, output),
        is_node-add_node adjacency output n,
      ))

pub is_node-pre_visit :
    (adjacency : AdjacencyList) (o : Operation) (n : Node)
    → (is_node adjacency n || operation o.address == n) ≡ true
    → is_node (pre_visit adjacency o) n ≡ true
unfolding pre_visit
is_node-pre_visit adjacency o n h = is_node-add_output_edges o.address 0 (number_of_outputs o) _ n (
    is_node-add_input_edges o.address 0 o.inputs _ n
      (is_node-add_node adjacency (operation o.address) n ∙ h))

is_node-foldl :
    (os : List Operation) (adjacency : AdjacencyList) (n : Node)
    → (is_node adjacency n || any_of (λ o. operation o.address == n) os) ≡ true
    → is_node (foldl pre_visit adjacency os) n ≡ true
is_node-foldl [] adjacency n h = ground arith
is_node-foldl (o ∷ os) adjacency n h =
    is_node-foldl os (pre_visit adjacency o) n (ground (arith, is_node-pre_visit adjacency o n))

-- Every operation of the module is a node.
pub is_node-compute_adjacency_list :
    (m : Module) (address : ℕ)
    → any_of (λ o. o.address == address) (operations_of m) ≡ true
    → is_node (compute_adjacency_list m) (operation address) ≡ true
unfolding compute_adjacency_list find node_eq
is_node-compute_adjacency_list m address h =
    is_node-foldl (operations_of m) [] (operation address) h

-- The source of an edge is a node.
pub is_node_of_has_edge :
    (adjacency : AdjacencyList) (n : Node) (e : ℕ × Node)
    → has_edge adjacency n e ≡ true
    → is_node adjacency n ≡ true
unfolding has_edge
is_node_of_has_edge adjacency n e h = ground arith

pub contains-get_nodes :
    (adjacency : AdjacencyList) (n : Node) → contains (get_nodes adjacency) n ≡ is_node adjacency n
unfolding contains get_nodes find
contains-get_nodes [] n = refl
contains-get_nodes ((m, nodes) ∷ adjacency) n = ground (arith, contains-get_nodes adjacency n)

map_m-as_operation :
    (nodes : List (ℕ × Node)) (us : List (ℕ × ℕ)) (i o : ℕ)
    → map_m as_operation nodes ≡ ok us
    → contains us (i, o) ≡ contains nodes (i, operation o)
unfolding contains as_operation node_eq pair_eq
map_m-as_operation [] us i o h = rw (sym (ok-injective h)) refl
map_m-as_operation ((j, value v) ∷ nodes) us i o h = cc
map_m-as_operation ((j, operation p) ∷ nodes) us i o h =
    let (rest, run, e) = >>=-eq-ok (map_m as_operation nodes) _ h in
    rw (sym (ok-injective e)) (ground (arith, map_m-as_operation nodes rest i o run))

map_m-as_value :
    (nodes : List (ℕ × Node)) (rs : List (ℕ × Value)) (i : ℕ) (v : Value)
    → map_m as_value nodes ≡ ok rs
    → contains rs (i, v) ≡ contains nodes (i, value v)
unfolding contains as_value node_eq pair_eq
map_m-as_value [] rs i v h = rw (sym (ok-injective h)) refl
map_m-as_value ((j, operation p) ∷ nodes) rs i v h = cc
map_m-as_value ((j, value w) ∷ nodes) rs i v h =
    let (rest, run, e) = >>=-eq-ok (map_m as_value nodes) _ h in
    rw (sym (ok-injective e)) (ground (arith, map_m-as_value nodes rest i v run))

has_edge_of_get_adjacent_nodes :
    (adjacency : AdjacencyList) (n : Node) {nodes : List (ℕ × Node)} (e : ℕ × Node)
    → get_adjacent_nodes adjacency n ≡ ok nodes
    → contains nodes e ≡ has_edge adjacency n e
unfolding get_adjacent_nodes has_edge
has_edge_of_get_adjacent_nodes adjacency n e h = ground arith

-- What `get_uses` returns are the edges from the value.
pub contains-get_uses :
    (adjacency : AdjacencyList) (v : Value) (us : List (ℕ × ℕ)) (i o : ℕ)
    → get_uses adjacency v ≡ ok us
    → contains us (i, o) ≡ has_edge adjacency (value v) (i, operation o)
unfolding get_uses
contains-get_uses adjacency v us i o h =
    let (nodes, found, run) = >>=-eq-ok (get_adjacent_nodes adjacency (value v)) _ h in
    map_m-as_operation nodes us i o run
    ∙ has_edge_of_get_adjacent_nodes adjacency (value v) (i, operation o) found

-- What `get_results` returns are the edges from the operation.
pub contains-get_results :
    (adjacency : AdjacencyList) (o : ℕ) (rs : List (ℕ × Value)) (i : ℕ) (v : Value)
    → get_results adjacency o ≡ ok rs
    → contains rs (i, v) ≡ has_edge adjacency (operation o) (i, value v)
unfolding get_results
contains-get_results adjacency o rs i v h =
    let (nodes, found, run) = >>=-eq-ok (get_adjacent_nodes adjacency (operation o)) _ h in
    map_m-as_value nodes rs i v run
    ∙ has_edge_of_get_adjacent_nodes adjacency (operation o) (i, value v) found
