-- ===== src/Analysis/Graph/Edges.antt =====
-- The edges of the graph are those of the operations of the module.
use raksha.Common.{
  ℕ, zero, suc, ◌+◌, Bool, false, ◌&&◌, ◌||◌, ◌≡◌, List, [], ◌∷◌, none, some, ◌==◌, nat_eq, pair_eq,
  arith, ltb, leb, ◌-◌, if◌then◌else◌, any_of, get_elem?, Option-cases, ℕ-compare, inl, inr,
}
use raksha.Common.Sets.{insert, contains, contains-insert}
use raksha.Common.Maps.{find, assign, find-assign, find-try_insert}
use mathlib.Core.List.{foldl}
use raksha.Ir.Values.{Value, operation_result, value_eq}
use raksha.Ir.Modules.{Operation, Module, number_of_outputs, operations_of}
use raksha.Analysis.Graph.{
  Node, value, operation, node_eq, AdjacencyList, add_node, add_edge, add_input_edges,
  add_output_edges, pre_visit, compute_adjacency_list,
}

unfoldable pub has_edge : AdjacencyList → Node → ℕ × Node → Bool
has_edge adjacency n e = elim (find adjacency n) [ none ↦ false | some nodes ↦ contains nodes e ]

has_edge-add_node :
    (adjacency : AdjacencyList) (m n : Node) (e : ℕ × Node)
    → has_edge (add_node adjacency m) n e ≡ has_edge adjacency n e
unfolding has_edge add_node contains
has_edge-add_node adjacency m n e =
    ground (arith, find-try_insert adjacency m [] n, node_eq.beq_iff m n)

find-add_node_self :
    (adjacency : AdjacencyList) (n : Node)
    → (nodes : List (ℕ × Node)) × (find (add_node adjacency n) n ≡ some nodes)
      × ((e : ℕ × Node) → contains nodes e ≡ has_edge adjacency n e)
unfolding has_edge add_node contains
find-add_node_self adjacency n = elim (Option-cases (find adjacency n)) [
  | inl new ↦ (
    [],
    ground (arith, find-try_insert adjacency n [] n, node_eq.beq_iff n n),
    λ e. rw (new, has_edge),
  )
  | inr (nodes, old) ↦ (
    nodes,
    ground (arith, find-try_insert adjacency n [] n, node_eq.beq_iff n n),
    λ e. rw (old, has_edge),
  )
]

has_edge-assign :
    (adjacency : AdjacencyList) (m n : Node) (nodes : List (ℕ × Node)) (e : ℕ × Node)
    → has_edge (assign adjacency m nodes) n e
      ≡ (if m == n then contains nodes e else has_edge adjacency n e)
unfolding has_edge
has_edge-assign adjacency m n nodes e = ground (arith, find-assign adjacency m nodes n)

has_edge-add_edge :
    (adjacency : AdjacencyList) (m n : Node) (d e : ℕ × Node)
    → has_edge (add_edge adjacency m d) n e ≡ (has_edge adjacency n e || (m == n && d == e))
unfolding add_edge
has_edge-add_edge adjacency m n d e =
    let (nodes, found, held) = find-add_node_self adjacency m in
    rw (found, add_edge)
      (ground (
        arith,
        has_edge-assign (add_node adjacency m) m n (insert nodes d) e,
        contains-insert nodes d e,
        held e,
        has_edge-add_node adjacency m n e,
        node_eq.beq_iff m n,
      ))

-- The input at `i` is `v`.
abbrev pub input_is : List Value → ℕ → Value → Bool
input_is inputs i v = elim (get_elem? inputs i) [ some w ↦ w == v | none ↦ false ]

-- The edges that an operation contributes: from its inputs, and to its outputs.
abbrev pub edge_of : Operation → Node → ℕ → Node → Bool
edge_of o (value v) i (operation p) = o.address == p && input_is o.inputs i v
edge_of o (operation p) i (value w) =
    o.address == p && ltb i (number_of_outputs o) && operation_result o.address i == w
edge_of o _ i _ = false

-- The edges from the inputs behind the index `i`.
abbrev inputs_edge : ℕ → ℕ → List Value → Node → ℕ → Node → Bool
inputs_edge address i inputs (value v) j (operation p) =
    address == p && leb i j && input_is inputs (j - i) v
inputs_edge address i inputs _ j _ = false

abbrev same_end : ℕ × Node → ℕ × Node → Bool
same_end d e = d == e

input_is-cons :
    (i j : ℕ) (v w : Value) (inputs : List Value)
    → (leb i j && input_is (v ∷ inputs) (j - i) w)
      ≡ ((i == j && v == w) || (leb (suc i) j && input_is inputs (j - suc i) w))
input_is-cons i j v w inputs = elim (ℕ-compare i j) [
  | inl below ↦ let e : j - i ≡ suc (j - suc i) = omega arith in rw e (ground arith)
  | inr (inl same) ↦ let e : j - i ≡ zero = omega arith in rw e (ground arith)
  | inr (inr above) ↦ ground arith
]

inputs_edge-cons :
    (address i : ℕ) (v : Value) (inputs : List Value) (n : Node) (j : ℕ) (m : Node)
    → inputs_edge address i (v ∷ inputs) n j m ≡ (
        (value v == n && same_end (i, operation address) (j, m))
        || inputs_edge address (suc i) inputs n j m)
unfolding node_eq pair_eq
inputs_edge-cons address i v inputs (value w) j (operation p) =
    ground (arith, input_is-cons i j v w inputs)
inputs_edge-cons address i v inputs (value w) j (value u) = ground arith
inputs_edge-cons address i v inputs (operation q) j (operation p) = ground arith
inputs_edge-cons address i v inputs (operation q) j (value u) = ground arith

has_edge-add_input_edges :
    (address i : ℕ) (inputs : List Value) (adjacency : AdjacencyList) (n : Node) (j : ℕ) (m : Node)
    → has_edge (add_input_edges address i inputs adjacency) n (j, m)
      ≡ (has_edge adjacency n (j, m) || inputs_edge address i inputs n j m)
unfolding add_input_edges
has_edge-add_input_edges address i [] adjacency (value w) j (operation p) = ground arith
has_edge-add_input_edges address i [] adjacency (value w) j (value u) = ground arith
has_edge-add_input_edges address i [] adjacency (operation q) j m = ground arith
has_edge-add_input_edges address i (v ∷ inputs) adjacency n j m =
    let adjacency' = add_edge adjacency (value v) (i, operation address) in
    ground (
      arith,
      has_edge-add_input_edges address (suc i) inputs adjacency' n j m,
      has_edge-add_edge adjacency (value v) n (i, operation address) (j, m),
      inputs_edge-cons address i v inputs n j m,
    )

abbrev outputs_edge : ℕ → ℕ → ℕ → Node → ℕ → Node → Bool
outputs_edge address i k (operation p) j (value w) =
    address == p && leb i j && ltb j (i + k) && operation_result address j == w
outputs_edge address i k _ j _ = false

outputs_edge-suc :
    (address i k : ℕ) (n : Node) (j : ℕ) (m : Node)
    → outputs_edge address i (suc k) n j m ≡ (
        (operation address == n && same_end (i, value (operation_result address i)) (j, m))
        || outputs_edge address (suc i) k n j m)
unfolding node_eq pair_eq
outputs_edge-suc address i k (operation p) j (value w) = ground (
  arith,
  value_eq.beq_iff (operation_result address i) w,
  value_eq.beq_iff (operation_result address j) w,
)
outputs_edge-suc address i k (operation p) j (operation q) = ground arith
outputs_edge-suc address i k (value v) j (value w) = ground arith
outputs_edge-suc address i k (value v) j (operation q) = ground arith

has_edge-add_output_edges :
    (address i k : ℕ) (adjacency : AdjacencyList) (n : Node) (j : ℕ) (m : Node)
    → has_edge (add_output_edges address i k adjacency) n (j, m)
      ≡ (has_edge adjacency n (j, m) || outputs_edge address i k n j m)
unfolding add_output_edges
has_edge-add_output_edges address i zero adjacency (operation p) j (value w) = ground arith
has_edge-add_output_edges address i zero adjacency (operation p) j (operation q) = ground arith
has_edge-add_output_edges address i zero adjacency (value v) j m = ground arith
has_edge-add_output_edges address i (suc k) adjacency n j m =
    let output = value (operation_result address i) in
    let adjacency' = add_node adjacency output in
    ground (
      arith,
      has_edge-add_output_edges address (suc i) k
          (add_edge adjacency' (operation address) (i, output)) n j m,
      has_edge-add_edge adjacency' (operation address) n (i, output) (j, m),
      has_edge-add_node adjacency output n (j, m),
      outputs_edge-suc address i k n j m,
    )

edge_of_parts :
    (o : Operation) (n : Node) (j : ℕ) (m : Node)
    → edge_of o n j m ≡ (
        inputs_edge o.address 0 o.inputs n j m
        || outputs_edge o.address 0 (number_of_outputs o) n j m)
edge_of_parts o (value v) j (operation p) = let e : j - 0 ≡ j = omega arith in rw e (ground arith)
edge_of_parts o (operation p) j (value w) = ground arith
edge_of_parts o (value v) j (value w) = ground arith
edge_of_parts o (operation p) j (operation q) = ground arith

has_edge-pre_visit :
    (adjacency : AdjacencyList) (o : Operation) (n : Node) (j : ℕ) (m : Node)
    → has_edge (pre_visit adjacency o) n (j, m) ≡ (has_edge adjacency n (j, m) || edge_of o n j m)
unfolding pre_visit
has_edge-pre_visit adjacency o n j m =
    let a = add_node adjacency (operation o.address) in
    let b = add_input_edges o.address 0 o.inputs a in
    ground (
      arith,
      has_edge-add_node adjacency (operation o.address) n (j, m),
      has_edge-add_input_edges o.address 0 o.inputs a n j m,
      has_edge-add_output_edges o.address 0 (number_of_outputs o) b n j m,
      edge_of_parts o n j m,
    )

has_edge-foldl :
    (os : List Operation) (adjacency : AdjacencyList) (n : Node) (j : ℕ) (m : Node)
    → has_edge (foldl pre_visit adjacency os) n (j, m)
      ≡ (has_edge adjacency n (j, m) || any_of (λ o. edge_of o n j m) os)
has_edge-foldl [] adjacency n j m = ground arith
has_edge-foldl (o ∷ os) adjacency n j m =
    ground
      (arith, has_edge-foldl os (pre_visit adjacency o) n j m, has_edge-pre_visit adjacency o n j m)

-- The graph has exactly the edges of the module's operations: from the input at an index to the
-- operation, and from the operation to the output at an index below its number of outputs.
pub has_edge-compute_adjacency_list :
    (m : Module) (source : Node) (i : ℕ) (target : Node)
    → has_edge (compute_adjacency_list m) source (i, target)
      ≡ any_of (λ o. edge_of o source i target) (operations_of m)
unfolding compute_adjacency_list has_edge find
has_edge-compute_adjacency_list m source i target =
    has_edge-foldl (operations_of m) [] source i target
