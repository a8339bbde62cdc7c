-- ===== src/Analysis/Graph.antt =====
-- src/analysis/common/module_graph.{h,cc}: the adjacency lists that a visitor of the module fills.
pub mod Edges
pub mod Queries
pub mod Total
pub mod Distinct
pub mod Operations
use raksha.Common.{
  ℕ, zero, suc, ◌+◌, Bool, true, false, ◌&&◌, ◌≡◌, refl, ◌↔◌, List, [], ◌∷◌, Option, none, some, Eq,
  ◌==◌, nat_eq, pair_eq, arith, nat_beq_iff, Outcome, ok, fatal, ◌>>=◌, map, map_m, nat_beq,
}
use raksha.Common.Sets.{insert}
use raksha.Common.Maps.{find, try_insert, assign}
use mathlib.Core.List.{foldl}
use raksha.Ir.Values.{Value, operation_result, value_eq}
use raksha.Ir.Modules.{Operation, Module, number_of_outputs, operations_of, Block}

-- An operation is a node by its address.
pub data Node : Type 0 where
  value : Value → Node
  operation : ℕ → Node

unfoldable pub node_beq : Node → Node → Bool
node_beq (value v) (value w) = v == w
node_beq (operation o) (operation p) = o == p
node_beq _ _ = false

pub node_beq_iff : (m n : Node) → (node_beq m n ≡ true) ↔ (m ≡ n)
unfolding node_beq
node_beq_iff (value v) (value w) = ground (arith, value_eq.beq_iff v w)
node_beq_iff (value v) (operation p) = ground arith
node_beq_iff (operation o) (value w) = ground arith
node_beq_iff (operation o) (operation p) = ground arith

instance unfoldable pub node_eq : Eq Node
unfolding node_beq
node_eq = record { beq = node_beq; beq_iff = node_beq_iff }

pub record Edge : Type 0 where
  pub source : Node
  pub index : ℕ
  pub target : Node

abbrev pub IndexedNodeSet : Type 0
IndexedNodeSet = List (ℕ × Node)

abbrev pub AdjacencyList : Type 0
AdjacencyList = List (Node × IndexedNodeSet)

-- `adjacency_list_.insert({node, {}})`
unfoldable pub add_node : AdjacencyList → Node → AdjacencyList
add_node adjacency n = try_insert adjacency n []

-- The same, and `entry->second.insert(…)` on the entry that is there then.
unfoldable pub add_edge : AdjacencyList → Node → ℕ × Node → AdjacencyList
unfolding add_node
add_edge adjacency n e =
    let entries = add_node adjacency n in
    elim (find entries n) [ none ↦ entries | some nodes ↦ assign entries n (insert nodes e) ]

-- input --index--> operation
unfoldable pub add_input_edges : ℕ → ℕ → List Value → AdjacencyList → AdjacencyList
unfolding add_edge
add_input_edges address i [] adjacency = adjacency
add_input_edges address i (v ∷ inputs) adjacency =
    add_input_edges address (suc i) inputs (add_edge adjacency (value v) (i, operation address))

-- operation --index--> output, for `k` outputs from the index `i` on
unfoldable pub add_output_edges : ℕ → ℕ → ℕ → AdjacencyList → AdjacencyList
unfolding add_edge
add_output_edges address i zero adjacency = adjacency
add_output_edges address i (suc k) adjacency =
    let output = value (operation_result address i) in
    add_output_edges address (suc i) k
      (add_edge (add_node adjacency output) (operation address) (i, output))

unfoldable pub pre_visit : AdjacencyList → Operation → AdjacencyList
unfolding add_input_edges add_output_edges
pre_visit adjacency o =
    add_output_edges o.address 0 (number_of_outputs o)
      (add_input_edges o.address 0 o.inputs (add_node adjacency (operation o.address)))

unfoldable pub compute_adjacency_list : Module → AdjacencyList
unfolding pre_visit operations_of
compute_adjacency_list m = foldl pre_visit [] (operations_of m)

unfoldable pub get_nodes : AdjacencyList → List Node
get_nodes = map (λ (n, _). n)

unfoldable pub get_adjacent_nodes : AdjacencyList → Node → Outcome IndexedNodeSet
get_adjacent_nodes adjacency n = elim (find adjacency n) [ some nodes ↦ ok nodes | none ↦ fatal ]

unfoldable pub get_out_edges : AdjacencyList → Node → Outcome (List Edge)
unfolding get_adjacent_nodes
get_out_edges adjacency n = do
  nodes ← get_adjacent_nodes adjacency n
  ok (map (λ (i, target). record { source = n; index = i; target = target }) nodes)

-- `TargetMaterializer`: a target of the other kind is fatal.
as_operation : ℕ × Node → Outcome (ℕ × ℕ)
as_operation (i, operation o) = ok (i, o)
as_operation (i, value v) = fatal

as_value : ℕ × Node → Outcome (ℕ × Value)
as_value (i, value v) = ok (i, v)
as_value (i, operation o) = fatal

unfoldable pub get_uses : AdjacencyList → Value → Outcome (List (ℕ × ℕ))
unfolding get_adjacent_nodes as_operation
get_uses adjacency v = do nodes ← get_adjacent_nodes adjacency (value v); map_m as_operation nodes

unfoldable pub get_results : AdjacencyList → ℕ → Outcome (List (ℕ × Value))
unfolding get_adjacent_nodes as_value
get_results adjacency o = do
  nodes ← get_adjacent_nodes adjacency (operation o)
  map_m as_value nodes
