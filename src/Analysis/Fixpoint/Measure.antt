-- ===== src/Analysis/Fixpoint/Measure.antt =====
-- What decreases in the loop of src/analysis/common/module_fixpoint_iterator.h.
use raksha.Common.{
  ℕ, suc, ◌+◌, ◌-◌, ◌≤◌, ◌<◌, Bool, true, false, ◌≡◌, sym, subst, ◌∙◌, List, [], ◌∷◌, Option, none,
  some, ◌==◌, nat_eq, pair_eq, ok, length, inl, inr, Bool-cases, arith, any_of, Returns, All,
  beq_refl,
}
use raksha.Common.Sets.{contains}
use raksha.Common.Maps.{find, assign, find-assign}
use raksha.Ir.Values.{Value, value_eq}
use raksha.Ir.Modules.{Operation, Module, operations_of, number_of_outputs}
use raksha.Analysis.Graph.{Node, value, operation, node_eq, get_nodes}
use raksha.Analysis.Graph.Edges.{edge_of}
use raksha.Analysis.Graph.Queries.{is_node, contains-get_nodes}
use raksha.Analysis.Fixpoint.{AbstractSemantics, FixState, graph, find_operation}

-- States of bounded rank, which the operations of a module keep to, and on which a join that changes
-- a state raises its rank.
pub record IsFinite (S : AbstractSemantics) (m : Module) : Type 1 where
  pub Fits : S.State → Type 0
  pub rank : S.State → ℕ
  pub bound : ℕ
  pub bottom_fits : Fits S.bottom
  pub initial_fits : (v : Value) → Fits (S.get_initial_state v)
  pub join_fits : (a b : S.State) → Fits a → Fits b → Fits (S.join a b)
  pub apply :
      (a : ℕ) (o : Operation) (inputs : List S.State)
      → find_operation (operations_of m) a ≡ ok o
      → length inputs ≡ length o.inputs
      → All Fits inputs
      → Returns
          (λ r. (length r ≡ number_of_outputs o) × All Fits r)
          (S.apply_operation_transformer o inputs)
  pub rank_le : (a : S.State) → Fits a → rank a ≤ bound
  pub rank_lt :
      (a b : S.State)
      → Fits a
      → Fits b
      → S.is_equivalent_to (S.join a b) a ≡ false
      → rank a < rank (S.join a b)

abbrev pub sum : (Node → ℕ) → List Node → ℕ
sum f [] = 0
sum f (n ∷ ns) = f n + sum f ns

sum_le : (f g : Node → ℕ) (ns : List Node) → ((n : Node) → f n ≤ g n) → sum f ns ≤ sum g ns
sum_le f g [] h = omega arith
sum_le f g (n ∷ ns) h = omega (arith, h n, sum_le f g ns h)

sum_lt :
    (f g : Node → ℕ) (ns : List Node) (k : Node)
    → ((n : Node) → f n ≤ g n)
    → f k < g k
    → contains ns k ≡ true
    → sum f ns < sum g ns
unfolding contains
sum_lt f g [] k h lt e = cc
sum_lt f g (n ∷ ns) k h lt e = elim (Bool-cases (n == k)) [
  | inl here ↦
      let same : n ≡ k = (node_eq.beq_iff n k).0 here in
      let lt' : f n < g n = subst (λ x. f x < g x) (sym same) lt in
      omega (arith, lt', sum_le f g ns h)
  | inr there ↦ omega (arith, h n, sum_lt f g ns k h lt (rw there at e))
]

module _ (S : AbstractSemantics) (m : Module) (F : IsFinite S m) where
  -- How far the state of a value can still rise.
  abbrev pub room : Option S.State → ℕ
  room none = suc F.bound
  room (some x) = F.bound - F.rank x

  abbrev pub node_room : FixState S → Node → ℕ
  node_room s (value v) = room (find s.value_states v)
  node_room s (operation o) = 0

  abbrev pub total_room : FixState S → ℕ
  total_room s = sum (node_room s) (get_nodes (graph S m))

  abbrev pub is_known : ℕ → Bool
  is_known a = any_of (λ o. o.address == a) (operations_of m)

  -- The states fit, and the members of the worklist are operations of the module.
  pub record IsGood (s : FixState S) : Type 0 where
    pub fits : (v : Value) (x : S.State) → find s.value_states v ≡ some x → F.Fits x
    pub known : (a : ℕ) → contains s.worklist a ≡ true → is_known a ≡ true

  node_room-assign :
      (s : FixState S) (w : Value) (x : S.State) (worklist : List ℕ)
      → F.bound - F.rank x < room (find s.value_states w)
      → (n : Node)
      → node_room (record { value_states = assign s.value_states w x; worklist = worklist }) n
        ≤ node_room s n
  node_room-assign s w x worklist lt (operation o) = omega arith
  node_room-assign s w x worklist lt (value v) = elim (Bool-cases (w == v)) [
    | inl same ↦
        let is_v : w ≡ v = (value_eq.beq_iff w v).0 same in
        let lt' : F.bound - F.rank x < room (find s.value_states v) =
          subst (λ y. F.bound - F.rank x < room (find s.value_states y)) is_v lt in
        rw (find-assign s.value_states w x v, same) (omega (arith, lt'))
    | inr differ ↦ rw (find-assign s.value_states w x v, differ) (omega arith)
  ]

  written :
      (s : FixState S) (w : Value) (x : S.State) (worklist : List ℕ)
      → F.bound - F.rank x < room (find s.value_states w)
      → node_room
          (record { value_states = assign s.value_states w x; worklist = worklist })
          (value w)
        < node_room s (value w)
  written s w x worklist lt = rw (find-assign s.value_states w x w, beq_refl w) lt

  pub total_room-assign :
      (s : FixState S) (w : Value) (x : S.State) (worklist : List ℕ)
      → is_node (graph S m) (value w) ≡ true
      → F.bound - F.rank x < room (find s.value_states w)
      → total_room (record { value_states = assign s.value_states w x; worklist = worklist })
        < total_room s
  total_room-assign s w x worklist node lt =
      let t : FixState S = record {
        value_states = assign s.value_states w x;
        worklist = worklist;
      } in
      sum_lt (node_room t) (node_room s) (get_nodes (graph S m)) (value w)
        (node_room-assign s w x worklist lt) (written s w x worklist lt)
        (contains-get_nodes (graph S m) (value w) ∙ node)

  pub use_is_known :
      (os : List Operation) (v : Value) (j a : ℕ)
      → any_of (λ o. edge_of o (value v) j (operation a)) os ≡ true
      → any_of (λ o. o.address == a) os ≡ true
  use_is_known [] v j a h = h
  use_is_known (o ∷ os) v j a h = ground (arith, use_is_known os v j a)

  pub use_of :
      (us : List (ℕ × ℕ)) (a : ℕ)
      → any_of (λ (i, p). p == a) us ≡ true
      → (i : ℕ) × (contains us (i, a) ≡ true)
  unfolding contains pair_eq
  use_of [] a h = cc
  use_of ((i, p) ∷ us) a h = elim (Bool-cases (p == a)) [
    | inl here ↦ (i, ground (arith, beq_refl i))
    | inr there ↦ let (j, e) = use_of us a (rw there at h) in (j, ground arith)
  ]
