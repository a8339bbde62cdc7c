-- ===== src/Analysis/Fixpoint.antt =====
-- src/analysis/common/module_fixpoint_iterator.h: `ModuleFixpointIterator<AbstractSemantics>`. The
-- worklist is a hash set and the code takes `*worklist.begin()`: any member may come first, so the
-- iteration is a relation `Step`, and `run` is the same with a given choice and fuel.
pub mod Progress
pub mod Rounds
pub mod Start
pub mod Soundness
pub mod Measure
pub mod Pushes
pub mod Processing
pub mod Termination
pub mod Initial
use raksha.Common.{
  is_empty, ℕ, zero, suc, Bool, true, false, not, ◌||◌, ◌≡◌, List, [], ◌∷◌, Option, none, some,
  ◌==◌, nat_eq, Outcome, ok, fatal, ◌>>=◌, ◌>>◌, check, map, fold_m, length, get_elem?,
  if◌then◌else◌,
}
use raksha.Common.Sets.{insert, erase, contains}
use raksha.Common.Maps.{find, assign, insert_new}
use raksha.Ir.Values.{Value, value_eq, is_operation_result}
use raksha.Ir.Modules.{Operation, Module, number_of_outputs, operations_of}
use raksha.Analysis.Graph.{
  Node, value, operation, AdjacencyList, compute_adjacency_list, get_nodes, get_uses, get_results,
}

-- What the iterator asks of its template argument and of `AbstractSemantics::AbstractState`.
pub record AbstractSemantics : Type 1 where
  pub State : Type 0
  pub bottom : State
  pub join : State → State → State
  pub is_equivalent_to : State → State → Bool
  pub get_initial_state : Value → State
  pub apply_operation_transformer : Operation → List State → Outcome (List State)

-- A pointer to an operation, followed. Each operation that is reached is one of the module's.
unfoldable pub find_operation : List Operation → ℕ → Outcome Operation
find_operation [] address = fatal
find_operation (o ∷ os) address = if o.address == address then ok o else find_operation os address

-- An access behind its bounds check.
unfoldable pub output_at : {A : Type 0} → List A → ℕ → Outcome A
output_at outputs i = elim (get_elem? outputs i) [ some s ↦ ok s | none ↦ fatal ]

module _ (S : AbstractSemantics) where
  pub record FixState : Type 0 where
    pub value_states : List (Value × S.State)
    pub worklist : List ℕ

  -- `get_current_state`: the state, and whether the value is visited for the first time.
  unfoldable pub get_current_state : List (Value × S.State) → Value → S.State × Bool
  get_current_state states v = elim (find states v) [
    | none ↦ (S.bottom, true)
    | some s ↦ (s, false)
  ]

  unfoldable pub add_uses : List ℕ → List (ℕ × ℕ) → List ℕ
  add_uses worklist [] = worklist
  add_uses worklist ((i, o) ∷ uses) = add_uses (insert worklist o) uses

  module _ (m : Module) where
    unfoldable pub graph : AdjacencyList
    graph = compute_adjacency_list m

    -- The two cases of the visitor that sets up the worklist.
    unfoldable pub visit_node : FixState → Node → Outcome FixState
    unfolding add_uses
    visit_node s (value v) = if is_operation_result v then ok s else (do
      states ← insert_new s.value_states v (S.get_initial_state v)
      uses ← get_uses graph v
      ok (record { value_states = states; worklist = add_uses s.worklist uses }))
    visit_node s (operation address) = do
      o ← find_operation (operations_of m) address
      ok (if is_empty o.inputs then record s { worklist = insert s.worklist address } else s)

    unfoldable pub initialize : Outcome FixState
    unfolding visit_node
    initialize = fold_m visit_node (record { value_states = []; worklist = [] }) (get_nodes graph)

    -- One output of the operation reaches its value.
    unfoldable pub push_output : List S.State → FixState → ℕ × Value → Outcome FixState
    unfolding get_current_state output_at add_uses
    push_output outputs s (i, target) = output_at outputs i >>= λ edge_out.
        let (old, first_visit) = get_current_state s.value_states target in
        let new = S.join old edge_out in
        if first_visit || not (S.is_equivalent_to new old)
        then (do
          uses ← get_uses graph target
          ok (record {
            value_states = assign s.value_states target new;
            worklist = add_uses s.worklist uses;
          }))
        else ok s

    unfoldable pub operation_inputs : FixState → Operation → List S.State
    operation_inputs s o = map (λ v. (get_current_state s.value_states v).0) o.inputs

    -- The body of the loop, for the operation that was selected.
    unfoldable pub process : FixState → ℕ → Outcome FixState
    unfolding push_output operation_inputs
    process s address = do
      let s' = record s { worklist = erase s.worklist address }
      o ← find_operation (operations_of m) address
      outputs ← S.apply_operation_transformer o (operation_inputs s' o)
      check (length outputs == number_of_outputs o)
      results ← get_results graph address
      fold_m (push_output outputs) s' results

    -- One round, for any member of the worklist.
    pub data Step (s t : FixState) : Type 0 where
      select :
          (address : ℕ) → contains s.worklist address ≡ true → process s address ≡ ok t → Step s t

    pub data Reach : FixState → Type 0 where
      start : {s : FixState} → initialize ≡ ok s → Reach s
      next : {s t : FixState} → Reach s → Step s t → Reach t

    -- The loop with a choice of the member that comes first. `none` says that the fuel ran out.
    unfoldable pub run : (List ℕ → ℕ) → ℕ → FixState → Outcome (Option FixState)
    unfolding process
    run first zero s = ok none
    run first (suc fuel) s = elim s.worklist [
      | [] ↦ ok (some s)
      | o ∷ os ↦ process s (first (o ∷ os)) >>= run first fuel
    ]
