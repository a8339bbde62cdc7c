-- ===== src/Analysis/Fixpoint/Soundness.antt =====
-- What the iteration of src/analysis/common/module_fixpoint_iterator.h has computed when its worklist
-- is empty.
use mathlib.Core.Option.{some-injective}
use raksha.Common.{
  List-cases, zero, suc, >>=-eq-ok, is_empty, ℕ, suc, true, false, ◌≡◌, refl, sym, ◌∙◌, List, [],
  ◌∷◌, none, some, ◌==◌, nat_eq, ok, map, get_elem?, length, replicate, Returns, Returns-weaken,
  arith, Bool-cases, inl, inr, any_of, ok-injective, subst,
}
use raksha.Common.Sets.{contains}
use raksha.Common.Maps.{find}
use raksha.Ir.Values.{
  block_argument, stored_value, any, Value, value_eq, operation_result, is_operation_result,
}
use raksha.Ir.Modules.{Operation, Module, operations_of}
use raksha.Analysis.Graph.{value, operation, node_eq, get_nodes}
use raksha.Analysis.Graph.Edges.{has_edge-compute_adjacency_list}
use raksha.Analysis.Graph.Queries.{
  is_node, is_node-compute_adjacency_list, is_node_of_has_edge, contains-get_nodes,
}
use raksha.Analysis.Fixpoint.{
  AbstractSemantics, FixState, get_current_state, graph, find_operation, operation_inputs,
  initialize, select, Reach, start, next, run, process,
}
use raksha.Analysis.Fixpoint.Progress.{IsOrdered, state_of}
use raksha.Analysis.Fixpoint.Rounds.{
  Consistent, AllConsistent, process-AllConsistent, find_operation-use,
}
use raksha.Analysis.Fixpoint.Start.{Started, initialize-Started}

pub find_operation-any_of :
    (os : List Operation) (a : ℕ) (o : Operation)
    → find_operation os a ≡ ok o
    → any_of (λ p. p.address == a) os ≡ true
unfolding find_operation
find_operation-any_of [] a o h = cc
find_operation-any_of (p ∷ os) a o h = ground (arith, find_operation-any_of os a o)

module _ (S : AbstractSemantics) (L : IsOrdered S) (m : Module) where
  -- An operation with inputs that are all bottom has outputs that are below bottom.
  abbrev pub IsStrict : Type 0
  IsStrict =
      (a : ℕ) (o : Operation)
      → find_operation (operations_of m) a ≡ ok o
      → is_empty o.inputs ≡ false
      → Returns
          (λ outputs.
            (i : ℕ) (out : S.State) → get_elem? outputs i ≡ some out → L.Below out S.bottom)
          (S.apply_operation_transformer o (replicate (length o.inputs) S.bottom))

  state-bottom :
      (s : FixState S) (v : Value)
      → find s.value_states v ≡ none
      → (get_current_state S s.value_states v).0 ≡ S.bottom
  unfolding get_current_state
  state-bottom s v e = ground arith

  map-bottom :
      (s : FixState S) (vs : List Value)
      → ((j : ℕ) (v : Value) → get_elem? vs j ≡ some v → find s.value_states v ≡ none)
      → map (λ v. (get_current_state S s.value_states v).0) vs ≡ replicate (length vs) S.bottom
  unfolding get_current_state
  map-bottom s [] f = refl
  map-bottom s (v ∷ vs) f =
      let rest = map-bottom s vs (λ j w e. f (suc j) w e) in
      let head = state-bottom s v (f 0 v refl) in cc

  state_of-some :
      (s : FixState S) (v : Value) (x : S.State)
      → find s.value_states v ≡ some x
      → state_of S L m s v ≡ x
  unfolding get_current_state
  state_of-some s v x e = ground arith

  result-no_state :
      (s : FixState S) (v : Value)
      → is_operation_result v ≡ true
      → ((b i : ℕ) → find s.value_states (operation_result b i) ≡ none)
      → find s.value_states v ≡ none
  result-no_state s (block_argument b i) r f = cc
  result-no_state s (operation_result b i) r f = f b i
  result-no_state s (stored_value b) r f = cc
  result-no_state s any r f = cc

  -- The inputs of an operation that is not in the worklist at the start have no state yet.
  input-no_state :
      (s : FixState S) (a : ℕ) (o : Operation) (j : ℕ) (v : Value)
      → find_operation (operations_of m) a ≡ ok o
      → Started S m (contains (get_nodes (graph S m))) s
      → contains s.worklist a ≡ false
      → get_elem? o.inputs j ≡ some v
      → find s.value_states v ≡ none
  unfolding graph
  input-no_state s a o j v found st out e =
      let edge =
        has_edge-compute_adjacency_list m (value v) j (operation a)
        ∙ find_operation-use (operations_of m) a o j v found e in
      elim (Bool-cases (is_operation_result v)) [
        | inl result ↦ result-no_state s v result λ b i. st.results b i
        | inr other ↦
            let node = is_node_of_has_edge (graph S m) (value v) (j, operation a) edge in
            let there =
              st.users v j a other (contains-get_nodes (graph S m) (value v) ∙ node) edge in
            absurd (let both = sym there ∙ out in cc)
      ]

  start-AllConsistent : (s : FixState S) → IsStrict → initialize S m ≡ ok s → AllConsistent S L m s
  unfolding operation_inputs graph
  start-AllConsistent s strict h a o found out =
      let st = initialize-Started S m s h in
      elim (Bool-cases (is_empty o.inputs)) [
        | inl empty ↦
            let node =
              is_node-compute_adjacency_list m a
                (find_operation-any_of (operations_of m) a o found) in
            let there =
              st.sources a (contains-get_nodes (graph S m) (operation a) ∙ node)
                (o, found, empty) in
            absurd (let both = sym there ∙ out in cc)
        | inr some_input ↦
            rw (map-bottom s o.inputs λ j v e. input-no_state s a o j v found st out e) (
              Returns-weaken (strict a o found some_input)
                λ outputs below i x e. L.Below-trans x S.bottom _ (below i x e) (L.bottom_least _))
      ]

  -- The state of each value that is no result of an operation lies above its initial state.
  abbrev pub AboveInitial : FixState S → Type 0
  AboveInitial s =
      (v : Value)
      → is_operation_result v ≡ false
      → is_node (graph S m) (value v) ≡ true
      → L.Below (S.get_initial_state v) (state_of S L m s v)

  start-AboveInitial : (s : FixState S) → initialize S m ≡ ok s → AboveInitial s
  unfolding get_current_state
  start-AboveInitial s h v other node =
      let st = initialize-Started S m s h in
      let there = st.initial v other (contains-get_nodes (graph S m) (value v) ∙ node) in
      let same = state_of-some s v (S.get_initial_state v) there in rw same (L.Below-refl _)

  -- In every state that the loop reaches, each operation that is not in the worklist is consistent and
  -- the entry states are kept.
  pub Reach-AllConsistent :
      (s : FixState S) → IsStrict → Reach S m s → AllConsistent S L m s × AboveInitial s
  Reach-AllConsistent s strict (start h) = (start-AllConsistent s strict h, start-AboveInitial s h)
  Reach-AllConsistent t strict (next {s} r (select a member h)) =
      let (all, above) = Reach-AllConsistent s strict r in
      let (all', grows) = process-AllConsistent S L m s t a h all in
      (all', λ v other node. L.Below-trans _ _ _ (above v other node) (grows v))

  -- Whatever order the worklist is taken in, when it is empty, the transformer returns for every
  -- operation of the module, each output lies below the state of its value, and each value that is
  -- no result of an operation has a state above its initial one, if the states are ordered and the
  -- transformer is strict.
  pub Reach-post_fixpoint :
      (s : FixState S)
      → IsStrict
      → Reach S m s
      → s.worklist ≡ []
      → ((a : ℕ) (o : Operation) → find_operation (operations_of m) a ≡ ok o → Consistent S L m s o)
        × AboveInitial s
  unfolding contains
  Reach-post_fixpoint s strict r empty =
      let (all, above) = Reach-AllConsistent s strict r in
      (λ a o found. all a o found (rw empty refl), above)

  -- A run that takes a member of the worklist in each round is a path of the step relation, and if
  -- it ends within its fuel the worklist is empty.
  pub run-Reach :
      (first : List ℕ → ℕ) (fuel : ℕ) (s t : FixState S)
      → ((o : ℕ) (os : List ℕ) → contains (o ∷ os) (first (o ∷ os)) ≡ true)
      → Reach S m s
      → run S m first fuel s ≡ ok (some t)
      → Reach S m t × (t.worklist ≡ [])
  unfolding run
  run-Reach first zero s t member r h = cc
  run-Reach first (suc fuel) s t member r h = elim (List-cases s.worklist) [
    | inl empty ↦
        let same : s ≡ t = some-injective _ _ (ok-injective (rw (empty, run) at h)) in
        subst (λ u. Reach S m u × (u.worklist ≡ [])) same (r, empty)
    | inr (o, os, some_work) ↦
        let (u, step, rest) =
          >>=-eq-ok (process S m s (first (o ∷ os))) _ (rw (some_work, run) at h) in
        let there : contains s.worklist (first (o ∷ os)) ≡ true = rw some_work (member o os) in
        run-Reach first fuel u t member (next r (select (first (o ∷ os)) there step)) rest
  ]
