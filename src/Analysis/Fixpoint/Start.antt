-- ===== src/Analysis/Fixpoint/Start.antt =====
-- The visitor that sets up the iteration in src/analysis/common/module_fixpoint_iterator.h.
use raksha.Analysis.Fixpoint.{AbstractSemantics, Module, List, Operation, visit_node}
use raksha.Common.{
  is_empty, ℕ, Bool, true, false, ◌||◌, ◌≡◌, refl, ap, List, [], ◌∷◌, none, some, ◌==◌, ok, fold_m,
  Bool-cases, inl, inr, arith, if◌then◌else◌, nat_eq, pair_eq, >>=-eq-ok, Option-cases, ◌∙◌, subst,
  sym, ok-injective,
}
use raksha.Common.Sets.{contains, insert, contains-insert}
use raksha.Common.Maps.{find, find-try_insert_new, insert_new}
use raksha.Ir.Values.{Value, operation_result, value_eq, is_operation_result}
use raksha.Ir.Modules.{Operation, Module, operations_of}
use raksha.Analysis.Graph.{Node, value, operation, node_eq, get_uses, get_nodes}
use raksha.Analysis.Graph.Edges.{has_edge}
use raksha.Analysis.Graph.Queries.{contains-get_uses}
use raksha.Analysis.Fixpoint.{
  AbstractSemantics, FixState, graph, find_operation, add_uses, visit_node, initialize,
}
use raksha.Analysis.Fixpoint.Progress.{contains-add_uses, any_use}

-- What holds once `seen` was visited: the results of operations have no state, the other values that
-- were visited have their initial state and their users are in the worklist, and so are the
-- operations without inputs.
other_value :
    (v : Value) (a i : ℕ) → is_operation_result v ≡ false → (v == operation_result a i) ≡ false
unfolding value_eq
other_value v a i r = ground arith

pub insert_new-eq-ok :
    {V : Type 0} (states : List (Value × V)) (v : Value) (x : V) (states' : List (Value × V))
    → insert_new states v x ≡ ok states'
    → (w : Value) → find states' w ≡ (if v == w then some x else find states w)
unfolding insert_new
insert_new-eq-ok states v x states' h w = elim (Option-cases (find states v)) [
  | inl new ↦
      rw (sym (ok-injective (rw (new, insert_new) at h))) (find-try_insert_new states v x w new)
  | inr (y, old) ↦ absurd (let h' = rw (old, insert_new) at h in cc)
]

module _ (S : AbstractSemantics) (m : Module) where
  abbrev pub NoInputs : ℕ → Type 0
  NoInputs a =
      (o : Operation) × (find_operation (operations_of m) a ≡ ok o) × (is_empty o.inputs ≡ true)

  pub record Started (seen : Node → Bool) (s : FixState S) : Type 0 where
    pub results : (a i : ℕ) → find s.value_states (operation_result a i) ≡ none
    pub initial :
        (v : Value)
        → is_operation_result v ≡ false
        → seen (value v) ≡ true
        → find s.value_states v ≡ some (S.get_initial_state v)
    pub users :
        (v : Value) (j a : ℕ)
        → is_operation_result v ≡ false
        → seen (value v) ≡ true
        → has_edge (graph S m) (value v) (j, operation a) ≡ true
        → contains s.worklist a ≡ true
    pub sources : (a : ℕ) → seen (operation a) ≡ true → NoInputs a → contains s.worklist a ≡ true

  Started-weaken :
      (seen seen' : Node → Bool) (s : FixState S)
      → ((n : Node) → seen' n ≡ true → seen n ≡ true)
      → Started seen s
      → Started seen' s
  Started-weaken seen seen' s f st = record {
    results = st.results;
    initial = λ v r h. st.initial v r (f (value v) h);
    users = λ v j a r h e. st.users v j a r (f (value v) h) e;
    sources = λ a h n. st.sources a (f (operation a) h) n;
  }

  visit_result-Started :
      (seen : Node → Bool) (s : FixState S) (v : Value)
      → is_operation_result v ≡ true
      → Started seen s
      → Started (λ n. value v == n || seen n) s
  unfolding node_eq
  visit_result-Started seen s v r st = record {
    results = st.results;
    initial = λ w r' h. st.initial w r' (ground (arith, value_eq.beq_iff v w));
    users = λ w j a r' h e. st.users w j a r' (ground (arith, value_eq.beq_iff v w)) e;
    sources = λ a h n. st.sources a (ground arith) n;
  }

  visit_other-Started :
      (seen : Node → Bool) (s : FixState S) (v : Value) (states' : List (Value × S.State))
      (uses : List (ℕ × ℕ))
      → is_operation_result v ≡ false
      → ((w : Value)
          → find states' w
            ≡ (if v == w then some (S.get_initial_state v) else find s.value_states w))
      → get_uses (graph S m) v ≡ ok uses
      → Started seen s
      → Started
          (λ n. value v == n || seen n)
          (record { value_states = states'; worklist = add_uses S s.worklist uses })
  unfolding node_eq value_eq
  visit_other-Started seen s v states' uses r states got st = record {
    results = λ a i. rw (states (operation_result a i), other_value v a i r) (st.results a i);
    initial = λ w r' h. elim (Bool-cases (v == w)) [
      | inl same ↦
          rw (states w, same)
            (ap (λ x. some (S.get_initial_state x)) ((value_eq.beq_iff v w).0 same))
      | inr differ ↦ rw (states w, differ) (st.initial w r' (ground arith))
    ];
    users = λ w j a r' h e. elim (Bool-cases (v == w)) [
      | inl same ↦
          let there =
            contains-get_uses (graph S m) w uses j a (rw ((value_eq.beq_iff v w).0 same) at got)
            ∙ e in
          rw (contains-add_uses S s.worklist uses a, any_use uses j a there) (ground arith)
      | inr differ ↦
          rw (contains-add_uses S s.worklist uses a, st.users w j a r' (ground arith) e) refl
    ];
    sources = λ a h n. rw (contains-add_uses S s.worklist uses a, st.sources a h n) refl;
  }

  has_input_of_found :
      (a b : ℕ) (o : Operation)
      → find_operation (operations_of m) a ≡ ok o
      → is_empty o.inputs ≡ false
      → a ≡ b
      → NoInputs b
      → ⊥
  has_input_of_found a b o found some_input same (o', found', empty) =
      let same_op : o ≡ o' =
        ok-injective (sym found ∙ ap (find_operation (operations_of m)) same ∙ found') in
      let empty' : is_empty o.inputs ≡ true = rw same_op empty in cc

  visit_operation-Started :
      (seen : Node → Bool) (s : FixState S) (a : ℕ) (o : Operation)
      → find_operation (operations_of m) a ≡ ok o
      → Started seen s
      → Started
          (λ n. operation a == n || seen n)
          (if is_empty o.inputs then record s { worklist = insert s.worklist a } else s)
  unfolding node_eq
  visit_operation-Started seen s a o found st = elim (Bool-cases (is_empty o.inputs)) [
    | inl empty ↦ rw empty (record {
      results = st.results;
      initial = st.initial;
      users = λ w j b r h e. rw (contains-insert s.worklist a b, st.users w j b r h e) refl;
      sources = λ b h n. ground (arith, contains-insert s.worklist a b, st.sources b);
    })
    | inr some_input ↦ rw some_input (record {
      results = st.results;
      initial = st.initial;
      users = st.users;
      sources = λ b h n. elim (Bool-cases (a == b)) [
        | inl same ↦
            absurd (has_input_of_found a b o found some_input ((nat_eq.beq_iff a b).0 same) n)
        | inr differ ↦ st.sources b (ground arith) n
      ];
    })
  ]

  visit_node-Started :
      (seen : Node → Bool) (s t : FixState S) (n : Node)
      → visit_node S m s n ≡ ok t
      → Started seen s
      → Started (λ k. n == k || seen k) t
  unfolding visit_node insert_new
  visit_node-Started seen s t (operation a) h st =
      let (o, found, e) = >>=-eq-ok (find_operation (operations_of m) a) _ h in
      subst (Started _) (ok-injective e) (visit_operation-Started seen s a o found st)
  visit_node-Started seen s t (value v) h st = elim (Bool-cases (is_operation_result v)) [
    | inl result ↦
        subst (Started _) (ok-injective (rw result at h)) (visit_result-Started seen s v result st)
    | inr other ↦
        let (states, inserted, rest) =
          >>=-eq-ok (insert_new s.value_states v (S.get_initial_state v)) _ (rw other at h) in
        let (uses, got, e) = >>=-eq-ok (get_uses (graph S m) v) _ rest in
        let found = insert_new-eq-ok s.value_states v (S.get_initial_state v) states inserted in
        subst (Started _) (ok-injective e)
          (visit_other-Started seen s v states uses other found got st)
  ]

  fold-Started :
      (ns : List Node) (seen : Node → Bool) (s t : FixState S)
      → fold_m (visit_node S m) s ns ≡ ok t
      → Started seen s
      → Started (λ k. contains ns k || seen k) t
  unfolding contains
  fold-Started [] seen s t h st = subst (Started _) (ok-injective h) st
  fold-Started (n ∷ ns) seen s t h st =
      let (u, e, run) = >>=-eq-ok (visit_node S m s n) _ h in
      Started-weaken (λ k. contains ns k || (n == k || seen k)) _ t (λ k g. ground arith)
        (fold-Started ns (λ k. n == k || seen k) u t run (visit_node-Started seen s u n e st))

  -- What holds when the worklist was set up.
  pub initialize-Started :
      (s : FixState S) → initialize S m ≡ ok s → Started (contains (get_nodes (graph S m))) s
  unfolding initialize find
  initialize-Started s h =
      Started-weaken (λ k. contains (get_nodes (graph S m)) k || false) _ s (λ k g. ground arith)
        (fold-Started (get_nodes (graph S m)) (λ _. false)
          (record { value_states = []; worklist = [] }) s h
          (record {
            results = λ a i. refl;
            initial = λ v r e. cc;
            users = λ v j a r e. cc;
            sources = λ a e. cc;
          }))
