-- ===== src/Ambient/PolicyChecker/Edges.antt =====
-- What src/frontends/ambient/policy_checker.cc does to the edges of its context.
use raksha.Common.{
  beq_refl, String, Bool, true, false, ◌||◌, ◌≡◌, refl, sym, ◌∙◌, ap, ◌↔◌, Outcome, ok, ◌==◌, arith,
  Bool-cases, inl, inr, >>=-eq-ok, ok-injective, string_eq, pair_eq, if◌then◌else◌, subst,
}
use raksha.Common.Sets.{insert_present, contains-insert, contains-erase, erase-insert_new}
use raksha.Ambient.PolicyChecker.{
  PolicyChecker, DataFlowEdge, SouffleProgram, add_edge, remove_edge, is_edge_present,
  validate_policy_compliance, add_if_valid_named_edge, is_valid_named_edge,
}

remove_edge-add_edge :
    (c : PolicyChecker) (edge : DataFlowEdge)
    → is_edge_present c edge ≡ false
    → remove_edge (add_edge c edge) edge ≡ c
unfolding is_edge_present remove_edge add_edge
remove_edge-add_edge c edge new =
    ap (λ es. record c { edges = es }) (erase-insert_new c.edges edge new)

add_edge_present :
    (c : PolicyChecker) (edge : DataFlowEdge) → is_edge_present c edge ≡ true → add_edge c edge ≡ c
unfolding is_edge_present add_edge
add_edge_present c edge there =
    ap (λ es. record c { edges = es }) (insert_present c.edges edge there)

is_edge_present-add_edge :
    (c : PolicyChecker) (edge other : DataFlowEdge)
    → is_edge_present (add_edge c edge) other ≡ (is_edge_present c other || edge == other)
unfolding is_edge_present add_edge
is_edge_present-add_edge c edge other = contains-insert c.edges edge other

is_edge_present-remove_edge :
    (c : PolicyChecker) (edge : DataFlowEdge) → is_edge_present (remove_edge c edge) edge ≡ false
unfolding is_edge_present remove_edge
is_edge_present-remove_edge c edge =
    let same = beq_refl edge in ground (arith, contains-erase c.edges edge edge, same)

module _ (souffle : SouffleProgram) where
  -- The context has no disallowed usage.
  abbrev pub IsCompliant : PolicyChecker → Type 0
  IsCompliant c = (reason : String) × (validate_policy_compliance souffle c ≡ ok (true, reason))

  -- What an attempt to add an edge comes to.
  abbrev pub Settled : PolicyChecker → DataFlowEdge → PolicyChecker → Bool → Type 0
  Settled c edge c' true =
      IsCompliant c'
      × ((other : DataFlowEdge)
          → is_edge_present c' other ≡ (is_edge_present c other || edge == other))
      × (c'.user_settings ≡ c.user_settings)
  Settled c edge c' false = c' ≡ c

  pub Settled-settings :
      (c c' : PolicyChecker) (edge : DataFlowEdge) (valid : Bool)
      → Settled c edge c' valid
      → c'.user_settings ≡ c.user_settings
  Settled-settings c c' edge true (_, _, same) = same
  Settled-settings c c' edge false same = ap (λ d. d.user_settings) same

  settle :
      (c added undone c' : PolicyChecker) (edge : DataFlowEdge) (v valid : Bool) (r reason : String)
      → validate_policy_compliance souffle added ≡ ok (v, r)
      → ◌≡◌ {A = Outcome (PolicyChecker × (Bool × String))}
          (ok (if v then added else undone, (v, r)))
          (ok (c', (valid, reason)))
      → ((other : DataFlowEdge)
          → is_edge_present added other ≡ (is_edge_present c other || edge == other))
      → added.user_settings ≡ c.user_settings
      → undone ≡ c
      → Settled c edge c' valid
  settle c added undone c' edge true valid r reason run e law same undo =
      let is_c' : added ≡ c' = ap (λ p. p.0) (ok-injective e) in
      let is_valid : true ≡ valid = ap (λ p. p.1.0) (ok-injective e) in
      subst (Settled c edge c') is_valid
        (subst (λ d. Settled c edge d true) is_c' ((r, run), law, same))
  settle c added undone c' edge false valid r reason run e law same undo =
      let is_c' : undone ≡ c' = ap (λ p. p.0) (ok-injective e) in
      let is_valid : false ≡ valid = ap (λ p. p.1.0) (ok-injective e) in
      subst (Settled c edge c') is_valid (sym is_c' ∙ undo)

  edge_present :
      (c : PolicyChecker) (edge other : DataFlowEdge)
      → is_edge_present c edge ≡ true
      → is_edge_present c other ≡ (is_edge_present c other || edge == other)
  edge_present c edge other h = elim (Bool-cases (edge == other)) [
    | inl same ↦
        let there : is_edge_present c other ≡ true =
          rw ((pair_eq.beq_iff edge other).0 same) at h in
        ground (arith, there)
    | inr differ ↦ ground (arith, differ)
  ]

  -- When an edge is accepted, the new context has no disallowed usage, holds the edge and the edges
  -- that it held before and no other, and has the settings as before; when it is rejected, the
  -- checker is as before.
  pub add_if_valid_named_edge_lem :
      (c c' : PolicyChecker) (edge : DataFlowEdge) (valid : Bool) (reason : String)
      → add_if_valid_named_edge souffle c edge ≡ ok (c', (valid, reason))
      → Settled c edge c' valid
  unfolding add_if_valid_named_edge
  add_if_valid_named_edge_lem c c' edge valid reason h =
      elim (Bool-cases (is_edge_present c edge)) [
        | inl there ↦
            let h' = rw (there, add_if_valid_named_edge) at h in
            let ((v, r), run, e) = >>=-eq-ok (validate_policy_compliance souffle c) _ h' in
            settle c c c c' edge v valid r reason run e (λ other. edge_present c edge other there)
              refl refl
        | inr new ↦
            let h' = rw (new, add_if_valid_named_edge) at h in
            let ((v, r), run, e) =
              >>=-eq-ok (validate_policy_compliance souffle (add_edge c edge)) _ h' in
            settle c (add_edge c edge) (remove_edge (add_edge c edge) edge) c' edge v valid r reason
              run e (is_edge_present-add_edge c edge) (unfold add_edge in refl)
              (remove_edge-add_edge c edge new)
      ]

  -- A check of an edge leaves the checker as it was exactly if the edge is not in the context, so
  -- an edge that is there is lost; and it answers what an attempt to add the edge would answer.
  pub is_valid_named_edge_lem :
      (c c' : PolicyChecker) (edge : DataFlowEdge) (answer : Bool × String)
      → is_valid_named_edge souffle c edge ≡ ok (c', answer)
      → ((c' ≡ c) ↔ (is_edge_present c edge ≡ false))
        × ((d : PolicyChecker) × (add_if_valid_named_edge souffle c edge ≡ ok (d, answer)))
  unfolding is_valid_named_edge add_if_valid_named_edge
  is_valid_named_edge_lem c c' edge answer h =
      let (a, run, e) = >>=-eq-ok (validate_policy_compliance souffle (add_edge c edge)) _ h in
      let is_c' : remove_edge (add_edge c edge) edge ≡ c' = ap (λ p. p.0) (ok-injective e) in
      let is_answer : a ≡ answer = ap (λ p. p.1) (ok-injective e) in
      (
        (
          λ same. rw (sym same ∙ sym is_c') (is_edge_present-remove_edge (add_edge c edge) edge),
          λ new. sym is_c' ∙ remove_edge-add_edge c edge new,
        ),
        elim (Bool-cases (is_edge_present c edge)) [
          | inl there ↦
              let run' : validate_policy_compliance souffle c ≡ ok a =
                subst (λ d. validate_policy_compliance souffle d ≡ ok a)
                  (add_edge_present c edge there) run in
              let after : add_if_valid_named_edge souffle c edge ≡ ok (if a.0 then c else c, a) =
                rw (there, add_if_valid_named_edge) (rw run' refl) in
              let d = if a.0 then c else c in (d, after ∙ ap (λ x. ok (d, x)) is_answer)
          | inr new ↦
              let added = add_edge c edge in
              let d = if a.0 then added else remove_edge added edge in
              let after : add_if_valid_named_edge souffle c edge ≡ ok (d, a) =
                rw (new, add_if_valid_named_edge) (rw run refl) in
              (d, after ∙ ap (λ x. ok (d, x)) is_answer)
        ],
      )
