-- ===== src/Policy/Flows.antt =====
-- Secrets that flow to an egress operation, and the check of
-- src/backends/policy_engine/abstract_interpretation/abstract_interpretation_policy_checker.cc.
use raksha.Common.{
  ℕ, Bool, true, false, ◌&&◌, ◌||◌, ◌≡◌, ◌≢◌, refl, sym, subst, ◌∙◌, ap, List, [], ◌∷◌, none, some,
  ok, fatal, String, string_eq, Returns, any_of, arith, All, All-get_elem?, map, get_elem?, length,
  ◌<◌, Bool-cases, Option-cases, inl, inr, if◌then◌else◌, Returns-eq-ok, ok-injective,
  get_elem?_of_lt, ◌==◌, length-map,
}
use raksha.Common.Sets.{contains}
use raksha.Common.Maps.{find}
use raksha.Ir.Values.{Value, value_eq, operation_result}
use raksha.Ir.Modules.{Operation, Module, operations_of, number_of_outputs}
use raksha.Taint.Tags.{AbstractIfcTags, TagId, bottom, tags, is_bottom}
use raksha.Taint.Tags.Order.{Below}
use raksha.Taint.Rules.{InferenceRules, OutputRules, get_output_rules_for_operation}
use raksha.Taint.Semantics.Defaults.{holds_secrecy}
use raksha.Taint.Semantics.Bounds.{RuleFits}
use raksha.Taint.Semantics.Effects.{RulesFit, Spares, apply_operation_transformer-holds_secrecy}
use raksha.Taint.Semantics.{apply_operation_transformer}
use raksha.Policy.Checker.{taint_semantics, is_module_policy_compliant}
use raksha.Policy.Verdict.{egress_reads, reads, has_some_secrecy, is_module_policy_compliant_lem}
use raksha.Policy.Soundness.{taint_order, taint_strict}
use raksha.Analysis.Fixpoint.{FixState, get_current_state, find_operation, operation_inputs, Reach}
use raksha.Analysis.Fixpoint.Rounds.{Consistent, find_operation-address}
use raksha.Analysis.Fixpoint.Soundness.{Reach-post_fixpoint}

-- The rules of the operation are in range for `n` inputs, and none removes `t` or copies an input.
abbrev pub Carries : InferenceRules → TagId → Operation → ℕ → Type 0
Carries rules t o n =
    (output_rules : OutputRules)
    → get_output_rules_for_operation rules o.address ≡ some output_rules
    → All
        (λ (i, rs).
          (i < number_of_outputs o) × All (λ rule. RuleFits n rule × Spares t rule.conclusion) rs)
        output_rules

not_compliant : (crash : Bool) → (if crash then fatal else ok false) ≢ ok true
not_compliant true e = cc
not_compliant false e = cc

secret_of_held :
    (x : AbstractIfcTags) (t : TagId) → holds_secrecy x t ≡ true → has_some_secrecy x ≡ true
unfolding contains
secret_of_held bottom t h = cc
secret_of_held (tags x) t h = ground arith

module _ (rules : InferenceRules) (m : Module) where
  abbrev pub final_state : FixState (taint_semantics rules) → Value → AbstractIfcTags
  final_state s v = (get_current_state (taint_semantics rules) s.value_states v).0

  -- From one value to another through operations that carry the secrecy tag and whose inputs all have
  -- a state other than bottom.
  pub data Flows (s : FixState (taint_semantics rules)) (t : TagId) : Value → Value → Type 0 where
    here : (v : Value) → Flows s t v v
    through :
        {v w : Value} (a : ℕ) (o : Operation) (i : ℕ)
        → Flows s t v w
        → find_operation (operations_of m) a ≡ ok o
        → contains o.inputs w ≡ true
        → any_of (λ u. is_bottom (final_state s u)) o.inputs ≡ false
        → Carries rules t o (length o.inputs)
        → i < number_of_outputs o
        → Flows s t v (operation_result a i)

  holds_of_Below :
      (a b : AbstractIfcTags) (t : TagId)
      → Below a b
      → holds_secrecy a t ≡ true
      → holds_secrecy b t ≡ true
  holds_of_Below bottom b t p h = cc
  holds_of_Below (tags x) bottom t p h = absurd p
  holds_of_Below (tags x) (tags y) t p h = p.0 t h

  any_of-map_states :
      (s : FixState (taint_semantics rules)) (p : AbstractIfcTags → Bool) (vs : List Value)
      → any_of p (map (final_state s) vs) ≡ any_of (λ v. p (final_state s v)) vs
  any_of-map_states s p [] = refl
  any_of-map_states s p (v ∷ vs) = ap (λ r. p (final_state s v) || r) (any_of-map_states s p vs)

  any_of-contains :
      (p : Value → Bool) (vs : List Value) (v : Value)
      → contains vs v ≡ true
      → p v ≡ true
      → any_of p vs ≡ true
  unfolding contains
  any_of-contains p [] v h e = cc
  any_of-contains p (w ∷ vs) v h e = elim (Bool-cases (w == v)) [
    | inl same ↦ rw ((value_eq.beq_iff w v).0 same, e) refl
    | inr differ ↦ rw (any_of-contains p vs v (rw differ at h) e) (ground arith)
  ]

  -- What the transformer of an operation returns for the states that the iteration ends with.
  outputs_hold :
      (s : FixState (taint_semantics rules)) (t : TagId) (o : Operation) (vs : List Value)
      (w : Value)
      → contains vs w ≡ true
      → any_of (λ u. is_bottom (final_state s u)) vs ≡ false
      → Carries rules t o (length vs)
      → holds_secrecy (final_state s w) t ≡ true
      → Returns
          (λ r. (length r ≡ number_of_outputs o) × All (λ x. holds_secrecy x t ≡ true) r)
          (apply_operation_transformer rules o (map (final_state s) vs))
  unfolding contains
  outputs_hold s t o [] w member live carries h = cc
  outputs_hold s t o (v ∷ vs) w member live carries h =
      apply_operation_transformer-holds_secrecy rules o (final_state s v) (map (final_state s) vs) t
        (rw (length-map (final_state s) vs) carries) (any_of-map_states s is_bottom (v ∷ vs) ∙ live)
        (any_of-map_states s (λ x. holds_secrecy x t) (v ∷ vs)
          ∙ any_of-contains (λ u. holds_secrecy (final_state s u) t) (v ∷ vs) w member h)

  step_holds :
      (s : FixState (taint_semantics rules)) (t : TagId) (a : ℕ) (o : Operation) (i : ℕ) (w : Value)
      → find_operation (operations_of m) a ≡ ok o
      → Consistent (taint_semantics rules) (taint_order rules) m s o
      → contains o.inputs w ≡ true
      → any_of (λ u. is_bottom (final_state s u)) o.inputs ≡ false
      → Carries rules t o (length o.inputs)
      → i < number_of_outputs o
      → holds_secrecy (final_state s w) t ≡ true
      → holds_secrecy (final_state s (operation_result a i)) t ≡ true
  unfolding operation_inputs
  step_holds s t a o i w found c member live carries lt h =
      let (outputs, returned, below) = Returns-eq-ok c in
      let (outputs', returned', (size, all)) =
        Returns-eq-ok (outputs_hold s t o o.inputs w member live carries h) in
      let same : outputs' ≡ outputs = ok-injective (sym returned' ∙ returned) in
      let (x, at) = get_elem?_of_lt outputs' i (rw size lt) in
      let held = All-get_elem? _ outputs' i all at in
      let address = find_operation-address (operations_of m) a o found in
      let under = below i x (subst (λ l. get_elem? l i ≡ some x) same at) in
      holds_of_Below x _ t (rw address at under) held

  Flows-holds :
      (s : FixState (taint_semantics rules)) (t : TagId)
      → ((a : ℕ) (o : Operation)
          → find_operation (operations_of m) a ≡ ok o
          → Consistent (taint_semantics rules) (taint_order rules) m s o)
      → (v w : Value) → Flows s t v w
      → holds_secrecy (final_state s v) t ≡ true
      → holds_secrecy (final_state s w) t ≡ true
  Flows-holds s t c v w (here _) h = h
  Flows-holds s t c v w (through {w = u} a o i f found member live carries lt) h =
      step_holds s t a o i u found (c a o found) member live carries lt (Flows-holds s t c v u f h)

  final_state-none :
      (s : FixState (taint_semantics rules)) (w : Value)
      → find s.value_states w ≡ none
      → final_state s w ≡ bottom
  unfolding get_current_state
  final_state-none s w e = ground arith

  final_state-some :
      (s : FixState (taint_semantics rules)) (w : Value) (x : AbstractIfcTags)
      → find s.value_states w ≡ some x
      → final_state s w ≡ x
  unfolding get_current_state
  final_state-some s w x e = ground arith

  reads_secret :
      (s : FixState (taint_semantics rules)) (t : TagId) (w : Value)
      → holds_secrecy (final_state s w) t ≡ true
      → reads has_some_secrecy s.value_states w ≡ true
  reads_secret s t w h = elim (Option-cases (find s.value_states w)) [
    | inl absent ↦
        absurd
          (let h' = subst (λ x. holds_secrecy x t ≡ true) (final_state-none s w absent) h in cc)
    | inr (x, there) ↦
        rw (there, reads)
          (secret_of_held x t
            (subst (λ y. holds_secrecy y t ≡ true) (final_state-some s w x there) h))
  ]

  egress_reads_secret :
      (s : FixState (taint_semantics rules)) (egress : List String) (w : Value)
      (os : List Operation)
      → reads has_some_secrecy s.value_states w ≡ true
      → any_of (λ o. contains egress o.op.name && contains o.inputs w) os ≡ true
      → any_of (egress_reads egress has_some_secrecy s.value_states) os ≡ true
  egress_reads_secret s egress w [] h e = cc
  egress_reads_secret s egress w (o ∷ os) h e = ground (
    arith,
    any_of-contains (reads has_some_secrecy s.value_states) o.inputs w,
    egress_reads_secret s egress w os h,
  )

  -- Whatever order the worklist is taken in, when it is empty, a value that holds a secrecy tag and
  -- flows, through operations that carry the tag and whose inputs are not bottom, to an input of an
  -- egress operation keeps the module from being reported as compliant, if the indices of the rules
  -- are in range.
  pub is_module_policy_compliant-Flows :
      (s : FixState (taint_semantics rules)) (egress : List String) (t : TagId) (v w : Value)
      → All (λ o. RulesFit rules o (length o.inputs)) (operations_of m)
      → Reach (taint_semantics rules) m s
      → s.worklist ≡ []
      → holds_secrecy (final_state s v) t ≡ true
      → Flows s t v w
      → any_of (λ o. contains egress o.op.name && contains o.inputs w) (operations_of m) ≡ true
      → is_module_policy_compliant egress s.value_states m ≢ ok true
  is_module_policy_compliant-Flows s egress t v w fit r empty h f sink =
      let (c, _) =
        Reach-post_fixpoint (taint_semantics rules) (taint_order rules) m s
          (taint_strict rules m fit) r empty in
      let held = Flows-holds s t c v w f h in
      let found = egress_reads_secret s egress w (operations_of m) (reads_secret s t w held) sink in
      λ compliant.
        not_compliant _
          (rw (is_module_policy_compliant_lem egress s.value_states m, found) at compliant)
