-- ===== src/Sql/Context/Wired.antt =====
-- The operations that src/frontends/sql/decoder_context.cc adds to the block: their addresses are their
-- places, and their inputs stand before them.
use raksha.Common.{
  All-zip, ℕ, suc, ◌+◌, ◌≤◌, ◌<◌, String, true, false, List, [], ◌∷◌, ◌++◌, some, Outcome, ok,
  check, length, ◌==◌, string_eq, nat_eq, ◌≡◌, refl, arith, All, All-append, All-map, length-append,
  >>=-eq-ok, ok-injective, some_of_die_if_null, subst, beq_refl, not, ◌∙◌, ap, sym,
}
use raksha.Common.Maps.{insert_new, insert_new-eq-ok, All-find}
use raksha.Ir.BlockBuilder.{add_created_operation}
use raksha.Ir.Modules.{Block, make_module}
use raksha.Ir.Values.{Value, operation_result, stored_value, block_argument, any}
use raksha.Ir.Modules.{Operation, number_of_outputs}
use raksha.Ir.Context.{get_operator}
use raksha.Analysis.Fixpoint.{find_operation}
use raksha.Sql.Ops.{
  is_op, merge_name, literal_name, tag_transform_name, sql_output_name,
  get_control_input_start_index,
}
use raksha.Sql.Context.{DecoderContext, add_operation, get_value, register_value}
use raksha.Ir.Modules.{make_operator}

-- The value of a column, or the result of one of the first `n` operations.
abbrev pub IsMade : ℕ → Value → Type 0
IsMade n (operation_result address index) = (address < n) × (index ≡ 0)
IsMade n (stored_value s) = Unit
IsMade n (block_argument b i) = ⊥
IsMade n any = ⊥

-- An operation of the frontend at a place: it has one output, and the direct inputs of a merge are
-- among its inputs.
pub record IsPlaced (n : ℕ) (o : Operation) : Type 0 where
  pub place : o.address ≡ n
  pub inputs : All (IsMade n) o.inputs
  pub outputs : number_of_outputs o ≡ 1
  pub merge :
      is_op merge_name o ≡ true
      → (k : ℕ) × (get_control_input_start_index o ≡ ok k) × (k ≤ length o.inputs)

-- All operations from place `n` on.
abbrev pub Wired : ℕ → List Operation → Type 0
Wired n [] = Unit
Wired n (o ∷ os) = IsPlaced n o × Wired (suc n) os

pub Wired-concat :
    (n : ℕ) (os : List Operation) (o : Operation)
    → Wired n os
    → IsPlaced (n + length os) o
    → Wired n (os ++ o ∷ [])
Wired-concat n [] o w h = (subst (λ k. IsPlaced k o) (omega arith) h, tt)
Wired-concat n (p ∷ os) o (here, w) h =
    (here, Wired-concat (suc n) os o w (subst (λ k. IsPlaced k o) (omega arith) h))

Wired-le : (n : ℕ) (os : List Operation) → Wired n os → All (λ o. n ≤ o.address) os
Wired-le n [] w = tt
Wired-le n (o ∷ os) (here, w) =
    (omega (arith, here.place), All-map _ _ os (λ p h. omega arith) (Wired-le (suc n) os w))

-- One operation has each address.
pub Wired-find_operation :
    (n : ℕ) (os : List Operation) → Wired n os → All (λ o. find_operation os o.address ≡ ok o) os
unfolding find_operation
Wired-find_operation n [] w = tt
Wired-find_operation n (o ∷ os) (here, w) = (
  rw (beq_refl o.address) refl,
  All-map _ _ os
      (λ p (lt, found).
        rw (let b : (o.address == p.address) ≡ false = ground (arith, here.place) in b) found)
      (All-zip _ _ os (Wired-le (suc n) os w) (Wired-find_operation (suc n) os w)),
)

IsMade-weaken : (m n : ℕ) (v : Value) → m ≤ n → IsMade m v → IsMade n v
IsMade-weaken m n (operation_result a i) h (lt, e) = (omega arith, e)
IsMade-weaken m n (stored_value s) h made = tt
IsMade-weaken m n (block_argument b i) h made = absurd made
IsMade-weaken m n any h made = absurd made

abbrev pub sql_names : List String
sql_names = literal_name ∷ merge_name ∷ tag_transform_name ∷ sql_output_name ∷ []

abbrev pub block_of : List Operation → Block
block_of operations = record {
  address = 0;
  inputs = [];
  outputs = [];
  operations = operations;
  results = [];
}

-- The context while its block has the given operations.
pub record IsSound (d : DecoderContext) (operations : List Operation) : Type 0 where
  pub block : d.top_level_block ≡ some (block_of operations)
  pub wired : Wired 0 operations
  pub values : All (λ p. IsMade (length operations) p.1) d.id_to_value
  pub operators : All (λ name. get_operator d.ir_context name ≡ some (make_operator name)) sql_names
  pub blocks : d.global_module ≡ make_module

pub get_value-IsMade :
    (d : DecoderContext) (os : List Operation) (id : ℕ) (v : Value)
    → IsSound d os
    → get_value d id ≡ ok v
    → IsMade (length os) v
unfolding get_value
get_value-IsMade d os id v sound h =
    let (_, _, found) = >>=-eq-ok (check (not (id == 0))) _ h in
    All-find (IsMade (length os)) d.id_to_value id v sound.values (some_of_die_if_null _ found)

pub register_value-IsSound :
    (d d' : DecoderContext) (os : List Operation) (id : ℕ) (v : Value)
    → IsSound d os
    → IsMade (length os) v
    → register_value d id v ≡ ok d'
    → IsSound d' os
unfolding register_value
register_value-IsSound d d' os id v sound made h =
    let (m, inserted, e) = >>=-eq-ok (insert_new d.id_to_value id v) _ h in
    let (_, is_m) = insert_new-eq-ok d.id_to_value m id v inserted in
    subst (λ d. IsSound d os) (ok-injective e)
      (record {
        block = sound.block;
        wired = sound.wired;
        values = rw is_m (All-append _ d.id_to_value _ sound.values (made, tt));
        operators = sound.operators;
        blocks = sound.blocks;
      })

-- The operation that is added is the one that was created.
add_operation-eq-ok :
    (d d' : DecoderContext) (os : List Operation) (create : ℕ → Outcome Operation) (o : Operation)
    → d.top_level_block ≡ some (block_of os)
    → add_operation d create ≡ ok (d', o)
    → (create (length os) ≡ ok o)
      × (record d { top_level_block = some (block_of (os ++ o ∷ [])) } ≡ d')
unfolding add_operation add_created_operation
add_operation-eq-ok d d' os create o block h =
    let (r, run, e) =
      >>=-eq-ok (add_created_operation (some (block_of os)) create) _ (rw block at h) in
    let (p, made, e') = >>=-eq-ok (create (length os)) _ run in
    let same : (record d { top_level_block = some (block_of (os ++ p ∷ [])) }, p) ≡ (d', o) =
      ap (λ r. (record d { top_level_block = r.0 }, r.1)) (ok-injective e') ∙ ok-injective e in
    let is_o : p ≡ o = ap (λ r. r.1) same in
    (
      made ∙ ap ok is_o,
      ap (λ o. record d { top_level_block = some (block_of (os ++ o ∷ [])) }) (sym is_o)
          ∙ ap (λ r. r.0) same,
    )

pub add_operation-create :
    (d d' : DecoderContext) (os : List Operation) (create : ℕ → Outcome Operation) (o : Operation)
    → d.top_level_block ≡ some (block_of os)
    → add_operation d create ≡ ok (d', o)
    → create (length os) ≡ ok o
add_operation-create d d' os create o block h = (add_operation-eq-ok d d' os create o block h).0

pub add_operation-IsSound :
    (d d' : DecoderContext) (os : List Operation) (create : ℕ → Outcome Operation) (o : Operation)
    → IsSound d os
    → ((o : Operation) → create (length os) ≡ ok o → IsPlaced (length os) o)
    → add_operation d create ≡ ok (d', o)
    → IsSound d' (os ++ o ∷ []) × IsPlaced (length os) o
add_operation-IsSound d d' os create o sound placed h =
    let (run, is_d) = add_operation-eq-ok d d' os create o sound.block h in
    let here = placed o run in
    let longer : length (os ++ o ∷ []) ≡ suc (length os) =
      omega (arith, length-append os (o ∷ [])) in
    (
      subst (λ d. IsSound d (os ++ o ∷ [])) is_d
          (record {
            block = refl;
            wired = Wired-concat 0 os o sound.wired (subst (λ k. IsPlaced k o) (omega arith) here);
            values =
                All-map _ _ d.id_to_value
                  (λ p made. IsMade-weaken (length os) _ p.1 (omega (arith, longer)) made)
                  sound.values;
            operators = sound.operators;
            blocks = sound.blocks;
          }),
      here,
    )
