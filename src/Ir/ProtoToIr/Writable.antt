-- ===== src/Ir/ProtoToIr/Writable.antt =====
-- Modules that src/ir/proto_to_ir.cc reads again, and the ids of their objects.
use raksha.Common.{
  true, nat_eq, string_eq, ℕ, List, [], ◌∷◌, some, ◌≡◌, subst, All, AllPairs, AllPairs-append, map,
  ◌==◌, arith, Bool-cases, inl, inr,
}
use raksha.Common.Maps.{keys}
use raksha.Common.Sets.{contains}
use raksha.Common.Entries.{Distinct}
use raksha.Ir.Values.{Value, any, operation_result, block_argument, stored_value}
use raksha.Ir.Context.{IrContext, get_operator}
use raksha.Ir.Modules.{Operation, Operator, Module, Block, operations_of_blocks}
use raksha.Ir.Proto.{BlockWithId}
use raksha.Ir.IrToProto.{IrToProto, pointer_eq}
use raksha.Ir.IrToProto.Named.{OperationNamed, BlockNamed}
use raksha.Ir.ProtoToIr.Readable.{message_operations}

abbrev pub address_of : Operation → ℕ
address_of o = o.address

abbrev pub block_address_of : Block → ℕ
block_address_of b = b.address

-- The value is any value, a result of one of the operations, or an argument of one of the blocks.
abbrev pub IsValueOf : List ℕ → List ℕ → Value → Type 0
IsValueOf os bs any = Unit
IsValueOf os bs (operation_result o i) = contains os o ≡ true
IsValueOf os bs (block_argument b i) = contains bs b ≡ true
IsValueOf os bs (stored_value t) = ⊥

abbrev pub IsOperationOf : IrContext → List ℕ → List ℕ → Operation → Type 0
IsOperationOf c os bs o =
    ((op : Operator) × (get_operator c o.op.name ≡ some op))
    × All (IsValueOf os bs) o.inputs
    × Distinct (keys o.attributes)

-- The objects have distinct addresses, every value is of an object of the module, every operator is
-- registered, attributes have distinct names, and no block has a result.
abbrev pub IsWritable : IrContext → Module → Type 0
IsWritable c m =
    let os = map address_of (operations_of_blocks m.blocks) in
    let bs = map block_address_of m.blocks in
    Distinct os
    × Distinct bs
    × All (IsOperationOf c os bs) (operations_of_blocks m.blocks)
    × All (λ b. b.results ≡ []) m.blocks

-- Ids of objects that have distinct addresses.
module _ {X Y : Type 0} (address : X → ℕ) (id : Y → ℕ) (R : X → Y → Type 0) (names : ℕ → ℕ → Type 0)
    (named : (x : X) (y : Y) → R x y → names (address x) (id y)) where
  address_of_id :
      (xs : List X) (ys : List Y) (a i : ℕ)
      → ((a b i : ℕ) → names a i → names b i → a ≡ b)
      → AllPairs R xs ys
      → names a i
      → contains (map id ys) i ≡ true
      → contains (map address xs) a ≡ true
  unfolding contains
  address_of_id [] [] a i inj all h there = cc
  address_of_id [] (y ∷ ys) a i inj all h there = absurd all
  address_of_id (x ∷ xs) [] a i inj all h there = absurd all
  address_of_id (x ∷ xs) (y ∷ ys) a i inj (here, all) h there = elim (Bool-cases (id y == i)) [
    | inl same ↦
        let e : address x ≡ a =
          inj (address x) a i
            (subst (names (address x)) ((nat_eq.beq_iff (id y) i).0 same) (named x y here)) h in
        ground (arith, (nat_eq.beq_iff (address x) a).1 e)
    | inr differ ↦
        let rest = address_of_id xs ys a i inj all h (rw differ at there) in ground (arith, rest)
  ]

  pub id_of_address :
      (xs : List X) (ys : List Y) (a i : ℕ)
      → ((a i j : ℕ) → names a i → names a j → i ≡ j)
      → AllPairs R xs ys
      → names a i
      → contains (map address xs) a ≡ true
      → contains (map id ys) i ≡ true
  unfolding contains
  id_of_address [] [] a i fun all h there = cc
  id_of_address [] (y ∷ ys) a i fun all h there = absurd all
  id_of_address (x ∷ xs) [] a i fun all h there = absurd all
  id_of_address (x ∷ xs) (y ∷ ys) a i fun (here, all) h there = elim (Bool-cases (address x == a)) [
    | inl same ↦
        let e : id y ≡ i =
          fun a (id y) i
            (subst (λ a. names a (id y)) ((nat_eq.beq_iff (address x) a).0 same) (named x y here))
            h in
        ground (arith, (nat_eq.beq_iff (id y) i).1 e)
    | inr differ ↦
        let rest = id_of_address xs ys a i fun all h (rw differ at there) in ground (arith, rest)
  ]

  pub Distinct-ids :
      (xs : List X) (ys : List Y)
      → ((a b i : ℕ) → names a i → names b i → a ≡ b)
      → AllPairs R xs ys
      → Distinct (map address xs)
      → Distinct (map id ys)
  Distinct-ids [] [] inj all distinct = tt
  Distinct-ids [] (y ∷ ys) inj all distinct = absurd all
  Distinct-ids (x ∷ xs) [] inj all distinct = absurd all
  Distinct-ids (x ∷ xs) (y ∷ ys) inj (here, all) (new, distinct) = (
    elim (Bool-cases (contains (map id ys) (id y))) [
      | inl there ↦
          absurd
            (let t = address_of_id xs ys (address x) (id y) inj all (named x y here) there in cc)
      | inr h ↦ h
    ],
    Distinct-ids xs ys inj all distinct,
  )

pub named_operations :
    (s : IrToProto) (bs : List Block) (ps : List BlockWithId)
    → AllPairs (BlockNamed s) bs ps
    → AllPairs (OperationNamed s) (operations_of_blocks bs) (message_operations ps)
unfolding operations_of_blocks
named_operations s [] [] all = tt
named_operations s [] (p ∷ ps) all = absurd all
named_operations s (b ∷ bs) [] all = absurd all
named_operations s (b ∷ bs) (p ∷ ps) ((_, (operations, _)), all) =
    AllPairs-append (OperationNamed s) b.operations (operations_of_blocks bs) p.block.operations
      (message_operations ps) operations (named_operations s bs ps all)
