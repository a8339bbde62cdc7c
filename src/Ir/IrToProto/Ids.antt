-- ===== src/Ir/IrToProto/Ids.antt =====
-- The ids that src/ir/ir_to_proto.h gives to blocks and operations, and the message as a whole.
use raksha.Common.{
  ℕ, ◌+◌, ◌≤◌, ◌<◌, ◌%◌, ◌^◌, some, none, ◌≡◌, refl, sym, ◌∙◌, arith, length, ◌==◌, Option-cases,
  Bool-cases, inl, inr, some-injective, beq_refl, ◌⊎◌,
}
use raksha.Common.Maps.{find, try_insert, find-try_insert_new, length-try_insert}
use raksha.Ir.IrToProto.{Pointer, pointer_eq, IrToProto, get_id}

-- The object has the id.
abbrev pub Names : IrToProto → Pointer → ℕ → Type 0
Names s ptr id = find s.used_ids ptr ≡ some id

-- While there are fewer objects than numbers of 64 bits, they have distinct ids.
abbrev pub HasDistinctIds : IrToProto → Type 0
HasDistinctIds s =
    length s.used_ids < 2 ^ 64
    → (s.last_used_id ≡ length s.used_ids)
      × ((p : Pointer) (i : ℕ) → Names s p i → i ≤ s.last_used_id)
      × ((p q : Pointer) (i : ℕ) → Names s p i → Names s q i → p ≡ q)

-- A later state keeps the ids, and that they are distinct.
abbrev pub Before : IrToProto → IrToProto → Type 0
Before s t =
    ((p : Pointer) (i : ℕ) → Names s p i → Names t p i) × (HasDistinctIds s → HasDistinctIds t)

pub Before-refl : (s : IrToProto) → Before s s
Before-refl s = (λ p i h. h, λ h. h)

pub Before-trans : (s t u : IrToProto) → Before s t → Before t u → Before s u
Before-trans s t u (keep, sound) (keep', sound') =
    (λ p i h. keep' p i (keep p i h), λ h. sound' (sound h))

abbrev new_id : IrToProto → ℕ
new_id s = (s.last_used_id + 1) % 2 ^ 64

abbrev with_new : IrToProto → Pointer → IrToProto
with_new s ptr = record { used_ids = try_insert s.used_ids ptr (new_id s); last_used_id = new_id s }

Names-with_new :
    (s : IrToProto) (ptr p : Pointer) (i : ℕ)
    → find s.used_ids ptr ≡ none
    → Names (with_new s ptr) p i
    → ((p ≡ ptr) × (i ≡ new_id s)) ⊎ Names s p i
Names-with_new s ptr p i new h = elim (Bool-cases (ptr == p)) [
  | inl same ↦
      let here : some (new_id s) ≡ some i =
        rw (find-try_insert_new s.used_ids ptr (new_id s) p new, same) at h in
      inl (sym ((pointer_eq.beq_iff ptr p).0 same), sym (some-injective _ _ here))
  | inr differ ↦ inr (rw (find-try_insert_new s.used_ids ptr (new_id s) p new, differ) at h)
]

HasDistinctIds-with_new :
    (s : IrToProto) (ptr : Pointer)
    → find s.used_ids ptr ≡ none
    → HasDistinctIds s
    → HasDistinctIds (with_new s ptr)
HasDistinctIds-with_new s ptr new distinct small =
    let longer = length-try_insert s.used_ids ptr (new_id s) new in
    let (last, low, inj) = distinct (omega (arith, longer, small)) in
    let next : new_id s ≡ s.last_used_id + 1 = omega (arith, longer, small, last) in
    (
      omega (arith, next, longer, last),
      λ p i h. elim (Names-with_new s ptr p i new h) [
        | inl (_, is_new) ↦ omega (arith, is_new)
        | inr old ↦ omega (arith, next, low p i old)
      ],
      λ p q i hp hq. elim (Names-with_new s ptr p i new hp) [
        | inl (p_is, i_is) ↦ elim (Names-with_new s ptr q i new hq) [
          | inl (q_is, _) ↦ p_is ∙ sym q_is
          | inr old ↦ absurd (omega (arith, next, i_is, low q i old))
        ]
        | inr old_p ↦ elim (Names-with_new s ptr q i new hq) [
          | inl (_, i_is) ↦ absurd (omega (arith, next, i_is, low p i old_p))
          | inr old_q ↦ inj p q i old_p old_q
        ]
      ],
    )

Names-kept :
    (s : IrToProto) (ptr : Pointer)
    → find s.used_ids ptr ≡ none
    → (p : Pointer) (i : ℕ) → Names s p i
    → Names (with_new s ptr) p i
Names-kept s ptr new p i h = elim (Bool-cases (ptr == p)) [
  | inl same ↦ absurd (
      let there : find s.used_ids ptr ≡ some i = rw ((pointer_eq.beq_iff ptr p).0 same) h in
      let both = sym new ∙ there in cc)
  | inr differ ↦ rw (find-try_insert_new s.used_ids ptr (new_id s) p new, differ) h
]

pub get_id_lem :
    (s : IrToProto) (ptr : Pointer) → let r = get_id s ptr in Before s r.0 × Names r.0 ptr r.1
unfolding get_id
get_id_lem s ptr = elim (Option-cases (find s.used_ids ptr)) [
  | inr (id, old) ↦ rw (old, get_id) (Before-refl s, old)
  | inl new ↦
      rw (new, get_id)
        (
          (Names-kept s ptr new, HasDistinctIds-with_new s ptr new),
          rw (find-try_insert_new s.used_ids ptr (new_id s) ptr new, beq_refl ptr) refl,
        )
]
