-- ===== src/Ir/SsaNames/Distinct.antt =====
-- Names that the manager makes are distinct, and names that a client adds are kept.
use raksha.Common.{
  ℕ, String, List, ◌<>◌, ◌<◌, none, some, fatal, length, ◌≡◌, ◌≢◌, refl, sym, ◌∙◌, ap, ◌↔◌, arith,
  Option-cases, inl, inr, Eq, ◌⊎◌, true, Returns, returns,
}
use raksha.Common.Text.{to_string, to_string-injective}
use raksha.Common.Maps.{
  find, try_insert, assign, try_insert_old, find-assign, find-try_insert_new, length-try_insert,
}
use raksha.Ir.Values.{Value, value_eq}
use raksha.Ir.SsaNames.{
  IdManager, make_id_manager, get_or_create_id, SsaNames, get_or_create_value_id, add_value_id,
  find_id, update_id,
}
use text.Mathlib.TextLemmas.{append_cancel_left}

module _ {ℓ} {K : Type ℓ} ⦃e : Eq K⦄ where
  -- The managers that only make names.
  pub data Created : IdManager K → Type ℓ where
    start : (prefix : String) → Created (make_id_manager prefix)
    create : {m : IdManager K} (k : K) → Created m → Created (get_or_create_id m k).0

  -- The two cases of `get_or_create_id`.
  get_or_create_id_old :
      (m : IdManager K) (k : K) {x : String}
      → find m.item_ids k ≡ some x
      → get_or_create_id m k ≡ (m, x)
  unfolding get_or_create_id
  get_or_create_id_old m k h = rw (try_insert_old m.item_ids k _ _ h, h, get_or_create_id)

  get_or_create_id_new :
      (m : IdManager K) (k : K)
      → find m.item_ids k ≡ none
      → let x = m.prefix <> to_string (length m.item_ids) in
        get_or_create_id m k ≡ (record m { item_ids = try_insert m.item_ids k x }, x)
  unfolding get_or_create_id
  get_or_create_id_new m k h = rw (h, get_or_create_id)

  record Numbered (m : IdManager K) : Type ℓ where
    low :
        (k : K) (x : String)
        → find m.item_ids k ≡ some x
        → (n : ℕ) × (n < length m.item_ids) × (x ≡ m.prefix <> to_string n)
    same : (j k : K) (x : String) → find m.item_ids j ≡ some x → find m.item_ids k ≡ some x → j ≡ k

  -- An entry after `try_insert` is the new one or was there before.
  entry_cases :
      (m : List (K × String)) (j k : K) (x y : String)
      → find m k ≡ none
      → find (try_insert m k y) j ≡ some x
      → ((k ≡ j) × (x ≡ y)) ⊎ (find m j ≡ some x)
  entry_cases m j k x y new h = ground (arith, find-try_insert_new m k y j new, e.beq_iff k j)

  unused :
      (m : IdManager K) (j : K) (x : String)
      → Numbered m
      → find m.item_ids j ≡ some x
      → x ≢ m.prefix <> to_string (length m.item_ids)
  unused m j x inv h is_new =
      let (n, small, is_x) = inv.low j x h in
      let numbers = to_string-injective _ _ (append_cancel_left m.prefix _ _ (sym is_x ∙ is_new)) in
      omega (arith, numbers, small)

  Numbered-new :
      (m : IdManager K) (k : K)
      → Numbered m
      → find m.item_ids k ≡ none
      → Numbered (record m {
        item_ids = try_insert m.item_ids k (m.prefix <> to_string (length m.item_ids));
      })
  Numbered-new m k inv new =
      let id = m.prefix <> to_string (length m.item_ids) in
      let grows = length-try_insert m.item_ids k id new in
      record {
        low = λ j x h. elim (entry_cases m.item_ids j k x id new h) [
          | inl (_, is_id) ↦ (length m.item_ids, omega (arith, grows), is_id)
          | inr old ↦
              let (n, small, is_x) = inv.low j x old in (n, omega (arith, grows, small), is_x)
        ];
        same = λ i j x h h'. elim (entry_cases m.item_ids i k x id new h) [
          | inl (a, is_id) ↦ elim (entry_cases m.item_ids j k x id new h') [
            | inl (b, _) ↦ sym a ∙ b
            | inr old ↦ absurd (unused m j x inv old is_id)
          ]
          | inr a ↦ elim (entry_cases m.item_ids j k x id new h') [
            | inl (_, is_id) ↦ absurd (unused m i x inv a is_id)
            | inr b ↦ inv.same i j x a b
          ]
        ];
      }

  Numbered-create : (m : IdManager K) (k : K) → Numbered m → Numbered (get_or_create_id m k).0
  Numbered-create m k inv = elim (Option-cases (find m.item_ids k)) [
    | inl new ↦ rw (get_or_create_id_new m k new) (Numbered-new m k inv new)
    | inr (x, old) ↦ rw (get_or_create_id_old m k old) inv
  ]

  Created-Numbered : {m : IdManager K} → Created m → Numbered m
  unfolding make_id_manager find
  Created-Numbered (start prefix) = record { low = λ k x h. cc; same = λ j k x h h'. cc }
  Created-Numbered (create {m} k c) = Numbered-create m k (Created-Numbered c)

  -- The id that is returned is the one that the map holds.
  find-get_or_create_id :
      (m : IdManager K) (k : K) → let r = get_or_create_id m k in find r.0.item_ids k ≡ some r.1
  find-get_or_create_id m k = elim (Option-cases (find m.item_ids k)) [
    | inl new ↦
        let id = m.prefix <> to_string (length m.item_ids) in
        rw (get_or_create_id_new m k new)
          (ground (arith, find-try_insert_new m.item_ids k id k new, e.beq_iff k k))
    | inr (x, old) ↦ rw (get_or_create_id_old m k old) old
  ]

  -- An id that the map holds stays.
  find-get_or_create_id_other :
      (m : IdManager K) (j k : K) (x : String)
      → find m.item_ids j ≡ some x
      → find (get_or_create_id m k).0.item_ids j ≡ some x
  find-get_or_create_id_other m j k x h = elim (Option-cases (find m.item_ids k)) [
    | inl new ↦
        let id = m.prefix <> to_string (length m.item_ids) in
        rw (get_or_create_id_new m k new)
          (ground (arith, find-try_insert_new m.item_ids k id j new, e.beq_iff k j))
    | inr (y, old) ↦ rw (get_or_create_id_old m k old) h
  ]

  -- In a manager that has only made ids, the ids that it gives for two entities, one after the
  -- other, are equal exactly if the entities are.
  pub get_or_create_id-eq_iff :
      {m : IdManager K}
      → Created m
      → (j k : K)
      → let r = get_or_create_id m j in let s = get_or_create_id r.0 k in (r.1 ≡ s.1) ↔ (j ≡ k)
  get_or_create_id-eq_iff {m} c j k =
      let r = get_or_create_id m j in
      let s = get_or_create_id r.0 k in
      let first = find-get_or_create_id m j in
      let kept = find-get_or_create_id_other r.0 j k r.1 first in
      let second = find-get_or_create_id r.0 k in
      let inv = Created-Numbered (create k (create j c)) in
      let same : some r.1 ≡ some s.1 → j ≡ k = λ h. inv.same j k s.1 (kept ∙ h) second in
      (λ h. same (ap some h), λ h. cc (h, kept, second))

-- If a value has no id, adding one returns it, and from then on it is the id that is got for the
-- value without a change, adding one again fails, and which other values have an id is as before.
pub add_value_id_lem :
    (s : SsaNames) (v : Value) (id : String)
    → find_id s.value_ids v ≡ true
    → Returns
        (λ r.
          (r.1 ≡ id)
          × (get_or_create_value_id r.0 v ≡ (r.0, id))
          × (add_value_id r.0 v id ≡ fatal)
          × ((w : Value) → w ≢ v → find_id r.0.value_ids w ≡ find_id s.value_ids w))
        (add_value_id s v id)
unfolding add_value_id update_id find_id get_or_create_value_id
add_value_id_lem s v id h =
    let items = assign s.value_ids.item_ids v id in
    let m : IdManager Value = record { prefix = s.value_ids.prefix; item_ids = items } in
    let hit : find items v ≡ some id =
      ground (arith, find-assign s.value_ids.item_ids v id v, value_eq.beq_iff v v) in
    let old = get_or_create_id_old m v hit in
    let other : (w : Value) → w ≢ v → find items w ≡ find s.value_ids.item_ids w =
      λ w ne. ground (arith, find-assign s.value_ids.item_ids v id w, value_eq.beq_iff v w) in
    rw h (
      returns (
        refl,
        ap (λ r. (record s { value_ids = r.0 }, r.1)) old,
        rw (add_value_id, find_id, hit) refl,
        λ w ne. rw (find_id, other w ne) refl,
      ))
