-- ===== src/Ir/Types/Paths.antt =====
-- The access paths that src/ir/types/schema.cc collects.
use mathlib.Core.List.{reverse, reverse-append, reverse-cons, reverse-reverse}
use raksha.Common.{
  Option, String, List, [], ◌∷◌, ◌++◌, map, ◌≡◌, refl, ap, sym, ◌∙◌, subst, ◌↔◌, ◌⊎◌, inl, inr,
  IsAmong, IsAmong-left, IsAmong-right, IsAmong-append, IsAmong-map, IsAmong-map_of,
}
use raksha.Ir.Types.{
  IrType, primitive, entity, schema, Fields, no_fields, field, Selector, AccessPathSelectors,
  access_paths, add_parent, selectors, empty_path, union_paths, AccessPathSelectorsSet,
  add_parent_to_all, field_access_paths,
}

-- A path from a type down to a type without fields, by the names of the fields on the way.
mutual
  pub data IsPath : IrType → List Selector → Type 0 where
    leaf : IsPath primitive []
    empty : {name : Option String} → IsPath (entity (schema name no_fields)) []
    down :
        {name : Option String} {fs : Fields} {path : List Selector}
        → IsFieldPath fs path
        → IsPath (entity (schema name fs)) path

  pub data IsFieldPath : Fields → List Selector → Type 0 where
    here :
        {n : String} {t : IrType} {fs : Fields} {path : List Selector}
        → IsPath t path
        → IsFieldPath (field n t fs) (n ∷ path)
    there :
        {n : String} {t : IrType} {fs : Fields} {path : List Selector}
        → IsFieldPath fs path
        → IsFieldPath (field n t fs) path

selectors-add_parent :
    (n : Selector) (p : AccessPathSelectors) → selectors (add_parent n p) ≡ n ∷ selectors p
unfolding selectors add_parent
selectors-add_parent n p = reverse-append p.reverse_selectors (n ∷ [])

-- The path that is stored for selectors in order.
abbrev stored : List Selector → AccessPathSelectors
stored path = record { reverse_selectors = reverse path }

add_parent-stored :
    (n : Selector) (path : List Selector) → add_parent n (stored path) ≡ stored (n ∷ path)
unfolding add_parent
add_parent-stored n path = ap (λ r. record { reverse_selectors = r }) (sym (reverse-cons n path))

stored-selectors : (p : AccessPathSelectors) → stored (selectors p) ≡ p
unfolding selectors
stored-selectors p =
    ap (λ r. record { reverse_selectors = r }) (reverse-reverse p.reverse_selectors)

leaf_path : IsPath primitive (selectors empty_path)
unfolding selectors
leaf_path = leaf

empty_schema_path :
    {name : Option String} → IsPath (entity (schema name no_fields)) (selectors empty_path)
unfolding selectors
empty_schema_path = empty

mutual
  unfolding access_paths union_paths add_parent_to_all

  IsPath-of_IsAmong :
      (t : IrType) (p : AccessPathSelectors) → IsAmong p (access_paths t) → IsPath t (selectors p)
  IsPath-of_IsAmong primitive p (inl same) =
      subst (λ p. IsPath primitive (selectors p)) (sym same) leaf_path
  IsPath-of_IsAmong primitive p (inr later) = absurd later
  IsPath-of_IsAmong (entity (schema name no_fields)) p (inl same) =
      subst (λ p. IsPath (entity (schema name no_fields)) (selectors p)) (sym same)
        empty_schema_path
  IsPath-of_IsAmong (entity (schema name no_fields)) p (inr later) = absurd later
  IsPath-of_IsAmong (entity (schema name (field n t fs))) p h =
      elim (IsFieldPath-of_IsAmong (field n t fs) [] p h) [
        | inl nothing ↦ absurd nothing
        | inr found ↦ down found
      ]

  IsFieldPath-of_IsAmong :
      (fs : Fields) (result : AccessPathSelectorsSet) (p : AccessPathSelectors)
      → IsAmong p (field_access_paths fs result)
      → IsAmong p result ⊎ IsFieldPath fs (selectors p)
  IsFieldPath-of_IsAmong no_fields result p h = inl h
  IsFieldPath-of_IsAmong (field n t fs) result p h =
      elim (IsFieldPath-of_IsAmong fs (result ++ map (add_parent n) (access_paths t)) p h) [
        | inr found ↦ inr (there found)
        | inl before ↦ elim (IsAmong-append p result (map (add_parent n) (access_paths t)) before) [
          | inl old ↦ inl old
          | inr new ↦
              let (q, among, same) = IsAmong-map (add_parent n) (access_paths t) p new in
              inr (
                subst (IsFieldPath (field n t fs))
                  (sym (ap selectors same ∙ selectors-add_parent n q))
                  (here (IsPath-of_IsAmong t q among)))
        ]
      ]

no_field_path : {A : Type 0} {path : List Selector} → IsFieldPath no_fields path → A
no_field_path h = elim h [ ]

keep_result :
    (fs : Fields) (result : AccessPathSelectorsSet) (p : AccessPathSelectors)
    → IsAmong p result
    → IsAmong p (field_access_paths fs result)
unfolding access_paths union_paths
keep_result no_fields result p h = h
keep_result (field n t fs) result p h =
    keep_result fs (result ++ add_parent_to_all n (access_paths t)) p
      (IsAmong-left p result (add_parent_to_all n (access_paths t)) h)

mutual
  unfolding access_paths union_paths add_parent_to_all

  IsAmong-of_path :
      {t : IrType} {path : List Selector} → IsPath t path → IsAmong (stored path) (access_paths t)
  IsAmong-of_path leaf = inl refl
  IsAmong-of_path empty = inl refl
  IsAmong-of_path (down {name} {fs = no_fields} h) = no_field_path h
  IsAmong-of_path (down {name} {fs = field n t fs} h) = IsAmong-of_field_path [] h

  IsAmong-of_field_path :
      {fs : Fields} {path : List Selector} (result : AccessPathSelectorsSet)
      → IsFieldPath fs path
      → IsAmong (stored path) (field_access_paths fs result)
  IsAmong-of_field_path result (here {n} {t} {fs} {path} h) =
      keep_result fs (result ++ map (add_parent n) (access_paths t)) (stored (n ∷ path)) (
        IsAmong-right (stored (n ∷ path)) result (map (add_parent n) (access_paths t)) (
          subst (λ p. IsAmong p (map (add_parent n) (access_paths t))) (add_parent-stored n path)
            (IsAmong-map_of (add_parent n) (access_paths t) (stored path) (IsAmong-of_path h))))
  IsAmong-of_field_path result (there {n} {t} {fs} h) =
      IsAmong-of_field_path (result ++ map (add_parent n) (access_paths t)) h

-- The access paths of a type are those that go from field to field down to a primitive type or to
-- an entity without fields, and no other.
pub access_paths-iff_IsPath :
    (t : IrType) (p : AccessPathSelectors) → IsAmong p (access_paths t) ↔ IsPath t (selectors p)
access_paths-iff_IsPath t p = (
  IsPath-of_IsAmong t p,
  λ h. subst (λ p. IsAmong p (access_paths t)) (stored-selectors p) (IsAmong-of_path h),
)
