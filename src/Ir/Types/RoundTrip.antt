-- ===== src/Ir/Types/RoundTrip.antt =====
-- What src/ir/types/proto decodes is what it encoded.
use raksha.Common.{
  Bool, String, List, [], ◌∷◌, ◌++◌, none, some, ok, ◌>>◌, check, not, true, false, ◌≡◌, refl, ap,
  sym, subst, append_assoc, append-nil, >>=-eq-ok, ok-injective, true_of_check, arith, string_eq,
}
use raksha.Common.Sets.{contains}
use raksha.Ir.Types.{
  IrType, primitive, entity, Schema, schema, Fields, no_fields, field, TypeFactory, TypeProto,
  SchemaProto, FieldProtos, decode, decode_schema, decode_fields, encode, encode_schema,
  encode_fields, register_schema,
}

-- The schemas of a type, each after those of its fields.
mutual
  pub schemas_of : IrType → List Schema
  schemas_of primitive = []
  schemas_of (entity s) = schemas_of_schema s

  pub schemas_of_schema : Schema → List Schema
  schemas_of_schema (schema name fields) = schemas_of_fields fields ++ schema name fields ∷ []

  pub schemas_of_fields : Fields → List Schema
  schemas_of_fields no_fields = []
  schemas_of_fields (field n t fs) = schemas_of t ++ schemas_of_fields fs

abbrev more : TypeFactory → List Schema → TypeFactory
more f schemas = record { schemas = f.schemas ++ schemas }

more-more : (f : TypeFactory) (xs ys : List Schema) → more (more f xs) ys ≡ more f (xs ++ ys)
more-more f xs ys = ap (λ s. record { schemas = s }) (append_assoc f.schemas xs ys)

false_of_not : {b : Bool} → not b ≡ true → b ≡ false
false_of_not {b} h = ground (arith, h)

mutual
  unfolding decode encode register_schema schemas_of

  decode-encode_lem :
      (t : IrType) (p : TypeProto) (f : TypeFactory)
      → encode t ≡ ok p
      → decode f p ≡ ok (more f (schemas_of t), t)
  decode-encode_lem primitive p f h =
      subst (λ p. decode f p ≡ ok (more f [], primitive)) (ok-injective h)
        (ap (λ s. ok (record { schemas = s }, primitive)) (sym (append-nil f.schemas)))
  decode-encode_lem (entity s) p f h =
      let (q, run, e) = >>=-eq-ok (encode_schema s) _ h in
      subst (λ p. decode f p ≡ ok (more f (schemas_of_schema s), entity s)) (ok-injective e)
        (rw (decode-encode_schema s q f run) refl)

  decode-encode_schema :
      (s : Schema) (p : SchemaProto) (f : TypeFactory)
      → encode_schema s ≡ ok p
      → decode_schema f p ≡ ok (more f (schemas_of_schema s), s)
  decode-encode_schema (schema none fields) p f h =
      let (ps, run, e) = >>=-eq-ok (encode_fields [] fields) _ h in
      subst
        (λ p.
          decode_schema f p
          ≡ ok (more f (schemas_of_schema (schema none fields)), schema none fields))
        (ok-injective e)
        (rw (decode-encode_fields fields ps [] f run) (
          ap (λ f. ok (f, schema none fields))
            (more-more f (schemas_of_fields fields) (schema none fields ∷ []))))
  decode-encode_schema (schema (some n) fields) p f h =
      let (ps, run, e) = >>=-eq-ok (encode_fields [] fields) _ h in
      subst
        (λ p.
          decode_schema f p
          ≡ ok (more f (schemas_of_schema (schema (some n) fields)), schema (some n) fields))
        (ok-injective e)
        (rw (decode-encode_fields fields ps [] f run) (
          ap (λ f. ok (f, schema (some n) fields))
            (more-more f (schemas_of_fields fields) (schema (some n) fields ∷ []))))

  decode-encode_fields :
      (fs : Fields) (ps : FieldProtos) (seen : List String) (f : TypeFactory)
      → encode_fields seen fs ≡ ok ps
      → decode_fields f seen ps ≡ ok (more f (schemas_of_fields fs), fs)
  decode-encode_fields no_fields ps seen f h =
      subst (λ ps. decode_fields f seen ps ≡ ok (more f [], no_fields)) (ok-injective h)
        (ap (λ s. ok (record { schemas = s }, no_fields)) (sym (append-nil f.schemas)))
  decode-encode_fields (field n t fs) ps seen f h =
      let (p, run1, h1) = >>=-eq-ok (encode t) _ h in
      let (qs, run2, e) =
        >>=-eq-ok (check (not (contains seen n)) >> encode_fields (seen ++ n ∷ []) fs) _ h1 in
      let (_, fresh, run3) = >>=-eq-ok (check (not (contains seen n))) _ run2 in
      let new : contains seen n ≡ false = false_of_not (true_of_check _ fresh) in
      subst
        (λ ps.
          decode_fields f seen ps
          ≡ ok (more f (schemas_of t ++ schemas_of_fields fs), field n t fs))
        (ok-injective e)
        (rw
          (
            decode-encode_lem t p f run1,
            decode-encode_fields fs qs (seen ++ n ∷ []) (more f (schemas_of t)) run3,
            new,
          )
          (ap (λ f. ok (f, field n t fs)) (more-more f (schemas_of t) (schemas_of_fields fs))))

-- When a type has a message, decoding it gives back the type, and registers after the schemas that
-- the factory had those of the type, each after the schemas of its fields.
pub decode-encode :
    (t : IrType) (p : TypeProto) (f : TypeFactory)
    → encode t ≡ ok p
    → decode f p ≡ ok (record { schemas = f.schemas ++ schemas_of t }, t)
decode-encode t p f h = decode-encode_lem t p f h
