-- ===== src/Tests/Types.antt =====
-- A type of an entity with a nested entity: its paths, and its message.
use raksha.Common.Sets.{contains}
use raksha.Common.Text.{join_with}
use raksha.Common.{[], ◌∷◌, none, some, ok, refl, ◌≡◌, fatal, IsAmong, ◌↔◌}
use raksha.Ir.Types.{
  IrType, primitive, entity, schema, no_fields, field, TypeProto, text, entity_proto, schema_proto,
  no_field_protos, field_proto, access_paths, path_to_string, encode, decode, AccessPathSelectors,
  TypeFactory, selectors,
}
use raksha.Ir.Types.RoundTrip.{decode-encode, schemas_of}
use raksha.Ir.Types.Paths.{access_paths-iff_IsPath, IsPath}

abbrev person : IrType
person = entity (
    schema (some "Person") (
      field "name" primitive (
        field "home" (entity (schema none (field "street" primitive no_fields)))
          (field "tag" (entity (schema none no_fields)) no_fields))))

abbrev person_proto : TypeProto
person_proto = entity_proto (
    schema_proto ("Person" ∷ []) (
      field_proto "name" text (
        field_proto "home"
          (entity_proto (schema_proto [] (field_proto "street" text no_field_protos)))
          (field_proto "tag" (entity_proto (schema_proto [] no_field_protos)) no_field_protos))))

abbrev street : AccessPathSelectors
street = record { reverse_selectors = "street" ∷ "home" ∷ [] }

access_paths-person :
    access_paths person
    ≡ record { reverse_selectors = "name" ∷ [] }
      ∷ street
      ∷ record { reverse_selectors = "tag" ∷ [] }
      ∷ []
unfolding access_paths
access_paths-person = refl

path_to_string-street : path_to_string street ≡ ".home.street"
unfolding path_to_string join_with
path_to_string-street = refl

encode-person : encode person ≡ ok person_proto
unfolding encode contains
encode-person = refl

-- Two names of a schema are fatal.
decode-two_names :
    decode (record { schemas = [] }) (entity_proto (schema_proto ("A" ∷ "B" ∷ []) no_field_protos))
    ≡ fatal
unfolding decode
decode-two_names = refl

abbrev no_schemas : TypeFactory
no_schemas = record { schemas = [] }

decode-encode_example :
    decode no_schemas person_proto ≡ ok (record { schemas = schemas_of person }, person)
decode-encode_example = decode-encode person person_proto no_schemas encode-person

access_paths-iff_IsPath_example :
    IsAmong street (access_paths person) ↔ IsPath person (selectors street)
access_paths-iff_IsPath_example = access_paths-iff_IsPath person street
