-- ===== src/Ir/Types.antt =====
-- src/ir/types: the types of the IR, their factory, and their protocol buffers.
pub mod RoundTrip
pub mod Paths
pub mod PathSets
use mathlib.Core.List.{reverse}
use raksha.Common.{
  ℕ, String, List, [], ◌∷◌, ◌++◌, Option, none, some, Outcome, ok, fatal, ◌>>=◌, ◌>>◌, check, leb,
  length, map, not, string_eq, list_eq, if◌then◌else◌, ◌<>◌, Bool, Eq, ◌≡◌, true, ◌==◌, ◌↔◌, ap,
}
use raksha.Common.Sets.{contains, union, insert}
use raksha.Common.Text.{join_with}

-- The fields of a schema have distinct names.
mutual
  pub data IrType : Type 0 where
    primitive : IrType
    entity : Schema → IrType

  pub data Schema : Type 0 where
    schema : Option String → Fields → Schema

  pub data Fields : Type 0 where
    no_fields : Fields
    field : String → IrType → Fields → Fields

pub record TypeFactory : Type 0 where
  pub schemas : List Schema

abbrev pub make_primitive_type : IrType
make_primitive_type = primitive

abbrev pub make_entity_type : Schema → IrType
make_entity_type s = entity s

unfoldable pub register_schema : TypeFactory → Option String → Fields → TypeFactory × Schema
register_schema f name fields =
    (record { schemas = f.schemas ++ schema name fields ∷ [] }, schema name fields)

-- `Selector` and `FieldSelector`: the name of a field.
abbrev pub Selector : Type 0
Selector = String

unfoldable pub selector_to_string : Selector → String
selector_to_string field_name = "." <> field_name

-- The child comes before its parent.
pub record AccessPathSelectors : Type 0 where
  pub reverse_selectors : List Selector

abbrev pub leaf_path : Selector → AccessPathSelectors
leaf_path leaf = record { reverse_selectors = leaf ∷ [] }

abbrev pub empty_path : AccessPathSelectors
empty_path = record { reverse_selectors = [] }

unfoldable pub add_parent : Selector → AccessPathSelectors → AccessPathSelectors
add_parent parent child = record { reverse_selectors = child.reverse_selectors ++ parent ∷ [] }

-- From `begin` to `end`.
unfoldable pub selectors : AccessPathSelectors → List Selector
selectors path = reverse path.reverse_selectors

unfoldable pub path_to_string : AccessPathSelectors → String
unfolding selectors selector_to_string
path_to_string path = join_with "" (map selector_to_string (selectors path))

unfoldable pub path_beq : AccessPathSelectors → AccessPathSelectors → Bool
path_beq path other = path.reverse_selectors == other.reverse_selectors

pub path_beq_iff :
    (path other : AccessPathSelectors) → (path_beq path other ≡ true) ↔ (path ≡ other)
unfolding path_beq
path_beq_iff path other =
    let both = list_eq.beq_iff path.reverse_selectors other.reverse_selectors in
    (
      λ h. ap (λ l. record { reverse_selectors = l }) (both.0 h),
      λ h. both.1 (ap (λ p. p.reverse_selectors) h),
    )

instance unfoldable pub path_eq : Eq AccessPathSelectors
unfolding path_beq
path_eq = record { beq = path_beq; beq_iff = path_beq_iff }

-- The vector of an `AccessPathSelectorsSet`.
abbrev pub AccessPathSelectorsSet : Type 0
AccessPathSelectorsSet = List AccessPathSelectors

unfoldable pub union_paths :
    AccessPathSelectorsSet → AccessPathSelectorsSet → AccessPathSelectorsSet
union_paths set1 set2 = set1 ++ set2

unfoldable pub add_parent_to_all : Selector → AccessPathSelectorsSet → AccessPathSelectorsSet
unfolding add_parent
add_parent_to_all parent child_set = map (add_parent parent) child_set

unfoldable pub create_absl_set : AccessPathSelectorsSet → List AccessPathSelectors
unfolding path_eq
create_absl_set original_set = union [] original_set

unfoldable pub intersect : AccessPathSelectorsSet → AccessPathSelectorsSet → AccessPathSelectorsSet
unfolding create_absl_set
intersect set1 [] = []
intersect set1 (path ∷ set2) =
    let rest = intersect set1 set2 in
    if contains (create_absl_set set1) path then path ∷ rest else rest

-- `GetAccessPathSelectorsSet` of a type, of a schema, and the loop over its fields.
unfoldable mutual
  unfolding union_paths add_parent_to_all

  pub access_paths : IrType → AccessPathSelectorsSet
  access_paths primitive = empty_path ∷ []
  access_paths (entity s) = schema_access_paths s

  pub schema_access_paths : Schema → AccessPathSelectorsSet
  schema_access_paths (schema name no_fields) = empty_path ∷ []
  schema_access_paths (schema name (field n t fs)) = field_access_paths (field n t fs) []

  pub field_access_paths : Fields → AccessPathSelectorsSet → AccessPathSelectorsSet
  field_access_paths no_fields result = result
  field_access_paths (field n t fs) result =
      field_access_paths fs (union_paths result (add_parent_to_all n (access_paths t)))

-- The messages of raksha_type.proto.
mutual
  pub data TypeProto : Type 0 where
    data_not_set text entity_without_schema : TypeProto
    entity_proto : SchemaProto → TypeProto

  pub data SchemaProto : Type 0 where
    schema_proto : List String → FieldProtos → SchemaProto

  pub data FieldProtos : Type 0 where
    no_field_protos : FieldProtos
    field_proto : String → TypeProto → FieldProtos → FieldProtos

-- The first of at most one name.
abbrev pub schema_name : List String → Option String
schema_name [] = none
schema_name (name ∷ names) = some name

-- A field that is there already keeps its type.
unfoldable mutual
  unfolding register_schema

  pub decode : TypeFactory → TypeProto → Outcome (TypeFactory × IrType)
  decode f data_not_set = fatal
  decode f text = ok (f, make_primitive_type)
  decode f entity_without_schema = fatal
  decode f (entity_proto s) = decode_schema f s >>= λ r. ok (r.0, make_entity_type r.1)

  pub decode_schema : TypeFactory → SchemaProto → Outcome (TypeFactory × Schema)
  decode_schema f (schema_proto names fields) =
      check (leb (length names) 1) >> decode_fields f [] fields >>= λ r.
      ok (register_schema r.0 (schema_name names) r.1)

  pub decode_fields : TypeFactory → List String → FieldProtos → Outcome (TypeFactory × Fields)
  decode_fields f seen no_field_protos = ok (f, no_fields)
  decode_fields f seen (field_proto n p ps) = decode f p >>= λ r.
      decode_fields r.0 (seen ++ n ∷ []) ps >>= λ rest.
      ok (rest.0, if contains seen n then rest.1 else field n r.1 rest.1)

unfoldable mutual
  pub encode : IrType → Outcome TypeProto
  encode primitive = ok text
  encode (entity s) = encode_schema s >>= λ p. ok (entity_proto p)

  pub encode_schema : Schema → Outcome SchemaProto
  encode_schema (schema name fields) = encode_fields [] fields >>= λ ps.
      ok (schema_proto (elim name [ none ↦ [] | some n ↦ n ∷ [] ]) ps)

  pub encode_fields : List String → Fields → Outcome FieldProtos
  encode_fields seen no_fields = ok no_field_protos
  encode_fields seen (field n t fs) = encode t >>= λ p.
      check (not (contains seen n)) >> encode_fields (seen ++ n ∷ []) fs >>= λ ps.
      ok (field_proto n p ps)
