-- ===== src/Ir/Attributes.antt =====
-- src/ir/attributes: the attributes of operations.
use raksha.Common.{ℕ, String, Option, none, some, List}

-- `negsuc n` is -(n + 1).
pub data ℤ : Type 0 where
  pos negsuc : ℕ → ℤ

-- A `double` stands as its bit pattern, since the code only stores it.
pub data Attribute : Type 0 where
  int64_attribute : ℤ → Attribute
  string_attribute : String → Attribute
  float_attribute : ℕ → Attribute

abbrev pub NamedAttributeMap : Type 0
NamedAttributeMap = List (String × Attribute)

-- `GetIf<Int64Attribute>`
unfoldable pub get_if_int64 : Attribute → Option ℤ
get_if_int64 (int64_attribute i) = some i
get_if_int64 (string_attribute _) = none
get_if_int64 (float_attribute _) = none

-- `GetIf<StringAttribute>`
unfoldable pub get_if_string : Attribute → Option String
get_if_string (string_attribute s) = some s
get_if_string (int64_attribute _) = none
get_if_string (float_attribute _) = none
