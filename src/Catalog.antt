-- ===== src/Catalog.antt =====
-- tinyolap/src/catalog/schema.rs: the types of the columns and the schema of a table. A name is
-- the list of its bytes.
use tiny_olap.Base.{ℕ, List, [], ◌∷◌, Option, none, some, bytes_eq, if◌then◌else◌}

abbrev pub Name : Type 0
Name = List ℕ

pub data DataType : Type 0 where
  i8 i16 i32 i64 u8 u16 u32 u64 f32 f64 bool_type str_type : DataType

unfoldable pub type_tag : DataType → ℕ
type_tag i8 = 1
type_tag i16 = 2
type_tag i32 = 3
type_tag i64 = 4
type_tag u8 = 5
type_tag u16 = 6
type_tag u32 = 7
type_tag u64 = 8
type_tag f32 = 9
type_tag f64 = 10
type_tag bool_type = 11
type_tag str_type = 12

pub record ColumnSchema : Type 0 where
  pub name : Name
  pub data_type : DataType

pub record TableSchema : Type 0 where
  pub name : Name
  pub columns : List ColumnSchema
  pub sort_key : List ℕ

-- `columns.iter().find(|c| c.name == col)`.
unfoldable pub find_column : Name → List ColumnSchema → Option ColumnSchema
find_column col [] = none
find_column col (c ∷ cs) = if bytes_eq c.name col then some c else find_column col cs
