-- ===== src/Schema.antt =====
-- xvector/common/schema_map.py: the schema of a collection, as a request gives it, as the catalog
-- keeps it and as zvec gets it. The fields and the parameters in a request are dicts, or lists where
-- the code asks for one; the text of a list or a dict is the parameter `repr`.
pub mod Parse
pub mod Parsed
pub mod Columns
use xvector.Prelude.{
  ℕ, String, Bool, true, false, not, ◌&&◌, ◌||◌, Option, none, some, List, [], ◌∷◌, ◌++◌, map, ◌==◌,
  nat_beq, if◌then◌else◌,
}
use xvector.Prelude.Integers.{ℤ, negsuc}
use xvector.Errors.{Error, Result, ok, err, param, bind}
use xvector.Text.Upper.{upper, look_up}
use xvector.Text.Decimal.{decimal, int_str}
use xvector.Dict.{get}
use xvector.Json.{
  Json, null, bool, num, neg, str, arr, obj, Doc, get_value, or_else, truthy, is_text,
}
use xvector.Json.Reads.{field_of, value_at, either_at, int_of, param_at, list_at}
use xvector.Engine.Indexes.{IndexParam, to_zvec_index_param}
use xvector.Pk.Ids.{text_form}

abbrev pub dynamic_field : String
dynamic_field = "$_dynamic"

unfoldable pub numeric_types : ℕ → Option String
numeric_types n =
    if nat_beq n 5
    then some "Int64"
    else if nat_beq n 21
    then some "VarChar"
    else if nat_beq n 101
    then some "FloatVector"
    else if nat_beq n 100
    then some "BinaryVector"
    else if nat_beq n 104
    then some "SparseFloatVector"
    else if nat_beq n 4
    then some "Int32"
    else if nat_beq n 3
    then some "Int16"
    else if nat_beq n 2
    then some "Int8"
    else if nat_beq n 10
    then some "Float"
    else if nat_beq n 11
    then some "Double"
    else if nat_beq n 1
    then some "Bool"
    else none

unfoldable pub type_aliases : List (String × String)
type_aliases =
    ("INT64", "Int64")
    ∷ ("VARCHAR", "VarChar")
    ∷ ("FLOAT_VECTOR", "FloatVector")
    ∷ ("BINARY_VECTOR", "BinaryVector")
    ∷ ("SPARSE_FLOAT_VECTOR", "SparseFloatVector")
    ∷ ("BOOL", "Bool")
    ∷ ("INT8", "Int8")
    ∷ ("INT16", "Int16")
    ∷ ("INT32", "Int32")
    ∷ ("FLOAT", "Float")
    ∷ ("DOUBLE", "Double")
    ∷ ("JSON", "JSON")
    ∷ ("ARRAY", "Array")
    ∷ []

abbrev pub or_string : String → Option String → String
or_string s none = s
or_string s (some t) = t

-- mapping.get(n, str(n)); a bool is an int
abbrev pub type_number : ℕ → String
type_number n = or_string (decimal n) (numeric_types n)

-- aliases.get(s.upper(), s)
abbrev pub type_text : String → String
type_text s = or_string s (look_up (upper s) type_aliases)

unfoldable pub normalize_dtype : (Json → String) → Json → Result String
unfolding numeric_types decimal int_str upper look_up type_aliases text_form
normalize_dtype repr null = err param
normalize_dtype repr (num n) = ok (type_number n)
normalize_dtype repr (neg n) = ok (int_str (negsuc n))
normalize_dtype repr (bool true) = ok (type_number 1)
normalize_dtype repr (bool false) = ok (type_number 0)
normalize_dtype repr v = ok (type_text (text_form repr v))

-- a field of the catalog's schema
pub record ScalarField : Type 0 where
  pub name : Json
  pub data_type : String
  pub nullable : Bool

pub record VectorField : Type 0 where
  pub name : Json
  pub data_type : String
  pub dim : Option ℤ
  pub metric_type : Json

pub record Catalogued : Type 0 where
  pub auto_id : Bool
  pub primary_field : Json
  pub primary_type : String
  pub vector_fields : List VectorField
  pub scalar_fields : List ScalarField
  pub enable_dynamic_field : Bool

-- `_fname`
abbrev pub fname : Json → Json
fname f = or_else (value_at f "name") (either_at f "fieldName" "field_name")

abbrev pub dtype_of : Json → Json
dtype_of f = or_else (value_at f "data_type") (either_at f "dataType" "type")

abbrev pub is_primary : Json → Bool
is_primary f =
    truthy (or_else (value_at f "is_primary_key") (either_at f "isPrimaryKey" "isPrimary"))

-- a == b, for the names of fields, which are texts
abbrev pub same_name : Json → Json → Bool
same_name a (str s) = is_text a s
same_name a b = false

unfoldable pub vector_types : List String
vector_types =
    "FloatVector" ∷ "BinaryVector" ∷ "SparseFloatVector" ∷ "Float16Vector" ∷ "BFloat16Vector" ∷ []

unfoldable pub one_of : String → List String → Bool
one_of s [] = false
one_of s (t ∷ ts) = s == t || one_of s ts

abbrev pub is_vector : String → Bool
is_vector dtype = one_of dtype vector_types

-- [f for f in fields if ...]
unfoldable pub primaries : List Json → List Json
primaries [] = []
primaries (f ∷ fields) = let rest = primaries fields in if is_primary f then f ∷ rest else rest

-- the field that is the only one
abbrev pub only : List Json → Result Json
only (f ∷ []) = ok f
only _ = err param

-- v, unless it is None
abbrev pub or_none : Json → Json → Json
or_none null w = w
or_none v w = v

abbrev pub params_of : Json → Json
params_of f = or_else (value_at f "params") (either_at f "typeParams" "elementTypeParams")

abbrev pub dim_of : Json → Json
dim_of f =
    or_none (either_at f "dim" "dimension")
      (or_else (param_at (params_of f) "dim") (param_at (params_of f) "dimension"))

-- the dimension, which only a sparse vector may lack
unfoldable pub dimension : String → Json → Result (Option ℤ)
unfolding int_of
dimension dtype null = if dtype == "SparseFloatVector" then ok none else err param
dimension dtype v = bind (int_of v) λ n. ok (some n)

abbrev pub metric_of : Json → Json
metric_of f = or_else (value_at f "metric_type") (or_else (value_at f "metricType") (str "L2"))

abbrev pub nullable_value : Option Json → Bool
nullable_value none = true
nullable_value (some v) = truthy v

-- bool(f.get("nullable", True))
unfoldable pub nullable_of : Json → Bool
unfolding field_of
nullable_of (obj fs) = nullable_value (field_of "nullable" fs)
nullable_of v = true

-- the primary key as a field that filters can use
abbrev pub key_field : Json → String → ScalarField
key_field pk_name pk_type = record { name = pk_name; data_type = pk_type; nullable = false }

-- any(s.get("name") == pk for s in scalars)
unfoldable pub has_scalar : Json → List ScalarField → Bool
has_scalar pk [] = false
has_scalar pk (s ∷ scalars) = same_name s.name pk || has_scalar pk scalars

unfoldable pub ensure_pk_in_scalar_fields : Catalogued → Catalogued
unfolding has_scalar
ensure_pk_in_scalar_fields meta =
    if not (truthy meta.primary_field) || has_scalar meta.primary_field meta.scalar_fields
    then meta
    else record meta {
      scalar_fields = key_field meta.primary_field meta.primary_type ∷ meta.scalar_fields;
    }

-- the types of zvec's columns
pub data DataType : Type 0 where
  zbool int32 int64 float double string vector_fp32 : DataType

unfoldable pub to_zvec_scalar : String → DataType
to_zvec_scalar dtype =
    if dtype == "Bool"
    then zbool
    else if dtype == "Int8" || dtype == "Int16" || dtype == "Int32"
    then int32
    else if dtype == "Int64"
    then int64
    else if dtype == "Float"
    then float
    else if dtype == "Double"
    then double
    else string
