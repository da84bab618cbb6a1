-- ===== src/Schema/Parse.antt =====
-- `parse_milvus_schema` of xvector/common/schema_map.py.
use xvector.Prelude.{String, Bool, not, ◌||◌, List, [], ◌∷◌, ◌==◌, if◌then◌else◌}
use xvector.Errors.{Result, ok, err, param, bind}
use xvector.Json.{Json, Doc, get_value, or_else, truthy}
use xvector.Json.Reads.{value_at, either_at, list_at, param_at}
use xvector.Schema.{
  ScalarField, VectorField, Catalogued, normalize_dtype, fname, dtype_of, same_name, vector_types,
  one_of, is_vector, primaries, only, dim_of, dimension, metric_of, nullable_of, key_field,
}

-- what a field of the request becomes
pub data Column : Type 0 where
  vector : VectorField → Column
  key_column : Column
  scalar : ScalarField → Column

abbrev pub vector_column : Json → String → Result Column
vector_column f dtype = bind (dimension dtype (dim_of f)) λ dim.
    ok (vector (record { name = fname f; data_type = dtype; dim = dim; metric_type = metric_of f }))

abbrev pub scalar_column : Json → String → Column
scalar_column f dtype =
    scalar (record { name = fname f; data_type = dtype; nullable = nullable_of f })

abbrev pub typed_column : Json → Json → String → Result Column
typed_column pk_name f dtype =
    if not (truthy (fname f))
    then err param
    else if is_vector dtype
    then vector_column f dtype
    else ok (if same_name (fname f) pk_name then key_column else scalar_column f dtype)

unfoldable pub column : (Json → String) → Json → Json → Result Column
unfolding normalize_dtype value_at dimension param_at nullable_of one_of vector_types
column repr pk_name f = bind (normalize_dtype repr (dtype_of f)) (typed_column pk_name f)

-- for f in fields
unfoldable pub columns : (Json → String) → Json → List Json → Result (List Column)
unfolding column
columns repr pk_name [] = ok []
columns repr pk_name (f ∷ fields) =
    bind (column repr pk_name f) λ c. bind (columns repr pk_name fields) λ cs. ok (c ∷ cs)

unfoldable pub vectors_of : List Column → List VectorField
vectors_of [] = []
vectors_of (vector v ∷ cs) = v ∷ vectors_of cs
vectors_of (c ∷ cs) = vectors_of cs

unfoldable pub scalars_of : List Column → List ScalarField
scalars_of [] = []
scalars_of (scalar s ∷ cs) = s ∷ scalars_of cs
scalars_of (c ∷ cs) = scalars_of cs

abbrev pub schema_of : Doc → Json
schema_of body = get_value body "schema"

abbrev pub fields_of : Doc → List Json
fields_of body = list_at (or_else (value_at (schema_of body) "fields") (get_value body "fields"))

abbrev pub auto_id_of : Json → Doc → Bool
auto_id_of pk body =
    truthy (either_at pk "auto_id" "autoID")
    || truthy (value_at (schema_of body) "autoID")
    || truthy (get_value body "autoID")

abbrev pub dynamic_of : Doc → Bool
dynamic_of body =
    truthy (either_at (schema_of body) "enable_dynamic_field" "enableDynamicField")
    || truthy (get_value body "enableDynamicField")

abbrev pub catalogued : Bool → Bool → Json → String → List Column → Catalogued
catalogued auto_id dynamic pk_name pk_type cs = record {
  auto_id = auto_id;
  primary_field = pk_name;
  primary_type = pk_type;
  vector_fields = vectors_of cs;
  scalar_fields = key_field pk_name pk_type ∷ scalars_of cs;
  enable_dynamic_field = dynamic;
}

-- if not vector_fields: raise
abbrev pub with_vectors : Catalogued → List VectorField → Result Catalogued
with_vectors c [] = err param
with_vectors c (v ∷ vs) = ok c

abbrev pub key_type : String → Result String
key_type t = if t == "Int64" || t == "VarChar" then ok t else err param

-- The entries that are copied from the request are left out of the result.
unfoldable pub parse_milvus_schema : (Json → String) → Doc → Result Catalogued
unfolding primaries columns vectors_of scalars_of normalize_dtype value_at list_at get_value
parse_milvus_schema repr body = bind (only (primaries (fields_of body))) λ pk.
    bind (normalize_dtype repr (dtype_of pk)) λ dtype. bind (key_type dtype) λ pk_type.
      bind (columns repr (fname pk) (fields_of body)) λ cs.
        with_vectors (catalogued (auto_id_of pk body) (dynamic_of body) (fname pk) pk_type cs)
          (vectors_of cs)
