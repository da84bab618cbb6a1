-- ===== src/Examples/Schemas.antt =====
-- A collection with a key, a title and one vector, and an inverted file over that vector.
use xvector.Prelude.{String, ◌≡◌, refl, true, false, some, [], ◌∷◌}
use xvector.Prelude.Integers.{pos}
use xvector.Errors.{ok}
use xvector.Text.{strip, lstrip, rstrip, is_space}
use xvector.Text.Upper.{upper, upper_code, look_up, same_codes, equals_upper}
use xvector.Dict.{get}
use xvector.Json.{
  Json, null, bool, num, str, arr, obj, nil, cons, end, field, Doc, get_value, truthy, or_else,
  is_text,
}
use xvector.Json.Reads.{value_at, field_of, int_of, list_at, elements}
use xvector.Engine.Indexes.{
  l2, ip, flat_param, ivf_param, ivf_query, index_types, metrics, normalize_index_type,
  normalize_metric, Platform, index_param, query_param, to_zvec_index_param, to_zvec_query_param,
}
use xvector.Engine.Indexes.Agreement.{Agrees, family, query_family, query_family-family}
use xvector.Schema.{
  Catalogued, normalize_dtype, type_aliases, numeric_types, primaries, vector_types, one_of,
  dimension, nullable_of, to_zvec_scalar, int64, string,
}
use xvector.Schema.Parse.{parse_milvus_schema, columns, column, vectors_of, scalars_of}
use xvector.Schema.Parsed.{IsCatalogued, parse_milvus_schema-IsCatalogued}
use xvector.Schema.Columns.{
  CollectionSchema, IsBuilt, build_zvec_schema, scalar_columns, vector_columns, index_of,
  build_zvec_schema-IsBuilt,
}

abbrev no_text : Json → String
no_text v = ""

abbrev id_field : Json
id_field =
    obj
      (field "name" (str "id") (field "data_type" (num 5) (field "is_primary_key" (bool true) end)))

abbrev title_field : Json
title_field = obj (field "fieldName" (str "title") (field "dataType" (str "VarChar") end))

abbrev vector_field : Json
vector_field =
    obj (field "name" (str "v") (field "data_type" (str "FLOAT_VECTOR") (field "dim" (num 4) end)))

abbrev body : Doc
body =
    (
      "schema",
      obj (field "fields" (arr (cons id_field (cons title_field (cons vector_field nil)))) end),
    )
    ∷ []

abbrev catalogued_body : Catalogued
catalogued_body = record {
  auto_id = false;
  primary_field = str "id";
  primary_type = "Int64";
  vector_fields =
      record {
        name = str "v";
        data_type = "FloatVector";
        dim = some (pos 4);
        metric_type = str "L2";
      }
      ∷ [];
  scalar_fields =
      record { name = str "id"; data_type = "Int64"; nullable = false }
      ∷ record { name = str "title"; data_type = "VarChar"; nullable = true }
      ∷ [];
  enable_dynamic_field = false;
}

body_parsed : parse_milvus_schema no_text body ≡ ok catalogued_body
unfolding parse_milvus_schema primaries columns column vectors_of scalars_of normalize_dtype
    value_at field_of list_at elements get_value get dimension int_of nullable_of one_of
    vector_types truthy or_else is_text numeric_types type_aliases look_up upper upper_code
    same_codes
body_parsed = refl

parse_milvus_schema-IsCatalogued_example : IsCatalogued catalogued_body
parse_milvus_schema-IsCatalogued_example =
    parse_milvus_schema-IsCatalogued no_text body catalogued_body body_parsed

abbrev built : CollectionSchema
built = record {
  fields =
      record { name = str "id"; data_type = int64; nullable = false; inverted = true }
      ∷ record { name = str "title"; data_type = string; nullable = true; inverted = true }
      ∷ [];
  vectors = record { name = str "v"; size = pos 4; param = flat_param l2 } ∷ [];
}

abbrev platform : Platform
platform = record { linux = true; has_rabitq_query = false; has_int8 = true }

body_built : build_zvec_schema platform catalogued_body [] ≡ ok built
unfolding build_zvec_schema scalar_columns vector_columns index_of to_zvec_scalar
    to_zvec_index_param normalize_index_type normalize_metric index_param index_types metrics
    look_up upper upper_code same_codes equals_upper strip lstrip rstrip is_space truthy or_else
body_built = refl

build_zvec_schema-IsBuilt_example : IsBuilt catalogued_body built
build_zvec_schema-IsBuilt_example =
    build_zvec_schema-IsBuilt platform catalogued_body [] built body_built

abbrev search_params : Json
search_params = obj (field "nprobe" (num 8) end)

ivf_made : to_zvec_index_param platform "ivf-flat" "ip" null ≡ ok (ivf_param ip (pos 128) false)
unfolding to_zvec_index_param normalize_index_type normalize_metric index_param index_types metrics
    look_up upper upper_code same_codes equals_upper strip lstrip rstrip is_space truthy or_else
    int_of value_at
ivf_made = refl

ivf_asked :
    to_zvec_query_param platform (some "ivf-flat") search_params ≡ ok (some (ivf_query (pos 8)))
unfolding to_zvec_query_param normalize_index_type query_param index_types look_up upper upper_code
    same_codes equals_upper strip lstrip rstrip is_space truthy or_else int_of value_at field_of
ivf_asked = refl

query_family-family_example :
    Agrees platform (query_family (ivf_query (pos 8))) (family (ivf_param ip (pos 128) false))
query_family-family_example =
    query_family-family platform "ivf-flat" "ip" null search_params ivf_made ivf_asked
