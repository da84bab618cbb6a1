-- ===== src/Schema/Columns.antt =====
-- `build_zvec_schema` of xvector/common/schema_map.py: the columns and the vectors of a collection
-- of zvec. The entries of an index are texts where they are there.
use xvector.Prelude.{
  ◌≡◌, refl, sym, ap, ◌∙◌, ap₂, subst, String, Bool, true, false, Option, none, some, List, [], ◌∷◌,
  ◌++◌, map, if◌then◌else◌,
}
use xvector.Prelude.Integers.{ℤ}
use xvector.Errors.{Result, ok, err, type_error, bind, bind-ok, ok-eq}
use xvector.Json.{Json, null, str, Doc, get_value, or_else}
use xvector.Meta.Catalog.{text_of}
use xvector.Engine.Indexes.{Platform, IndexParam, to_zvec_index_param}
use xvector.Schema.{
  dynamic_field, ScalarField, VectorField, Catalogued, same_name, DataType, string, to_zvec_scalar,
}

pub record ScalarColumn : Type 0 where
  pub name : Json
  pub data_type : DataType
  pub nullable : Bool
  -- whether it has an inverted index
  pub inverted : Bool

pub record VectorColumn : Type 0 where
  pub name : Json
  pub size : ℤ
  pub param : IndexParam

abbrev pub scalar_column : ScalarField → ScalarColumn
scalar_column s = record {
  name = s.name;
  data_type = to_zvec_scalar s.data_type;
  nullable = s.nullable;
  inverted = true;
}

abbrev pub dynamic_column : ScalarColumn
dynamic_column = record {
  name = str dynamic_field;
  data_type = string;
  nullable = true;
  inverted = false;
}

unfoldable pub scalar_columns : Catalogued → List ScalarColumn
unfolding to_zvec_scalar
scalar_columns c =
    map scalar_column c.scalar_fields
    ++ (if c.enable_dynamic_field then dynamic_column ∷ [] else [])

-- index_by_field.get(name): the last index of the field
unfoldable pub index_of : Json → List Doc → Option Doc → Option Doc
unfolding get_value
index_of name [] found = found
index_of name (i ∷ indexes) found =
    index_of name indexes (if same_name (get_value i "field_name") name then some i else found)

abbrev pub metric_or : Json → String
metric_or v = text_of (or_else v (str "L2"))

abbrev pub param_for : Platform → VectorField → Option Doc → Result IndexParam
param_for platform v none = to_zvec_index_param platform "FLAT" (metric_or v.metric_type) null
param_for platform v (some i) =
    to_zvec_index_param platform (text_of (get_value i "index_type"))
      (metric_or (or_else (get_value i "metric_type") v.metric_type)) (get_value i "params")

-- int(vf["dim"]), where None has no number
abbrev pub dim_number : Option ℤ → Result ℤ
dim_number none = err type_error
dim_number (some n) = ok n

abbrev pub vector_column : Platform → List Doc → VectorField → Result VectorColumn
vector_column platform indexes v =
    bind (param_for platform v (index_of v.name indexes none))
      λ p. bind (dim_number v.dim) λ n. ok (record { name = v.name; size = n; param = p })

unfoldable pub vector_columns : Platform → List Doc → List VectorField → Result (List VectorColumn)
unfolding to_zvec_index_param index_of get_value
vector_columns platform indexes [] = ok []
vector_columns platform indexes (v ∷ vs) =
    bind (vector_column platform indexes v)
      λ c. bind (vector_columns platform indexes vs) λ cs. ok (c ∷ cs)

pub record CollectionSchema : Type 0 where
  pub fields : List ScalarColumn
  pub vectors : List VectorColumn

unfoldable pub build_zvec_schema : Platform → Catalogued → List Doc → Result CollectionSchema
unfolding scalar_columns vector_columns
build_zvec_schema platform c indexes =
    bind (vector_columns platform indexes c.vector_fields)
      λ vectors. ok (record { fields = scalar_columns c; vectors = vectors })

-- the names and the dimensions of vectors, and the names of scalars
abbrev pub sized : VectorColumn → Json × Option ℤ
sized c = (c.name, some c.size)

abbrev pub declared : VectorField → Json × Option ℤ
declared v = (v.name, v.dim)

abbrev pub scalar_names : Catalogued → List Json
scalar_names c =
    map (λ f. f.name) c.scalar_fields
    ++ (if c.enable_dynamic_field then str dynamic_field ∷ [] else [])

-- The columns stand for the fields of the catalog, in their order, and a vector has its dimension.
pub record IsBuilt (c : Catalogued) (s : CollectionSchema) : Type 0 where
  pub scalars : map (λ f. f.name) s.fields ≡ scalar_names c
  pub vectors : map sized s.vectors ≡ map declared c.vector_fields

dim_number-eq : (d : Option ℤ) {n : ℤ} → dim_number d ≡ ok n → d ≡ some n
dim_number-eq none h = cc
dim_number-eq (some m) h = ap some (ok-eq h)

column_sized :
    (platform : Platform) (indexes : List Doc) (v : VectorField) (c : VectorColumn)
    → vector_column platform indexes v ≡ ok c
    → sized c ≡ declared v
column_sized platform indexes v c h =
    let (p, e, k) = bind-ok (param_for platform v (index_of v.name indexes none)) _ h in
    let (n, d, k) = bind-ok (dim_number v.dim) _ k in
    let same : v.dim ≡ some n = dim_number-eq v.dim d in
    ap sized (sym (ok-eq k)) ∙ ap (λ o. (v.name, o)) (sym same)

columns_sized :
    (platform : Platform) (indexes : List Doc) (vs : List VectorField) (cs : List VectorColumn)
    → vector_columns platform indexes vs ≡ ok cs
    → map sized cs ≡ map declared vs
unfolding vector_columns
columns_sized platform indexes [] cs h = ap (map sized) (sym (ok-eq h))
columns_sized platform indexes (v ∷ vs) cs h =
    let (c, e, k) = bind-ok (vector_column platform indexes v) _ h in
    let (rest, d, k) = bind-ok (vector_columns platform indexes vs) _ k in
    ap (map sized) (sym (ok-eq k))
    ∙ ap₂ ◌∷◌ (column_sized platform indexes v c e) (columns_sized platform indexes vs rest d)

scalar_columns-names : (c : Catalogued) → map (λ f. f.name) (scalar_columns c) ≡ scalar_names c
unfolding scalar_columns
scalar_columns-names c = named c.scalar_fields c.enable_dynamic_field
  where
    named :
        (fs : List ScalarField) (b : Bool)
        → map (λ f. f.name) (map scalar_column fs ++ (if b then dynamic_column ∷ [] else []))
          ≡ map (λ f. f.name) fs ++ (if b then str dynamic_field ∷ [] else [])
    named [] true = refl
    named [] false = refl
    named (f ∷ fs) b = ap (λ l. f.name ∷ l) (named fs b)

-- A schema that is built for zvec has a column for every scalar field, and one for the dynamic
-- values where these are enabled, and for every vector field a vector of its dimension, so that
-- there is none for a vector field without one.
pub build_zvec_schema-IsBuilt :
    (platform : Platform) (c : Catalogued) (indexes : List Doc) (s : CollectionSchema)
    → build_zvec_schema platform c indexes ≡ ok s
    → IsBuilt c s
unfolding build_zvec_schema
build_zvec_schema-IsBuilt platform c indexes s h =
    let (vectors, e, k) = bind-ok (vector_columns platform indexes c.vector_fields) _ h in
    subst (IsBuilt c) (ok-eq k) (record {
      scalars = scalar_columns-names c;
      vectors = columns_sized platform indexes c.vector_fields vectors e;
    })
