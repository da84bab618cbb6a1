-- ===== src/Services/Vector/Documents.antt =====
-- The entity of a request as a document of zvec: `_entity_to_doc` of xvector/services/vector.py. The
-- dump of the dynamic values, the text of a list or a dict and the drawn key are parameters.
pub mod Stored
pub mod Fields
pub mod Scalars
use xvector.Prelude.{
  String, Bool, true, false, not, ◌&&◌, ◌||◌, Option, none, some, List, [], ◌∷◌, ◌==◌,
  if◌then◌else◌,
}
use xvector.Text.{equals_lower}
use xvector.Errors.{Result, ok, err, param, bind}
use xvector.Dict.{get, set}
use xvector.Json.{Json, null, str, Doc, get_value}
use xvector.Meta.Catalog.{mem}
use xvector.Pk.Ids.{int_text, text_form, to_internal_id, from_internal_id, is_int64}
use xvector.Schema.{dynamic_field}
use xvector.Services.Vector.Entities.{restricted}

-- what the code reads of a collection's document
pub record Layout : Type 0 where
  pub pk_field : String
  pub pk_type : String
  pub auto_id : Bool
  pub vector_names : List String
  pub scalar_names : List String
  pub enable_dynamic : Bool

-- zvec.Doc
pub record Document : Type 0 where
  pub id : String
  pub fields : Doc
  pub vectors : Doc

-- if pk_val is None and "id" in entity and pk_field != "id"
abbrev pub pk_or_id : Layout → Doc → Json → Json
pk_or_id meta entity null =
    if not (meta.pk_field == "id") && equals_lower meta.pk_field "id"
    then get_value entity "id"
    else null
pk_or_id meta entity v = v

-- if pk_val is None
abbrev pub pk_or_drawn : Layout → Json → Json → Result Json
pk_or_drawn meta drawn null = if meta.auto_id then ok drawn else err param
pk_or_drawn meta drawn v = ok v

unfoldable pub pk_value : Layout → Json → Doc → Result Json
unfolding get_value get equals_lower
pk_value meta drawn entity =
    pk_or_drawn meta drawn (pk_or_id meta entity (get_value entity meta.pk_field))

abbrev pub is_vector_name : Layout → String → Bool
is_vector_name meta k = not (k == meta.pk_field) && mem k meta.vector_names

abbrev pub is_scalar_name : Layout → String → Bool
is_scalar_name meta k =
    not (k == meta.pk_field) && not (mem k meta.vector_names) && mem k meta.scalar_names

abbrev pub is_dynamic_name : Layout → String → Bool
is_dynamic_name meta k =
    not (k == meta.pk_field)
    && not (mem k meta.vector_names)
    && not (mem k meta.scalar_names)
    && meta.enable_dynamic

-- int(pk_val) or str(pk_val)
abbrev pub pk_column : (Json → String) → String → Json → Result Json
pk_column repr pk_type v =
    if is_int64 pk_type
    then bind (int_text v) (λ s. from_internal_id s pk_type)
    else ok (str (text_form repr v))

abbrev pub with_pk : (Json → String) → Layout → Json → Doc → Result Doc
with_pk repr meta v fields =
    if mem meta.pk_field meta.scalar_names
    then bind (pk_column repr meta.pk_type v) (λ w. ok (set fields meta.pk_field w))
    else ok fields

-- if dynamic
abbrev pub with_dynamic : (Doc → String) → Doc → Doc → Doc
with_dynamic dumps [] fields = fields
with_dynamic dumps (kv ∷ dynamic) fields = set fields dynamic_field (str (dumps (kv ∷ dynamic)))

-- the document, and the key that is answered
unfoldable pub entity_to_doc :
    (Json → String) → (Doc → String) → Layout → Json → Doc → Result (Document × Json)
unfolding pk_value restricted mem set to_internal_id from_internal_id int_text text_form
entity_to_doc repr dumps meta drawn entity = bind (pk_value meta drawn entity) λ v.
    bind (to_internal_id repr v meta.pk_type) λ doc_id.
      bind (with_pk repr meta v (restricted (is_scalar_name meta) entity)) λ fields.
        bind (from_internal_id doc_id meta.pk_type) λ external_id. ok (
          (
            record {
              id = doc_id;
              fields = with_dynamic dumps (restricted (is_dynamic_name meta) entity) fields;
              vectors = restricted (is_vector_name meta) entity;
            },
            external_id,
          ))
