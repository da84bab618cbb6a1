-- ===== src/Services/Vector/Documents/Scalars.antt =====
-- The scalar fields of an entity that is stored, and shown again.
use xvector.Prelude.{String, ◌≡◌, sym, ap, ◌∙◌, true, false, Option, some, [], ◌∷◌, ◌==◌, arith}
use xvector.Errors.{ok, bind-ok, ok-eq}
use xvector.Dict.{get, set}
use xvector.Json.{Json, obj, Doc}
use xvector.Meta.Catalog.{mem}
use xvector.Schema.{dynamic_field}
use xvector.Services.Vector.Entities.{restricted, with_fields, item_to_entity}
use xvector.Services.Vector.Documents.{
  with_dynamic, with_pk, pk_value, Layout, Document, entity_to_doc, is_scalar_name, is_vector_name,
  is_dynamic_name,
}
use xvector.Pk.Ids.{to_internal_id, from_internal_id}
use xvector.Services.Vector.Documents.Stored.{
  HasKeysOnce, get-restricted, not_same, restricted-HasKeysOnce, vector_values-other,
  entity_to_doc-vectors, found, item_to_entity-entity_to_doc,
}
use xvector.Services.Vector.Documents.Fields.{
  as_fields, get-restricted_left, All-restricted, different, with_fields-get, Spares-plain,
  with_dynamic-Spares, with_dynamic-HasKeysOnce, with_dynamic-get, with_pk-HasKeysOnce, with_pk-All,
  with_pk-get,
}

scalar_name-parts :
    (meta : Layout) (k : String)
    → is_scalar_name meta k ≡ true
    → (mem k meta.scalar_names ≡ true)
      × ((meta.pk_field == k) ≡ false)
      × (is_vector_name meta k ≡ false)
      × (is_dynamic_name meta k ≡ false)
scalar_name-parts meta k h = (
  ground (arith, h),
  different k meta.pk_field (ground (arith, h)),
  ground (arith, h),
  ground (arith, h),
)

module _ (repr : Json → String) (dumps : Doc → String) (loads : String → Option Json)
    (normalize : Json → Json) (meta : Layout) (drawn score : Json) (entity : Doc) where
  entity_to_doc-fields :
      {d : Document} {key : Json}
      → entity_to_doc repr dumps meta drawn entity ≡ ok (d, key)
      → (v : Json) × (fields : Doc) × (with_pk repr meta v (restricted (is_scalar_name meta) entity)
          ≡ ok fields)
        × (d.fields ≡ with_dynamic dumps (restricted (is_dynamic_name meta) entity) fields)
  unfolding entity_to_doc
  entity_to_doc-fields h =
      let v = bind-ok (pk_value meta drawn entity) _ h in
      let i = bind-ok (to_internal_id repr v.0 meta.pk_type) _ v.2 in
      let f = bind-ok (with_pk repr meta v.0 (restricted (is_scalar_name meta) entity)) _ i.2 in
      let x = bind-ok (from_internal_id i.0 meta.pk_type) _ f.2 in
      (v.0, f.0, f.1, sym (ap (λ p. p.0.fields) (ok-eq x.2)))

  -- the field of the stored fields in the entity that they are shown by
  fields_shown :
      (k : String) (v : Json) (base : Doc) (pk : Json) (fields : Doc)
      → (loads (dumps (restricted (is_dynamic_name meta) entity))
          ≡ some (obj (as_fields (restricted (is_dynamic_name meta) entity))))
      → mem dynamic_field meta.scalar_names ≡ false
      → (meta.pk_field == dynamic_field) ≡ false
      → HasKeysOnce entity
      → with_pk repr meta pk (restricted (is_scalar_name meta) entity) ≡ ok fields
      → is_scalar_name meta k ≡ true
      → get entity k ≡ some v
      → get
          (with_fields loads base
            (with_dynamic dumps (restricted (is_dynamic_name meta) entity) fields))
          k
        ≡ some v
  fields_shown k v base pk fields l m p o w i g =
      let c = scalar_name-parts meta k i in
      let n = not_same (λ j. mem j meta.scalar_names) dynamic_field k m c.0 in
      let dyn = restricted (is_dynamic_name meta) entity in
      let plain = restricted (is_scalar_name meta) entity in
      with_fields-get loads (with_dynamic dumps dyn fields) base k v
        (with_dynamic-Spares loads dumps k dyn fields l n
          (get-restricted_left (is_dynamic_name meta) entity k c.3)
          (with_pk-All repr meta pk plain w (λ x. Spares-plain loads k meta.pk_field x p)
            (All-restricted (is_scalar_name meta) entity λ j x q. Spares-plain loads k j x (
              different dynamic_field j (
                not_same (λ y. mem y meta.scalar_names) dynamic_field j m
                  (scalar_name-parts meta j q).0)))))
        (with_dynamic-HasKeysOnce dumps dyn fields (
          with_pk-HasKeysOnce repr meta pk plain w
            (restricted-HasKeysOnce (is_scalar_name meta) entity o)))
        (with_dynamic-get dumps k dyn fields n
          ∙ with_pk-get repr meta pk plain k w c.1
          ∙ get-restricted (is_scalar_name meta) entity k i
          ∙ g)

  item_to_entity-scalar :
      (k : String) (v : Json) {d : Document} {key : Json} {shown : Doc}
      → (loads (dumps (restricted (is_dynamic_name meta) entity))
          ≡ some (obj (as_fields (restricted (is_dynamic_name meta) entity))))
      → mem dynamic_field meta.scalar_names ≡ false
      → (meta.pk_field == dynamic_field) ≡ false
      → HasKeysOnce entity
      → entity_to_doc repr dumps meta drawn entity ≡ ok (d, key)
      → item_to_entity loads normalize meta.pk_field meta.pk_type [] false (found d score)
        ≡ ok shown
      → is_scalar_name meta k ≡ true
      → get entity k ≡ some v
      → get shown k ≡ some v
  unfolding item_to_entity
  item_to_entity-scalar k v {d} l m p o h s i g =
      let r = bind-ok (from_internal_id d.id meta.pk_type) _ s in
      let base = set ((meta.pk_field, r.0) ∷ []) "id" r.0 in
      let c = scalar_name-parts meta k i in
      let f = entity_to_doc-fields h in
      ap (λ e. get e k) (sym (ok-eq r.2))
      ∙ vector_values-other normalize d.vectors (with_fields loads base d.fields) k (
          ap (λ e. get e k) (entity_to_doc-vectors repr dumps meta drawn entity h)
          ∙ get-restricted_left (is_vector_name meta) entity k c.2)
      ∙ ap (λ e. get (with_fields loads base e) k) f.3
      ∙ fields_shown k v base f.0 f.1 l m p o f.2 i g

-- the values of the vector and the scalar fields of an entity in the one that is shown
pub record Shows (normalize : Json → Json) (meta : Layout) (entity shown : Doc) : Type 0 where
  pub vector :
      (k : String) (v : Json)
      → is_vector_name meta k ≡ true
      → get entity k ≡ some v
      → get shown k ≡ some (normalize v)
  pub scalar :
      (k : String) (v : Json)
      → is_scalar_name meta k ≡ true
      → get entity k ≡ some v
      → get shown k ≡ some v

-- Where the parser of JSON reads the dump of an entity's dynamic values as these values, and neither
-- a scalar field nor the primary key has the name that they are stored under, an entity that has no
-- key twice is shown with the value of every scalar field, and with the normal form of the value of
-- every vector field, when its document is shown without a score and a choice of fields.
pub item_to_entity-Shows :
    (repr : Json → String) (dumps : Doc → String) (loads : String → Option Json)
    (normalize : Json → Json) (meta : Layout) (drawn score : Json) (entity : Doc) {d : Document}
    {key : Json} {shown : Doc}
    → (loads (dumps (restricted (is_dynamic_name meta) entity))
        ≡ some (obj (as_fields (restricted (is_dynamic_name meta) entity))))
    → mem dynamic_field meta.scalar_names ≡ false
    → (meta.pk_field == dynamic_field) ≡ false
    → HasKeysOnce entity
    → entity_to_doc repr dumps meta drawn entity ≡ ok (d, key)
    → item_to_entity loads normalize meta.pk_field meta.pk_type [] false (found d score) ≡ ok shown
    → Shows normalize meta entity shown
item_to_entity-Shows repr dumps loads normalize meta drawn score entity l m p o h s = record {
  vector = λ k v.
      item_to_entity-entity_to_doc repr dumps loads normalize meta drawn score entity k v o h s;
  scalar = λ k v.
      item_to_entity-scalar repr dumps loads normalize meta drawn score entity k v l m p o h s;
}
