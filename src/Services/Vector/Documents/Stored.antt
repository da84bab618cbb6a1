-- ===== src/Services/Vector/Documents/Stored.antt =====
-- What is stored of an entity, and shown again.
use xvector.Prelude.{
  String, ◌≡◌, refl, sym, ap, ◌∙◌, inl, inr, Bool, true, false, Option, none, some, [], ◌∷◌, ◌==◌,
  eq_iff, if◌then◌else◌, Bool-cases, subst,
}
use xvector.Errors.{ok, bind-ok, ok-eq}
use xvector.Dict.{get, set}
use xvector.Dict.Laws.{get-set}
use xvector.Json.{Json, Doc}
use xvector.Pk.Ids.{from_internal_id, to_internal_id}
use xvector.Services.Vector.Entities.{Found, restricted, vector_values, with_fields, item_to_entity}
use xvector.Services.Vector.Documents.{
  Layout, Document, is_vector_name, is_scalar_name, with_pk, pk_value, entity_to_doc,
}

-- no key of a dict twice
pub data HasKeysOnce : Doc → Type 0 where
  no_keys : HasKeysOnce []
  new_key :
      {k : String} {v : Json} {d : Doc} → get d k ≡ none → HasKeysOnce d → HasKeysOnce ((k, v) ∷ d)

pub not_same :
    (keep : String → Bool) (j k : String) → keep j ≡ false → keep k ≡ true → (j == k) ≡ false
not_same keep j k h n = elim (Bool-cases (j == k)) [
  | inl same ↦ let e : j ≡ k = (eq_iff j k).0 same in let f = ap keep e in cc
  | inr other ↦ other
]

pub get-restricted :
    (keep : String → Bool) (d : Doc) (k : String)
    → keep k ≡ true
    → get (restricted keep d) k ≡ get d k
unfolding get restricted
get-restricted keep [] k h = refl
get-restricted keep ((j, v) ∷ d) k h = elim (Bool-cases (keep j)) [
  | inl kept ↦ rw (kept, get-restricted keep d k h)
  | inr left ↦ rw (left, not_same keep j k left h, get-restricted keep d k h)
]

pub get-restricted_absent :
    (keep : String → Bool) (d : Doc) (k : String)
    → get d k ≡ none
    → get (restricted keep d) k ≡ none
unfolding get restricted
get-restricted_absent keep [] k h = refl
get-restricted_absent keep ((j, v) ∷ d) k h = elim (Bool-cases (j == k)) [
  | inl same ↦ let e = rw same at h in cc
  | inr other ↦ elim (Bool-cases (keep j)) [
    | inl kept ↦ rw (kept, other, get-restricted_absent keep d k (rw other at h))
    | inr left ↦ rw (left, get-restricted_absent keep d k (rw other at h))
  ]
]

pub restricted-HasKeysOnce :
    (keep : String → Bool) (d : Doc) → HasKeysOnce d → HasKeysOnce (restricted keep d)
unfolding restricted
restricted-HasKeysOnce keep [] h = no_keys
restricted-HasKeysOnce keep ((j, v) ∷ d) (new_key n h) =
    let rest = restricted-HasKeysOnce keep d h in
    elim (keep j)
      as (λ b. HasKeysOnce (if b then (j, v) ∷ restricted keep d else restricted keep d)) [
        | true ↦ new_key (get-restricted_absent keep d j n) rest
        | false ↦ rest
      ]

pub vector_values-other :
    (normalize : Json → Json) (vs e : Doc) (k : String)
    → get vs k ≡ none
    → get (vector_values normalize e vs) k ≡ get e k
unfolding get vector_values
vector_values-other normalize [] e k h = refl
vector_values-other normalize ((j, v) ∷ vs) e k h = elim (Bool-cases (j == k)) [
  | inl same ↦ let e = rw same at h in cc
  | inr other ↦
      vector_values-other normalize vs (set e j (normalize v)) k (rw other at h)
      ∙ get-set e j k (normalize v)
      ∙ rw other
]

option_eq : {v w : Json} → Path (Option Json) (some v) (some w) → v ≡ w
option_eq h = cc

first_value :
    (normalize : Json → Json) (j k : String) (w v : Json)
    → (j == k) ≡ true
    → (o q : Option Json) → (if j == k then some w else o) ≡ some v
    → (if j == k then some (normalize w) else q) ≡ some (normalize v)
first_value normalize j k w v same o q h = let e = rw same at h in rw (same, option_eq e)

vector_values-get :
    (normalize : Json → Json) (vs e : Doc) (k : String) (v : Json)
    → HasKeysOnce vs
    → get vs k ≡ some v
    → get (vector_values normalize e vs) k ≡ some (normalize v)
unfolding get vector_values
vector_values-get normalize [] e k v o h = cc
vector_values-get normalize ((j, w) ∷ vs) e k v (new_key n o) h = elim (Bool-cases (j == k)) [
  | inl same ↦
      vector_values-other normalize vs (set e j (normalize w)) k
        (subst (λ i. get vs i ≡ none) ((eq_iff j k).0 same) n)
      ∙ get-set e j k (normalize w)
      ∙ first_value normalize j k w v same (get vs k) (get e k) h
  | inr other ↦ vector_values-get normalize vs (set e j (normalize w)) k v o (rw other at h)
]

-- a document as a query or a fetch finds it
abbrev pub found : Document → Json → Found
found d score = record { id = d.id; fields = d.fields; vectors = d.vectors; score = score }

pub entity_to_doc-vectors :
    (repr : Json → String) (dumps : Doc → String) (meta : Layout) (drawn : Json) (entity : Doc)
    {d : Document} {key : Json}
    → entity_to_doc repr dumps meta drawn entity ≡ ok (d, key)
    → d.vectors ≡ restricted (is_vector_name meta) entity
unfolding entity_to_doc
entity_to_doc-vectors repr dumps meta drawn entity h =
    let v = bind-ok (pk_value meta drawn entity) _ h in
    let i = bind-ok (to_internal_id repr v.0 meta.pk_type) _ v.2 in
    let f = bind-ok (with_pk repr meta v.0 (restricted (is_scalar_name meta) entity)) _ i.2 in
    let x = bind-ok (from_internal_id i.0 meta.pk_type) _ f.2 in
    sym (ap (λ p. p.0.vectors) (ok-eq x.2))

pub item_to_entity-entity_to_doc :
    (repr : Json → String) (dumps : Doc → String) (loads : String → Option Json)
    (normalize : Json → Json) (meta : Layout) (drawn score : Json) (entity : Doc) (k : String)
    (v : Json) {d : Document} {key : Json} {shown : Doc}
    → HasKeysOnce entity
    → entity_to_doc repr dumps meta drawn entity ≡ ok (d, key)
    → item_to_entity loads normalize meta.pk_field meta.pk_type [] false (found d score) ≡ ok shown
    → is_vector_name meta k ≡ true
    → get entity k ≡ some v
    → get shown k ≡ some (normalize v)
unfolding item_to_entity
item_to_entity-entity_to_doc repr dumps loads normalize meta drawn score entity k v {d} o h s i g =
    let r = bind-ok (from_internal_id d.id meta.pk_type) _ s in
    let e = entity_to_doc-vectors repr dumps meta drawn entity h in
    let fields = with_fields loads (set ((meta.pk_field, r.0) ∷ []) "id" r.0) d.fields in
    ap (λ l. get l k) (sym (ok-eq r.2))
    ∙ ap (λ l. get (vector_values normalize fields l) k) e
    ∙ vector_values-get normalize (restricted (is_vector_name meta) entity) fields k v
        (restricted-HasKeysOnce (is_vector_name meta) entity o)
        (get-restricted (is_vector_name meta) entity k i ∙ g)
