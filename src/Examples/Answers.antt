-- ===== src/Examples/Answers.antt =====
-- A `get` over two partitions that both have the document a, the second also b, and an entity that is
-- stored and shown.
use xvector.Prelude.{
  true, String, ◌≡◌, refl, false, Option, none, some, [], ◌∷◌, ◌==◌, if◌then◌else◌,
}
use xvector.Errors.{Result, ok}
use xvector.Dict.{get}
use xvector.Json.{Json, null, num, str, obj, arr, cons, nil, field, end, Doc}
use xvector.Schema.{dynamic_field}
use xvector.Services.Vector.Entities.{
  Found, Item, object, Fetch, nothing, listed, keyed, fetch_to_entity, item_to_entity, with_fields,
  vector_values, restricted, update, fetch_ids, fetch_parts, get_entities,
}
use xvector.Services.Vector.Entities.Fetched.{IsAnswered, get_entities-IsAnswered}
use xvector.Meta.Catalog.{mem}
use xvector.Services.Vector.Documents.{Layout, Document, entity_to_doc}
use xvector.Services.Vector.Documents.Stored.{HasKeysOnce, no_keys, new_key, found}
use xvector.Services.Vector.Documents.Scalars.{Shows, item_to_entity-Shows}
use xvector.Services.Vector.Documents.Fields.{as_fields}

abbrev no_json : String → Option Json
no_json s = none

abbrev same_value : Json → Json
same_value v = v

abbrev shown : Found → Result Doc
shown = item_to_entity no_json same_value "key" "VarChar" [] false

abbrev no_text : Json → String
no_text v = ""

abbrev document : String → Json → Item
document i extra = object (some i) (("n", num 1) ∷ (dynamic_field, extra) ∷ []) [] null

-- the partition "left" has a, and "right" every id
abbrev half : String → Fetch no_text shown
half p i =
    if i == "a"
    then some (keyed (some (document "a" (obj (field "m" (num 2) end)))))
    else if p == "right"
    then some (listed (document i (str "text") ∷ []))
    else some nothing

abbrev open_half : String → Result (Fetch no_text shown)
open_half p = ok (half p)

abbrev shown_a : Doc
shown_a = ("key", str "a") ∷ ("id", str "a") ∷ ("n", num 1) ∷ ("m", num 2) ∷ []

abbrev shown_b : Doc
shown_b = ("key", str "b") ∷ ("id", str "b") ∷ ("n", num 1) ∷ (dynamic_field, str "text") ∷ []

answered :
    get_entities no_text shown open_half ("left" ∷ "right" ∷ []) ("a" ∷ "b" ∷ [])
    ≡ ok (("a", shown_a) ∷ ("b", shown_b) ∷ [])
unfolding get_entities fetch_parts fetch_ids fetch_to_entity item_to_entity with_fields
    vector_values restricted update
answered = refl

get_entities-IsAnswered_example :
    IsAnswered no_text shown open_half
      ("left" ∷ "right" ∷ [])
      ("a" ∷ "b" ∷ [])
      (("a", shown_a) ∷ ("b", shown_b) ∷ [])
get_entities-IsAnswered_example =
    get_entities-IsAnswered no_text shown open_half ("left" ∷ "right" ∷ []) ("a" ∷ "b" ∷ [])
      answered

-- A fetch that answers a missing id with an empty dict: the id is answered with a document named
-- "None", although the second partition has it.
abbrev empty_dict : String → Fetch no_text shown
empty_dict p i = if p == "right" then half p i else some (keyed none)

missed :
    get_entities no_text shown (λ p. ok (empty_dict p)) ("left" ∷ "right" ∷ []) ("a" ∷ [])
    ≡ ok (("a", ("key", str "None") ∷ ("id", str "None") ∷ []) ∷ [])
unfolding get_entities fetch_parts fetch_ids fetch_to_entity item_to_entity with_fields
    vector_values restricted update
missed = refl

abbrev schema_of_a : Layout
schema_of_a = record {
  pk_field = "key";
  pk_type = "VarChar";
  auto_id = false;
  vector_names = "place" ∷ [];
  scalar_names = "n" ∷ [];
  enable_dynamic = true;
}

abbrev written : Doc
written = ("key", str "a") ∷ ("place", arr (cons (num 3) nil)) ∷ ("n", num 1) ∷ ("m", num 2) ∷ []

written-HasKeysOnce : HasKeysOnce written
unfolding get
written-HasKeysOnce = new_key refl (new_key refl (new_key refl (new_key refl no_keys)))

abbrev dump : Doc → String
dump d = "{\"m\": 2}"

abbrev parse : String → Option Json
parse s = some (obj (field "m" (num 2) end))

abbrev stored : Document
stored = record {
  id = "a";
  fields = ("n", num 1) ∷ (dynamic_field, str "{\"m\": 2}") ∷ [];
  vectors = ("place", arr (cons (num 3) nil)) ∷ [];
}

stored-entity_to_doc : entity_to_doc no_text dump schema_of_a null written ≡ ok (stored, str "a")
unfolding entity_to_doc
stored-entity_to_doc = refl

abbrev shown_again : Doc
shown_again =
    ("key", str "a")
    ∷ ("id", str "a")
    ∷ ("n", num 1)
    ∷ ("m", num 2)
    ∷ ("place", arr (cons (num 3) nil))
    ∷ []

shown_again-item_to_entity :
    item_to_entity parse same_value "key" "VarChar" [] false (found stored null) ≡ ok shown_again
unfolding item_to_entity
shown_again-item_to_entity = refl

item_to_entity-Shows_example : Shows same_value schema_of_a written shown_again
item_to_entity-Shows_example =
    item_to_entity-Shows no_text dump parse same_value schema_of_a null null written
      (unfold as_fields restricted mem in refl) (unfold mem in refl) refl written-HasKeysOnce
      stored-entity_to_doc shown_again-item_to_entity
