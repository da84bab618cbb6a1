-- ===== src/Services/Vector/Entities.antt =====
-- Documents of zvec as the entities of an answer, and `get`, in xvector/services/vector.py. A handle,
-- the JSON parser, the text of a list or a dict and the normal form of a vector value are parameters.
pub mod Firsts
pub mod Fetched
use xvector.Prelude.{
  String, Bool, true, false, not, ◌&&◌, ◌||◌, Option, none, some, List, [], ◌∷◌, ◌++◌, map, ◌==◌,
  if◌then◌else◌,
}
use xvector.Errors.{Result, ok, err, param, not_loaded, guard, bind}
use xvector.Dict.{get, set}
use xvector.Json.{Json, null, str, obj, Fields, end, field, Doc, get_value, truthy, or_else}
use xvector.Meta.Catalog.{mem}
use xvector.Pk.Ids.{from_internal_id, text_form}
use xvector.Schema.{dynamic_field}

pub record Found : Type 0 where
  pub id : String
  pub fields : Doc
  pub vectors : Doc
  pub score : Json

-- entity.update(dyn)
unfoldable pub update : Doc → Fields → Doc
unfolding set
update entity end = entity
update entity (field k v fs) = update (set entity k v) fs

-- a parsed value that is no dict is left out, and a text that is not JSON is kept
abbrev pub with_parsed : Doc → Json → Option Json → Doc
with_parsed entity v none = set entity dynamic_field v
with_parsed entity v (some (obj fs)) = update entity fs
with_parsed entity v (some w) = entity

-- json.loads(v) if isinstance(v, str) else v
abbrev pub parsed_value : (String → Option Json) → Json → Option Json
parsed_value loads (str s) = loads s
parsed_value loads v = some v

unfoldable pub with_fields : (String → Option Json) → Doc → Doc → Doc
unfolding update set
with_fields loads entity [] = entity
with_fields loads entity ((k, v) ∷ fields) =
    with_fields loads
      (if k == dynamic_field then with_parsed entity v (parsed_value loads v) else set entity k v)
      fields

unfoldable pub vector_values : (Json → Json) → Doc → Doc → Doc
unfolding set
vector_values normalize entity [] = entity
vector_values normalize entity ((k, v) ∷ vectors) =
    vector_values normalize (set entity k (normalize v)) vectors

-- if include_score and score is not None
abbrev pub with_distance : Bool → Json → Doc → Doc
with_distance false score entity = entity
with_distance true null entity = entity
with_distance true score entity = set (set entity "score" score) "distance" score

abbrev pub is_kept : String → List String → Bool → String → Bool
is_kept pk_field output include_score k =
    mem k output
    || k == pk_field
    || k == "id"
    || (include_score && (k == "score" || k == "distance"))

-- {k: v for k, v in entity.items() if k in keep}
unfoldable pub restricted : (String → Bool) → Doc → Doc
restricted keep [] = []
restricted keep ((k, v) ∷ entity) =
    let rest = restricted keep entity in if keep k then (k, v) ∷ rest else rest

abbrev pub with_output : String → List String → Bool → Doc → Doc
with_output pk_field [] include_score entity = entity
with_output pk_field (f ∷ output) include_score entity =
    restricted (is_kept pk_field (f ∷ output) include_score) entity

-- `_item_to_entity`
unfoldable pub item_to_entity :
    (String → Option Json)
    → (Json → Json)
    → String
    → String
    → List String
    → Bool
    → Found
    → Result Doc
unfolding from_internal_id with_fields vector_values restricted set mem
item_to_entity loads normalize pk_field pk_type output include_score item =
    bind (from_internal_id item.id pk_type) λ key. ok (
      with_output pk_field output include_score (
        with_distance include_score item.score (
          vector_values normalize
            (with_fields loads (set ((pk_field, key) ∷ []) "id" key) item.fields) item.vectors)))

-- a document as zvec hands it out: an object with these attributes, or a dict
pub data Item : Type 0 where
  object : (id : Option String) → (fields vectors : Doc) → (score : Json) → Item
  as_dict : Doc → Item

-- str(doc_id), for an attribute
abbrev pub id_text : Option String → String
id_text none = "None"
id_text (some id) = id

unfoldable pub fields_doc : Fields → Doc
fields_doc end = []
fields_doc (field k v fs) = (k, v) ∷ fields_doc fs

-- v or {}, for a dict or None
abbrev pub dict_or_empty : Json → Doc
dict_or_empty (obj fs) = fields_doc fs
dict_or_empty v = []

-- if not fields and not vectors
abbrev pub flattened : Doc → Doc → Doc → Doc
flattened d [] [] = restricted (λ k. not (k == "id" || k == "score" || k == "distance")) d
flattened d fields vectors = fields

-- what `_item_to_entity` reads first
unfoldable pub read_item : (Json → String) → Item → Found
unfolding text_form get_value get restricted fields_doc
read_item repr (object id fields vectors score) = record {
  id = id_text id;
  fields = fields;
  vectors = vectors;
  score = score;
}
read_item repr (as_dict d) =
    let vectors = dict_or_empty (get_value d "vectors") in
    record {
      id = text_form repr (get_value d "id");
      fields = flattened d (dict_or_empty (get_value d "fields")) vectors;
      vectors = vectors;
      score = get_value d "score";
    }

-- what a handle's fetch of one id returns: None, the document, a list, or the dict of the documents
-- found, which is empty where the id is missing
pub data FetchAnswer : Type 0 where
  nothing : FetchAnswer
  alone : Item → FetchAnswer
  listed : List Item → FetchAnswer
  keyed : Option Item → FetchAnswer

abbrev pub is_seen : Option Doc → Bool
is_seen none = false
is_seen (some d) = true

module _ (repr : Json → String) (entity_of : Found → Result Doc) where
  -- what `get` has found, with the ids that were asked for
  abbrev pub Answers : Type 0
  Answers = List (String × Doc)

  -- the handle's fetch: `none` where it raises
  abbrev pub Fetch : Type 0
  Fetch = String → Option FetchAnswer

  abbrev pub entity_for : Item → Result (Option Doc)
  entity_for item = bind (entity_of (read_item repr item)) λ e. ok (some e)

  -- `_fetch_to_entity`: a dict without the id is taken for the document itself
  unfoldable pub fetch_to_entity : FetchAnswer → Result (Option Doc)
  unfolding read_item
  fetch_to_entity nothing = ok none
  fetch_to_entity (alone item) = entity_for item
  fetch_to_entity (listed []) = ok none
  fetch_to_entity (listed (item ∷ items)) = entity_for item
  fetch_to_entity (keyed (some item)) = entity_for item
  fetch_to_entity (keyed none) = entity_for (as_dict [])

  -- except Exception: continue
  abbrev pub fetched : Option FetchAnswer → Result (Option Doc)
  fetched none = ok none
  fetched (some answer) = fetch_to_entity answer

  -- if iid in seen: continue
  abbrev pub answer_for : Fetch → Answers → String → Result (Option Doc)
  answer_for fetch out i = if is_seen (get out i) then ok none else fetched (fetch i)

  -- if ent is not None: seen.add(iid), out.append(ent)
  abbrev pub append_answer : Answers → String → Option Doc → Answers
  append_answer out i none = out
  append_answer out i (some e) = out ++ (i, e) ∷ []

  -- for iid in internal_ids
  unfoldable pub fetch_ids : Fetch → List String → Answers → Result Answers
  unfolding get fetch_to_entity
  fetch_ids fetch [] out = ok out
  fetch_ids fetch (i ∷ ids) out =
      bind (answer_for fetch out i) λ e. fetch_ids fetch ids (append_answer out i e)

  -- for part in parts, where opening a partition may raise
  unfoldable pub fetch_parts :
      (String → Result Fetch) → List String → List String → Answers → Result Answers
  unfolding fetch_ids
  fetch_parts open_part [] ids out = ok out
  fetch_parts open_part (p ∷ parts) ids out =
      bind (open_part p) λ fetch. bind (fetch_ids fetch ids out) (fetch_parts open_part parts ids)

  -- `get`, from the partitions and the internal ids on
  unfoldable pub get_entities : (String → Result Fetch) → List String → List String → Result Answers
  unfolding fetch_parts
  get_entities open_part parts ids = fetch_parts open_part parts ids []
