-- ===== src/Meta/Catalog.antt =====
-- xvector/meta/catalog.py: the databases, collections, partitions, aliases, indexes, load states,
-- users, roles and import jobs, as documents of the store. One call reads the clock once (`now`).
-- The names in a document of the catalog are texts.
pub mod Indexes
pub mod Accounts
pub mod Open
pub mod Databases
pub mod Aliases
use Prim.Native.Nat.{Ordering}
use Prim.Native.String
use xvector.Prelude.{
  ℕ, String, Bool, true, false, not, ◌&&◌, ◌||◌, Option, none, some, List, [], ◌∷◌, ◌++◌, map, ◌==◌,
  if◌then◌else◌,
}
use xvector.Errors.{Result, ok, err, param, not_found, already_exists}
use xvector.Exec.{Exec, pure, raise, lift, ◌>>=◌, ◌>>◌}
use xvector.Dict.{get, set}
use xvector.Json.{Json, null, bool, num, str, arr, nil, Doc, get_value, truthy, is_text, text_items}
use xvector.Paths.{default_db, default_partition, validate_name}
use xvector.Meta.DocId.{
  doc_user, doc_role, doc_database, doc_collection, doc_partition, doc_alias, doc_index, doc_load,
  doc_import, make_id, pair_key, triple_key,
}
use xvector.Meta.Store.{Zvec, Store, set_default, find, list_by_type, upsert, delete}

-- the text of a value that is one
abbrev pub text_of : Json → String
text_of (str s) = s
text_of _ = ""

-- "key" in d
abbrev pub has_key : Doc → String → Bool
has_key d key = elim (get d key) [ none ↦ false | some v ↦ true ]

-- s in l
unfoldable pub mem : String → List String → Bool
mem s [] = false
mem s (t ∷ l) = s == t || mem s l

-- set(l), in the order of first occurrences from the end
unfoldable pub distinct : List String → List String
unfolding mem
distinct [] = []
distinct (s ∷ l) = let rest = distinct l in if mem s rest then rest else s ∷ rest

-- s <= t for texts
abbrev pub text_le : String → String → Bool
text_le s t = elim (String.compare s t) [ Ordering.gt ↦ false | _ ↦ true ]

-- key=lambda x: (x != DEFAULT_PARTITION, x)
abbrev pub partition_le : String → String → Bool
partition_le s t =
    if s == default_partition then true else if t == default_partition then false else text_le s t

unfoldable pub insert_sorted : (String → String → Bool) → String → List String → List String
insert_sorted le s [] = s ∷ []
insert_sorted le s (t ∷ l) = if le s t then s ∷ t ∷ l else t ∷ insert_sorted le s l

-- sorted(l)
unfoldable pub sorted : (String → String → Bool) → List String → List String
unfolding insert_sorted
sorted le [] = []
sorted le (s ∷ l) = insert_sorted le s (sorted le l)

-- [d for d in docs if test(d)]
unfoldable pub select : (Doc → Bool) → List Doc → List Doc
select test [] = []
select test (d ∷ docs) = let rest = select test docs in if test d then d ∷ rest else rest

-- the documents of a database, or of a collection
abbrev pub in_db : String → Doc → Bool
in_db db_name d = is_text (get_value d "db_name") db_name

abbrev pub in_collection : String → String → Doc → Bool
in_collection db_name collection_name d =
    in_db db_name d && is_text (get_value d "collection_name") collection_name

abbrev pub names : String → List Doc → List String
names key docs = map (λ d. text_of (get_value d key)) docs

-- if not doc: raise e
abbrev pub required : Option Doc → Result Doc
required none = err not_found
required (some d) = ok d

-- payload.update({...}) and payload.setdefault("created_at", now)
abbrev pub placed : ℕ → String → String → Doc → Doc
placed now db_name collection_name meta =
    set_default
      (set (set (set meta "db_name" (str db_name)) "collection_name" (str collection_name))
        "updated_at" (num now))
      "created_at" (num now)

-- the partitions of a collection that is there have "_default" among them
abbrev pub with_default : Option Doc → List String → List String
with_default none out = out
with_default (some d) out = if mem default_partition out then out else out ++ default_partition ∷ []

-- alias["collection_name"] of the alias that is there, or the name itself
abbrev pub target_of : String → Option Doc → String
target_of name none = name
target_of name (some alias) = text_of (get_value alias "collection_name")

module _ {C : Type 0} (z : Zvec C) where
  abbrev pub M : Type 0 → Type 0
  M A = Exec (Store C) A

  -- for id in ids: self.store.delete(id)
  unfoldable pub delete_all : List String → M (Unit {0})
  delete_all [] = pure tt
  delete_all (id ∷ ids) = do delete z id; delete_all ids

  unfoldable pub get_database : String → M (Option Doc)
  get_database db_name = find z (make_id doc_database db_name)

  unfoldable pub get_collection : String → String → M (Option Doc)
  get_collection db_name collection_name =
      find z (make_id doc_collection (pair_key db_name collection_name))

  unfoldable pub require_collection : String → String → M Doc
  require_collection db_name collection_name = do
    coll ← get_collection db_name collection_name
    lift (required coll)

  unfoldable pub list_collections : String → M (List String)
  list_collections db_name = do
    docs ← list_by_type z doc_collection
    pure (sorted text_le (names "collection_name" (select (in_db db_name) docs)))

  unfoldable pub list_databases : M (List String)
  list_databases = do
    docs ← list_by_type z doc_database
    pure (sorted text_le (distinct (names "db_name" (select (λ d. has_key d "db_name") docs))))

  unfoldable pub create_database : ℕ → String → M (Unit {0})
  create_database now db_name = do
    name ← lift (validate_name (some db_name) "dbName")
    existing ← get_database db_name
    elim existing [
      | some d ↦ raise already_exists
      | none ↦
          upsert z now (make_id doc_database db_name) doc_database
            (("db_name", str db_name) ∷ ("created_at", num now) ∷ [])
    ]

  unfoldable pub drop_database : String → M (Unit {0})
  drop_database db_name = do
    name ← lift (validate_name (some db_name) "dbName")
    if db_name == default_db then raise param else do
      existing ← get_database db_name
      found ← lift (required existing)
      cols ← list_collections db_name
      elim cols [ [] ↦ delete z (make_id doc_database db_name) | c ∷ cs ↦ raise param ]

  unfoldable pub put_collection : ℕ → String → String → Doc → M (Unit {0})
  put_collection now db_name collection_name meta = do
    db ← lift (validate_name (some db_name) "dbName")
    coll ← lift (validate_name (some collection_name) "collectionName")
    upsert z now (make_id doc_collection (pair_key db_name collection_name)) doc_collection
        (placed now db_name collection_name meta)

  unfoldable pub put_partition : ℕ → String → String → String → String → M (Unit {0})
  put_partition now db_name collection_name partition_name kind = do
    part ← lift (validate_name (some partition_name) "partition")
    upsert z now (make_id doc_partition (triple_key db_name collection_name partition_name))
        doc_partition
        (("db_name", str db_name)
          ∷ ("collection_name", str collection_name)
          ∷ ("partition_name", str partition_name)
          ∷ ("kind", str kind)
          ∷ ("created_at", num now)
          ∷ [])

  unfoldable pub get_partition : String → String → String → M (Option Doc)
  get_partition db_name collection_name partition_name =
      find z (make_id doc_partition (triple_key db_name collection_name partition_name))

  unfoldable pub list_partitions : String → String → M (List String)
  list_partitions db_name collection_name = do
    docs ← list_by_type z doc_partition
    coll ← get_collection db_name collection_name
    let out = names "partition_name" (select (in_collection db_name collection_name) docs)
    pure (sorted partition_le (distinct (with_default coll out)))

  unfoldable pub delete_partition : String → String → String → M (Unit {0})
  delete_partition db_name collection_name partition_name =
      delete z (make_id doc_partition (triple_key db_name collection_name partition_name))

  unfoldable pub put_alias : ℕ → String → String → String → M (Unit {0})
  put_alias now db_name alias collection_name =
      upsert z now (make_id doc_alias (pair_key db_name alias)) doc_alias (
        ("db_name", str db_name)
        ∷ ("alias", str alias)
        ∷ ("collection_name", str collection_name)
        ∷ ("updated_at", num now)
        ∷ [])

  unfoldable pub get_alias : String → String → M (Option Doc)
  get_alias db_name alias = find z (make_id doc_alias (pair_key db_name alias))

  unfoldable pub list_aliases : String → M (List Doc)
  list_aliases db_name = do docs ← list_by_type z doc_alias; pure (select (in_db db_name) docs)

  unfoldable pub delete_alias : String → String → M (Unit {0})
  delete_alias db_name alias = delete z (make_id doc_alias (pair_key db_name alias))

  unfoldable pub resolve_collection_name : String → String → M String
  resolve_collection_name db_name name = do
    coll ← get_collection db_name name
    elim coll [
      | some d ↦ pure name
      | none ↦ do alias ← get_alias db_name name; pure (target_of name alias)
    ]
