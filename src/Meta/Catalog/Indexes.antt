-- ===== src/Meta/Catalog/Indexes.antt =====
-- The indexes, the load states and the removal of a collection's metadata of
-- xvector/meta/catalog.py.
use xvector.Prelude.{ℕ, String, Bool, false, Option, none, some, List, [], ◌∷◌, map}
use xvector.Exec.{pure, ◌>>=◌, ◌>>◌}
use xvector.Prelude.Integers.{ℤ}
use xvector.Json.{bool, num, number, str, arr, Doc, get_value, is_text, text_items}
use xvector.Meta.DocId.{
  doc_collection, doc_partition, doc_alias, doc_index, doc_load, make_id, pair_key, triple_key,
}
use xvector.Meta.Store.{Zvec, find, list_by_type, upsert, delete}
use xvector.Meta.Catalog.{
  text_of, select, in_collection, placed, delete_all, list_partitions, list_aliases, M,
}

-- what `get_load_state` returns where nothing is stored
abbrev pub unloaded : String → String → Doc
unloaded db_name collection_name =
    ("db_name", str db_name)
    ∷ ("collection_name", str collection_name)
    ∷ ("loaded", bool false)
    ∷ ("scope", str "collection")
    ∷ ("partition_names", arr (text_items []))
    ∷ ("replica_number", num 1)
    ∷ []

abbrev pub or_doc : Doc → Option Doc → Doc
or_doc d none = d
or_doc d (some e) = e

-- the ids of a collection's partitions, indexes and aliases
abbrev pub partition_ids : String → String → List String → List String
partition_ids db_name collection_name parts =
    map (λ p. make_id doc_partition (triple_key db_name collection_name p)) parts

abbrev pub index_ids : String → String → List Doc → List String
index_ids db_name collection_name indexes =
    map
      (λ idx.
        make_id doc_index
          (triple_key db_name collection_name (text_of (get_value idx "index_name"))))
      indexes

abbrev pub alias_ids : String → List Doc → List String
alias_ids db_name aliases =
    map (λ a. make_id doc_alias (pair_key db_name (text_of (get_value a "alias")))) aliases

module _ {C : Type 0} (z : Zvec C) where
  -- the index document names itself
  unfoldable pub put_index : ℕ → String → String → Doc → M z (Unit {0})
  put_index now db_name collection_name index =
      upsert z now
        (make_id doc_index
          (triple_key db_name collection_name (text_of (get_value index "index_name"))))
        doc_index (placed now db_name collection_name index)

  unfoldable pub get_index : String → String → String → M z (Option Doc)
  get_index db_name collection_name index_name =
      find z (make_id doc_index (triple_key db_name collection_name index_name))

  unfoldable pub list_indexes : String → String → M z (List Doc)
  list_indexes db_name collection_name = do
    docs ← list_by_type z doc_index
    pure (select (in_collection db_name collection_name) docs)

  unfoldable pub delete_index : String → String → String → M z (Unit {0})
  delete_index db_name collection_name index_name =
      delete z (make_id doc_index (triple_key db_name collection_name index_name))

  unfoldable pub set_load_state :
      ℕ → String → String → Bool → String → List String → ℤ → M z (Unit {0})
  set_load_state now db_name collection_name loaded scope partition_names replica_number =
      upsert z now (make_id doc_load (pair_key db_name collection_name)) doc_load (
        ("db_name", str db_name)
        ∷ ("collection_name", str collection_name)
        ∷ ("scope", str scope)
        ∷ ("partition_names", arr (text_items partition_names))
        ∷ ("loaded", bool loaded)
        ∷ ("replica_number", number replica_number)
        ∷ ("updated_at", num now)
        ∷ [])

  unfoldable pub get_load_state : String → String → M z Doc
  get_load_state db_name collection_name = do
    st ← find z (make_id doc_load (pair_key db_name collection_name))
    pure (or_doc (unloaded db_name collection_name) st)

  unfoldable pub delete_collection_meta : String → String → M z (Unit {0})
  delete_collection_meta db_name collection_name = do
    delete z (make_id doc_collection (pair_key db_name collection_name))
    parts ← list_partitions z db_name collection_name
    delete_all z (partition_ids db_name collection_name parts)
    indexes ← list_indexes db_name collection_name
    delete_all z (index_ids db_name collection_name indexes)
    aliases ← list_aliases z db_name
    delete_all z (
        alias_ids db_name
          (select (λ a. is_text (get_value a "collection_name") collection_name) aliases))
    delete z (make_id doc_load (pair_key db_name collection_name))
