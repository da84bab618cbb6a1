-- ===== src/Examples/Catalogs.antt =====
-- Databases and aliases in a store that holds one collection, "default"/"books".
use Prim.Native.String.{◌++◌}
use xvector.Prelude.{String, ◌≡◌, ◌≢◌, refl, none, some, [], ◌==◌, if◌then◌else◌}
use xvector.Errors.{ok, err, already_exists}
use xvector.Dict.{get, set, values}
use xvector.Json.{Doc, get_value, is_text}
use xvector.Paths.{match_name, match_tail, validate_name, default_db}
use xvector.Meta.DocId.{doc_database, make_id, safe_key, pair_key}
use xvector.Meta.DocId.Unique.{IsSpaced, Lacks-IsSpaced, make_id-injective, make_id_collision}
use xvector.Meta.Store.{Store, stamped, upsert, delete, write, find, list_by_type, of_type}
use xvector.Meta.Catalog.{
  get_database, get_collection, create_database, drop_database, list_collections,
  resolve_collection_name, put_alias, select, sorted,
}
use xvector.Meta.Catalog.Open.{IsOpen}
use xvector.Meta.Catalog.Databases.{database_doc, create_database_once, drop_database_empty}
use xvector.Meta.Catalog.Aliases.{resolved, resolve_collection_name-put_alias}
use xvector.Examples.Stores.{Kept, kept_zvec, empty_store}

abbrev open_store : IsOpen empty_store
open_store = record { writer = refl; open_now = refl }

abbrev with_sales : Store Kept
with_sales = (create_database kept_zvec 7 "sales" empty_store).1

sales_created : create_database kept_zvec 7 "sales" empty_store ≡ (ok tt, with_sales)
unfolding create_database get_database validate_name match_name match_tail find upsert write get
sales_created = refl

create_database_once_example :
    (validate_name (some "sales") "dbName" ≡ ok "sales")
    × (get_database kept_zvec "sales" empty_store ≡ (ok none, empty_store))
    × (get_database kept_zvec "sales" with_sales ≡ (ok (some (database_doc 7 "sales")), with_sales))
    × (create_database kept_zvec 9 "sales" with_sales ≡ (err already_exists, with_sales))
create_database_once_example =
    create_database_once kept_zvec 7 9 "sales" empty_store open_store sales_created

with_sales-IsOpen : IsOpen with_sales
unfolding create_database get_database validate_name match_name match_tail find upsert write get
with_sales-IsOpen = record { writer = refl; open_now = refl }

abbrev dropped : Store Kept
dropped = (drop_database kept_zvec "sales" with_sales).1

sales_dropped : drop_database kept_zvec "sales" with_sales ≡ (ok tt, dropped)
unfolding create_database get_database validate_name match_name match_tail find upsert write get set
    stamped drop_database list_collections list_by_type of_type get_value select sorted delete
    values make_id safe_key is_text
sales_dropped = refl

drop_database_empty_example :
    ("sales" ≢ default_db)
    × ((d : Doc) × (get_database kept_zvec "sales" with_sales ≡ (ok (some d), with_sales)))
    × (list_collections kept_zvec "sales" with_sales ≡ (ok [], with_sales))
    × (get dropped.docs "database__sales" ≡ (
        if make_id doc_database "sales" == "database__sales"
        then none
        else get with_sales.docs "database__sales"))
drop_database_empty_example =
    drop_database_empty kept_zvec "sales" with_sales "database__sales" with_sales-IsOpen
      sales_dropped

abbrev with_alias : Store Kept
with_alias = (put_alias kept_zvec 8 "default" "b" "books" empty_store).1

alias_put : put_alias kept_zvec 8 "default" "b" "books" empty_store ≡ (ok tt, with_alias)
unfolding put_alias upsert write
alias_put = refl

resolve_collection_name-put_alias_example :
    resolve_collection_name kept_zvec "default" "b" with_alias
    ≡ (ok (resolved "b" "books" (get_collection kept_zvec "default" "b" empty_store).0), with_alias)
resolve_collection_name-put_alias_example =
    resolve_collection_name-put_alias kept_zvec 8 "default" "b" "books" empty_store open_store
      alias_put

-- "ab" has no "_"
abbrev no_low_line : IsSpaced "ab"
no_low_line = Lacks-IsSpaced "ab" (refl, (refl, tt))

make_id-injective_example : Path String "ab" "ab" × Path String "c" "c"
make_id-injective_example =
    make_id-injective "collection" ((refl, (refl, tt)), (refl, tt), (refl, (refl, tt)), (refl, tt))
      no_low_line no_low_line refl

make_id_collision_example :
    make_id "collection" (pair_key "a" ("b" ++ "__" ++ "c"))
    ≡ make_id "collection" (pair_key ("a" ++ "__" ++ "b") "c")
make_id_collision_example =
    make_id_collision "collection" "a" "b" "c" ((refl, tt), (refl, tt), (refl, tt))
