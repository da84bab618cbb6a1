-- ===== src/Examples/Writes.antt =====
-- A Writer and a Reader over one disk: a write, a load and a release of the collection "books".
use xvector.Text.{Lacks}
use xvector.Prelude.{some, ℕ, String, ◌≡◌, refl, true, false, List, [], ◌∷◌}
use xvector.Prelude.Lists.{All}
use xvector.Errors.{Result, ok, err, param}
use xvector.Dict.{get, set, values}
use xvector.Json.{Doc, str, get_value, or_else, truthy, is_text}
use xvector.Json.Reads.{int_of}
use xvector.Meta.DocId.{make_id, safe_key}
use xvector.Meta.Store.{Store, upsert, write, find, stamped, list_by_type, of_type}
use xvector.Meta.Catalog.{
  mem, list_partitions, get_collection, require_collection, resolve_collection_name,
}
use xvector.Meta.Catalog.Indexes.{set_load_state}
use xvector.Meta.Catalog.Open.{IsOpen}
use xvector.Services.Aliases.{db_of}
use xvector.Engine.Handles.{Manager, is_fenced}
use xvector.Engine.Handles.Fences.{IsShut}
use xvector.Services.Coordination.{System, release, with_reader_released}
use xvector.Services.Coordination.Released.{with_reader_released-ends}
use xvector.Services.Collections.{
  Site, loaded, not_loaded, service_load_state, load_collection, release_collection,
}
use xvector.Services.Collections.Loads.{named_in}
use xvector.Services.Collections.Loaded.{release_collection-IsShut, load_collection-unfenced}
use xvector.Examples.Stores.{Kept, kept_zvec, empty_store}
use xvector.Services.Coordination.Undisturbed.{
  Event, work, told, refreshed, happen, write_undisturbed,
}
use xvector.Services.Coordination.Notices.{opens, unfences, closes}
use xvector.Examples.Handles.{ram, reading, default_name, books_name}

abbrev writing : Manager ℕ ℕ
writing = record { root = "data" ∷ []; read_only = false; handles = []; fences = []; files = 1 }

abbrev both_processes : System ℕ ℕ
both_processes = record { writer = writing; reader = reading; files = 1 }

-- a write that fails
abbrev failing : System ℕ ℕ → Result (Unit {0}) × System ℕ ℕ
failing s = (err param, s)

with_reader_released-ends_example :
    IsShut ram "default" "books" "_default"
      (release ram true "default" "books" ("_default" ∷ []) both_processes).reader
    × (is_fenced
          (with_reader_released ram true true true "default" "books"
            ("_default" ∷ [])
            []
            failing
            both_processes).1.reader
          "default"
          "books"
          "_default"
        ≡ false)
with_reader_released-ends_example =
    with_reader_released-ends ram true "default" "books" "_default" ("_default" ∷ []) [] failing
      both_processes refl (unfold mem in refl)

abbrev notes_name : Lacks b'/' "notes"
notes_name = (refl, (refl, (refl, (refl, (refl, tt)))))

-- the Reader's loop finds the collection loaded, a write to another collection ends, a release of this
-- one is told, and the Writer turns to its files
abbrev meanwhile : List (Event ℕ ℕ)
meanwhile =
    refreshed true (
      record {
        db = "default";
        coll = "books";
        loaded = true;
        partition_names = [];
        partitions = "_default" ∷ [];
      }
      ∷ [])
    ∷ told (opens "default" "notes" [])
    ∷ told (unfences "default" "notes" ("_default" ∷ []))
    ∷ told (closes "default" "books" [] (some false))
    ∷ work writing 7
    ∷ []

write_undisturbed_example :
    IsShut ram "default" "books" "_default"
      (happen ram true "" meanwhile
        (release ram true "default" "books" ("_default" ∷ []) both_processes)).reader
write_undisturbed_example =
    write_undisturbed ram true "" "default" "books" "_default" ("_default" ∷ []) meanwhile
      both_processes (default_name, books_name)
      (
        ((default_name, books_name), tt),
        (((default_name, notes_name), refl), (((default_name, notes_name), refl), (tt, tt))),
      )
      refl (unfold mem in refl)

abbrev with_books : Store Kept
with_books = (upsert kept_zvec 2 "collection__default__books" "collection" [] empty_store).1

with_books-IsOpen : IsOpen with_books
unfolding upsert write
with_books-IsOpen = record { writer = refl; open_now = refl }

abbrev site : Site Kept ℕ ℕ
site = record { store = with_books; system = both_processes }

abbrev books : Doc
books = ("collectionName", str "books") ∷ []

abbrev released_site : Site Kept ℕ ℕ
released_site = (release_collection kept_zvec ram 5 true books site).1

was_released : release_collection kept_zvec ram 5 true books site ≡ (ok tt, released_site)
unfolding release_collection resolve_collection_name get_collection require_collection
    set_load_state find upsert write get set stamped make_id safe_key or_else truthy get_value
was_released = refl

release_collection-IsShut_example :
    (service_load_state kept_zvec books released_site.store ≡ (ok not_loaded, released_site.store))
    × IsShut ram
        (db_of books)
        (named_in kept_zvec with_books books)
        "_default"
        released_site.system.reader
release_collection-IsShut_example =
    release_collection-IsShut kept_zvec ram 5 books "_default" site with_books-IsOpen refl
      was_released

abbrev loaded_site : Site Kept ℕ ℕ
loaded_site = (load_collection kept_zvec ram 6 true books site).1

was_loaded : load_collection kept_zvec ram 6 true books site ≡ (ok tt, loaded_site)
unfolding load_collection resolve_collection_name get_collection require_collection set_load_state
    list_partitions list_by_type of_type find upsert write get set stamped make_id safe_key or_else
    truthy get_value int_of is_text values
was_loaded = refl

load_collection-unfenced_example :
    (service_load_state kept_zvec books loaded_site.store ≡ (ok loaded, loaded_site.store))
    × ((parts : List String) × (list_partitions kept_zvec
            (db_of books)
            (named_in kept_zvec with_books books)
            loaded_site.store
          ≡ (ok parts, loaded_site.store))
        × All
            (λ part.
              is_fenced loaded_site.system.reader
                (db_of books)
                (named_in kept_zvec with_books books)
                part
              ≡ false)
            parts)
load_collection-unfenced_example =
    load_collection-unfenced kept_zvec ram 6 books site with_books-IsOpen was_loaded
