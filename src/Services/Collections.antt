-- ===== src/Services/Collections.antt =====
-- `CollectionService` of xvector/services/collection.py and `PartitionService` of
-- xvector/services/partition.py, as the Writer runs them: the catalog changes in its store, the
-- partitions in its manager, and the Reader is notified. The names in a request are texts where they
-- are there.
pub mod Loads
pub mod Loaded
use xvector.Prelude.{
  ℕ, String, Bool, true, false, ◌&&◌, Option, none, some, List, [], ◌∷◌, ◌==◌, if◌then◌else◌,
}
use xvector.Prelude.Integers.{ℤ, pos}
use xvector.Errors.{Result, ok, err, not_found}
use xvector.Exec.{Exec, pure, raise, lift, ◌>>=◌, ◌>>◌}
use xvector.Json.{Json, null, num, str, arr, Items, Doc, get_value, or_else, truthy, texts_of}
use xvector.Json.Reads.{int_of}
use xvector.Paths.{default_db}
use xvector.Meta.Store.{Zvec, Store}
use xvector.Meta.Catalog.{
  mem, required, get_database, get_collection, require_collection, list_partitions,
  resolve_collection_name,
}
use xvector.Meta.Catalog.Indexes.{set_load_state, get_load_state}
use xvector.Services.Aliases.{shown, either_key, db_of, is_there}
use xvector.Engine.{Disk}
use xvector.Engine.Handles.{Manager}
use xvector.Engine.Handles.Opens.{close_partition, close_collection}
use xvector.Services.Coordination.{System, on_writer, notify_reader, internal_open, internal_close}

pub record Site (C H F : Type 0) : Type 0 where
  pub store : Store C
  pub system : System H F

-- body.get("collectionName") or body.get("collection_name")
abbrev pub name_of : Doc → String
name_of body = shown (either_key body "collectionName" "collection_name")

abbrev pub text_list : Json → List String
text_list (arr vs) = texts_of vs
text_list v = []

abbrev pub part_of : Doc → Json
part_of body = either_key body "partitionName" "partition_name"

-- the partitions of a request: "partitionNames", unless there is a "partitionName"
abbrev pub parts_of : Doc → List String
parts_of body =
    if truthy (get_value body "partitionName")
    then shown (get_value body "partitionName") ∷ []
    else text_list (either_key body "partitionNames" "partition_names")

-- set(l) >= set(m)
unfoldable pub covers : List String → List String → Bool
unfolding mem
covers l [] = true
covers l (s ∷ m) = mem s l && covers l m

-- "LoadStateLoaded" or "LoadStateNotLoad"
pub data LoadState : Type 0 where
  loaded not_loaded : LoadState

abbrev pub load_state : Doc → LoadState
load_state st = if truthy (get_value st "loaded") then loaded else not_loaded

module _ {C : Type 0} (z : Zvec C) where
  -- `has_collection`
  unfoldable pub has_collection : Doc → Exec (Store C) Bool
  has_collection body = do
    name ← resolve_collection_name z (db_of body) (name_of body)
    coll ← get_collection z (db_of body) name
    pure (is_there coll)

  unfoldable pub describe_database : Doc → Exec (Store C) String
  describe_database body = do
    found ← get_database z (db_of body)
    d ← lift (required found)
    pure (db_of body)

  -- `get_load_state` of the service
  unfoldable pub service_load_state : Doc → Exec (Store C) LoadState
  service_load_state body = do
    name ← resolve_collection_name z (db_of body) (name_of body)
    st ← get_load_state z (db_of body) name
    pure (load_state st)

  -- `has` and `list` of the partitions
  unfoldable pub has_partition : Doc → Exec (Store C) Bool
  unfolding mem
  has_partition body = do
    name ← resolve_collection_name z (db_of body) (name_of body)
    parts ← list_partitions z (db_of body) name
    pure (mem (shown (part_of body)) parts)

  unfoldable pub partitions_of : Doc → Exec (Store C) (List String)
  partitions_of body = do
    name ← resolve_collection_name z (db_of body) (name_of body)
    coll ← require_collection z (db_of body) name
    list_partitions z (db_of body) name

module _ {C H F : Type 0} (z : Zvec C) (disk : Disk H F) where
  abbrev pub M : Type 0 → Type 0
  M A = Exec (Site C H F) A

  abbrev pub with_store : {A : Type 0} → Site C H F → Result A × Store C → Result A × Site C H F
  with_store s (r, t) = (r, record s { store = t })

  -- a call of the catalog
  abbrev pub in_store : {A : Type 0} → Exec (Store C) A → M A
  in_store call s = with_store s (call s.store)

  -- a notification, which arrives or is lost
  abbrev pub notify : Bool → (Manager H F → Bool × Manager H F) → M (Unit {0})
  notify delivered endpoint s =
      (ok tt, record s { system = notify_reader disk delivered endpoint s.system })

  -- self.ctx.collections.close_collection(db, name)
  abbrev pub close_all_of : String → String → M (Unit {0})
  close_all_of db name s =
      (ok tt, record s { system = (on_writer disk (close_collection disk db name) s.system).1 })

  -- for p in parts: self.ctx.collections.close_partition(db, coll, p)
  unfoldable pub close_each : String → String → List String → System H F → System H F
  unfolding on_writer
  close_each db coll [] s = s
  close_each db coll (p ∷ parts) s =
      close_each db coll parts (on_writer disk (close_partition disk db coll p none) s).1

  abbrev pub close_parts : String → String → List String → M (Unit {0})
  close_parts db coll parts s = (ok tt, record s { system = close_each db coll parts s.system })

  -- body.get("replicaNumber") or body.get("replica_number") or 1
  abbrev pub replicas : Doc → Json
  replicas body = or_else (either_key body "replicaNumber" "replica_number") (num 1)

  unfoldable pub load_collection : ℕ → Bool → Doc → M (Unit {0})
  load_collection now delivered body = do
    name ← in_store (resolve_collection_name z (db_of body) (name_of body))
    coll ← in_store (require_collection z (db_of body) name)
    replica ← lift (int_of (replicas body))
    in_store (set_load_state z now (db_of body) name true "collection" [] replica)
    parts ← in_store (list_partitions z (db_of body) name)
    close_all_of (db_of body) name
    notify delivered (internal_open disk (db_of body) name parts)

  unfoldable pub release_collection : ℕ → Bool → Doc → M (Unit {0})
  release_collection now delivered body = do
    name ← in_store (resolve_collection_name z (db_of body) (name_of body))
    coll ← in_store (require_collection z (db_of body) name)
    in_store (set_load_state z now (db_of body) name false "collection" [] (pos 1))
    close_all_of (db_of body) name
    notify delivered (internal_close disk (db_of body) name [] none)

  -- `load` and `release` of the partitions
  unfoldable pub load_partitions : ℕ → Bool → Doc → M (Unit {0})
  unfolding close_each
  load_partitions now delivered body = do
    name ← in_store (resolve_collection_name z (db_of body) (name_of body))
    coll ← in_store (require_collection z (db_of body) name)
    in_store (set_load_state z now (db_of body) name true "partition" (parts_of body) (pos 1))
    close_parts (db_of body) name (parts_of body)
    notify delivered (internal_open disk (db_of body) name (parts_of body))

  abbrev pub is_empty_list : List String → Bool
  is_empty_list [] = true
  is_empty_list (p ∷ parts) = false

  unfoldable pub release_partitions : ℕ → Bool → Doc → M (Unit {0})
  unfolding close_each covers
  release_partitions now delivered body = do
    name ← in_store (resolve_collection_name z (db_of body) (name_of body))
    close_parts (db_of body) name (parts_of body)
    all_parts ← in_store (list_partitions z (db_of body) name)
    elim (is_empty_list (parts_of body)) [
      | true ↦ in_store (set_load_state z now (db_of body) name false "collection" [] (pos 1))
      | false ↦
          if covers (parts_of body) all_parts
          then in_store (set_load_state z now (db_of body) name false "collection" [] (pos 1))
          else pure tt
    ]
    notify delivered (internal_close disk (db_of body) name (parts_of body) none)
