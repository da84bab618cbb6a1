-- ===== src/Engine/Handles.antt =====
-- `CollectionManager` of xvector/engine/collection_mgr.py: the open partitions of one process and
-- the fences that keep the Reader from opening one while the Writer writes it. The calls of one
-- manager run one after the other.
pub mod Keys
pub mod Opens
pub mod Fences
pub mod Fencing
pub mod Calls
pub mod Kept
pub mod Elsewhere
use Prim.Native.String.{◌++◌}
use xvector.Prelude.{
  ℕ, suc, zero, String, Bool, true, false, not, ◌&&◌, ◌||◌, Option, none, some, List, [], ◌∷◌, ◌==◌,
  if◌then◌else◌,
}
use xvector.Errors.{Error, Result, ok, err, fenced, file_not_found, runtime, guard}
use xvector.Exec.{Exec, pure, raise, lift, ◌>>=◌, ◌>>◌}
use xvector.Text.{split_once, after}
use xvector.Dict.{get, set, remove}
use xvector.Meta.DocId.{pair_key, triple_key}
use xvector.Meta.Catalog.{mem}
use xvector.Paths.{FilePath}
use xvector.Engine.{Disk, Opening, handle, raises, resolve_partition_path, is_lock_error}

pub record Manager (H F : Type 0) : Type 0 where
  pub root : FilePath
  pub read_only : Bool
  pub handles : List (String × H)
  pub fences : List String
  pub files : F

abbrev pub key : String → String → String → String
key db coll part = triple_key db coll part

-- the fence of a whole collection
abbrev pub wild : String → String → String
wild db coll = triple_key db coll "*"

-- f"{db_name}/{collection_name}/"
abbrev pub key_prefix : String → String → String
key_prefix db coll = triple_key db coll ""

abbrev pub found : Option String → Bool
found none = false
found (some r) = true

abbrev pub starts_with : String → String → Bool
starts_with p s = found (after p s)

-- _fenced.add(k)
abbrev pub add : String → List String → List String
add k fences = if mem k fences then fences else k ∷ fences

-- _fenced.discard(k)
unfoldable pub discard : String → List String → List String
discard k [] = []
discard k (f ∷ fences) = let rest = discard k fences in if f == k then rest else f ∷ rest

unfoldable pub add_all : List String → List String → List String
add_all [] fences = fences
add_all (k ∷ ks) fences = add_all ks (add k fences)

unfoldable pub discard_all : List String → List String → List String
unfolding discard
discard_all [] fences = fences
discard_all (k ∷ ks) fences = discard_all ks (discard k fences)

-- the fences that do not start with a prefix
unfoldable pub discard_prefix : String → List String → List String
discard_prefix p [] = []
discard_prefix p (f ∷ fences) =
    let rest = discard_prefix p fences in if starts_with p f then rest else f ∷ rest

unfoldable pub keys_of : String → String → List String → List String
keys_of db coll [] = []
keys_of db coll (p ∷ parts) = key db coll p ∷ keys_of db coll parts

-- the keys of the handles, and those of a collection
unfoldable pub keys : {H : Type 0} → List (String × H) → List String
keys [] = []
keys ((k, h) ∷ handles) = k ∷ keys handles

unfoldable pub with_prefix : String → List String → List String
with_prefix p [] = []
with_prefix p (k ∷ ks) = let rest = with_prefix p ks in if starts_with p k then k ∷ rest else rest

-- k.split("/", 2); every key of the manager is one of `key`, so that it has two slashes
abbrev pub split_rest : String → Option (String × String) → Option (String × String × String)
split_rest db none = none
split_rest db (some (coll, part)) = some (db, coll, part)

abbrev pub split_first : Option (String × String) → Option (String × String × String)
split_first none = none
split_first (some (db, rest)) = split_rest db (split_once b'/' rest)

unfoldable pub split_key : String → Option (String × String × String)
split_key k = split_first (split_once b'/' k)

module _ {H F : Type 0} where
  unfoldable pub is_fenced : Manager H F → String → String → String → Bool
  unfolding mem
  is_fenced m db coll part = mem (key db coll part) m.fences || mem (wild db coll) m.fences

  unfoldable pub get_if_open : Manager H F → String → String → String → Option H
  unfolding get
  get_if_open m db coll part = get m.handles (key db coll part)

  -- `read_only`, not `allow_fenced`, and fenced
  abbrev pub blocked : Bool → Manager H F → String → String → String → Bool
  blocked allow_fenced m db coll part = m.read_only && not allow_fenced && is_fenced m db coll part

  -- `reopen_all` leaves these keys alone
  abbrev pub split_fenced : Manager H F → Option (String × String × String) → Bool
  split_fenced m none = true
  split_fenced m (some (db, coll, part)) = is_fenced m db coll part

  unfoldable pub reopenable : Manager H F → List String → List String
  unfolding mem split_key
  reopenable m [] = []
  reopenable m (k ∷ ks) =
      let rest = reopenable m ks in
      if mem k m.fences || split_fenced m (split_key k) then rest else k ∷ rest

module _ {H F : Type 0} (disk : Disk H F) where
  abbrev pub M : Type 0 → Type 0
  M A = Exec (Manager H F) A

  unfoldable pub has_wal : Manager H F → String → String → String → Bool
  has_wal m db coll part =
      let path = resolve_partition_path m.root db coll part in
      disk.exists m.files path && disk.has_wal_file m.files path

  abbrev pub dropped : H → Bool × F → Bool × F
  dropped h (flushed, files) = (flushed, disk.drop_handle files h)

  -- `_release_handle`
  unfoldable pub release_handle : Option H → Bool → F → Bool × F
  release_handle none flush files = (true, files)
  release_handle (some h) flush files =
      dropped h (if flush then disk.flush files h else (true, files))

  abbrev pub with_files : Manager H F → F → Manager H F
  with_files m files = record m { files = files }

  -- the handle leaves the cache and is released; whether the flush succeeded
  unfoldable pub pop : String → Bool → M Bool
  unfolding release_handle
  pop k flush m =
      let r = release_handle (get m.handles k) flush m.files in
      (ok r.0, record m { handles = remove m.handles k; files = r.1 })

  unfoldable pub pop_all : List String → M (Unit {0})
  pop_all [] m = (ok tt, m)
  pop_all (k ∷ ks) m = (pop k (not m.read_only) >> pop_all ks) m

  unfoldable pub fence_partitions : String → String → List String → M (Unit {0})
  fence_partitions db coll [] m =
      pop_all (with_prefix (key_prefix db coll) (keys m.handles))
        (record m { fences = add (wild db coll) m.fences })
  fence_partitions db coll (p ∷ parts) m =
      pop_all (keys_of db coll (p ∷ parts))
        (record m { fences = add_all (keys_of db coll (p ∷ parts)) m.fences })

  unfoldable pub unfence_partitions : String → String → List String → M (Unit {0})
  unfence_partitions db coll [] m = (
    ok tt,
    record m { fences = discard_prefix (key_prefix db coll) (discard (wild db coll) m.fences) },
  )
  unfence_partitions db coll (p ∷ parts) m = (
    ok tt,
    record m {
      fences = discard_all (keys_of db coll (p ∷ parts)) (discard (wild db coll) m.fences);
    },
  )
