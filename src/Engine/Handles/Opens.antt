-- ===== src/Engine/Handles/Opens.antt =====
-- Opening, closing and flushing partitions: the rest of `CollectionManager` of
-- xvector/engine/collection_mgr.py, but for `create_partition_collection` and `optimize`.
use Prim.Native.String.{◌++◌}
use xvector.Prelude.{
  ℕ, suc, zero, String, Bool, true, false, not, ◌&&◌, Option, none, some, List, [], ◌∷◌,
  if◌then◌else◌,
}
use xvector.Errors.{Error, Result, ok, err, fenced, file_not_found, runtime, guard}
use xvector.Exec.{lift, ◌>>=◌}
use xvector.Dict.{get, set}
use xvector.Engine.{Disk, Opening, handle, raises, resolve_partition_path, is_lock_error}
use xvector.Engine.Handles.{
  Manager, key, key_prefix, keys, with_prefix, split_key, blocked, reopenable, M, has_wal,
  with_files, pop, pop_all,
}

-- how one round of `open_partition` ends; a message is that of an exception which the round's `try`
-- catches
pub data Round (H : Type 0) : Type 0 where
  got : H → Round H
  refused : Error → Round H
  failed : String → Round H

abbrev pub wal_message : String → String → String → String
wal_message db coll part =
    "pending WAL blocks read-only open: " ++ key db coll part ++ "; writer must flush/seal first"

module _ {H F : Type 0} (disk : Disk H F) where
  abbrev pub cached : String → Opening H × F → Manager H F → Round H × Manager H F
  cached k (handle h, files) m = (got h, record m { handles = set m.handles k h; files = files })
  cached k (raises msg, files) m = (failed msg, record m { files = files })

  -- the second time the lock is held: open the collection, unless it is open or must stay closed
  abbrev pub open_new :
      Bool → String → String → String → Option H → Manager H F → Round H × Manager H F
  open_new allow db coll part (some h) m = (got h, m)
  open_new allow db coll part none m =
      if m.read_only && has_wal disk m db coll part
      then (failed (wal_message db coll part), m)
      else cached (key db coll part)
          (disk.open_collection m.files (resolve_partition_path m.root db coll part) m.read_only) m

  unfoldable pub open_held : Bool → String → String → String → Manager H F → Round H × Manager H F
  open_held allow db coll part m =
      if blocked allow m db coll part
      then (refused fenced, m)
      else open_new allow db coll part (get m.handles (key db coll part)) m

  -- old = self._handles.pop(k), released outside the lock
  abbrev pub reopen_held : Bool → String → String → String → Manager H F → Round H × Manager H F
  reopen_held allow db coll part m =
      open_held allow db coll part (pop disk (key db coll part) (not m.read_only) m).1

  -- the first time: a handle that is cached is returned, or given up for a new one
  abbrev pub open_cached :
      Bool → Bool → String → String → String → Option H → Manager H F → Round H × Manager H F
  open_cached force allow db coll part none m = open_held allow db coll part m
  open_cached force allow db coll part (some h) m =
      if force then reopen_held allow db coll part m else (got h, m)

  unfoldable pub open_round :
      Bool → Bool → String → String → String → Manager H F → Round H × Manager H F
  open_round force allow db coll part m =
      if blocked allow m db coll part
      then (refused fenced, m)
      else open_cached force allow db coll part (get m.handles (key db coll part)) m

  -- a lock error is tried again after a pause
  abbrev pub settle_round : Round H × Manager H F → M disk H → Result H × Manager H F
  settle_round (got h, m) again = (ok h, m)
  settle_round (refused e, m) again = (err e, m)
  settle_round (failed msg, m) again =
      if is_lock_error msg then again (with_files disk m (disk.sleep m.files)) else (err runtime, m)

  abbrev pub last_round : Round H × Manager H F → Result H × Manager H F
  last_round (got h, m) = (ok h, m)
  last_round (refused e, m) = (err e, m)
  last_round (failed msg, m) = (err runtime, m)

  -- `while True`, with the retries that are left
  unfoldable pub open_rounds : ℕ → Bool → Bool → String → String → String → M disk H
  open_rounds zero force allow db coll part m = last_round (open_round force allow db coll part m)
  open_rounds (suc n) force allow db coll part m =
      settle_round (open_round force allow db coll part m) (open_rounds n force allow db coll part)

  unfoldable pub open_partition : String → String → String → Bool → Bool → ℕ → M disk H
  open_partition db coll part force allow retries m =
      if disk.exists m.files (resolve_partition_path m.root db coll part)
      then open_rounds retries force allow db coll part m
      else (err file_not_found, m)

  abbrev pub flush_choice : Manager H F → Option Bool → Bool
  flush_choice m none = not m.read_only
  flush_choice m (some flush) = flush

  unfoldable pub close_partition : String → String → String → Option Bool → M disk Bool
  close_partition db coll part flush m = pop disk (key db coll part) (flush_choice m flush) m

  abbrev pub flushed_in : Manager H F → Bool × F → Result Bool × Manager H F
  flushed_in m (flushed, files) = (ok flushed, record m { files = files })

  -- handle.flush(), and whether it returned
  abbrev pub flush_handle : H → M disk Bool
  flush_handle h m = flushed_in m (disk.flush m.files h)

  -- flush what is open in place; otherwise open, flush and close, and insist that no WAL is left
  abbrev pub flush_held : String → String → String → ℕ → Option H → M disk (Unit {0})
  flush_held db coll part retries (some h) = do
    flushed ← flush_handle h
    lift (guard flushed runtime)
  flush_held db coll part retries none = do
    h ← open_partition db coll part false false retries
    flushed ← flush_handle h
    closed ← close_partition db coll part (some true)
    λ m. (guard (closed && not (has_wal disk m db coll part) && flushed) runtime, m)

  unfoldable pub flush_partition : String → String → String → ℕ → M disk (Unit {0})
  flush_partition db coll part retries m =
      if m.read_only
      then (err runtime, m)
      else flush_held db coll part retries (get m.handles (key db coll part)) m

  unfoldable pub close_collection : String → String → M disk (Unit {0})
  close_collection db coll m = pop_all disk (with_prefix (key_prefix db coll) (keys m.handles)) m

  -- `reopen_all` logs what one partition raises and goes on
  abbrev pub open_split : Option (String × String × String) → Manager H F → Manager H F
  open_split none m = m
  open_split (some (db, coll, part)) m = (open_partition db coll part true false 0 m).1

  unfoldable pub open_each : List String → Manager H F → Manager H F
  open_each [] m = m
  open_each (k ∷ ks) m = open_each ks (open_split (split_key k) m)

  unfoldable pub reopen_all : M disk (Unit {0})
  reopen_all m =
      let ks = reopenable m (keys m.handles) in (ok tt, open_each ks (pop_all disk ks m).1)
