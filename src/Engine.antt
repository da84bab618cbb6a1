-- ===== src/Engine.antt =====
-- What xvector/engine/partition_layout.py and xvector/engine/collection_mgr.py ask of the disk and
-- of the zvec library. Both are the parameter `Disk`: `F` is what they hold, and `H` is the handle
-- of an open collection.
pub mod Handles
pub mod Indexes
use Prim.Native.String.{[], ◌∷◌}
use xvector.Prelude.{
  ℕ, String, code, Bool, true, false, ◌&&◌, ◌||◌, Option, ◌==◌, nat_beq, if◌then◌else◌,
}
use xvector.Text.{is_empty, lower_code}
use xvector.Paths.{default_partition, FilePath, partition_dir}

-- how `zvec.open` ends: with a handle, or with an exception of this message
pub data Opening (H : Type 0) : Type 0 where
  handle : H → Opening H
  raises : String → Opening H

pub record Disk (H F : Type 0) : Type 0 where
  pub exists : F → FilePath → Bool
  -- whether a file *.wal lies below the directory
  pub has_wal_file : F → FilePath → Bool
  pub open_collection : F → FilePath → Bool → Opening H × F
  -- coll.flush(), and whether it returned
  pub flush : F → H → Bool × F
  -- the last reference goes
  pub drop_handle : F → H → F
  -- what the other processes do in time.sleep
  pub sleep : F → F

unfoldable pub partition_kind : String → String
partition_kind partition_name =
    if partition_name == default_partition then "default_dir" else "explicit_dir"

-- partition_name or DEFAULT_PARTITION
unfoldable pub resolve_partition_path : FilePath → String → String → String → FilePath
resolve_partition_path root db_name collection_name partition_name =
    partition_dir root db_name collection_name
      (if is_empty partition_name then default_partition else partition_name)

-- p is a prefix of s.lower(), for ASCII messages
unfoldable pub lower_starts : String → String → Bool
lower_starts [] s = true
lower_starts (c ∷ p) [] = false
lower_starts (c ∷ p) (d ∷ s) = nat_beq (code c) (lower_code (code d)) && lower_starts p s

-- p in s.lower()
unfoldable pub lower_contains : String → String → Bool
unfolding lower_starts
lower_contains p [] = is_empty p
lower_contains p (d ∷ s) = lower_starts p (d ∷ s) || lower_contains p s

-- `_is_lock_error` of an exception with this message
unfoldable pub is_lock_error : String → Bool
is_lock_error msg =
    lower_contains "can't lock" msg
    || lower_contains "cannot lock" msg
    || (lower_contains "lock" msg && lower_contains "collection" msg)
