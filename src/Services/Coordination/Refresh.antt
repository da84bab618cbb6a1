-- ===== src/Services/Coordination/Refresh.antt =====
-- The refresh loop of the Reader in xvector/api/reader_app.py, and the request by which it has the
-- Writer seal a partition (`seal_partitions_via_writer` of xvector/services/context.py). What the
-- catalog answers in a round is an argument.
use xvector.Prelude.{String, Bool, true, false, not, ◌&&◌, some, List, [], ◌∷◌, if◌then◌else◌}
use xvector.Engine.{Disk}
use xvector.Engine.Handles.{is_fenced, has_wal}
use xvector.Engine.Handles.Opens.{open_partition, close_partition, close_collection}
use xvector.Services.Coordination.{
  System, or_default, or_else_parts, on_reader, on_writer, internal_flush,
}

-- a collection of the catalog, with its load state and its partitions
pub record Listed : Type 0 where
  pub db : String
  pub coll : String
  pub loaded : Bool
  pub partition_names : List String
  pub partitions : List String

module _ {H F : Type 0} (disk : Disk H F) where
  -- notify_writer("/internal/flush", ..., require_ok=False), with the token of the settings
  unfoldable pub seal_via_writer :
      Bool → String → String → String → List String → System H F → System H F
  unfolding on_writer internal_flush
  seal_via_writer true internal_token db coll parts s =
      (on_writer disk (internal_flush disk internal_token internal_token db coll parts) s).1
  seal_via_writer false internal_token db coll parts s = s

  abbrev pub pending : String → String → String → System H F → Bool
  pending db coll p s = has_wal disk (record s.reader { files = s.files }) db coll p

  -- never open with a pending WAL; what opening raises is logged
  unfoldable pub reopen_sealed : String → String → String → System H F → System H F
  unfolding on_reader
  reopen_sealed db coll p s =
      if pending db coll p s
      then s
      else (on_reader disk (open_partition disk db coll p true false 0) s).1

  unfoldable pub seal_pending : Bool → String → String → String → String → System H F → System H F
  unfolding seal_via_writer
  seal_pending delivered internal_token db coll p s =
      if pending db coll p s then seal_via_writer delivered internal_token db coll (p ∷ []) s else s

  -- one partition of the loop
  unfoldable pub refresh_partition :
      Bool → String → String → String → String → System H F → System H F
  unfolding on_reader reopen_sealed seal_pending
  refresh_partition delivered internal_token db coll p s =
      if is_fenced s.reader db coll p
      then s
      else reopen_sealed db coll p (
          seal_pending delivered internal_token db coll p
            (on_reader disk (close_partition disk db coll p (some false)) s).1)

  unfoldable pub refresh_partitions :
      Bool → String → String → String → List String → System H F → System H F
  unfolding refresh_partition
  refresh_partitions delivered internal_token db coll [] s = s
  refresh_partitions delivered internal_token db coll (p ∷ parts) s =
      refresh_partitions delivered internal_token db coll parts
        (refresh_partition delivered internal_token db coll p s)

  -- a collection that is not loaded is closed, unless loading is automatic
  unfoldable pub refresh_collection : Bool → Bool → String → Listed → System H F → System H F
  unfolding refresh_partitions on_reader
  refresh_collection auto_load delivered internal_token c s =
      if not c.loaded && not auto_load
      then (on_reader disk (close_collection disk c.db c.coll) s).1
      else refresh_partitions delivered internal_token c.db c.coll
          (or_default (or_else_parts c.partition_names c.partitions)) s

  unfoldable pub refresh_all : Bool → Bool → String → List Listed → System H F → System H F
  unfolding refresh_collection
  refresh_all auto_load delivered internal_token [] s = s
  refresh_all auto_load delivered internal_token (c ∷ cs) s =
      refresh_all auto_load delivered internal_token cs
        (refresh_collection auto_load delivered internal_token c s)
