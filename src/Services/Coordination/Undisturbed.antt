-- ===== src/Services/Coordination/Undisturbed.antt =====
-- The refresh loop of the Reader beside a write.
use Prim.Native.String.{[], ◌∷◌}
use xvector.Prelude.{String, Bool, true, false, not, ◌&&◌, some, List, [], ◌∷◌, if◌then◌else◌, ◌≡◌}
use xvector.Text.{Lacks}
use xvector.Meta.Catalog.{mem}
use xvector.Engine.{Disk}
use xvector.Engine.Handles.{Manager, key, key_prefix, keys, with_prefix, is_fenced}
use xvector.Engine.Handles.Opens.{close_partition, close_collection}
use xvector.Engine.Handles.Fences.{
  IsShut, with_files-IsShut, pop-IsShut, pop_all-IsShut, open_partition-IsShut,
}
use xvector.Services.Coordination.{
  System, or_default, or_else_parts, on_reader, on_writer, notify_reader, release,
}
use xvector.Services.Coordination.Notices.{Notice, IsElsewhere, endpoint, endpoint-IsShut}
use xvector.Services.Coordination.Released.{release-shuts}
use xvector.Services.Coordination.Refresh.{
  Listed, seal_via_writer, reopen_sealed, seal_pending, refresh_partition, refresh_partitions,
  refresh_collection, refresh_all, pending,
}

-- What happens while a write goes on: the Writer works on its manager and on the files, one of its
-- other operations notifies the Reader, or the Reader's loop makes a round over what the catalog
-- lists.
pub data Event (H F : Type 0) : Type 0 where
  work : Manager H F → F → Event H F
  told : Notice → Event H F
  refreshed : (delivered : Bool) → List Listed → Event H F

-- The names of the collections have no "/".
abbrev pub AreNamed : List Listed → Type 0
AreNamed [] = Unit
AreNamed (c ∷ cs) = (Lacks b'/' c.db × Lacks b'/' c.coll) × AreNamed cs

abbrev pub LeaveAlone : {H F : Type 0} → String → String → List (Event H F) → Type 0
LeaveAlone db coll [] = Unit
LeaveAlone db coll (work m files ∷ events) = LeaveAlone db coll events
LeaveAlone db coll (told notice ∷ events) = IsElsewhere db coll notice × LeaveAlone db coll events
LeaveAlone db coll (refreshed delivered cs ∷ events) = AreNamed cs × LeaveAlone db coll events

module _ {H F : Type 0} (disk : Disk H F) (auto_load : Bool) (internal_token : String) where
  unfoldable pub happen : List (Event H F) → System H F → System H F
  happen [] s = s
  happen (work m files ∷ events) s = happen events (record s { writer = m; files = files })
  happen (told notice ∷ events) s = happen events (notify_reader disk true (endpoint disk notice) s)
  happen (refreshed delivered cs ∷ events) s =
      happen events (refresh_all disk auto_load delivered internal_token cs s)

  module _ (db coll part : String) (names : Lacks b'/' db × Lacks b'/' coll) where
    abbrev Shut : System H F → Type 0
    Shut s = IsShut disk db coll part s.reader

    if-Shut : (b : Bool) (s t : System H F) → Shut s → Shut t → Shut (if b then s else t)
    if-Shut true s t h k = h
    if-Shut false s t h k = k

    seal-Shut :
        (delivered : Bool) (db' coll' p : String) (s : System H F)
        → Shut s
        → Shut (seal_pending disk delivered internal_token db' coll' p s)
    unfolding seal_pending seal_via_writer on_writer
    seal-Shut true db' coll' p s h = if-Shut (pending disk db' coll' p s) _ s h h
    seal-Shut false db' coll' p s h = if-Shut (pending disk db' coll' p s) s s h h

    reopen-Shut :
        (db' coll' p : String) (s : System H F)
        → Lacks b'/' db' × Lacks b'/' coll'
        → Shut s
        → Shut (reopen_sealed disk db' coll' p s)
    unfolding reopen_sealed on_reader
    reopen-Shut db' coll' p s (h₂, h₃) h = if-Shut (pending disk db' coll' p s) s _ h (
        open_partition-IsShut disk db coll part db' coll' p true 0
          (record s.reader { files = s.files }) (names.0, names.1, h₂, h₃)
          (with_files-IsShut disk db coll part s.reader s.files h))

    refresh_partition-Shut :
        (delivered : Bool) (db' coll' p : String) (s : System H F)
        → Lacks b'/' db' × Lacks b'/' coll'
        → Shut s
        → Shut (refresh_partition disk delivered internal_token db' coll' p s)
    unfolding refresh_partition on_reader close_partition
    refresh_partition-Shut delivered db' coll' p s n h =
        let closed = (on_reader disk (close_partition disk db' coll' p (some false)) s).1 in
        if-Shut (is_fenced s.reader db' coll' p) s _ h (
          reopen-Shut db' coll' p (seal_pending disk delivered internal_token db' coll' p closed) n
            (seal-Shut delivered db' coll' p closed (
              pop-IsShut disk db coll part (key db' coll' p) false
                (record s.reader { files = s.files })
                (with_files-IsShut disk db coll part s.reader s.files h))))

    refresh_partitions-Shut :
        (delivered : Bool) (db' coll' : String) (parts : List String) (s : System H F)
        → Lacks b'/' db' × Lacks b'/' coll'
        → Shut s
        → Shut (refresh_partitions disk delivered internal_token db' coll' parts s)
    unfolding refresh_partitions
    refresh_partitions-Shut delivered db' coll' [] s n h = h
    refresh_partitions-Shut delivered db' coll' (p ∷ parts) s n h =
        refresh_partitions-Shut delivered db' coll' parts
          (refresh_partition disk delivered internal_token db' coll' p s) n
          (refresh_partition-Shut delivered db' coll' p s n h)

    refresh_collection-Shut :
        (delivered : Bool) (c : Listed) (s : System H F)
        → Lacks b'/' c.db × Lacks b'/' c.coll
        → Shut s
        → Shut (refresh_collection disk auto_load delivered internal_token c s)
    unfolding refresh_collection on_reader close_collection
    refresh_collection-Shut delivered c s n h =
        if-Shut (not c.loaded && not auto_load) _ _
          (pop_all-IsShut disk db coll part
            (with_prefix (key_prefix c.db c.coll) (keys s.reader.handles))
            (record s.reader { files = s.files })
            (with_files-IsShut disk db coll part s.reader s.files h))
          (refresh_partitions-Shut delivered c.db c.coll
            (or_default (or_else_parts c.partition_names c.partitions)) s n h)

    refresh_all-Shut :
        (delivered : Bool) (cs : List Listed) (s : System H F)
        → AreNamed cs
        → Shut s
        → Shut (refresh_all disk auto_load delivered internal_token cs s)
    unfolding refresh_all
    refresh_all-Shut delivered [] s n h = h
    refresh_all-Shut delivered (c ∷ cs) s (n, ns) h =
        refresh_all-Shut delivered cs
          (refresh_collection disk auto_load delivered internal_token c s) ns
          (refresh_collection-Shut delivered c s n h)

    told-Shut :
        (notice : Notice) (s : System H F)
        → IsElsewhere db coll notice
        → Shut s
        → Shut (notify_reader disk true (endpoint disk notice) s)
    unfolding notify_reader on_reader
    told-Shut notice s n h =
        endpoint-IsShut disk db coll part names notice (record s.reader { files = s.files }) n
          (with_files-IsShut disk db coll part s.reader s.files h)

    happen-Shut :
        (events : List (Event H F)) (s : System H F)
        → LeaveAlone db coll events
        → Shut s
        → Shut (happen events s)
    unfolding happen
    happen-Shut [] s n h = h
    happen-Shut (work m files ∷ events) s n h =
        happen-Shut events (record s { writer = m; files = files }) n h
    happen-Shut (told notice ∷ events) s (n, ns) h =
        happen-Shut events (notify_reader disk true (endpoint disk notice) s) ns
          (told-Shut notice s n h)
    happen-Shut (refreshed delivered cs ∷ events) s (n, ns) h =
        happen-Shut events (refresh_all disk auto_load delivered internal_token cs s) ns
          (refresh_all-Shut delivered cs s n h)

  -- After the notification before a write has arrived, every partition of the write stays fenced and
  -- closed in the Reader, whatever the Writer does to its manager and the files, however often the
  -- Reader's loop makes a round, and whatever notifications other operations send, as long as those
  -- that open or unfence are about other collections; names have no "/".
  pub write_undisturbed :
      (db coll part : String) (parts : List String) (events : List (Event H F)) (s : System H F)
      → Lacks b'/' db × Lacks b'/' coll
      → LeaveAlone db coll events
      → s.reader.read_only ≡ true
      → mem part parts ≡ true
      → IsShut disk db coll part (happen events (release disk true db coll parts s)).reader
  write_undisturbed db coll part parts events s names n r h =
      happen-Shut db coll part names events (release disk true db coll parts s) n
        (release-shuts disk db coll part parts s r h)
