-- ===== src/Services/Coordination.antt =====
-- Writer and Reader around a write: `with_reader_released` and the notifications of
-- xvector/services/context.py, and the internal endpoints of xvector/api/reader_app.py and
-- xvector/api/writer_app.py. The disk is shared by the two processes; an endpoint runs as a whole,
-- as the Reader's lock has it. A request to the other process may be lost.
pub mod Released
pub mod Refresh
pub mod Notices
pub mod Undisturbed
use xvector.Prelude.{
  ℕ, String, Bool, true, false, not, ◌&&◌, Option, none, some, List, [], ◌∷◌, ◌==◌, if◌then◌else◌,
}
use xvector.Errors.{Result, ok, err}
use xvector.Text.{is_empty}
use xvector.Paths.{default_partition}
use xvector.Engine.{Disk}
use xvector.Engine.Handles.{Manager, has_wal, fence_partitions, unfence_partitions}
use xvector.Engine.Handles.Opens.{
  open_partition, close_partition, close_collection, flush_partition,
}

-- the Writer's manager, the Reader's, and what they both work on
pub record System (H F : Type 0) : Type 0 where
  pub writer : Manager H F
  pub reader : Manager H F
  pub files : F

-- the retries that `flush_partition` has by default
abbrev pub flush_retries : ℕ
flush_retries = 8

-- body.partitionNames or [DEFAULT_PARTITION]
abbrev pub or_default : List String → List String
or_default [] = default_partition ∷ []
or_default (p ∷ parts) = p ∷ parts

abbrev pub or_else_parts : List String → List String → List String
or_else_parts [] parts = parts
or_else_parts (p ∷ ps) parts = p ∷ ps

-- fence is true where it is not given
abbrev pub fences_by : Option Bool → Bool
fences_by none = true
fences_by (some fence) = fence

module _ {H F : Type 0} (disk : Disk H F) where
  -- a call of one of the managers, on the files as they are
  unfoldable pub on_reader :
      {A : Type 0} → (Manager H F → A × Manager H F) → System H F → A × System H F
  on_reader call s =
      let r = call (record s.reader { files = s.files }) in
      (r.0, record s { reader = r.1; files = r.1.files })

  unfoldable pub on_writer :
      {A : Type 0} → (Manager H F → A × Manager H F) → System H F → A × System H F
  on_writer call s =
      let r = call (record s.writer { files = s.files }) in
      (r.0, record s { writer = r.1; files = r.1.files })

  abbrev pub opened_then :
      Result H × Manager H F → (Manager H F → Bool × Manager H F) → Bool × Manager H F
  opened_then (ok h, m) rest = rest m
  opened_then (err e, m) rest = (false, m)

  -- the first partition that cannot be opened ends the request
  unfoldable pub open_all : String → String → List String → Manager H F → Bool × Manager H F
  open_all db coll [] m = (true, m)
  open_all db coll (p ∷ parts) m =
      if has_wal disk m db coll p
      then open_all db coll parts m
      else opened_then (open_partition disk db coll p true false 0 m) (open_all db coll parts)

  unfoldable pub internal_open : String → String → List String → Manager H F → Bool × Manager H F
  unfolding open_all
  internal_open db coll parts m =
      open_all db coll (or_default parts) (unfence_partitions disk db coll (or_default parts) m).1

  unfoldable pub close_all : String → String → List String → Manager H F → Manager H F
  close_all db coll [] m = m
  close_all db coll (p ∷ parts) m =
      close_all db coll parts (close_partition disk db coll p none m).1

  abbrev pub close_without_fence : String → String → List String → Manager H F → Manager H F
  close_without_fence db coll [] m = (close_collection disk db coll m).1
  close_without_fence db coll (p ∷ parts) m = close_all db coll (p ∷ parts) m

  unfoldable pub internal_close :
      String → String → List String → Option Bool → Manager H F → Bool × Manager H F
  unfolding close_all
  internal_close db coll parts fence m =
      if fences_by fence
      then (true, (fence_partitions disk db coll parts m).1)
      else (true, close_without_fence db coll parts m)

  unfoldable pub internal_unfence : String → String → List String → Manager H F → Bool × Manager H F
  internal_unfence db coll parts m = (true, (unfence_partitions disk db coll parts m).1)

  abbrev pub flush_outcome : Result (Unit {0}) → Bool → Bool
  flush_outcome (ok u) others = others
  flush_outcome (err e) others = false

  -- every partition is tried
  unfoldable pub flush_all : String → String → List String → Manager H F → Bool × Manager H F
  flush_all db coll [] m = (true, m)
  flush_all db coll (p ∷ parts) m =
      let r = flush_partition disk db coll p flush_retries m in
      let rest = flush_all db coll parts r.1 in (flush_outcome r.0 rest.0, rest.1)

  -- the Writer's endpoint, which takes the token of the settings where there is one
  unfoldable pub internal_flush :
      String → String → String → String → List String → Manager H F → Bool × Manager H F
  unfolding flush_all
  internal_flush internal_token token db coll parts m =
      if not (is_empty internal_token) && not (token == internal_token)
      then (false, m)
      else flush_all db coll (or_default parts) m

  -- notify_reader(..., require_ok=False), whose request arrives or is lost
  unfoldable pub notify_reader : Bool → (Manager H F → Bool × Manager H F) → System H F → System H F
  unfolding on_reader
  notify_reader true endpoint s = (on_reader endpoint s).1
  notify_reader false endpoint s = s

  -- for p in open_parts: the Writer seals what has a WAL, and goes on when that fails
  unfoldable pub seal_parts : String → String → List String → System H F → System H F
  unfolding on_writer
  seal_parts db coll [] s = s
  seal_parts db coll (p ∷ parts) s =
      if has_wal disk (record s.writer { files = s.files }) db coll p
      then seal_parts db coll parts (on_writer (flush_partition disk db coll p flush_retries) s).1
      else seal_parts db coll parts s

  -- before the body: fence=True
  unfoldable pub release : Bool → String → String → List String → System H F → System H F
  unfolding notify_reader internal_close
  release delivered db coll parts s =
      notify_reader delivered (internal_close db coll parts (some true)) s

  -- behind the body, however it ended; `open_parts` are the given partitions, or the loaded ones, or
  -- all of them
  unfoldable pub restore :
      Bool → Bool → String → String → List String → List String → System H F → System H F
  unfolding notify_reader seal_parts internal_open internal_unfence
  restore delivered was_loaded db coll parts others s =
      let sealed = seal_parts db coll (or_else_parts parts others) s in
      if was_loaded
      then notify_reader delivered (internal_open db coll (or_else_parts parts others)) sealed
      else notify_reader delivered (internal_unfence db coll parts) sealed

  abbrev pub with_result :
      {A : Type 0} → (System H F → System H F) → A × System H F → A × System H F
  with_result finish (a, s) = (a, finish s)

  -- async with self.ctx.with_reader_released(db, coll, parts): body
  unfoldable pub with_reader_released :
      {A : Type 0}
      → Bool
      → Bool
      → Bool
      → String
      → String
      → List String
      → List String
      → (System H F → Result A × System H F)
      → System H F
      → Result A × System H F
  unfolding release restore
  with_reader_released close_delivered end_delivered was_loaded db coll parts others body s =
      with_result (restore end_delivered was_loaded db coll parts others)
        (body (release close_delivered db coll parts s))
