-- ===== src/Services/Imports.antt =====
-- `ImportService` of xvector/services/import_job.py: a job reads its files and inserts their rows
-- in batches. The files, the S3 client, the JSON parser and the insertion of a batch are the
-- parameter `w`. A job is published by writing it to the catalog, the last one first.
pub mod Steps
pub mod Runs
pub mod Batches
use Prim.Native.String.{[], ◌∷◌}
use xvector.Prelude.{
  ◌==◌, ℕ, zero, suc, ◌+◌, ◌*◌, ◌/◌, String, Bool, true, false, Option, none, some, List, [], ◌∷◌,
  ◌++◌, leb, if◌then◌else◌,
}
use xvector.Prelude.Lists.{length, take, drop}
use text.Mathlib.Text.{starts_with}
use xvector.Errors.{Error, Result, ok, err, param, type_error}
use xvector.Exec.{Exec, pure, raise, lift, ◌>>=◌, ◌>>◌}
use xvector.Text.{strip, is_empty}
use xvector.Json.Reads.{field_of, elements}
use xvector.Json.{
  Json, null, bool, num, str, arr, obj, Items, nil, cons, Fields, end, field, Doc, get_value,
  or_else, is_text, truthy,
}

pub data JobState : Type 0 where
  pending downloading parsing importing completed failed : JobState

pub data Format : Type 0 where
  json jsonl : Format

pub record Job : Type 0 where
  pub job_id : String
  pub files : List String
  pub format : Format
  pub state : JobState
  pub progress : ℕ
  pub imported_rows : ℕ
  pub total_rows : ℕ
  pub error : Option Error
  -- whether finished_at is set
  pub finished : Bool

-- `I` is what the insertions fill
pub record World (I : Type 0) : Type 0 where
  pub s3_enabled : Bool
  -- client.download_file(...): where the file is
  pub download : String → Result String
  -- path.read_text(), where the path exists
  pub read : String → Option String
  pub splitlines : String → List String
  pub loads : String → Result Json
  pub insert : I → List Json → Result (Unit {0}) × I

pub record Run (I : Type 0) : Type 0 where
  pub job : Job
  pub published : List Job
  pub rows : I

-- the job that `create` makes
unfoldable pub new_job : String → List String → Format → Job
new_job job_id files format = record {
  job_id = job_id;
  files = files;
  format = format;
  state = pending;
  progress = 0;
  imported_rows = 0;
  total_rows = 0;
  error = none;
  finished = false;
}

abbrev pub keys_of : Fields → List Json
keys_of end = []
keys_of (field k v fs) = str k ∷ keys_of fs

abbrev pub characters : String → List Json
characters [] = []
characters (c ∷ s) = str (c ∷ []) ∷ characters s

-- list(v)
unfoldable pub as_list : Json → Result (List Json)
unfolding elements
as_list (arr vs) = ok (elements vs)
as_list (obj fs) = ok (keys_of fs)
as_list (str s) = ok (characters s)
as_list _ = err type_error

abbrev pub data_rows : Option Json → Result (List Json)
data_rows none = err param
data_rows (some v) = as_list v

abbrev pub either_rows : Option Json → Option Json → Result (List Json)
either_rows none other = data_rows other
either_rows (some v) other = as_list v

-- the rows of a JSON file: a list, or that of "rows" or "data"
unfoldable pub rows_of : Json → Result (List Json)
unfolding field_of as_list elements
rows_of (arr vs) = ok (elements vs)
rows_of (obj fs) = either_rows (field_of "rows" fs) (field_of "data" fs)
rows_of _ = err param

abbrev pub with_row : Json → Result (List Json) → Result (List Json)
with_row v (ok rows) = ok (v ∷ rows)
with_row v (err e) = err e

abbrev pub started : JobState → Job → Job
started state job = record job { state = state }

abbrev pub counted : ℕ → Job → Job
counted total job = record job { total_rows = total; state = importing }

-- max(a, 1)
abbrev pub at_least_one : ℕ → ℕ
at_least_one zero = 1
at_least_one (suc n) = suc n

-- int(imported * 100 / max(total, 1)), which a float holds exactly enough below 2 ^ 46 rows
unfoldable pub percent : ℕ → ℕ → ℕ
percent imported total = imported * 100 / at_least_one total

abbrev pub advanced : ℕ → Job → Job
advanced imported job = record job {
  imported_rows = imported;
  progress = percent imported job.total_rows;
}

abbrev pub finished_job : Job → Job
finished_job job = record job { state = completed; progress = 100; finished = true }

abbrev pub failed_job : Error → Job → Job
failed_job e job = record job { state = failed; error = some e; finished = true }

-- the rows of one batch
abbrev pub batch : ℕ
batch = 500

module _ {I : Type 0} (w : World I) where
  abbrev pub M : Type 0 → Type 0
  M A = Exec (Run I) A

  -- the job is changed and put into the catalog
  unfoldable pub put_job : (Job → Job) → M (Unit {0})
  put_job change s =
      (ok tt, record s { job = change s.job; published = change s.job ∷ s.published })

  unfoldable pub download_s3 : String → Result String
  download_s3 uri = if w.s3_enabled then w.download uri else err param

  unfoldable pub parse_lines : List String → Result (List Json)
  parse_lines [] = ok []
  parse_lines (line ∷ lines) =
      if is_empty (strip line)
      then parse_lines lines
      else elim (w.loads (strip line)) [ ok v ↦ with_row v (parse_lines lines) | err e ↦ err e ]

  abbrev pub parsed : Result Json → Result (List Json)
  parsed (ok v) = rows_of v
  parsed (err e) = err e

  abbrev pub parse_text : Format → Option String → Result (List Json)
  parse_text format none = err param
  parse_text jsonl (some text) = parse_lines (w.splitlines text)
  parse_text json (some text) = parsed (w.loads text)

  unfoldable pub parse_file : String → Format → Result (List Json)
  unfolding parse_lines rows_of
  parse_file path format = parse_text format (w.read path)

  -- one of the files, downloaded if it is on S3
  unfoldable pub fetch_file : String → M String
  fetch_file f =
      if starts_with f "s3://"
      then (do put_job (started downloading); lift (download_s3 f))
      else pure f

  -- for f in job["files"]
  unfoldable pub fetch_files : List String → M (List String)
  fetch_files [] = pure []
  fetch_files (f ∷ files) = do path ← fetch_file f; paths ← fetch_files files; pure (path ∷ paths)

  -- for path in local_files: rows.extend(...)
  unfoldable pub parse_files : Format → List String → M (List Json)
  parse_files format [] = pure []
  parse_files format (path ∷ paths) = do
    rows ← lift (parse_file path format)
    more ← parse_files format paths
    pure (rows ++ more)

  unfoldable pub insert_batch : List Json → M (Unit {0})
  insert_batch chunk s = let r = w.insert s.rows chunk in (r.0, record s { rows = r.1 })

  -- for i in range(0, len(rows), batch), where there are at most so many rounds
  unfoldable pub import_batches : ℕ → List Json → ℕ → M (Unit {0})
  import_batches n [] imported = pure tt
  import_batches zero (row ∷ rows) imported = pure tt
  import_batches (suc n) (row ∷ rows) imported = do
    insert_batch (take batch (row ∷ rows))
    put_job (advanced (imported + length (take batch (row ∷ rows))))
    import_batches n (drop batch (row ∷ rows)) (imported + length (take batch (row ∷ rows)))

  unfoldable pub run_steps : M (Unit {0})
  run_steps s =
      (do
        paths ← fetch_files s.job.files
        put_job (started parsing)
        rows ← parse_files s.job.format paths
        put_job (counted (length rows))
        import_batches (length rows) rows 0
        put_job finished_job)
        s

  -- except Exception as e: the job has failed, and the exception goes on
  abbrev pub recorded : Result (Unit {0}) × Run I → Result (Unit {0}) × Run I
  recorded (ok u, s) = (ok u, s)
  recorded (err e, s) = (put_job (failed_job e) >> raise e) s

  unfoldable pub run_job_async : M (Unit {0})
  unfolding run_steps
  run_job_async s = recorded (run_steps s)

  -- the thread's own handler fails the job that the catalog has once more
  abbrev pub caught : Result (Unit {0}) × Run I → Run I
  caught (ok u, s) = s
  caught (err e, s) = (put_job (failed_job e) s).1

  unfoldable pub run_job : Run I → Run I
  unfolding run_job_async put_job
  run_job s = caught (run_job_async s)
