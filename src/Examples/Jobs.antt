-- ===== src/Examples/Jobs.antt =====
-- An import job over one local file and one on S3, and the insertion of its rows.
use xvector.Prelude.{String, refl, true, some, List, [], ◌∷◌, ◌++◌, arith}
use xvector.Errors.{ok}
use xvector.Json.{Json, num, arr, nil, cons}
use xvector.Services.Imports.{World, Run, json, new_job, run_job, import_batches}
use xvector.Services.Imports.Runs.{Over, created, run_job-Over}
use xvector.Services.Imports.Batches.{IsImported, import_batches-IsImported}

abbrev world : World (List Json)
world = record {
  s3_enabled = true;
  download = λ uri. ok "/tmp/rows.json";
  read = λ path. some "[1, 2]";
  splitlines = λ text. [];
  loads = λ text. ok (arr (cons (num 1) (cons (num 2) nil)));
  insert = λ rows chunk. (ok tt, rows ++ chunk);
}

abbrev files : List String
files = "/data/a.json" ∷ "s3://bucket/b.json" ∷ []

run_job-Over_example : Over world (run_job world (created world "j1" files json []))
run_job-Over_example = run_job-Over world "j1" files json []

abbrev three_rows : List Json
three_rows = num 1 ∷ num 2 ∷ num 3 ∷ []

abbrev fresh_run : Run (List Json)
fresh_run = record { job = new_job "j1" files json; published = []; rows = [] }

import_batches-IsImported_example :
    IsImported world three_rows [] (import_batches world 3 three_rows 0 fresh_run)
import_batches-IsImported_example =
    import_batches-IsImported world (λ i chunk. refl) 3 three_rows 0 fresh_run (omega arith)
