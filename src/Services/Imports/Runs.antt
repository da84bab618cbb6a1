-- ===== src/Services/Imports/Runs.antt =====
-- A run of an import job from its start to its end.
use xvector.Prelude.{
  ℕ, zero, suc, ◌+◌, ◌≤◌, ◌≡◌, refl, sym, ◌⊎◌, inl, inr, List, [], ◌∷◌, arith, Bool-cases, subst,
  String,
}
use xvector.Prelude.Lists.{length, take, drop, none_left, both, All-heads, length-take-drop}
use text.Mathlib.Text.{starts_with}
use xvector.Errors.{Error, Result, ok, err}
use xvector.Exec.{next, lift}
use xvector.Json.{Json}
use xvector.Services.Imports.{
  JobState, downloading, parsing, importing, completed, failed, World, Run, Format, put_job,
  started, counted, advanced, finished_job, failed_job, fetch_files, fetch_file, parse_files,
  parse_file, insert_batch, import_batches, download_s3, batch, run_steps, new_job, recorded,
  run_job_async, caught, run_job,
}
use xvector.Services.Imports.Steps.{
  ◌⟶◌, fetch, fetch_more, parse_local, parse_fetched, begin, go_on, finish, lose, reject, break_off,
  fail_again, IsSound, IsTraced, Done, Ends, next-Ends, lift-Ends, Early, percent_le, Fetching,
  CanFail, Parsing, Importing, put_job-IsTraced,
}

early_fetch : (state : JobState) → Early state → state ⟶ downloading
early_fetch state (inl e) = subst (λ j. j ⟶ downloading) (sym e) fetch
early_fetch state (inr e) = subst (λ j. j ⟶ downloading) (sym e) fetch_more

early_parse : (state : JobState) → Early state → state ⟶ parsing
early_parse state (inl e) = subst (λ j. j ⟶ parsing) (sym e) parse_local
early_parse state (inr e) = subst (λ j. j ⟶ parsing) (sym e) parse_fetched

module _ {I : Type 0} (w : World I) where
  download-Ends :
      (f : String) (s : Run I)
      → Fetching w s
      → Ends
          (Fetching w)
          (CanFail w)
          (next (put_job w (started downloading) s) λ u. lift (download_s3 w f))
  unfolding put_job
  download-Ends f s (traced, early, fresh) =
      let now : IsTraced (put_job w (started downloading) s).1 =
        put_job-IsTraced w (started downloading) s traced (early_fetch s.job.state early) (record {
          imported_le = omega (arith, fresh.0);
          progress_le = omega (arith, fresh.2);
          done = tt;
        }) in
      lift-Ends (Fetching w) (CanFail w) (download_s3 w f) (put_job w (started downloading) s).1
        (now, inr refl, fresh) (now, lose)

  fetch_file-Ends :
      (f : String) (s : Run I) → Fetching w s → Ends (Fetching w) (CanFail w) (fetch_file w f s)
  unfolding fetch_file
  fetch_file-Ends f s h = elim (Bool-cases (starts_with f "s3://")) [
    | inl remote ↦ rw remote (download-Ends f s h)
    | inr here ↦ rw here h
  ]

  fetch_files-Ends :
      (files : List String) (s : Run I)
      → Fetching w s
      → Ends (Fetching w) (CanFail w) (fetch_files w files s)
  unfolding fetch_files
  fetch_files-Ends [] s h = h
  fetch_files-Ends (f ∷ files) s h =
      next-Ends (Fetching w) (Fetching w) (CanFail w) (fetch_file w f s) _ (fetch_file-Ends f s h)
        λ path s h.
          next-Ends (Fetching w) (Fetching w) (CanFail w) _ _ (fetch_files-Ends files s h)
            λ paths s h. h

  parse_files-Ends :
      (format : Format) (paths : List String) (s : Run I)
      → Parsing w s
      → Ends (Parsing w) (CanFail w) (parse_files w format paths s)
  unfolding parse_files
  parse_files-Ends format [] s h = h
  parse_files-Ends format (path ∷ paths) s (traced, state, fresh) =
      next-Ends (Parsing w) (Parsing w) (CanFail w) _ _
        (lift-Ends (Parsing w) (CanFail w) (parse_file w path format) s (traced, state, fresh)
          (traced, subst (λ j. j ⟶ failed) (sym state) reject))
        λ rows s h.
          next-Ends (Parsing w) (Parsing w) (CanFail w) _ _ (parse_files-Ends format paths s h)
            λ more s h. h

  -- the rows do not matter for what is published
  insert_batch-Ends :
      (chunk : List Json) (imported rest : ℕ) (s : Run I)
      → Importing w imported rest s
      → Ends (Importing w imported rest) (CanFail w) (insert_batch w chunk s)
  unfolding insert_batch
  insert_batch-Ends chunk imported rest s (traced, state, count, total) =
      let now : IsTraced (record s { rows = (w.insert s.rows chunk).1 }) = record {
        earlier = traced.earlier;
        latest = traced.latest;
        linked = traced.linked;
        sound = traced.sound;
      } in
      lift-Ends (Importing w imported rest) (CanFail w) (w.insert s.rows chunk).0 _
        (now, state, count, total) (now, subst (λ j. j ⟶ failed) (sym state) break_off)

  advance :
      (imported size rest : ℕ) (s : Run I)
      → Importing w imported (size + rest) s
      → Importing w (imported + size) rest (put_job w (advanced (imported + size)) s).1
  unfolding put_job
  advance imported size rest s (traced, state, count, total) = (
    put_job-IsTraced w (advanced (imported + size)) s traced (subst (λ j. j ⟶ j) (sym state) go_on)
        (record {
          imported_le = omega (arith, total);
          progress_le = percent_le (imported + size) s.job.total_rows (omega (arith, total));
          done = subst (λ j. Done j (advanced (imported + size) s.job)) (sym state) tt;
        }),
    state,
    refl,
    omega (arith, total),
  )

  import_batches-Ends :
      (n : ℕ) (rows : List Json) (imported : ℕ) (s : Run I)
      → length rows ≤ n
      → Importing w imported (length rows) s
      → Ends
          (Importing w (imported + length rows) 0)
          (CanFail w)
          (import_batches w n rows imported s)
  unfolding import_batches put_job
  import_batches-Ends n [] imported s h k = (k.0, k.1, omega (arith, k.2), omega (arith, k.3))
  import_batches-Ends zero (row ∷ rows) imported s h k = absurd (omega arith)
  import_batches-Ends (suc n) (row ∷ rows) imported s h k =
      let size = length (take batch (row ∷ rows)) in
      let rest = length (drop batch (row ∷ rows)) in
      let parts : size + rest ≡ suc (length rows) = length-take-drop batch (row ∷ rows) in
      next-Ends (Importing w imported (size + rest)) (Importing w (imported + suc (length rows)) 0)
        (CanFail w) _ _
        (insert_batch-Ends (take batch (row ∷ rows)) imported (size + rest) s (rw parts k))
        λ u s k.
          subst
            (λ m. Ends (Importing w m 0) (CanFail w) (
              import_batches w n (drop batch (row ∷ rows)) (imported + size)
                (put_job w (advanced (imported + size)) s).1))
            (omega (arith, parts))
            (import_batches-Ends n (drop batch (row ∷ rows)) (imported + size)
              (put_job w (advanced (imported + size)) s).1 (omega (arith, parts))
              (advance imported size rest s k))

  import_all :
      (n : ℕ) (rows : List Json) (s : Run I)
      → length rows ≤ n
      → Importing w 0 (length rows) s
      → Ends (Importing w (length rows) 0) (CanFail w) (import_batches w n rows 0 s)
  import_all n rows s h k =
      subst (λ m. Ends (Importing w m 0) (CanFail w) (import_batches w n rows 0 s)) (omega arith)
        (import_batches-Ends n rows 0 s h k)

  -- a run whose job is complete
  abbrev pub Complete : Run I → Type 0
  Complete s = IsTraced s × (s.job.state ≡ completed)

  begin_parse : (s : Run I) → Fetching w s → Parsing w (put_job w (started parsing) s).1
  unfolding put_job
  begin_parse s (traced, early, fresh) = (
    put_job-IsTraced w (started parsing) s traced (early_parse s.job.state early) (record {
      imported_le = omega (arith, fresh.0);
      progress_le = omega (arith, fresh.2);
      done = tt;
    }),
    refl,
    fresh,
  )

  begin_import :
      (rows : ℕ) (s : Run I) → Parsing w s → Importing w 0 rows (put_job w (counted rows) s).1
  unfolding put_job
  begin_import rows s (traced, state, (none_in, none_counted, nothing)) = (
    put_job-IsTraced w (counted rows) s traced (subst (λ j. j ⟶ importing) (sym state) begin)
        (record {
          imported_le = omega (arith, none_in);
          progress_le = omega (arith, nothing);
          done = tt;
        }),
    refl,
    none_in,
    omega arith,
  )

  finish_import :
      (imported : ℕ) (s : Run I) → Importing w imported 0 s → Complete (put_job w finished_job s).1
  unfolding put_job
  finish_import imported s (traced, state, count, total) =
      let all_in : s.job.imported_rows ≡ s.job.total_rows = omega (arith, count, total) in
      (
        put_job-IsTraced w finished_job s traced (subst (λ j. j ⟶ completed) (sym state) finish)
            (record {
              imported_le = omega (arith, all_in);
              progress_le = omega arith;
              done = (all_in, refl);
            }),
        refl,
      )

  run_steps-Ends : (s : Run I) → Fetching w s → Ends Complete (CanFail w) (run_steps w s)
  unfolding run_steps put_job
  run_steps-Ends s h =
      let format = s.job.format in
      next-Ends (Fetching w) Complete (CanFail w) (fetch_files w s.job.files s) _
        (fetch_files-Ends s.job.files s h)
        λ paths s fetched.
          next-Ends (Parsing w) Complete (CanFail w)
            (parse_files w format paths (put_job w (started parsing) s).1) _
            (parse_files-Ends format paths (put_job w (started parsing) s).1
              (begin_parse s fetched))
            λ rows s ready.
              next-Ends (Importing w (length rows) 0) Complete (CanFail w)
                (import_batches w (length rows) rows 0 (put_job w (counted (length rows)) s).1) _
                (import_all (length rows) rows (put_job w (counted (length rows)) s).1 (omega arith)
                  (begin_import (length rows) s ready))
                λ u s all_in. finish_import (length rows) s all_in

  -- a job that has failed, or has been completed
  abbrev pub Over : Run I → Type 0
  Over s = IsTraced s × ((s.job.state ≡ completed) ⊎ (s.job.state ≡ failed))

  fail : (e : Error) (s : Run I) → CanFail w s → IsTraced (put_job w (failed_job e) s).1
  fail e s (traced, step) =
      let sound : IsSound s.job = (All-heads traced.sound).0 in
      put_job-IsTraced w (failed_job e) s traced step
        (record { imported_le = sound.imported_le; progress_le = sound.progress_le; done = tt })

  caught-Over :
      (r : Result (Unit {0}) × Run I) → Ends Complete (CanFail w) r → Over (caught w (recorded w r))
  unfolding put_job
  caught-Over (ok u, s) h = (h.0, inl h.1)
  caught-Over (err e, s) h =
      (fail e (put_job w (failed_job e) s).1 (fail e s h, fail_again), inr refl)

  -- a job that `create` has just published
  abbrev pub created : String → List String → Format → I → Run I
  created job_id files format rows = record {
    job = new_job job_id files format;
    published = new_job job_id files format ∷ [];
    rows = rows;
  }

  created-Fetching :
      (job_id : String) (files : List String) (format : Format) (rows : I)
      → Fetching w (created job_id files format rows)
  unfolding new_job
  created-Fetching job_id files format rows = (
    record {
      earlier = [];
      latest = refl;
      linked = tt;
      sound =
          both (record { imported_le = omega arith; progress_le = omega arith; done = tt })
            none_left;
    },
    inl refl,
    (refl, refl, refl),
  )

  -- A run of a new job, however its files, downloads and insertions end, stops with the job
  -- completed or failed. Every job that is published on the way follows the one before by a step of
  -- the states, has imported at most its total and a progress of at most 100, and a completed one
  -- has imported everything.
  pub run_job-Over :
      (job_id : String) (files : List String) (format : Format) (rows : I)
      → Over (run_job w (created job_id files format rows))
  unfolding run_job run_job_async
  run_job-Over job_id files format rows =
      caught-Over (run_steps w (created job_id files format rows)) (
        run_steps-Ends (created job_id files format rows)
          (created-Fetching job_id files format rows))
