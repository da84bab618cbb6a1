-- ===== src/Services/Imports/Steps.antt =====
-- The states that an import job goes through, and what every published job satisfies.
use xvector.Prelude.{ℕ, zero, suc, ◌+◌, ◌≤◌, ◌≡◌, ap, ◌⊎◌, List, [], ◌∷◌, arith}
use native.Mathlib.Nat.{div-le_of_le-mul}
use xvector.Prelude.Lists.{All, both}
use xvector.Errors.{Result, ok, err}
use xvector.Exec.{next, lift, Exec}
use xvector.Services.Imports.{
  JobState, pending, downloading, parsing, importing, completed, failed, Job, World, Run, put_job,
  percent,
}

infix 4 ◌⟶◌
-- one state of a job and the next one that is published
pub data ◌⟶◌ : JobState → JobState → Type 0 where
  fetch : pending ⟶ downloading
  fetch_more : downloading ⟶ downloading
  parse_local : pending ⟶ parsing
  parse_fetched : downloading ⟶ parsing
  begin : parsing ⟶ importing
  go_on : importing ⟶ importing
  finish : importing ⟶ completed
  lose : downloading ⟶ failed
  reject : parsing ⟶ failed
  break_off : importing ⟶ failed
  fail_again : failed ⟶ failed

-- a job that is completed has imported everything
abbrev pub Done : JobState → Job → Type 0
Done completed job = (job.imported_rows ≡ job.total_rows) × (job.progress ≡ 100)
Done _ job = Unit

pub record IsSound (job : Job) : Type 0 where
  pub imported_le : job.imported_rows ≤ job.total_rows
  pub progress_le : job.progress ≤ 100
  pub done : Done job.state job

-- every published job follows the one before
abbrev pub Linked : List Job → Type 0
Linked [] = Unit
Linked (job ∷ []) = Unit
Linked (job ∷ before ∷ jobs) = (before.state ⟶ job.state) × Linked (before ∷ jobs)

-- What holds of a run at any time: the job is the one published last, every published job is sound,
-- and each follows the one before.
pub record IsTraced {I : Type 0} (s : Run I) : Type 0 where
  pub earlier : List Job
  pub latest : s.published ≡ s.job ∷ earlier
  pub linked : Linked (s.job ∷ earlier)
  pub sound : All IsSound (s.job ∷ earlier)

-- how a call ends: well in a state of the first kind, with an exception in one of the second
abbrev pub Ends {ℓ} : {S A : Type ℓ} → (S → Type ℓ) → (S → Type ℓ) → Result A × S → Type ℓ
Ends P Q (ok a, s) = P s
Ends P Q (err e, s) = Q s

pub next-Ends {ℓ} :
    {S A B : Type ℓ} (P P' Q : S → Type ℓ) (r : Result A × S) (f : A → Exec S B)
    → Ends P Q r
    → ((a : A) (s : S) → P s → Ends P' Q (f a s))
    → Ends P' Q (next r f)
next-Ends P P' Q (ok a, s) f h k = k a s h
next-Ends P P' Q (err e, s) f h k = h

-- the result of a parse or a download does not change the state
pub lift-Ends {ℓ} :
    {S A : Type ℓ} (P Q : S → Type ℓ) (r : Result A) (s : S) → P s → Q s → Ends P Q (lift r s)
lift-Ends P Q (ok a) s p q = p
lift-Ends P Q (err e) s p q = q

abbrev pub Early : JobState → Type 0
Early state = (state ≡ pending) ⊎ (state ≡ downloading)

-- nothing is counted yet
abbrev pub Fresh : Job → Type 0
Fresh job = (job.imported_rows ≡ 0) × (job.total_rows ≡ 0) × (job.progress ≡ 0)

pub percent_le : (imported total : ℕ) → imported ≤ total → percent imported total ≤ 100
unfolding percent
percent_le imported zero h = div-le_of_le-mul 1 (omega arith)
percent_le imported (suc n) h = div-le_of_le-mul (suc n) (omega arith)

module _ {I : Type 0} (w : World I) where
  -- between the files
  abbrev pub Fetching : Run I → Type 0
  Fetching s = IsTraced s × Early s.job.state × Fresh s.job

  -- a run that an exception leaves here can be recorded as failed
  abbrev pub CanFail : Run I → Type 0
  CanFail s = IsTraced s × (s.job.state ⟶ failed)

  abbrev pub Parsing : Run I → Type 0
  Parsing s = IsTraced s × (s.job.state ≡ parsing) × Fresh s.job

  -- so many rows are in, and so many are left
  abbrev pub Importing : ℕ → ℕ → Run I → Type 0
  Importing imported rest s =
      IsTraced s
      × (s.job.state ≡ importing)
      × (s.job.imported_rows ≡ imported)
      × (s.job.total_rows ≡ imported + rest)

  pub put_job-IsTraced :
      (change : Job → Job) (s : Run I)
      → IsTraced s
      → s.job.state ⟶ (change s.job).state
      → IsSound (change s.job)
      → IsTraced (put_job w change s).1
  unfolding put_job
  put_job-IsTraced change s h step sound = record {
    earlier = s.job ∷ h.earlier;
    latest = ap (λ l. change s.job ∷ l) h.latest;
    linked = (step, h.linked);
    sound = both sound h.sound;
  }
