-- ===== src/Services/Imports/Batches.antt =====
-- The batches of an import.
use xvector.Prelude.{ℕ, zero, suc, ◌+◌, ◌≤◌, ◌≡◌, refl, ap, ◌∙◌, List, [], ◌∷◌, ◌++◌, arith}
use xvector.Prelude.Lists.{
  length, take, drop, All, none_left, both, length-take, length-take-drop, take-append-drop,
}
use xvector.Errors.{Result, ok}
use xvector.Json.{Json}
use xvector.Services.Imports.{World, Run, put_job, advanced, insert_batch, import_batches, batch}

module _ {I : Type 0} (w : World I) where
  -- the insertion of these batches, one after the other
  abbrev pub insert_each : List (List Json) → I → I
  insert_each [] i = i
  insert_each (chunk ∷ chunks) i = insert_each chunks (w.insert i chunk).1

  abbrev pub joined : List (List Json) → List Json
  joined [] = []
  joined (chunk ∷ chunks) = chunk ++ joined chunks

  -- These rows are inserted in batches of at most 500, in their order and all of them, and nothing
  -- is raised.
  pub record IsImported (rows : List Json) (start : I) (end : Result (Unit {0}) × Run I)
      : Type 0 where
    pub chunks : List (List Json)
    pub whole : joined chunks ≡ rows
    pub small : All (λ chunk. length chunk ≤ 500) chunks
    pub returned : end.0 ≡ ok tt
    pub stored : end.1.rows ≡ insert_each chunks start

  module _ (accepts : (i : I) (chunk : List Json) → (w.insert i chunk).0 ≡ ok tt) where
    -- As many rounds as there are rows insert all of them, whatever has been imported, when no
    -- insertion raises.
    pub import_batches-IsImported :
        (n : ℕ) (rows : List Json) (imported : ℕ) (s : Run I)
        → length rows ≤ n
        → IsImported rows s.rows (import_batches w n rows imported s)
    unfolding import_batches put_job insert_batch
    import_batches-IsImported n [] imported s h = record {
      chunks = [];
      whole = refl;
      small = none_left;
      returned = refl;
      stored = refl;
    }
    import_batches-IsImported zero (row ∷ rows) imported s h = absurd (omega arith)
    import_batches-IsImported (suc n) (row ∷ rows) imported s h =
        let chunk = take batch (row ∷ rows) in
        let after = drop batch (row ∷ rows) in
        let total = imported + length chunk in
        let inserted = record s { rows = (w.insert s.rows chunk).1 } in
        let rest =
          import_batches-IsImported n after total (put_job w (advanced total) inserted).1
            (omega (arith, length-take-drop batch (row ∷ rows))) in
        record {
          chunks = chunk ∷ rest.chunks;
          whole = ap (λ l. chunk ++ l) rest.whole ∙ take-append-drop batch (row ∷ rows);
          small = both (length-take batch (row ∷ rows)) rest.small;
          returned = rw (accepts s.rows chunk) rest.returned;
          stored = rw (accepts s.rows chunk) rest.stored;
        }
