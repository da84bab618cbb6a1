-- ===== src/Examples/Names.antt =====
-- Names, directories and primary keys.
use xvector.Prelude.{ℕ, ◌+◌, String, ◌≡◌, ◌≢◌, refl, some, List, [], ◌∷◌, arith, inl, inr, ◌↔◌}
use xvector.Errors.{ok}
use xvector.Paths.{FilePath, meta_name, validate_name}
use xvector.Paths.Names.{IsAccepted, validate_name_iff}
use xvector.Paths.Layout.{partition_dir-injective}
use xvector.Pk.{wait, Snowflake, epoch, timestamp, compose, next_id, init}
use xvector.Pk.Order.{
  Fits, Ascends, last_id, next_ids, next_ids-Ascends, next_id_total, next_id_repeats,
}

validate_name_iff_example :
    (validate_name (some "books") "name" ≡ ok "books")
    ↔ (("books" ≢ meta_name) × IsAccepted "books")
validate_name_iff_example = validate_name_iff "books" "name"

books-IsAccepted : IsAccepted "books"
books-IsAccepted = inl (ground arith)

abbrev root : FilePath
root = "data" ∷ []

books3 : IsAccepted "books" × IsAccepted "books" × IsAccepted "books"
books3 = (books-IsAccepted, books-IsAccepted, books-IsAccepted)

partition_dir-injective_example :
    Path String "books" "books" × Path String "books" "books" × Path String "books" "books"
partition_dir-injective_example =
    partition_dir-injective root {db = "books"} {coll = "books"} {part = "books"} {db' = "books"}
      {coll' = "books"} {part' = "books"} books3 books3 refl

-- a generator at the last sequence number of its millisecond, and the readings to come
abbrev full : Snowflake
full = record { worker_id = 1; seq = 4095; last_ms = epoch + 10 }

abbrev readings : List ℕ
readings = (epoch + 10) ∷ (epoch + 10) ∷ (epoch + 11) ∷ (epoch + 11) ∷ []

full-Fits : Fits full
full-Fits = record { worker = ground arith; sequence = ground arith }

abbrev issued : List ℕ
issued = compose 11 1 0 ∷ compose 11 1 1 ∷ []

two_issued : next_ids 2 full readings ≡ some issued
unfolding next_ids next_id wait
two_issued = refl

next_ids-Ascends_example : Ascends (last_id full) issued
next_ids-Ascends_example =
    next_ids-Ascends 2 full readings full-Fits (ground arith) (ground arith) two_issued

next_id_total_example : (r : ℕ × Snowflake × List ℕ) × (next_id full readings ≡ some r)
next_id_total_example = next_id_total full readings (inr (inr (inl (ground arith))))

next_id_repeats_example :
    next_ids 3 (init 1) ((epoch + 10) ∷ (epoch + 9) ∷ (epoch + 10) ∷ [])
    ≡ some (
        compose (timestamp (epoch + 10)) (init 1).worker_id 0
        ∷ compose (timestamp (epoch + 9)) (init 1).worker_id 0
        ∷ compose (timestamp (epoch + 10)) (init 1).worker_id 0
        ∷ [])
next_id_repeats_example =
    next_id_repeats (init 1) (epoch + 10) (epoch + 9) (unfold init in ground arith) (ground arith)
