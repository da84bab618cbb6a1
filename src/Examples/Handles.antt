-- ===== src/Examples/Handles.antt =====
-- A Reader's manager of handles over a disk on which every partition is there and opens.
use xvector.Prelude.{ℕ, ◌+◌, ◌≡◌, refl, true, false, none, List, [], ◌∷◌, inl}
use xvector.Errors.{err, fenced}
use xvector.Text.{Lacks}
use xvector.Meta.Catalog.{mem}
use xvector.Engine.{Disk, handle}
use xvector.Engine.Handles.{
  Manager, key, is_fenced, get_if_open, fence_partitions, unfence_partitions,
}
use xvector.Engine.Handles.Opens.{open_partition}
use xvector.Engine.Handles.Fencing.{unfence_partitions-one}
use xvector.Engine.Handles.Calls.{Call, fence, open_one, reopen, perform_all, fence_holds}

abbrev pub ram : Disk ℕ ℕ
ram = record {
  exists = λ files path. true;
  has_wal_file = λ files path. false;
  open_collection = λ files path read_only. (handle files, files + 1);
  flush = λ files h. (true, files);
  drop_handle = λ files h. files;
  sleep = λ files. files;
}

-- the Reader holds "default"/"books"/"_default"
abbrev pub reading : Manager ℕ ℕ
reading = record {
  root = "data" ∷ [];
  read_only = true;
  handles = (key "default" "books" "_default", 0) ∷ [];
  fences = [];
  files = 1;
}

abbrev tries : List Call
tries = open_one "default" "books" "_default" true 3 ∷ reopen ∷ []

abbrev pub default_name : Lacks b'/' "default"
default_name = (refl, (refl, (refl, (refl, (refl, (refl, (refl, tt)))))))

abbrev pub books_name : Lacks b'/' "books"
books_name = (refl, (refl, (refl, (refl, (refl, tt)))))

fence_holds_example :
    (get_if_open
        (perform_all ram (fence "default" "books" [] ∷ tries) reading)
        "default"
        "books"
        "_default"
      ≡ none)
    × (open_partition ram "default" "books" "_default" false false 2
          (perform_all ram (fence "default" "books" [] ∷ tries) reading)
        ≡ (err fenced, perform_all ram (fence "default" "books" [] ∷ tries) reading))
fence_holds_example =
    fence_holds ram "default" "books" "_default" tries [] reading false 2 refl (inl refl)
      (((default_name, books_name)), tt) (default_name, books_name)

unfence_partitions-one_example :
    is_fenced
      (unfence_partitions ram "default" "books"
        ("p" ∷ [])
        (fence_partitions ram "default" "books" [] reading).1).1
      "default"
      "books"
      "_default"
    ≡ false
unfence_partitions-one_example =
    unfence_partitions-one ram "default" "books" "p" "_default" reading (unfold mem in refl)
