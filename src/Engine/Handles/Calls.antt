-- ===== src/Engine/Handles/Calls.antt =====
-- The Reader's side of a write: the calls of `CollectionManager`
-- (xvector/engine/collection_mgr.py) between a fence and its end.
use Prim.Native.String.{◌∷◌}
use xvector.Prelude.{
  ℕ, String, Bool, true, false, Option, none, some, List, [], ◌∷◌, if◌then◌else◌, ◌≡◌, refl, sym,
  ap, ◌∙◌, ◌⊎◌, subst,
}
use xvector.Errors.{Error, Result, err, fenced, file_not_found, runtime}
use xvector.Text.{Lacks, split_once}
use xvector.Dict.{get}
use xvector.Meta.Catalog.{mem}
use xvector.Engine.{Disk, resolve_partition_path}
use xvector.Engine.Handles.{
  Manager, key, key_prefix, keys, with_prefix, split_key, get_if_open, reopenable, pop_all,
  fence_partitions,
}
use xvector.Engine.Handles.Keys.{split_key-parts}
use xvector.Engine.Handles.Opens.{
  open_partition, flush_choice, flush_held, close_partition, flush_partition, close_collection,
  open_split, open_each, reopen_all,
}
use xvector.Engine.Handles.Fencing.{fence_partitions-shuts, fence_partitions-IsShut}
use xvector.Engine.Handles.Fences.{
  IsShut, pop-IsShut, pop_all-IsShut, open_rounds-fenced, open_partition-IsShut,
}

-- The calls of a Reader's manager while a fence holds.
pub data Call : Type 0 where
  fence : (db coll : String) (parts : List String) → Call
  open_one : (db coll part : String) (force : Bool) (retries : ℕ) → Call
  close_one : (db coll part : String) (flush : Option Bool) → Call
  flush_one : (db coll part : String) (retries : ℕ) → Call
  close_all : (db coll : String) → Call
  reopen : Call

-- The names of what is opened have no "/".
abbrev pub HasNames : List Call → Type 0
HasNames [] = Unit
HasNames (open_one db coll part force retries ∷ calls) =
    (Lacks b'/' db × Lacks b'/' coll) × HasNames calls
HasNames (_ ∷ calls) = HasNames calls

module _ {H F : Type 0} (disk : Disk H F) where
  unfoldable pub perform : Call → Manager H F → Manager H F
  perform (fence db coll parts) m = (fence_partitions disk db coll parts m).1
  perform (open_one db coll part force retries) m =
      (open_partition disk db coll part force false retries m).1
  perform (close_one db coll part flush) m = (close_partition disk db coll part flush m).1
  perform (flush_one db coll part retries) m = (flush_partition disk db coll part retries m).1
  perform (close_all db coll) m = (close_collection disk db coll m).1
  perform reopen m = (reopen_all disk m).1

  unfoldable pub perform_all : List Call → Manager H F → Manager H F
  unfolding perform
  perform_all [] m = m
  perform_all (call ∷ calls) m = perform_all calls (perform call m)

abbrev raised : {H F : Type 0} → Error → Manager H F → Result H × Manager H F
raised e m = (err e, m)

names_left : (call : Call) (calls : List Call) → HasNames (call ∷ calls) → HasNames calls
names_left (fence db coll parts) calls n = n
names_left (open_one db coll part force retries) calls n = n.1
names_left (close_one db coll part flush) calls n = n
names_left (flush_one db coll part retries) calls n = n
names_left (close_all db coll) calls n = n
names_left reopen calls n = n

flush_partition-reader :
    {H F : Type 0} (disk : Disk H F) (db coll part : String) (retries : ℕ) (m : Manager H F)
    → m.read_only ≡ true
    → flush_partition disk db coll part retries m ≡ (err runtime, m)
unfolding flush_partition
flush_partition-reader disk db coll part retries m r =
    ap
      (λ b.
        if b
        then (err runtime, m)
        else flush_held disk db coll part retries (get m.handles (key db coll part)) m)
      r

module _ {H F : Type 0} (disk : Disk H F) (db coll part : String) where
  open_split-IsShut :
      (k : String) (o : Option (String × String × String)) (m : Manager H F)
      → split_key k ≡ o
      → Lacks b'/' db × Lacks b'/' coll
      → IsShut disk db coll part m
      → IsShut disk db coll part (open_split disk o m)
  unfolding split_key
  open_split-IsShut k none m e names s = s
  open_split-IsShut k (some (db', coll', part')) m e (h₀, h₁) s =
      let (h₂, h₃) = split_key-parts k (split_once b'/' k) refl e in
      open_partition-IsShut disk db coll part db' coll' part' true 0 m (h₀, h₁, h₂, h₃) s

  open_each-IsShut :
      (ks : List String) (m : Manager H F)
      → Lacks b'/' db × Lacks b'/' coll
      → IsShut disk db coll part m
      → IsShut disk db coll part (open_each disk ks m)
  unfolding open_each
  open_each-IsShut [] m names s = s
  open_each-IsShut (k ∷ ks) m names s =
      open_each-IsShut ks (open_split disk (split_key k) m) names
        (open_split-IsShut k (split_key k) m refl names s)

  perform-IsShut :
      (call : Call) (calls : List Call) (m : Manager H F)
      → HasNames (call ∷ calls)
      → Lacks b'/' db × Lacks b'/' coll
      → IsShut disk db coll part m
      → IsShut disk db coll part (perform disk call m)
  unfolding perform
  perform-IsShut (fence db' coll' parts) calls m n names s =
      fence_partitions-IsShut disk db coll part db' coll' parts m s
  perform-IsShut (open_one db' coll' part' force retries) calls m ((h₂, h₃), n) (h₀, h₁) s =
      open_partition-IsShut disk db coll part db' coll' part' force retries m (h₀, h₁, h₂, h₃) s
  perform-IsShut (close_one db' coll' part' flush) calls m n names s =
      unfold close_partition in
      pop-IsShut disk db coll part (key db' coll' part') (flush_choice disk m flush) m s
  perform-IsShut (flush_one db' coll' part' retries) calls m n names s =
      subst (λ r. IsShut disk db coll part r.1)
        (sym (flush_partition-reader disk db' coll' part' retries m s.reader)) s
  perform-IsShut (close_all db' coll') calls m n names s =
      unfold close_collection in
      pop_all-IsShut disk db coll part (with_prefix (key_prefix db' coll') (keys m.handles)) m s
  perform-IsShut reopen calls m n names s =
      let ks = reopenable m (keys m.handles) in
      unfold reopen_all in
      open_each-IsShut ks (pop_all disk ks m).1 names (pop_all-IsShut disk db coll part ks m s)

  perform_all-IsShut :
      (calls : List Call) (m : Manager H F)
      → HasNames calls
      → Lacks b'/' db × Lacks b'/' coll
      → IsShut disk db coll part m
      → IsShut disk db coll part (perform_all disk calls m)
  unfolding perform_all
  perform_all-IsShut [] m n names s = s
  perform_all-IsShut (call ∷ calls) m n names s =
      perform_all-IsShut calls (perform disk call m) (names_left call calls n) names
        (perform-IsShut call calls m n names s)

  if-err :
      (b : Bool) (x y : Error) (m : Manager H F)
      → (if b then (raised x m) else (raised y m)) ≡ (raised (if b then x else y) m)
  if-err true x y m = refl
  if-err false x y m = refl

  open_partition-shut :
      (m : Manager H F) (force : Bool) (retries : ℕ)
      → IsShut disk db coll part m
      → open_partition disk db coll part force false retries m ≡ (
        err (
            if disk.exists m.files (resolve_partition_path m.root db coll part)
            then fenced
            else file_not_found),
        m,
      )
  unfolding open_partition
  open_partition-shut m force retries s =
      let b = disk.exists m.files (resolve_partition_path m.root db coll part) in
      ap (λ r. if b then r else (err file_not_found, m))
        (open_rounds-fenced disk db coll part retries force m s)
      ∙ if-err b fenced file_not_found m

  -- Once a Reader's manager has fenced a partition, on its own or with its collection, then after
  -- any fences, opens, closes, flushes and reopens (with names that have no "/") the
  -- partition is not open, and `open_partition` leaves the manager as it is and raises
  -- `CollectionFencedError`, or `FileNotFoundError` where the partition has no directory.
  pub fence_holds :
      (calls : List Call) (parts : List String) (m : Manager H F) (force : Bool) (retries : ℕ)
      → m.read_only ≡ true
      → (parts ≡ []) ⊎ (mem part parts ≡ true)
      → HasNames calls
      → Lacks b'/' db × Lacks b'/' coll
      → (get_if_open (perform_all disk (fence db coll parts ∷ calls) m) db coll part ≡ none)
        × (open_partition disk db coll part force false retries
              (perform_all disk (fence db coll parts ∷ calls) m)
            ≡ (
              err (
                  if disk.exists (perform_all disk (fence db coll parts ∷ calls) m).files (
                    resolve_partition_path
                      (perform_all disk (fence db coll parts ∷ calls) m).root
                      db
                      coll
                      part)
                  then fenced
                  else file_not_found),
              perform_all disk (fence db coll parts ∷ calls) m,
            ))
  fence_holds calls parts m force retries r c n names =
      let t = perform_all disk (fence db coll parts ∷ calls) m in
      let s : IsShut disk db coll part t =
        unfold perform_all perform in
        perform_all-IsShut calls (fence_partitions disk db coll parts m).1 n names
          (fence_partitions-shuts disk db coll part parts m r c) in
      ((unfold get_if_open in s.closed), open_partition-shut t force retries s)
