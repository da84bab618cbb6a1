-- ===== src/Engine/Handles/Kept.antt =====
-- Opening a partition leaves the fences of the manager (xvector/engine/collection_mgr.py) as they
-- are, and ending a fence takes it away.
use xvector.Prelude.{
  ℕ, zero, suc, String, Bool, true, false, not, ◌&&◌, Option, none, some, List, [], ◌∷◌,
  if◌then◌else◌, ◌≡◌, refl, ◌∙◌, arith, inl, inr, ◌==◌, eq_refl, Bool-cases,
}
use xvector.Errors.{err, fenced, file_not_found}
use xvector.Dict.{get}
use xvector.Meta.Catalog.{mem}
use xvector.Engine.{Disk, Opening, handle, raises, resolve_partition_path, is_lock_error}
use xvector.Engine.Handles.{
  Manager, key, wild, keys_of, discard, discard_all, M, blocked, is_fenced, has_wal, with_files,
  pop, unfence_partitions,
}
use xvector.Engine.Handles.Opens.{
  Round, got, refused, failed, wal_message, cached, open_new, open_held, open_cached, open_round,
  settle_round, last_round, open_rounds, open_partition,
}
use xvector.Engine.Handles.Fencing.{mem-key, mem-discard}

module _ {H F : Type 0} (disk : Disk H F) where
  -- a call that leaves these fences
  abbrev Leaves : {A : Type 0} → List String → A × Manager H F → Type 0
  Leaves fences r = r.1.fences ≡ fences

  if-Leaves :
      {A : Type 0} (fences : List String) (b : Bool) (x y : A × Manager H F)
      → Leaves fences x
      → Leaves fences y
      → Leaves fences (if b then x else y)
  if-Leaves fences true x y h k = h
  if-Leaves fences false x y h k = k

  cached-Leaves :
      (k : String) (o : Opening H × F) (m : Manager H F) → Leaves m.fences (cached disk k o m)
  cached-Leaves k (handle h, files) m = refl
  cached-Leaves k (raises msg, files) m = refl

  module _ (db coll part : String) where
    open_new-Leaves :
        (o : Option H) (m : Manager H F) → Leaves m.fences (open_new disk false db coll part o m)
    open_new-Leaves (some h) m = refl
    open_new-Leaves none m =
        if-Leaves m.fences (m.read_only && has_wal disk m db coll part)
          (failed (wal_message db coll part), m)
          (cached disk (key db coll part)
            (disk.open_collection m.files (resolve_partition_path m.root db coll part) m.read_only)
            m)
          refl
          (cached-Leaves (key db coll part)
            (disk.open_collection m.files (resolve_partition_path m.root db coll part) m.read_only)
            m)

    open_held-Leaves : (m : Manager H F) → Leaves m.fences (open_held disk false db coll part m)
    unfolding open_held
    open_held-Leaves m =
        if-Leaves m.fences (blocked false m db coll part) (refused fenced, m)
          (open_new disk false db coll part (get m.handles (key db coll part)) m) refl
          (open_new-Leaves (get m.handles (key db coll part)) m)

    open_cached-Leaves :
        (force : Bool) (o : Option H) (m : Manager H F)
        → Leaves m.fences (open_cached disk force false db coll part o m)
    unfolding pop
    open_cached-Leaves force none m = open_held-Leaves m
    open_cached-Leaves true (some h) m =
        open_held-Leaves (pop disk (key db coll part) (not m.read_only) m).1
    open_cached-Leaves false (some h) m = refl

    open_round-Leaves :
        (force : Bool) (m : Manager H F)
        → Leaves m.fences (open_round disk force false db coll part m)
    unfolding open_round
    open_round-Leaves force m =
        if-Leaves m.fences (blocked false m db coll part) (refused fenced, m)
          (open_cached disk force false db coll part (get m.handles (key db coll part)) m) refl
          (open_cached-Leaves force (get m.handles (key db coll part)) m)

    last_round-Leaves :
        (fences : List String) (r : Round H × Manager H F)
        → Leaves fences r
        → Leaves fences (last_round disk r)
    last_round-Leaves fences (got h, m) k = k
    last_round-Leaves fences (refused e, m) k = k
    last_round-Leaves fences (failed msg, m) k = k

    settle_round-Leaves :
        (fences : List String) (r : Round H × Manager H F) (again : M disk H)
        → Leaves fences r
        → ((m : Manager H F) → Leaves m.fences (again m))
        → Leaves fences (settle_round disk r again)
    settle_round-Leaves fences (got h, m) again k f = k
    settle_round-Leaves fences (refused e, m) again k f = k
    settle_round-Leaves fences (failed msg, m) again k f =
        if-Leaves fences (is_lock_error msg) (again (with_files disk m (disk.sleep m.files))) _
          (f (with_files disk m (disk.sleep m.files)) ∙ k) k

    open_rounds-Leaves :
        (n : ℕ) (force : Bool) (m : Manager H F)
        → Leaves m.fences (open_rounds disk n force false db coll part m)
    unfolding open_rounds
    open_rounds-Leaves zero force m =
        last_round-Leaves m.fences (open_round disk force false db coll part m)
          (open_round-Leaves force m)
    open_rounds-Leaves (suc n) force m =
        settle_round-Leaves m.fences (open_round disk force false db coll part m)
          (open_rounds disk n force false db coll part) (open_round-Leaves force m)
          (λ t. open_rounds-Leaves n force t)

    pub open_partition-fences :
        (force : Bool) (retries : ℕ) (m : Manager H F)
        → (open_partition disk db coll part force false retries m).1.fences ≡ m.fences
    unfolding open_partition
    open_partition-fences force retries m =
        if-Leaves m.fences (disk.exists m.files (resolve_partition_path m.root db coll part))
          (open_rounds disk retries force false db coll part m) (err file_not_found, m)
          (open_rounds-Leaves retries force m) refl

mem-discard_all :
    (j : String) (ks fences : List String)
    → mem j fences ≡ false
    → mem j (discard_all ks fences) ≡ false
unfolding discard_all
mem-discard_all j [] fences h = h
mem-discard_all j (k ∷ ks) fences h =
    mem-discard_all j ks (discard k fences) (ground (arith, mem-discard j k fences, h))

discard_all-gone :
    (j : String) (ks fences : List String) → mem j ks ≡ true → mem j (discard_all ks fences) ≡ false
unfolding discard_all mem
discard_all-gone j [] fences h = cc
discard_all-gone j (k ∷ ks) fences h = elim (Bool-cases (j == k)) [
  | inl same ↦
      mem-discard_all j ks (discard k fences) (ground (arith, mem-discard j k fences, same))
  | inr other ↦ discard_all-gone j ks (discard k fences) (rw other at h)
]

-- No partition whose fence has ended, on its own or with its collection, is fenced.
pub unfence_partitions-ends :
    {H F : Type 0} (disk : Disk H F) (db coll part : String) (parts : List String) (m : Manager H F)
    → mem part parts ≡ true
    → is_fenced (unfence_partitions disk db coll parts m).1 db coll part ≡ false
unfolding unfence_partitions is_fenced
unfence_partitions-ends disk db coll part [] m h = unfold mem in cc
unfence_partitions-ends disk db coll part (p ∷ parts) m h =
    let ks = keys_of db coll (p ∷ parts) in
    let gone =
      discard_all-gone (key db coll part) ks (discard (wild db coll) m.fences)
        (mem-key db coll part (p ∷ parts) h) in
    let away = mem-discard_all (wild db coll) ks (discard (wild db coll) m.fences) (
      ground (arith, mem-discard (wild db coll) (wild db coll) m.fences, eq_refl (wild db coll))) in
    ground (arith, gone, away)
