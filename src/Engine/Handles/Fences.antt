-- ===== src/Engine/Handles/Fences.antt =====
-- A fenced partition stays closed: what the Reader's `CollectionManager` promises the Writer
-- (xvector/engine/collection_mgr.py).
use Prim.Native.String.{◌∷◌}
use xvector.Prelude.{
  ℕ, suc, zero, String, Bool, true, false, not, ◌&&◌, Option, none, some, List, [], ◌∷◌, ◌==◌,
  if◌then◌else◌, ◌≡◌, sym, ap, arith, eq_iff, Bool-cases, inl, inr, ◌≢◌,
}
use xvector.Errors.{err, fenced, file_not_found, runtime}
use xvector.Text.{Lacks}
use xvector.Dict.{get}
use xvector.Dict.Laws.{get-set, get-remove}
use xvector.Meta.Catalog.{mem}
use xvector.Engine.{Disk, Opening, handle, raises, resolve_partition_path, is_lock_error}
use xvector.Engine.Handles.{
  Manager, key, wild, has_wal, is_fenced, blocked, M, with_files, pop, pop_all,
}
use xvector.Engine.Handles.Keys.{key-injective}
use xvector.Engine.Handles.Opens.{
  wal_message, Round, got, refused, failed, cached, open_new, open_held, open_cached, open_round,
  settle_round, last_round, open_rounds, open_partition,
}

module _ {H F : Type 0} (disk : Disk H F) (db coll part : String) where
  -- A Reader's manager on which the partition is fenced and closed.
  pub record IsShut (m : Manager H F) : Type 0 where
    pub reader : m.read_only ≡ true
    pub fenced_now : is_fenced m db coll part ≡ true
    pub closed : get m.handles (key db coll part) ≡ none

  pub pop-IsShut :
      (k : String) (flush : Bool) (m : Manager H F) → IsShut m → IsShut (pop disk k flush m).1
  unfolding pop is_fenced
  pop-IsShut k flush m s = record {
    reader = s.reader;
    fenced_now = s.fenced_now;
    closed = ground (arith, get-remove m.handles k (key db coll part), s.closed);
  }

  pub pop_all-IsShut :
      (ks : List String) (m : Manager H F) → IsShut m → IsShut (pop_all disk ks m).1
  unfolding pop_all pop
  pop_all-IsShut [] m s = s
  pop_all-IsShut (k ∷ ks) m s =
      pop_all-IsShut ks (pop disk k (not m.read_only) m).1 (pop-IsShut k (not m.read_only) m s)

  pub refenced :
      (m : Manager H F) (fences : List String)
      → IsShut m
      → (mem (key db coll part) m.fences ≡ true → mem (key db coll part) fences ≡ true)
      → (mem (wild db coll) m.fences ≡ true → mem (wild db coll) fences ≡ true)
      → IsShut (record m { fences = fences })
  unfolding is_fenced
  refenced m fences s f g = record {
    reader = s.reader;
    closed = s.closed;
    fenced_now = ground (arith, f, g, s.fenced_now);
  }

  if-IsShut :
      {A : Type 0} (b : Bool) (x y : A × Manager H F)
      → IsShut x.1
      → IsShut y.1
      → IsShut (if b then x else y).1
  if-IsShut true x y h k = h
  if-IsShut false x y h k = k

  cached-IsShut :
      (k : String) (o : Opening H × F) (m : Manager H F)
      → k ≢ key db coll part
      → IsShut m
      → IsShut (cached disk k o m).1
  cached-IsShut k (handle h, files) m ne s = record {
    reader = s.reader;
    fenced_now = (unfold is_fenced in s.fenced_now);
    closed =
        ground
          (arith, get-set m.handles k (key db coll part) h, eq_iff k (key db coll part), s.closed);
  }
  cached-IsShut k (raises msg, files) m ne s = record {
    reader = s.reader;
    fenced_now = (unfold is_fenced in s.fenced_now);
    closed = s.closed;
  }

  module _ (db' coll' part' : String) (ne : key db' coll' part' ≢ key db coll part) where
    open_new-IsShut :
        (o : Option H) (m : Manager H F)
        → IsShut m
        → IsShut (open_new disk false db' coll' part' o m).1
    open_new-IsShut (some h) m s = s
    open_new-IsShut none m s =
        if-IsShut (m.read_only && has_wal disk m db' coll' part')
          (failed (wal_message db' coll' part'), m)
          (cached disk (key db' coll' part')
            (disk.open_collection m.files (resolve_partition_path m.root db' coll' part')
              m.read_only)
            m)
          s
          (cached-IsShut (key db' coll' part')
            (disk.open_collection m.files (resolve_partition_path m.root db' coll' part')
              m.read_only)
            m ne s)

    open_held-IsShut :
        (m : Manager H F) → IsShut m → IsShut (open_held disk false db' coll' part' m).1
    unfolding open_held
    open_held-IsShut m s =
        if-IsShut (blocked false m db' coll' part') (refused fenced, m)
          (open_new disk false db' coll' part' (get m.handles (key db' coll' part')) m) s
          (open_new-IsShut (get m.handles (key db' coll' part')) m s)

    open_cached-IsShut :
        (force : Bool) (o : Option H) (m : Manager H F)
        → IsShut m
        → IsShut (open_cached disk force false db' coll' part' o m).1
    open_cached-IsShut force none m s = open_held-IsShut m s
    open_cached-IsShut true (some h) m s =
        open_held-IsShut (pop disk (key db' coll' part') (not m.read_only) m).1
          (pop-IsShut (key db' coll' part') (not m.read_only) m s)
    open_cached-IsShut false (some h) m s = s

    pub open_round-IsShut :
        (force : Bool) (m : Manager H F)
        → IsShut m
        → IsShut (open_round disk force false db' coll' part' m).1
    unfolding open_round
    open_round-IsShut force m s =
        if-IsShut (blocked false m db' coll' part') (refused fenced, m)
          (open_cached disk force false db' coll' part' (get m.handles (key db' coll' part')) m) s
          (open_cached-IsShut force (get m.handles (key db' coll' part')) m s)

  -- A round on the fenced partition itself is refused.
  pub open_round-fenced :
      (force : Bool) (m : Manager H F)
      → IsShut m
      → open_round disk force false db coll part m ≡ (refused fenced, m)
  unfolding open_round
  open_round-fenced force m s =
      let b : blocked false m db coll part ≡ true = ground (arith, s.reader, s.fenced_now) in
      ap
        (λ b.
          if b
          then (refused fenced, m)
          else open_cached disk force false db coll part (get m.handles (key db coll part)) m)
        b

  pub open_rounds-fenced :
      (n : ℕ) (force : Bool) (m : Manager H F)
      → IsShut m
      → open_rounds disk n force false db coll part m ≡ (err fenced, m)
  unfolding open_rounds
  open_rounds-fenced zero force m s = ap (last_round disk) (open_round-fenced force m s)
  open_rounds-fenced (suc n) force m s =
      ap (λ r. settle_round disk r (open_rounds disk n force false db coll part))
        (open_round-fenced force m s)

  pub with_files-IsShut :
      (m : Manager H F) (files : F) → IsShut m → IsShut (record m { files = files })
  unfolding is_fenced
  with_files-IsShut m files s = record {
    reader = s.reader;
    fenced_now = s.fenced_now;
    closed = s.closed;
  }

  last_round-IsShut : (r : Round H × Manager H F) → IsShut r.1 → IsShut (last_round disk r).1
  last_round-IsShut (got h, m) s = s
  last_round-IsShut (refused e, m) s = s
  last_round-IsShut (failed msg, m) s = s

  settle_round-IsShut :
      (r : Round H × Manager H F) (again : M disk H)
      → IsShut r.1
      → ((m : Manager H F) → IsShut m → IsShut (again m).1)
      → IsShut (settle_round disk r again).1
  settle_round-IsShut (got h, m) again s k = s
  settle_round-IsShut (refused e, m) again s k = s
  settle_round-IsShut (failed msg, m) again s k =
      if-IsShut (is_lock_error msg) (again (with_files disk m (disk.sleep m.files)))
        (err runtime, m)
        (k (with_files disk m (disk.sleep m.files)) (with_files-IsShut m (disk.sleep m.files) s)) s

  open_rounds-IsShut :
      (db' coll' part' : String) (n : ℕ) (force : Bool) (m : Manager H F)
      → key db' coll' part' ≢ key db coll part
      → IsShut m
      → IsShut (open_rounds disk n force false db' coll' part' m).1
  unfolding open_rounds
  open_rounds-IsShut db' coll' part' zero force m ne s =
      last_round-IsShut (open_round disk force false db' coll' part' m)
        (open_round-IsShut db' coll' part' ne force m s)
  open_rounds-IsShut db' coll' part' (suc n) force m ne s =
      settle_round-IsShut (open_round disk force false db' coll' part' m)
        (open_rounds disk n force false db' coll' part')
        (open_round-IsShut db' coll' part' ne force m s)
        (λ t k. open_rounds-IsShut db' coll' part' n force t ne k)

  open_rounds-IsShut_at :
      (db' coll' part' : String) (n : ℕ) (force : Bool) (m : Manager H F)
      → (db ≡ db') × (coll ≡ coll') × (part ≡ part')
      → IsShut m
      → IsShut (open_rounds disk n force false db' coll' part' m).1
  open_rounds-IsShut_at db' coll' part' n force m (e₀, e₁, e₂) s =
      rw (sym e₀, sym e₁, sym e₂, open_rounds-fenced n force m s) s

  -- Whatever partition is opened, the fenced one stays closed.
  pub open_partition-IsShut :
      (db' coll' part' : String) (force : Bool) (retries : ℕ) (m : Manager H F)
      → Lacks b'/' db × Lacks b'/' coll × Lacks b'/' db' × Lacks b'/' coll'
      → IsShut m
      → IsShut (open_partition disk db' coll' part' force false retries m).1
  unfolding open_partition
  open_partition-IsShut db' coll' part' force retries m names s =
      if-IsShut (disk.exists m.files (resolve_partition_path m.root db' coll' part'))
        (open_rounds disk retries force false db' coll' part' m) (err file_not_found, m)
        (elim (Bool-cases (key db' coll' part' == key db coll part)) [
          | inl same ↦
              let e = (eq_iff (key db' coll' part') (key db coll part)).0 same in
              open_rounds-IsShut_at db' coll' part' retries force m (key-injective names (sym e)) s
          | inr other ↦
              open_rounds-IsShut db' coll' part' retries force m
                (λ e. cc (other, (eq_iff (key db' coll' part') (key db coll part)).1 e)) s
        ])
        s
