-- ===== src/Services/Coordination/Released.antt =====
-- While a write goes on, the Reader leaves its partitions alone; afterwards it may open them again.
use Prim.Native.String.{[]}
use xvector.Prelude.{String, Bool, true, false, List, [], ◌∷◌, ◌≡◌, refl, ◌∙◌, inl, inr, Bool-cases}
use xvector.Errors.{Result, ok, err}
use xvector.Meta.Catalog.{mem}
use xvector.Engine.{Disk}
use xvector.Engine.Handles.{Manager, is_fenced, has_wal, unfence_partitions}
use xvector.Engine.Handles.Opens.{open_partition}
use xvector.Engine.Handles.Fencing.{fence_partitions-shuts}
use xvector.Engine.Handles.Fences.{IsShut}
use xvector.Engine.Handles.Kept.{open_partition-fences, unfence_partitions-ends}
use xvector.Services.Coordination.{
  System, on_reader, opened_then, open_all, internal_open, internal_close, internal_unfence,
  notify_reader, seal_parts, release, restore, with_reader_released, with_result,
}

module _ {H F : Type 0} (disk : Disk H F) where
  opened_then-fences :
      (fences : List String) (r : Result H × Manager H F) (rest : Manager H F → Bool × Manager H F)
      → r.1.fences ≡ fences
      → ((m : Manager H F) → (rest m).1.fences ≡ m.fences)
      → (opened_then disk r rest).1.fences ≡ fences
  opened_then-fences fences (ok h, m) rest e f = f m ∙ e
  opened_then-fences fences (err x, m) rest e f = e

  open_all-fences :
      (db coll : String) (parts : List String) (m : Manager H F)
      → (open_all disk db coll parts m).1.fences ≡ m.fences
  unfolding open_all
  open_all-fences db coll [] m = refl
  open_all-fences db coll (p ∷ parts) m = elim (Bool-cases (has_wal disk m db coll p)) [
    | inl pending ↦ rw pending (open_all-fences db coll parts m)
    | inr sealed ↦ rw sealed (
        opened_then-fences m.fences (open_partition disk db coll p true false 0 m)
          (open_all disk db coll parts) (open_partition-fences disk db coll p true 0 m)
          (open_all-fences db coll parts))
  ]

  is_fenced-eq :
      (db coll part : String) (m n : Manager H F)
      → m.fences ≡ n.fences
      → is_fenced m db coll part ≡ is_fenced n db coll part
  unfolding is_fenced
  is_fenced-eq db coll part m n e = rw e refl

  -- a partition of the request is no longer fenced behind it
  pub internal_open-ends :
      (db coll part : String) (parts : List String) (m : Manager H F)
      → mem part parts ≡ true
      → is_fenced (internal_open disk db coll parts m).1 db coll part ≡ false
  unfolding internal_open
  internal_open-ends db coll part [] m h = unfold mem in cc
  internal_open-ends db coll part (p ∷ parts) m h =
      is_fenced-eq db coll part _ (unfence_partitions disk db coll (p ∷ parts) m).1
        (open_all-fences db coll (p ∷ parts) (unfence_partitions disk db coll (p ∷ parts) m).1)
      ∙ unfence_partitions-ends disk db coll part (p ∷ parts) m h

  restore-ends :
      (was_loaded : Bool) (db coll part : String) (parts others : List String) (s : System H F)
      → mem part parts ≡ true
      → is_fenced (restore disk true was_loaded db coll parts others s).reader db coll part ≡ false
  unfolding restore notify_reader on_reader internal_unfence
  restore-ends was_loaded db coll part [] others s h = unfold mem in cc
  restore-ends true db coll part (p ∷ parts) others s h =
      let sealed = seal_parts disk db coll (p ∷ parts) s in
      internal_open-ends db coll part (p ∷ parts) (record sealed.reader { files = sealed.files }) h
  restore-ends false db coll part (p ∷ parts) others s h =
      let sealed = seal_parts disk db coll (p ∷ parts) s in
      unfence_partitions-ends disk db coll part (p ∷ parts)
        (record sealed.reader { files = sealed.files }) h

  pub release-shuts :
      (db coll part : String) (parts : List String) (s : System H F)
      → s.reader.read_only ≡ true
      → mem part parts ≡ true
      → IsShut disk db coll part (release disk true db coll parts s).reader
  unfolding release notify_reader on_reader internal_close
  release-shuts db coll part parts s r h =
      fence_partitions-shuts disk db coll part parts (record s.reader { files = s.files }) r (inr h)

  with_result-reader :
      {A : Type 0} (db coll part : String) (finish : System H F → System H F)
      (r : Result A × System H F)
      → ((s : System H F) → is_fenced (finish s).reader db coll part ≡ false)
      → is_fenced (with_result disk finish r).1.reader db coll part ≡ false
  with_result-reader db coll part finish (a, s) f = f s

  -- When both notifications arrive, every partition of a write is fenced and closed in the Reader
  -- as the body begins, and no longer fenced there when the write is over, whatever the body does
  -- and however it ends.
  pub with_reader_released-ends :
      {A : Type 0} (was_loaded : Bool) (db coll part : String) (parts others : List String)
      (body : System H F → Result A × System H F) (s : System H F)
      → s.reader.read_only ≡ true
      → mem part parts ≡ true
      → IsShut disk db coll part (release disk true db coll parts s).reader
        × (is_fenced
              (with_reader_released disk true true was_loaded db coll parts others body s).1.reader
              db
              coll
              part
            ≡ false)
  unfolding with_reader_released
  with_reader_released-ends was_loaded db coll part parts others body s r h = (
    release-shuts db coll part parts s r h,
    with_result-reader db coll part (restore disk true was_loaded db coll parts others)
        (body (release disk true db coll parts s))
        (λ t. restore-ends was_loaded db coll part parts others t h),
  )
