-- ===== src/Services/Coordination/Notices.antt =====
-- The notifications of the Reader (xvector/api/reader_app.py) and a partition that is fenced and closed.
use Prim.Native.String.{[], ◌∷◌}
use xvector.Errors.{Result, ok, err}
use xvector.Engine.Handles.Elsewhere.{IsOther, unfence_partitions-IsShut}
use xvector.Engine.Handles.Fencing.{fence_partitions-IsShut}
use xvector.Prelude.{Option, none, Bool-cases, inl, inr, String, Bool, true, false, List, [], ◌∷◌}
use xvector.Text.{Lacks}
use xvector.Engine.{Disk}
use xvector.Engine.Handles.{Manager, key, has_wal, unfence_partitions}
use xvector.Engine.Handles.Opens.{open_partition, close_partition, close_collection}
use xvector.Engine.Handles.Fences.{IsShut, pop-IsShut, pop_all-IsShut, open_partition-IsShut}
use xvector.Services.Coordination.{
  or_default, fences_by, opened_then, open_all, internal_open, close_all, close_without_fence,
  internal_close, internal_unfence,
}
use xvector.Services.Coordination.Refresh.{pending}

-- a notification that the Reader takes
pub data Notice : Type 0 where
  opens unfences : (db coll : String) → List String → Notice
  closes : (db coll : String) → List String → (fence : Option Bool) → Notice

-- The notification ends no fence of this collection.
abbrev pub IsElsewhere : String → String → Notice → Type 0
IsElsewhere db coll (opens db' coll' parts) =
    (Lacks b'/' db' × Lacks b'/' coll') × IsOther db coll db' coll'
IsElsewhere db coll (unfences db' coll' parts) =
    (Lacks b'/' db' × Lacks b'/' coll') × IsOther db coll db' coll'
IsElsewhere db coll (closes db' coll' parts fence) = Unit

module _ {H F : Type 0} (disk : Disk H F) where
  -- the endpoint of the Reader
  unfoldable pub endpoint : Notice → Manager H F → Bool × Manager H F
  unfolding internal_open internal_unfence internal_close
  endpoint (opens db coll parts) = internal_open disk db coll parts
  endpoint (unfences db coll parts) = internal_unfence disk db coll parts
  endpoint (closes db coll parts fence) = internal_close disk db coll parts fence

  module _ (db coll part : String) (names : Lacks b'/' db × Lacks b'/' coll) where
    opened_then-IsShut :
        (r : Result H × Manager H F) (rest : Manager H F → Bool × Manager H F)
        → IsShut disk db coll part r.1
        → ((m : Manager H F) → IsShut disk db coll part m → IsShut disk db coll part (rest m).1)
        → IsShut disk db coll part (opened_then disk r rest).1
    opened_then-IsShut (ok h, m) rest s f = f m s
    opened_then-IsShut (err x, m) rest s f = s

    open_all-IsShut :
        (db' coll' : String) (parts : List String) (m : Manager H F)
        → Lacks b'/' db' × Lacks b'/' coll'
        → IsShut disk db coll part m
        → IsShut disk db coll part (open_all disk db' coll' parts m).1
    unfolding open_all
    open_all-IsShut db' coll' [] m n s = s
    open_all-IsShut db' coll' (p ∷ parts) m (h₂, h₃) s =
        elim (Bool-cases (has_wal disk m db' coll' p)) [
          | inl pending ↦ rw pending (open_all-IsShut db' coll' parts m (h₂, h₃) s)
          | inr sealed ↦ rw sealed (
              opened_then-IsShut (open_partition disk db' coll' p true false 0 m)
                (open_all disk db' coll' parts)
                (open_partition-IsShut disk db coll part db' coll' p true 0 m
                  (names.0, names.1, h₂, h₃) s)
                (λ t k. open_all-IsShut db' coll' parts t (h₂, h₃) k))
        ]

    close_all-IsShut :
        (db' coll' : String) (parts : List String) (m : Manager H F)
        → IsShut disk db coll part m
        → IsShut disk db coll part (close_all disk db' coll' parts m)
    unfolding close_all close_partition
    close_all-IsShut db' coll' [] m s = s
    close_all-IsShut db' coll' (p ∷ parts) m s =
        close_all-IsShut db' coll' parts (close_partition disk db' coll' p none m).1
          (pop-IsShut disk db coll part (key db' coll' p) _ m s)

    close_without_fence-IsShut :
        (db' coll' : String) (parts : List String) (m : Manager H F)
        → IsShut disk db coll part m
        → IsShut disk db coll part (close_without_fence disk db' coll' parts m)
    unfolding close_collection
    close_without_fence-IsShut db' coll' [] m s = pop_all-IsShut disk db coll part _ m s
    close_without_fence-IsShut db' coll' (p ∷ parts) m s =
        close_all-IsShut db' coll' (p ∷ parts) m s

    pub endpoint-IsShut :
        (notice : Notice) (m : Manager H F)
        → IsElsewhere db coll notice
        → IsShut disk db coll part m
        → IsShut disk db coll part (endpoint notice m).1
    unfolding endpoint internal_open internal_unfence internal_close
    endpoint-IsShut (opens db' coll' parts) m ((h₂, h₃), other) s =
        open_all-IsShut db' coll' (or_default parts)
          (unfence_partitions disk db' coll' (or_default parts) m).1 (h₂, h₃)
          (unfence_partitions-IsShut disk db coll part db' coll' (or_default parts) m
            (names.0, names.1, h₂, h₃) other s)
    endpoint-IsShut (unfences db' coll' parts) m ((h₂, h₃), other) s =
        unfence_partitions-IsShut disk db coll part db' coll' parts m (names.0, names.1, h₂, h₃)
          other s
    endpoint-IsShut (closes db' coll' parts fence) m u s = elim (Bool-cases (fences_by fence)) [
      | inl fences ↦ rw fences (fence_partitions-IsShut disk db coll part db' coll' parts m s)
      | inr bare ↦ rw bare (close_without_fence-IsShut db' coll' parts m s)
    ]
