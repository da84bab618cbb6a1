-- ===== src/Examples/Stores.antt =====
-- A Writer's store over a dictionary that plays the part of the zvec collection.
use xvector.Prelude.{
  ◌≤◌, sym, ap, ◌∙◌, subst, String, ◌≡◌, refl, Bool, true, false, Option, none, some, List, [], ◌∷◌,
  arith, ◌==◌, eq_iff, if◌then◌else◌,
}
use xvector.Errors.{ok}
use xvector.Dict.{size, get, set, remove, values}
use xvector.Dict.Laws.{get-set, get-remove}
use xvector.Json.{Doc, str}
use xvector.Meta.Store.{
  publish_snapshot, Zvec, Docs, Store, new_store, stamped, write, get_doc, upsert, delete, find,
}
use xvector.Meta.Store.Scan.{HasUniqueIds}
use xvector.Meta.Store.Sync.{
  perform, Op, put, drop, publish, perform_all, IsSynced, find_in_sync, upsert-docs,
}
use xvector.Meta.Store.Laws.{ZvecLaws}
use xvector.Meta.Store.Mirror.{IsMirrored, AreWhole}
use xvector.Meta.Store.Recovery.{HasRoom, restarted, recovery}

if-HasUniqueIds :
    (b : Bool) (x y : Docs)
    → (b ≡ true → HasUniqueIds x)
    → (b ≡ false → HasUniqueIds y)
    → HasUniqueIds (if b then x else y)
if-HasUniqueIds true x y h k = h refl
if-HasUniqueIds false x y h k = k refl

pub set-HasUniqueIds :
    (docs : Docs) (id : String) (d : Doc) → HasUniqueIds docs → HasUniqueIds (set docs id d)
unfolding set get
set-HasUniqueIds [] id d u = (refl, tt)
set-HasUniqueIds ((j, e) ∷ docs) id d (fresh, u) =
    if-HasUniqueIds (j == id) ((id, d) ∷ docs) ((j, e) ∷ set docs id d)
      (λ h. (subst (λ k. get docs k ≡ none) ((eq_iff j id).0 h) fresh, u))
      (λ h. (
        ground (arith, get-set docs id j d, eq_iff id j, eq_iff j id),
        set-HasUniqueIds docs id d u,
      ))

pub remove-HasUniqueIds :
    (docs : Docs) (id : String) → HasUniqueIds docs → HasUniqueIds (remove docs id)
unfolding remove
remove-HasUniqueIds [] id u = tt
remove-HasUniqueIds ((j, e) ∷ docs) id (fresh, u) =
    if-HasUniqueIds (j == id) (remove docs id) ((j, e) ∷ remove docs id)
      (λ h. remove-HasUniqueIds docs id u)
      (λ h. (ground (arith, get-remove docs id j), remove-HasUniqueIds docs id u))

abbrev pub Kept : Type 0
Kept = (docs : Docs) × HasUniqueIds docs

abbrev pub kept_zvec : Zvec Kept
kept_zvec = record {
  has_upsert = true;
  upsert = λ c id d. some (set c.0 id d, set-HasUniqueIds c.0 id d c.1);
  insert = λ c id d. some (set c.0 id d, set-HasUniqueIds c.0 id d c.1);
  delete = λ c id. some (remove c.0 id, remove-HasUniqueIds c.0 id c.1);
  scan = λ c n. some (values c.0);
}

-- the documents of a write's result
abbrev pub docs_of : Option Kept → Docs
docs_of none = []
docs_of (some c) = c.0

abbrev pub kept_laws : ZvecLaws kept_zvec
kept_laws = record {
  entries = λ c. c.0;
  unique = λ c. c.1;
  upserted = λ c c' id d e j. ap (λ o. get (docs_of o) j) (sym e) ∙ get-set c.0 id j d;
  inserted = λ c c' id d e j. ap (λ o. get (docs_of o) j) (sym e) ∙ get-set c.0 id j d;
  deleted = λ c c' id e j. ap (λ o. get (docs_of o) j) (sym e) ∙ get-remove c.0 id j;
  scans = λ c n small. refl;
}

-- a Writer's store that was opened on an empty collection
abbrev pub empty_store : Store Kept
empty_store = record {
  read_only = false;
  opened = true;
  coll = some ([], tt);
  docs = [];
  snapshot = some [];
}

abbrev pub some_ops : List Op
some_ops =
    put 5 "user__ann" "user" (("username", str "ann") ∷ [])
    ∷ put 6 "user__bob" "user" []
    ∷ drop "user__ann"
    ∷ publish
    ∷ []

abbrev pub synced : IsSynced kept_zvec empty_store
synced = record { writer = refl; open_now = refl; published = refl }

no_doc : (id : String) {d : Doc} {A : Type 0} → get [] id ≡ some d → A
unfolding get
no_doc id e = absurd (cc e)

abbrev mirrored : IsMirrored kept_laws "user__bob" empty_store
mirrored = record { c = ([], tt); coll = refl; same = refl; keyed = λ id d e. no_doc id e }

some_ops-AreWhole : AreWhole kept_laws "user__bob" some_ops empty_store
some_ops-AreWhole = (
  λ here no_upsert. absurd (cc no_upsert),
  (
    λ here no_upsert. absurd (cc no_upsert),
    (λ c here opened refused. absurd (cc refused), (tt, tt)),
  ),
)

room : HasRoom kept_laws (perform_all kept_zvec some_ops empty_store)
unfolding perform_all perform upsert delete publish_snapshot write set remove stamped
room c e = subst (λ o. size (docs_of o) ≤ 100000) e (omega arith)

find_in_sync_example :
    (find kept_zvec "user__bob" (record (new_store {C = Kept} true none) {
      snapshot = (perform_all kept_zvec some_ops empty_store).snapshot;
    })).0
    ≡ ok (get_doc kept_zvec (perform_all kept_zvec some_ops empty_store) "user__bob")
find_in_sync_example =
    find_in_sync kept_zvec some_ops empty_store (new_store {C = Kept} true none) "user__bob" synced
      refl

recovery_example :
    ((restarted {z = kept_zvec} kept_laws (perform_all kept_zvec some_ops empty_store)).0 ≡ ok tt)
    × ((find kept_zvec "user__bob"
          (restarted {z = kept_zvec} kept_laws (perform_all kept_zvec some_ops empty_store)).1).0
        ≡ (find kept_zvec "user__bob" (perform_all kept_zvec some_ops empty_store)).0)
    × IsSynced kept_zvec
        (restarted {z = kept_zvec} kept_laws (perform_all kept_zvec some_ops empty_store)).1
recovery_example =
    recovery kept_laws some_ops empty_store "user__bob" (refl, (refl, tt)) some_ops-AreWhole synced
      mirrored room

-- the store after a user was written
abbrev pub with_ann : Store Kept
with_ann = (upsert kept_zvec 5 "user__ann" "user" (("username", str "ann") ∷ []) empty_store).1

written :
    upsert kept_zvec 5 "user__ann" "user" (("username", str "ann") ∷ []) empty_store
    ≡ (ok tt, with_ann)
unfolding upsert write
written = refl

upsert-docs_example :
    (get with_ann.docs "user__ann" ≡ (
      if "user__ann" == "user__ann"
      then some (stamped 5 "user__ann" "user" (("username", str "ann") ∷ []))
      else get empty_store.docs "user__ann"))
    × (with_ann.snapshot ≡ some with_ann.docs)
upsert-docs_example =
    upsert-docs kept_zvec 5 "user__ann" "user" (("username", str "ann") ∷ []) empty_store written
      "user__ann"

abbrev ann_kept : Kept
ann_kept = (
  set [] "user__ann" (stamped 5 "user__ann" "user" (("username", str "ann") ∷ [])),
  set-HasUniqueIds [] "user__ann" (stamped 5 "user__ann" "user" (("username", str "ann") ∷ [])) tt,
)
