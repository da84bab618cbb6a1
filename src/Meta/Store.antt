-- ===== src/Meta/Store.antt =====
-- xvector/meta/store.py: the Writer keeps the documents in a zvec collection, mirrors them in
-- memory and publishes them as a snapshot file, which the Reader loads. The zvec library is the
-- parameter `z`; a call of it that raises is `none` and leaves the collection as it was. The snapshot file is a field of both
-- processes' stores and holds the documents that were dumped to it.
pub mod Sync
pub mod Scan
pub mod Laws
pub mod Mirror
pub mod Recovery
use xvector.Prelude.{
  ℕ, String, Bool, true, false, not, ◌&&◌, ◌||◌, Option, none, some, List, [], ◌∷◌, ◌==◌,
  if◌then◌else◌,
}
use xvector.Errors.{Result, ok, err, runtime, meta_not_ready}
use xvector.Exec.{Exec}
use xvector.Text.{is_empty}
use xvector.Dict.{get, set, remove, values}
use xvector.Json.{Json, null, num, str, Doc, get_value, truthy, is_text}

-- the operations of a zvec collection that the store uses; `C` is its content
pub record Zvec (C : Type 0) : Type 0 where
  pub has_upsert : Bool
  pub upsert : C → String → Doc → Option C
  pub insert : C → String → Doc → Option C
  pub delete : C → String → Option C
  -- the payloads that the query for this many documents returns
  pub scan : C → ℕ → Option (List Doc)

-- the number of documents that `_rebuild_cache_from_zvec` asks for
abbrev pub topk : ℕ
topk = 100000

abbrev pub Docs : Type 0
Docs = List (String × Doc)

pub record Store (C : Type 0) : Type 0 where
  pub read_only : Bool
  pub opened : Bool
  pub coll : Option C
  pub docs : Docs
  pub snapshot : Option Docs

-- MetaStore(paths, read_only), where the snapshot file is this
abbrev pub new_store : {C : Type 0} → Bool → Option Docs → Store C
new_store read_only snapshot = record {
  read_only = read_only;
  opened = false;
  coll = none;
  docs = [];
  snapshot = snapshot;
}

-- d.setdefault(key, value)
abbrev pub set_default : Doc → String → Json → Doc
set_default d key value = elim (get d key) [ none ↦ set d key value | some v ↦ d ]

-- the body that `upsert` stores
unfoldable pub stamped : ℕ → String → String → Doc → Doc
unfolding set get
stamped now doc_id doc_type payload =
    set (set_default (set payload "doc_type" (str doc_type)) "updated_at" (num now)) "_id"
      (str doc_id)

abbrev pub or_same {ℓ} : {A : Type ℓ} → A → Option A → A
or_same a none = a
or_same a (some b) = b

-- dict(doc) if doc else None
abbrev pub non_empty : Option Doc → Option Doc
non_empty none = none
non_empty (some []) = none
non_empty (some (f ∷ d)) = some (f ∷ d)

-- [d for d in docs if d.get("doc_type") == doc_type]
unfoldable pub of_type : String → List Doc → List Doc
of_type doc_type [] = []
of_type doc_type (d ∷ ds) =
    let rest = of_type doc_type ds in
    if is_text (get_value d "doc_type") doc_type then d ∷ rest else rest

-- One round of `_rebuild_cache_from_zvec`, by the payload's "_id". That is a text wherever the
-- program writes one: a payload with another is passed over here.
abbrev pub add_payload : Docs → Doc → Json → Docs
add_payload docs payload (str id) = if is_empty id then docs else set docs id payload
add_payload docs payload _ = docs

unfoldable pub rebuilt : Docs → List Doc → Docs
rebuilt docs [] = docs
rebuilt docs (payload ∷ payloads) =
    rebuilt (add_payload docs payload (get_value payload "_id")) payloads

module _ {C : Type 0} (z : Zvec C) where
  -- what a call on the collection c ends with, and the collection after it
  abbrev pub outcome : C → Option C → Result (Unit {0}) × C
  outcome c none = (err runtime, c)
  outcome c (some c') = (ok tt, c')

  -- the second way to write: what the insertion finds is what the deletion has left
  abbrev pub insert_into : C → String → Doc → Result (Unit {0}) × C
  insert_into c doc_id body = outcome c (z.insert c doc_id body)

  -- the two ways to write one document
  unfoldable pub write : C → String → Doc → Result (Unit {0}) × C
  write c doc_id body =
      if z.has_upsert
      then outcome c (z.upsert c doc_id body)
      else insert_into (or_same c (z.delete c doc_id)) doc_id body

  abbrev pub keep : Store C → String → Doc → Result (Unit {0}) × C → Result (Unit {0}) × Store C
  keep s doc_id body (err e, c) = (err e, record s { coll = some c })
  keep s doc_id body (ok _, c) = (
    ok tt,
    record s {
      coll = some c;
      docs = set s.docs doc_id body;
      snapshot = some (set s.docs doc_id body);
    },
  )

  abbrev pub write_open : Store C → String → Doc → Option C → Result (Unit {0}) × Store C
  write_open s doc_id body none = (err runtime, s)
  write_open s doc_id body (some c) = keep s doc_id body (write c doc_id body)

  unfoldable pub upsert : ℕ → String → String → Doc → Exec (Store C) (Unit {0})
  upsert now doc_id doc_type payload s =
      if s.read_only
      then (err runtime, s)
      else write_open s doc_id (stamped now doc_id doc_type payload) s.coll

  -- every exception of the collection is swallowed, the one of a store that is not open too
  abbrev pub delete_from : Option C → String → Option C
  delete_from none doc_id = none
  delete_from (some c) doc_id = some (or_same c (z.delete c doc_id))

  unfoldable pub delete : String → Exec (Store C) (Unit {0})
  delete doc_id s = if s.read_only then (err runtime, s) else (
    ok tt,
    record s {
      coll = delete_from s.coll doc_id;
      docs = remove s.docs doc_id;
      snapshot = some (remove s.docs doc_id);
    },
  )

  -- _load_snapshot, and then self._opened = True
  abbrev pub load_snapshot : Store C → Option Docs → Result (Unit {0}) × Store C
  load_snapshot s none = (err meta_not_ready, s)
  load_snapshot s (some docs) = (ok tt, record s { docs = docs; opened = true })

  -- what `get` and `list_by_type` do first
  abbrev pub refresh : Exec (Store C) (Unit {0})
  refresh s = if s.read_only then load_snapshot s s.snapshot else (ok tt, s)

  abbrev pub get_doc : Store C → String → Option Doc
  get_doc s doc_id = if s.opened then non_empty (get s.docs doc_id) else none

  abbrev pub answer {ℓ} :
      {A : Type ℓ} → (Store C → A) → Result (Unit {0}) × Store C → Result A × Store C
  answer f (ok _, s) = (ok (f s), s)
  answer f (err e, s) = (err e, s)

  unfoldable pub find : String → Exec (Store C) (Option Doc)
  find doc_id s = answer (λ t. get_doc t doc_id) (refresh s)

  unfoldable pub list_by_type : String → Exec (Store C) (List Doc)
  list_by_type doc_type s = answer (λ t. of_type doc_type (values t.docs)) (refresh s)

  unfoldable pub publish_snapshot : Exec (Store C) (Unit {0})
  publish_snapshot s =
      if s.read_only
      then (err runtime, s)
      else if s.opened
      then (ok tt, record s { snapshot = some s.docs })
      else (err runtime, s)

  abbrev pub scanned : Option (List Doc) → Docs
  scanned none = []
  scanned (some payloads) = rebuilt [] payloads

  -- the end of `open`: publish what was found, or fall back to a snapshot that is there
  abbrev pub settle : Store C → Docs → Option Docs → Store C
  settle s [] (some docs) = record s { docs = docs; opened = true }
  settle s docs snapshot = record s { docs = docs; opened = true; snapshot = some docs }

  abbrev pub open_with : Store C → Option C → Result (Unit {0}) × Store C
  open_with s none = (err runtime, s)
  open_with s (some c) =
      (ok tt, settle (record s { coll = some c }) (scanned (z.scan c topk)) s.snapshot)

  -- `found` is the collection that zvec opens or creates
  unfoldable pub open_store : Option C → Exec (Store C) (Unit {0})
  open_store found s = if s.read_only then load_snapshot s s.snapshot else open_with s found

  unfoldable pub close_store : Exec (Store C) (Unit {0})
  close_store s = (
    ok tt,
    record s {
      coll = none;
      docs = [];
      opened = false;
      snapshot = if not s.read_only && s.opened then some s.docs else s.snapshot;
    },
  )

  unfoldable pub reopen : Option C → Exec (Store C) (Unit {0})
  reopen found s =
      if s.read_only
      then load_snapshot s s.snapshot
      else open_with (record s { coll = none; opened = false }) found
