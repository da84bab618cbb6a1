-- ===== src/Meta/Store/Recovery.antt =====
-- What a Writer of xvector/meta/store.py finds when it starts again on the zvec collection and the
-- snapshot that another has left.
use xvector.Prelude.{
  subst, ◌≤◌, String, ◌≡◌, refl, sym, ap, ◌∙◌, true, arith, false, some, List, [], ◌∷◌,
}
use xvector.Errors.{Result, ok}
use xvector.Dict.{size, get}
use xvector.Meta.Store.{
  Zvec, topk, Docs, Store, new_store, scanned, settle, open_store, open_with, find, non_empty,
}
use xvector.Meta.Store.Scan.{get-rebuilt, or_first_none}
use xvector.Meta.Store.Sync.{Op, perform_all, IsSynced, perform_all-IsSynced}
use xvector.Meta.Store.Laws.{ZvecLaws}
use xvector.Meta.Store.Mirror.{HasIds, AreWhole, IsMirrored, perform_all-IsMirrored}

module _ {C : Type 0} {z : Zvec C} (laws : ZvecLaws z) where
  open laws use {entries, unique, scans}

  settle-docs :
      (r : Store C) (found docs : Docs) (j : String)
      → get found j ≡ get docs j
      → get (settle z r found (some docs)).docs j ≡ get docs j
  settle-docs r [] docs j h = refl
  settle-docs r (f ∷ found) docs j h = h

  settle-IsSynced :
      (r : Store C) (found docs : Docs)
      → r.read_only ≡ false
      → r.snapshot ≡ some docs
      → IsSynced z (settle z r found (some docs))
  settle-IsSynced r [] docs w p = record { writer = w; open_now = refl; published = p }
  settle-IsSynced r (f ∷ found) docs w p = record { writer = w; open_now = refl; published = refl }

  -- the answer of a Writer's store that is open
  find-open :
      (t : Store C) (j : String)
      → t.read_only ≡ false
      → t.opened ≡ true
      → (find z j t).0 ≡ ok (non_empty (get t.docs j))
  unfolding find
  find-open t j writer opened = ground (arith, writer, opened)

  -- The start-up query asks for as many documents as there are.
  abbrev pub HasRoom : Store C → Type 0
  HasRoom t = (c : C) → t.coll ≡ some c → size (entries c) ≤ 100000

  scanned-docs :
      (t : Store C) (j : String)
      → HasRoom t
      → (m : IsMirrored laws j t) → get (scanned z (z.scan m.c topk)) j ≡ get t.docs j
  scanned-docs t j room m =
      ap (λ o. get (scanned z o) j) (scans m.c topk (room m.c m.coll))
      ∙ get-rebuilt [] (entries m.c) j (unique m.c) m.keyed
      ∙ or_first_none (get (entries m.c) j) j
      ∙ m.same

  -- the Writer that starts on what another has left
  abbrev pub restarted : Store C → Result (Unit {0}) × Store C
  restarted t = open_store z t.coll (new_store false t.snapshot)

  reopened :
      (t : Store C) (j : String)
      → HasRoom t
      → IsSynced z t
      → IsMirrored laws j t
      → ((restarted t).0 ≡ ok tt)
        × ((find z j (restarted t).1).0 ≡ (find z j t).0)
        × IsSynced z (restarted t).1
  unfolding open_store
  reopened t j room y m =
      let r : Store C = record (new_store {C = C} false t.snapshot) { coll = some m.c } in
      let found = scanned z (z.scan m.c topk) in
      let e : restarted t ≡ (ok tt, settle z r found (some t.docs)) =
        ap (λ o. open_with z (new_store false t.snapshot) o) m.coll
        ∙ ap (λ o. (ok tt, settle z r found o)) y.published in
      let synced = settle-IsSynced r found t.docs refl y.published in
      let same = settle-docs r found t.docs j (scanned-docs t j room m) in
      (
        ap (λ p. p.0) e,
        ap (λ p. (find z j p.1).0) e
            ∙ find-open (settle z r found (some t.docs)) j synced.writer synced.open_now
            ∙ ap (λ o. ok (non_empty o)) same
            ∙ sym (find-open t j y.writer y.open_now),
        subst (λ p. IsSynced z p.1) (sym e) synced,
      )

  -- An open Writer's store begins with a snapshot that holds its documents and a zvec collection that
  -- holds the same document under an id, and the Writer makes any calls that put documents under ids
  -- that are not empty. Calls may fail, those of zvec too, but of the calls for this id no write
  -- raises where zvec has no upsert, and zvec refuses no deletion of a document that it holds. If
  -- zvec then holds at most 100000 documents, and the Writer stops between two calls and starts again on
  -- the same collection and the same snapshot file, the start returns, a look-up of the id is answered
  -- as before, and the new store is open and its snapshot holds its documents.
  pub recovery :
      (ops : List Op) (s : Store C) (j : String)
      → HasIds ops
      → AreWhole laws j ops s
      → IsSynced z s
      → IsMirrored laws j s
      → HasRoom (perform_all z ops s)
      → ((restarted (perform_all z ops s)).0 ≡ ok tt)
        × ((find z j (restarted (perform_all z ops s)).1).0 ≡ (find z j (perform_all z ops s)).0)
        × IsSynced z (restarted (perform_all z ops s)).1
  recovery ops s j i w y m room =
      reopened (perform_all z ops s) j room (perform_all-IsSynced z ops s y)
        (perform_all-IsMirrored laws j ops s i w y m)
