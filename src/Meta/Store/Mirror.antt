-- ===== src/Meta/Store/Mirror.antt =====
-- The zvec collection and the memory of a Writer's store agree on an id, through calls that may fail
-- (xvector/meta/store.py).
use xvector.Prelude.{
  ℕ, ◌⊎◌, String, ◌≡◌, refl, sym, ap, false, Option, none, some, true, ◌∙◌, List, [], ◌∷◌, arith,
  ◌==◌, Bool-cases, inl, inr, subst, if◌then◌else◌,
}
use xvector.Errors.{Error, ok, err}
use xvector.Text.{is_empty}
use xvector.Dict.{get, remove}
use xvector.Dict.Laws.{get-set, get-remove}
use xvector.Json.{Doc}
use xvector.Meta.Store.{Zvec, Store, stamped, or_same, write, upsert, delete, publish_snapshot}
use xvector.Meta.Store.Scan.{IsKeyed, IsKeyed-written, stamped-id}
use xvector.Meta.Store.Sync.{
  Op, put, drop, publish, perform, perform_all, upsert-cases, Left, stored, IsSynced,
  perform-IsSynced,
}
use xvector.Meta.Store.Laws.{
  ZvecLaws, delete-fewer, delete-entries, write-entries, raised-fewer, raised-same,
}

-- Each document that is put has an id.
abbrev pub HasIds : List Op → Type 0
HasIds [] = Unit
HasIds (put now doc_id doc_type payload ∷ ops) = (is_empty doc_id ≡ false) × HasIds ops
HasIds (drop doc_id ∷ ops) = HasIds ops
HasIds (publish ∷ ops) = HasIds ops

head_ids : (op : Op) (ops : List Op) → HasIds (op ∷ ops) → HasIds (op ∷ [])
head_ids (put now doc_id doc_type payload) ops i = (i.0, tt)
head_ids (drop doc_id) ops i = tt
head_ids publish ops i = tt

tail_ids : (op : Op) (ops : List Op) → HasIds (op ∷ ops) → HasIds ops
tail_ids (put now doc_id doc_type payload) ops i = i.1
tail_ids (drop doc_id) ops i = i
tail_ids publish ops i = i

module _ {C : Type 0} {z : Zvec C} (laws : ZvecLaws z) where
  open laws use {entries}

  -- The collection holds the document of the id that the memory holds, or neither does.
  pub record IsMirrored (j : String) (s : Store C) : Type 0 where
    pub c : C
    pub coll : s.coll ≡ some c
    pub same : get (entries c) j ≡ get s.docs j
    pub keyed : IsKeyed (entries c)

  -- The call is not a half-done one for the id: where zvec has no upsert, a write to the id does not
  -- raise, and zvec refuses no deletion of the id while it holds the document.
  abbrev pub IsWhole : String → Op → Store C → Type 0
  IsWhole j (put now doc_id doc_type payload) s =
      (doc_id == j) ≡ true
      → z.has_upsert ≡ false
      → (upsert z now doc_id doc_type payload s).0 ≡ ok tt
  IsWhole j (drop doc_id) s =
      (c : C)
      → (doc_id == j) ≡ true
      → s.coll ≡ some c
      → z.delete c doc_id ≡ none
      → get (entries c) doc_id ≡ none
  IsWhole j publish s = Unit

  abbrev pub AreWhole : String → List Op → Store C → Type 0
  AreWhole j [] s = Unit
  AreWhole j (op ∷ ops) s = IsWhole j op s × AreWhole j ops (perform z op s)

  stored-IsMirrored :
      (j : String) (now : ℕ) (doc_id doc_type : String) (payload : Doc) (s : Store C) (c' : C)
      → is_empty doc_id ≡ false
      → (m : IsMirrored j s)
      → write z m.c doc_id (stamped now doc_id doc_type payload) ≡ (ok tt, c')
      → IsMirrored j (stored z s c' doc_id (stamped now doc_id doc_type payload))
  stored-IsMirrored j now doc_id doc_type payload s c' full m written =
      let body = stamped now doc_id doc_type payload in
      record {
        c = c';
        coll = refl;
        same =
            write-entries laws m.c c' doc_id body j written
            ∙ ap (λ o. if doc_id == j then some body else o) m.same
            ∙ sym (get-set s.docs doc_id j body);
        keyed =
            IsKeyed-written (entries m.c) (entries c') doc_id body
              (λ k. write-entries laws m.c c' doc_id body k written) m.keyed
              (stamped-id now doc_id doc_type payload) full;
      }

  removed-IsMirrored :
      (j doc_id : String) (s : Store C)
      → s.read_only ≡ false
      → IsWhole j (drop doc_id) s
      → IsMirrored j s
      → IsMirrored j (delete z doc_id s).1
  unfolding delete
  removed-IsMirrored j doc_id s writer whole m =
      let docs = remove s.docs doc_id in
      let t = record s {
        coll = some (or_same m.c (z.delete m.c doc_id));
        docs = docs;
        snapshot = some docs;
      } in
      let e : (delete z doc_id s).1 ≡ t = ground (arith, m.coll) in
      subst (IsMirrored j) (sym e) (record {
        c = or_same m.c (z.delete m.c doc_id);
        coll = refl;
        same =
            delete-entries laws m.c doc_id j (λ here refused. whole m.c here m.coll refused)
            ∙ ap (λ o. if doc_id == j then none else o) m.same
            ∙ sym (get-remove s.docs doc_id j);
        keyed = λ id d g. m.keyed id d (delete-fewer laws m.c doc_id id d g);
      })

  -- whether the write that raised may have taken the document of the id away
  whole_or_other :
      (j : String) (now : ℕ) (doc_id doc_type : String) (payload : Doc) (s : Store C) {e : Error}
      → IsWhole j (put now doc_id doc_type payload) s
      → (upsert z now doc_id doc_type payload s).0 ≡ err e
      → (z.has_upsert ≡ true) ⊎ ((doc_id == j) ≡ false)
  whole_or_other j now doc_id doc_type payload s whole raised = elim (Bool-cases z.has_upsert) [
    | inl direct ↦ inl direct
    | inr indirect ↦ elim (Bool-cases (doc_id == j)) [
      | inl here ↦ let e = whole here indirect in cc
      | inr other ↦ inr other
    ]
  ]

  raised-IsMirrored :
      (j doc_id : String) (body : Doc) (s : Store C) (o : Option C)
      → (z.has_upsert ≡ true) ⊎ ((doc_id == j) ≡ false)
      → Left z s doc_id body o
      → IsMirrored j s
      → IsMirrored j (record s { coll = o })
  raised-IsMirrored j doc_id body s o w (inl same) m = record {
    c = m.c;
    coll = same ∙ m.coll;
    same = m.same;
    keyed = m.keyed;
  }
  raised-IsMirrored j doc_id body s o w (inr (c, c', e, opened, left, raised)) m =
      let same_c : c ≡ m.c = cc in
      let again : write z m.c doc_id body ≡ (err e, c') =
        subst (λ k. write z k doc_id body ≡ (err e, c')) same_c raised in
      record {
        c = c';
        coll = left;
        same = raised-same laws m.c c' doc_id body j again w ∙ m.same;
        keyed = λ id d g. m.keyed id d (raised-fewer laws m.c c' doc_id body id d again g);
      }

  perform-IsMirrored :
      (j : String) (op : Op) (s : Store C)
      → HasIds (op ∷ [])
      → IsWhole j op s
      → IsSynced z s
      → IsMirrored j s
      → IsMirrored j (perform z op s)
  unfolding perform
  perform-IsMirrored j (put now doc_id doc_type payload) s (full, _) whole y m =
      elim (upsert-cases z now doc_id doc_type payload s) [
        | inl (e, o, left, raised) ↦
            let body = stamped now doc_id doc_type payload in
            let w = whole_or_other j now doc_id doc_type payload s whole (ap (λ r. r.0) raised) in
            subst (IsMirrored j) (sym (ap (λ r. r.1) raised))
              (raised-IsMirrored j doc_id body s o w left m)
        | inr (c, c', opened, written, done) ↦
            let same_c : c ≡ m.c = cc in
            subst (IsMirrored j) (sym (ap (λ r. r.1) done)) (
              stored-IsMirrored j now doc_id doc_type payload s c' full m (
                subst (λ k. write z k doc_id (stamped now doc_id doc_type payload) ≡ (ok tt, c'))
                  same_c written))
      ]
  perform-IsMirrored j (drop doc_id) s i whole y m = removed-IsMirrored j doc_id s y.writer whole m
  perform-IsMirrored j publish s i whole y m =
      let t = record s { snapshot = some s.docs } in
      let e : (publish_snapshot z s).1 ≡ t =
        unfold publish_snapshot in ground (arith, y.writer, y.open_now) in
      subst (IsMirrored j) (sym e)
        (record { c = m.c; coll = m.coll; same = m.same; keyed = m.keyed })

  pub perform_all-IsMirrored :
      (j : String) (ops : List Op) (s : Store C)
      → HasIds ops
      → AreWhole j ops s
      → IsSynced z s
      → IsMirrored j s
      → IsMirrored j (perform_all z ops s)
  unfolding perform_all
  perform_all-IsMirrored j [] s i w y m = m
  perform_all-IsMirrored j (op ∷ ops) s i (w, ws) y m =
      perform_all-IsMirrored j ops (perform z op s) (tail_ids op ops i) ws
        (perform-IsSynced z op s y) (perform-IsMirrored j op s (head_ids op ops i) w y m)
