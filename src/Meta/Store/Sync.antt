-- ===== src/Meta/Store/Sync.antt =====
-- What the operations of xvector/meta/store.py do to the documents, and that the Reader agrees
-- with the Writer.
use xvector.Prelude.{
  ℕ, String, ◌≡◌, refl, sym, ap, ◌∙◌, true, false, Option, none, some, List, [], ◌∷◌, arith, ◌==◌,
  Bool-cases, ◌⊎◌, inl, inr, subst, if◌then◌else◌,
}
use xvector.Errors.{Error, Result, ok, err, runtime}
use xvector.Dict.{get, set}
use xvector.Dict.Laws.{get-set, get-remove}
use xvector.Json.{Doc}
use xvector.Meta.Store.{
  Zvec, Store, stamped, get_doc, write, keep, write_open, upsert, delete, find, publish_snapshot,
}

-- The calls that the Writer's catalog makes of its store.
pub data Op : Type 0 where
  put : (now : ℕ) (doc_id doc_type : String) (payload : Doc) → Op
  drop : (doc_id : String) → Op
  publish : Op

module _ {C : Type 0} (z : Zvec C) where
  -- the state after a successful write
  abbrev pub stored : Store C → C → String → Doc → Store C
  stored s c doc_id body = record s {
    coll = some c;
    docs = set s.docs doc_id body;
    snapshot = some (set s.docs doc_id body);
  }

  -- what a write that raises leaves of the collection
  abbrev pub Left : Store C → String → Doc → Option C → Type 0
  Left s doc_id body o =
      (o ≡ s.coll)
      ⊎ ((c c' : C) × (e : Error) × (s.coll ≡ some c)
          × (o ≡ some c')
          × (write z c doc_id body ≡ (err e, c')))

  -- `upsert` either raises and changes the collection at most, or stores the document.
  abbrev pub Upserted : ℕ → String → String → Doc → Store C → Type 0
  Upserted now doc_id doc_type payload s =
      ((e : Error) × (o : Option C) × Left s doc_id (stamped now doc_id doc_type payload) o
        × (upsert z now doc_id doc_type payload s ≡ (err e, record s { coll = o })))
      ⊎ ((c c' : C) × (s.coll ≡ some c)
          × (write z c doc_id (stamped now doc_id doc_type payload) ≡ (ok tt, c'))
          × (upsert z now doc_id doc_type payload s
              ≡ (ok tt, stored s c' doc_id (stamped now doc_id doc_type payload))))

  keep-cases :
      (s : Store C) (doc_id : String) (body : Doc) (r : Result (Unit {0}) × C)
      → ((e : Error) × (c : C) × (r ≡ (err e, c))
          × (keep z s doc_id body r ≡ (err e, record s { coll = some c })))
        ⊎ ((c : C) × (r ≡ (ok tt, c)) × (keep z s doc_id body r ≡ (ok tt, stored s c doc_id body)))
  keep-cases s doc_id body (err e, c) = inl (e, c, refl, refl)
  keep-cases s doc_id body (ok tt, c) = inr (c, refl, refl)

  write_open-cases :
      (s : Store C) (doc_id : String) (body : Doc) (o : Option C)
      → s.coll ≡ o
      → ((e : Error) × (o' : Option C) × Left s doc_id body o'
          × (write_open z s doc_id body o ≡ (err e, record s { coll = o' })))
        ⊎ ((c c' : C) × (s.coll ≡ some c)
            × (write z c doc_id body ≡ (ok tt, c'))
            × (write_open z s doc_id body o ≡ (ok tt, stored s c' doc_id body)))
  write_open-cases s doc_id body none h = inl (runtime, s.coll, inl refl, refl)
  write_open-cases s doc_id body (some c) h =
      elim (keep-cases s doc_id body (write z c doc_id body)) [
        | inl (e, c', raised, same) ↦ inl (e, some c', inr (c, c', e, h, refl, raised), same)
        | inr (c', written, same) ↦ inr (c, c', h, written, same)
      ]

  pub upsert-cases :
      (now : ℕ) (doc_id doc_type : String) (payload : Doc) (s : Store C)
      → Upserted now doc_id doc_type payload s
  unfolding upsert
  upsert-cases now doc_id doc_type payload s = elim (Bool-cases s.read_only) [
    | inl reader ↦ inl (runtime, s.coll, inl refl, rw reader)
    | inr writer ↦
        let body = stamped now doc_id doc_type payload in
        let e : upsert z now doc_id doc_type payload s ≡ write_open z s doc_id body s.coll =
          ap (λ b. if b then (err runtime, s) else write_open z s doc_id body s.coll) writer in
        elim (write_open-cases s doc_id body s.coll refl) [
          | inl (x, o, left, raised) ↦ inl (x, o, left, e ∙ raised)
          | inr (c, c', opened, written, done) ↦ inr (c, c', opened, written, e ∙ done)
        ]
  ]

  -- A call of `upsert` that returns has stored the stamped document under its id, changed no other
  -- document, and published the result.
  pub upsert-docs :
      (now : ℕ) (doc_id doc_type : String) (payload : Doc) (s : Store C) {t : Store C}
      → upsert z now doc_id doc_type payload s ≡ (ok tt, t)
      → (j : String)
      → (get t.docs j
          ≡ (if doc_id == j then some (stamped now doc_id doc_type payload) else get s.docs j))
        × (t.snapshot ≡ some t.docs)
  upsert-docs now doc_id doc_type payload s {t} h j =
      elim (upsert-cases now doc_id doc_type payload s) [
        | inl (e, o, left, raised) ↦ cc
        | inr (c, c', opened, written, done) ↦
            let body = stamped now doc_id doc_type payload in
            let same : stored s c' doc_id body ≡ t = cc in
            subst
              (λ u.
                (get u.docs j ≡ (if doc_id == j then some body else get s.docs j))
                × (u.snapshot ≡ some u.docs))
              same (get-set s.docs doc_id j body, refl)
      ]

  -- the memory after a deletion
  pub get-delete :
      (doc_id : String) (s : Store C) (j : String)
      → s.read_only ≡ false
      → get (delete z doc_id s).1.docs j ≡ (if doc_id == j then none else get s.docs j)
  unfolding delete
  get-delete doc_id s j writer = ground (arith, get-remove s.docs doc_id j)

  unfoldable pub perform : Op → Store C → Store C
  perform (put now doc_id doc_type payload) s = (upsert z now doc_id doc_type payload s).1
  perform (drop doc_id) s = (delete z doc_id s).1
  perform publish s = (publish_snapshot z s).1

  unfoldable pub perform_all : List Op → Store C → Store C
  perform_all [] s = s
  perform_all (op ∷ ops) s = perform_all ops (perform op s)

  -- The store is an open Writer's, and the snapshot file holds its documents.
  pub record IsSynced (s : Store C) : Type 0 where
    pub writer : s.read_only ≡ false
    pub open_now : s.opened ≡ true
    pub published : s.snapshot ≡ some s.docs

  pub perform-IsSynced : (op : Op) (s : Store C) → IsSynced s → IsSynced (perform op s)
  unfolding perform
  perform-IsSynced (put now doc_id doc_type payload) s h =
      elim (upsert-cases now doc_id doc_type payload s) [
        | inl (e, o, left, raised) ↦
            subst IsSynced (sym (ap (λ r. r.1) raised))
              (record { writer = h.writer; open_now = h.open_now; published = h.published })
        | inr (c, c', opened, written, done) ↦
            subst IsSynced (sym (ap (λ r. r.1) done))
              (record { writer = h.writer; open_now = h.open_now; published = refl })
      ]
  perform-IsSynced (drop doc_id) s h = unfold delete in ground arith
  perform-IsSynced publish s h = unfold publish_snapshot in ground arith

  pub perform_all-IsSynced :
      (ops : List Op) (s : Store C) → IsSynced s → IsSynced (perform_all ops s)
  unfolding perform_all
  perform_all-IsSynced [] s h = h
  perform_all-IsSynced (op ∷ ops) s h =
      perform_all-IsSynced ops (perform op s) (perform-IsSynced op s h)

  -- Whatever calls an open Writer makes whose snapshot holds its memory, failing ones among them, a
  -- Reader that has loaded anything before, or nothing, answers every look-up as the Writer's own
  -- memory does.
  pub find_in_sync :
      (ops : List Op) (s r : Store C) (j : String)
      → IsSynced s
      → r.read_only ≡ true
      → (find z j (record r { snapshot = (perform_all ops s).snapshot })).0
        ≡ ok (get_doc z (perform_all ops s) j)
  unfolding find
  find_in_sync ops s r j h reader =
      let k = perform_all-IsSynced ops s h in
      let p₁ = k.open_now in let p₂ = k.published in ground arith
