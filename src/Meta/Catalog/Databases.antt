-- ===== src/Meta/Catalog/Databases.antt =====
-- Creating and dropping databases: `create_database` and `drop_database` of
-- xvector/meta/catalog.py.
use xvector.Prelude.{
  ℕ, String, ◌≡◌, refl, sym, ap, ◌∙◌, none, some, List, [], ◌∷◌, arith, ◌==◌, eq_iff, ◌≢◌,
  Option-cases, inl, inr, if◌then◌else◌,
}
use xvector.Errors.{ok, err, already_exists, param, not_found}
use xvector.Exec.{Exec, raise, next-ok}
use xvector.Dict.{get, values}
use xvector.Json.{Doc, str, num}
use xvector.Paths.{default_db, validate_name}
use xvector.Paths.Names.{validate_name-eq-ok}
use xvector.Meta.DocId.{doc_database, doc_collection, make_id}
use xvector.Meta.Store.{
  Zvec, Store, of_type, stamped, non_empty, list_by_type, find, upsert, delete,
}
use xvector.Meta.Store.Sync.{get-delete}
use xvector.Meta.Catalog.{
  names, in_db, select, sorted, text_le, list_collections, get_database, create_database,
  drop_database,
}
use xvector.Meta.Catalog.Open.{IsOpen, find-IsOpen, find-stored}

-- the document that `create_database` writes
abbrev pub database_doc : ℕ → String → Doc
database_doc now name =
    stamped now (make_id doc_database name) doc_database
      (("db_name", str name) ∷ ("created_at", num now) ∷ [])

-- the names that `list_collections` returns for a database
abbrev pub collections : {C : Type 0} → String → Store C → List String
collections name s =
    sorted text_le
      (names "collection_name" (select (in_db name) (of_type doc_collection (values s.docs))))

module _ {C : Type 0} (z : Zvec C) where
  create_database-absent :
      (now : ℕ) (name : String) (s : Store C)
      → validate_name (some name) "dbName" ≡ ok name
      → find z (make_id doc_database name) s ≡ (ok none, s)
      → create_database z now name s
        ≡ upsert z now
            (make_id doc_database name)
            doc_database
            (("db_name", str name) ∷ ("created_at", num now) ∷ [])
            s
  unfolding create_database get_database
  create_database-absent now name s v f = ground arith

  create_database-present :
      (now : ℕ) (name : String) (d : Doc) (s : Store C)
      → validate_name (some name) "dbName" ≡ ok name
      → find z (make_id doc_database name) s ≡ (ok (some d), s)
      → create_database z now name s ≡ (err already_exists, s)
  unfolding create_database get_database
  create_database-present now name d s v f = ground arith

  validated :
      (now : ℕ) (name : String) (s : Store C) {t : Store C}
      → create_database z now name s ≡ (ok tt, t)
      → validate_name (some name) "dbName" ≡ ok name
  unfolding create_database
  validated now name s h =
      let (n, e) = next-ok (validate_name (some name) "dbName") s _ h in
      let same : some name ≡ some n = validate_name-eq-ok (some name) "dbName" e in cc

  -- On a Writer's open store, `create_database` succeeds only for a valid name that no database
  -- has. It then stores the database's document, and the next call of it with that name raises
  -- `AlreadyExistsError`.
  pub create_database_once :
      (now later : ℕ) (name : String) (s : Store C) {t : Store C}
      → IsOpen s
      → create_database z now name s ≡ (ok tt, t)
      → (validate_name (some name) "dbName" ≡ ok name)
        × (get_database z name s ≡ (ok none, s))
        × (get_database z name t ≡ (ok (some (database_doc now name)), t))
        × (create_database z later name t ≡ (err already_exists, t))
  unfolding get_database
  create_database_once now later name s {t} o h =
      let v = validated now name s h in
      elim (Option-cases (non_empty (get s.docs (make_id doc_database name)))) [
        | inl absent ↦
            let f = find-IsOpen z (make_id doc_database name) s o ∙ ap (λ x. (ok x, s)) absent in
            let u = sym (create_database-absent now name s v f) ∙ h in
            let g : find z (make_id doc_database name) t ≡ (ok (some (database_doc now name)), t) =
              find-stored z now (make_id doc_database name) doc_database
                (("db_name", str name) ∷ ("created_at", num now) ∷ []) s u o in
            (v, f, g, create_database-present later name (database_doc now name) t v g)
        | inr (d, there) ↦
            let f = find-IsOpen z (make_id doc_database name) s o ∙ ap (λ x. (ok x, s)) there in
            let p = create_database-present now name d s v f in cc
      ]

  abbrev drop_checked : String → List String → Exec (Store C) (Unit {0})
  drop_checked name [] = delete z (make_id doc_database name)
  drop_checked name (c ∷ cs) = raise param

  drop_checked-ok :
      (name : String) (l : List String) (s : Store C) {t : Store C}
      → drop_checked name l s ≡ (ok tt, t)
      → (l ≡ []) × (delete z (make_id doc_database name) s ≡ (ok tt, t))
  drop_checked-ok name [] s h = (refl, h)
  drop_checked-ok name (c ∷ cs) s h = cc

  droppable :
      (name : String) (s : Store C) {t : Store C}
      → drop_database z name s ≡ (ok tt, t)
      → validate_name (some name) "dbName" ≡ ok name
  unfolding drop_database
  droppable name s h =
      let (n, e) = next-ok (validate_name (some name) "dbName") s _ h in
      let same : some name ≡ some n = validate_name-eq-ok (some name) "dbName" e in cc

  pub list_collections-IsOpen :
      (name : String) (s : Store C)
      → IsOpen s
      → list_collections z name s ≡ (ok (collections name s), s)
  unfolding list_collections list_by_type
  list_collections-IsOpen name s o = let w = o.writer in ground arith

  drop_database-default :
      (name : String) (s : Store C)
      → validate_name (some name) "dbName" ≡ ok name
      → name ≡ default_db
      → drop_database z name s ≡ (err param, s)
  unfolding drop_database
  drop_database-default name s v e = ground (arith, eq_iff name default_db)

  drop_database-absent :
      (name : String) (s : Store C)
      → validate_name (some name) "dbName" ≡ ok name
      → name ≢ default_db
      → find z (make_id doc_database name) s ≡ (ok none, s)
      → drop_database z name s ≡ (err not_found, s)
  unfolding drop_database get_database
  drop_database-absent name s v ne f = ground (arith, eq_iff name default_db)

  drop_database-there :
      (name : String) (d : Doc) (l : List String) (s : Store C)
      → validate_name (some name) "dbName" ≡ ok name
      → name ≢ default_db
      → find z (make_id doc_database name) s ≡ (ok (some d), s)
      → list_collections z name s ≡ (ok l, s)
      → drop_database z name s ≡ drop_checked name l s
  unfolding drop_database get_database
  drop_database-there name d [] s v ne f g = ground (arith, eq_iff name default_db)
  drop_database-there name d (c ∷ cs) s v ne f g = ground (arith, eq_iff name default_db)

  -- On a Writer's open store, `drop_database` succeeds only for a database that is there, is not
  -- "default" and has no collection. It then takes the database's document away and leaves every
  -- other document as it was.
  pub drop_database_empty :
      (name : String) (s : Store C) (j : String) {t : Store C}
      → IsOpen s
      → drop_database z name s ≡ (ok tt, t)
      → (name ≢ default_db)
        × ((d : Doc) × (get_database z name s ≡ (ok (some d), s)))
        × (list_collections z name s ≡ (ok [], s))
        × (get t.docs j ≡ (if make_id doc_database name == j then none else get s.docs j))
  unfolding get_database
  drop_database_empty name s j {t} o h =
      let id = make_id doc_database name in
      let v = droppable name s h in
      let other : name ≢ default_db = λ e. let r = drop_database-default name s v e in cc in
      let cols = list_collections-IsOpen name s o in
      elim (Option-cases (non_empty (get s.docs id))) [
        | inl absent ↦
            let r =
              drop_database-absent name s v other
                (find-IsOpen z id s o ∙ ap (λ x. (ok x, s)) absent) in
            cc
        | inr (d, there) ↦
            let f = find-IsOpen z id s o ∙ ap (λ x. (ok x, s)) there in
            let r = sym (drop_database-there name d (collections name s) s v other f cols) ∙ h in
            let (none_left, gone) = drop_checked-ok name (collections name s) s r in
            (
              other,
              (d, f),
              cols ∙ ap (λ l. (ok l, s)) none_left,
              ap (λ u. get u.1.docs j) (sym gone) ∙ get-delete z id s j o.writer,
            )
      ]
