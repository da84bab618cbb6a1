-- ===== src/Meta/Catalog/Accounts.antt =====
-- The users, the roles, the import jobs and the defaults of xvector/meta/catalog.py. The salt that
-- `generate_salt` draws and the password hash are arguments.
use xvector.Prelude.{ℕ, String, true, Option, none, some, List, [], ◌∷◌, ◌==◌, if◌then◌else◌}
use xvector.Errors.{already_exists}
use xvector.Exec.{pure, raise, ◌>>=◌, ◌>>◌}
use xvector.Dict.{get}
use xvector.Json.{Json, bool, num, str, arr, Doc, get_value, truthy, is_text, text_items, Items}
use xvector.Paths.{default_db}
use xvector.Meta.DocId.{doc_user, doc_role, doc_import, make_id}
use xvector.Meta.Store.{Zvec, find, list_by_type, upsert, delete}
use xvector.Meta.Catalog.{
  text_of, text_le, has_key, sorted, select, names, M, get_database, create_database,
}

-- user.get("created_at", default)
abbrev pub value_or : Option Json → Json → Json
value_or none default = default
value_or (some v) default = v

-- the user document that `ensure_defaults` writes
abbrev pub bootstrap_doc : ℕ → String → String → String → Json → Doc
bootstrap_doc now username password_salt password_hash created_at =
    ("username", str username)
    ∷ ("password_salt", str password_salt)
    ∷ ("password_hash", str password_hash)
    ∷ ("roles", arr (text_items ("admin" ∷ [])))
    ∷ ("is_bootstrap", bool true)
    ∷ ("created_at", created_at)
    ∷ ("updated_at", num now)
    ∷ []

-- A user that is there keeps its time of creation, and its password too unless it is the bootstrap
-- user.
unfoldable pub bootstrap_payload : ℕ → String → String → String → Option Doc → Doc
bootstrap_payload now username salt hash none = bootstrap_doc now username salt hash (num now)
bootstrap_payload now username salt hash (some user) =
    let created_at = value_or (get user "created_at") (num now) in
    if truthy (get_value user "is_bootstrap")
    then bootstrap_doc now username salt hash created_at
    else bootstrap_doc now username (text_of (get_value user "password_salt"))
        (text_of (get_value user "password_hash")) created_at

-- `if not existing: create` of `ensure_defaults`
abbrev pub unless {ℓ} : {S : Type ℓ} → Option Doc → S → S → S
unless none create skip = create
unless (some d) create skip = skip

module _ {C : Type 0} (z : Zvec C) where
  unfoldable pub get_user : String → M z (Option Doc)
  get_user username = find z (make_id doc_user username)

  unfoldable pub put_user : ℕ → Doc → M z (Unit {0})
  put_user now user =
      upsert z now (make_id doc_user (text_of (get_value user "username"))) doc_user user

  unfoldable pub delete_user : String → M z (Unit {0})
  delete_user username = delete z (make_id doc_user username)

  unfoldable pub list_users : M z (List String)
  list_users = do
    docs ← list_by_type z doc_user
    pure (sorted text_le (names "username" (select (λ d. has_key d "username") docs)))

  unfoldable pub get_role : String → M z (Option Doc)
  get_role role_name = find z (make_id doc_role role_name)

  unfoldable pub create_role : ℕ → String → Items → M z (Unit {0})
  create_role now role_name privileges = do
    role ← get_role role_name
    unless role
        (upsert z now (make_id doc_role role_name) doc_role (
          ("role_name", str role_name)
          ∷ ("privileges", arr privileges)
          ∷ ("created_at", num now)
          ∷ ("updated_at", num now)
          ∷ []))
        (raise already_exists)

  unfoldable pub put_role : ℕ → Doc → M z (Unit {0})
  put_role now role =
      upsert z now (make_id doc_role (text_of (get_value role "role_name"))) doc_role role

  unfoldable pub delete_role : String → M z (Unit {0})
  delete_role role_name = delete z (make_id doc_role role_name)

  unfoldable pub list_roles : M z (List String)
  list_roles = do
    docs ← list_by_type z doc_role
    pure (sorted text_le (names "role_name" (select (λ d. has_key d "role_name") docs)))

  unfoldable pub put_import_job : ℕ → Doc → M z (Unit {0})
  put_import_job now job =
      upsert z now (make_id doc_import (text_of (get_value job "job_id"))) doc_import job

  unfoldable pub get_import_job : String → M z (Option Doc)
  get_import_job job_id = find z (make_id doc_import job_id)

  -- if name: jobs = [j for j in jobs if j.get(key) == name]
  abbrev pub narrowed : String → Option String → List Doc → List Doc
  narrowed key none jobs = jobs
  narrowed key (some name) jobs =
      if name == "" then jobs else select (λ j. is_text (get_value j key) name) jobs

  unfoldable pub list_import_jobs : Option String → Option String → M z (List Doc)
  list_import_jobs db_name collection_name = do
    jobs ← list_by_type z doc_import
    pure (narrowed "collection_name" collection_name (narrowed "db_name" db_name jobs))

  unfoldable pub ensure_defaults :
      (String → String → String) → ℕ → String → String → String → M z (Unit {0})
  ensure_defaults hash_password now salt username password = do
    db ← get_database z default_db
    unless db (create_database z now default_db) (pure tt)
    user ← get_user username
    upsert z now (make_id doc_user username) doc_user
        (bootstrap_payload now username salt (hash_password password salt) user)
    role ← get_role "admin"
    unless role (create_role now "admin" (text_items [])) (pure tt)
