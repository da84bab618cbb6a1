-- ===== src/Services/Aliases.antt =====
-- `AliasService` of xvector/services/alias.py. The names in a request are texts where they are
-- there.
pub mod Altered
use xvector.Prelude.{
  ℕ, String, Bool, true, false, ◌||◌, Option, none, some, List, [], ◌∷◌, map, if◌then◌else◌,
}
use xvector.Errors.{already_exists, not_found}
use xvector.Exec.{pure, raise, lift, ◌>>=◌, ◌>>◌}
use xvector.Json.{Json, null, str, Doc, get_value, or_else, truthy, is_text}
use xvector.Paths.{default_db, validate_name}
use xvector.Meta.Store.{Zvec}
use xvector.Meta.Catalog.{
  text_of, select, names, required, M, get_alias, get_collection, require_collection, put_alias,
  delete_alias, list_aliases,
}

-- a name as f"{name}" shows it
abbrev pub shown : Json → String
shown null = "None"
shown v = text_of v

abbrev pub as_name : Json → Option String
as_name (str s) = some s
as_name _ = none

-- body.get(key) or body.get(other)
abbrev pub either_key : Doc → String → String → Json
either_key body key other = or_else (get_value body key) (get_value body other)

abbrev pub db_of : Doc → String
db_of body = shown (or_else (either_key body "dbName" "db_name") (str default_db))

abbrev pub alias_of : Doc → Json
alias_of body = either_key body "aliasName" "alias"

abbrev pub collection_of : Doc → Json
collection_of body = either_key body "collectionName" "collection_name"

abbrev pub is_there : Option Doc → Bool
is_there none = false
is_there (some d) = true

-- if coll: aliases = [a for a in aliases if a.get("collection_name") == coll]
abbrev pub of_collection : Json → List Doc → List Doc
of_collection coll aliases =
    if truthy coll
    then select (λ a. is_text (get_value a "collection_name") (shown coll)) aliases
    else aliases

module _ {C : Type 0} (z : Zvec C) where
  unfoldable pub create_alias : ℕ → Doc → M z (Unit {0})
  create_alias now body = do
    name ← lift (validate_name (as_name (alias_of body)) "alias")
    coll ← require_collection z (db_of body) (shown (collection_of body))
    alias ← get_alias z (db_of body) (shown (alias_of body))
    other ← get_collection z (db_of body) (shown (alias_of body))
    if is_there alias || is_there other
        then raise already_exists
        else put_alias z now (db_of body) (shown (alias_of body)) (shown (collection_of body))

  unfoldable pub drop_alias : Doc → M z (Unit {0})
  drop_alias body = do
    alias ← get_alias z (db_of body) (shown (alias_of body))
    found ← lift (required alias)
    delete_alias z (db_of body) (shown (alias_of body))

  unfoldable pub alter_alias : ℕ → Doc → M z (Unit {0})
  alter_alias now body = do
    alias ← get_alias z (db_of body) (shown (alias_of body))
    found ← lift (required alias)
    coll ← require_collection z (db_of body) (shown (collection_of body))
    put_alias z now (db_of body) (shown (alias_of body)) (shown (collection_of body))

  -- the alias, its collection and its database
  unfoldable pub describe_alias : Doc → M z (String × String × String)
  describe_alias body = do
    alias ← get_alias z (db_of body) (shown (alias_of body))
    found ← lift (required alias)
    pure (shown (alias_of body), text_of (get_value found "collection_name"), db_of body)

  unfoldable pub alias_names : Doc → M z (List String)
  alias_names body = do
    aliases ← list_aliases z (db_of body)
    pure (names "alias" (of_collection (collection_of body) aliases))
