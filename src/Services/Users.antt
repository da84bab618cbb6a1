-- ===== src/Services/Users.antt =====
-- `UserService` of xvector/services/user.py: the users in the catalog and their passwords. A salt
-- that `generate_salt` draws, the time and the password hash are arguments.
pub mod Passwords
use xvector.Prelude.{
  ℕ, String, Bool, true, false, not, ◌||◌, Option, none, some, List, [], ◌∷◌, ◌++◌, ◌==◌,
  if◌then◌else◌,
}
use xvector.Errors.{Result, ok, err, param, not_found, already_exists}
use xvector.Exec.{Exec, pure, raise, lift, ◌>>=◌, ◌>>◌}
use xvector.Text.{is_empty}
use xvector.Dict.{set}
use xvector.Json.{Json, bool, num, str, arr, Doc, Items, nil, texts_of, text_items, get_value}
use xvector.Auth.{Settings, Credentials, bootstrap_matches, verify_password}
use xvector.Meta.Store.{Zvec}
use xvector.Meta.Catalog.{text_of, mem, required, M}
use xvector.Meta.Catalog.Accounts.{
  get_user, put_user, delete_user, list_users, get_role, unless, bootstrap_doc,
}

abbrev pub credentials : Doc → Credentials
credentials user = record {
  password_salt = text_of (get_value user "password_salt");
  password_hash = text_of (get_value user "password_hash");
}

-- user.get("roles") or [], a list of texts
abbrev pub items_of : Json → Items
items_of (arr roles) = roles
items_of _ = nil

abbrev pub roles_of : Doc → List String
roles_of user = texts_of (items_of (get_value user "roles"))

abbrev pub with_role : String → List String → List String
with_role role_name roles = if mem role_name roles then roles else roles ++ role_name ∷ []

unfoldable pub without_role : String → List String → List String
without_role role_name [] = []
without_role role_name (r ∷ roles) =
    let rest = without_role role_name roles in if r == role_name then rest else r ∷ rest

-- the user that `create` stores
abbrev pub new_user : ℕ → String → String → String → Doc
new_user now username password_salt password_hash =
    ("username", str username)
    ∷ ("password_salt", str password_salt)
    ∷ ("password_hash", str password_hash)
    ∷ ("roles", arr nil)
    ∷ ("is_bootstrap", bool false)
    ∷ ("created_at", num now)
    ∷ ("updated_at", num now)
    ∷ []

module _ {C : Type 0} (z : Zvec C) (settings : Settings)
    (hash_password : String → String → String) where
  unfoldable pub create : ℕ → String → String → String → M z (Unit {0})
  create now salt username password =
      if is_empty username || is_empty password then raise param else do
        user ← get_user z username
        unless user (put_user z now (new_user now username salt (hash_password password salt)))
            (raise already_exists)

  unfoldable pub drop : String → M z (Unit {0})
  drop username =
      if username == settings.username
      then raise param
      else do user ← get_user z username; found ← lift (required user); delete_user z username

  -- the name and the roles
  unfoldable pub describe : String → M z (String × List String)
  describe username = do
    user ← get_user z username
    found ← lift (required user)
    pure (text_of (get_value found "username"), roles_of found)

  -- whether the old password is right; a user that is not there may be the bootstrap user
  abbrev pub old_matches : Option Doc → String → String → Bool
  old_matches none username password = bootstrap_matches settings username password
  old_matches (some user) username password =
      bootstrap_matches settings username password
      || verify_password hash_password password (credentials user)

  abbrev pub refusal : Option Doc → Result (Unit {0})
  refusal none = err not_found
  refusal (some user) = err param

  abbrev pub with_password : ℕ → String → String → String → Option Doc → Doc
  with_password now salt username password none =
      bootstrap_doc now username salt (hash_password password salt) (num now)
  with_password now salt username password (some user) =
      set
        (set (set user "password_salt" (str salt)) "password_hash"
          (str (hash_password password salt)))
        "updated_at" (num now)

  unfoldable pub update_password : ℕ → String → String → String → String → M z (Unit {0})
  update_password now salt username old_password new_password = do
    user ← get_user z username
    if old_matches user username old_password
        then put_user z now (with_password now salt username new_password user)
        else lift (refusal user)

  unfoldable pub grant_role : ℕ → String → String → M z (Unit {0})
  grant_role now username role_name = do
    user ← get_user z username
    found ← lift (required user)
    role ← get_role z role_name
    there ← lift (required role)
    put_user z now (
        set (set found "roles" (arr (text_items (with_role role_name (roles_of found)))))
          "updated_at" (num now))

  unfoldable pub revoke_role : ℕ → String → String → M z (Unit {0})
  revoke_role now username role_name = do
    user ← get_user z username
    found ← lift (required user)
    put_user z now (
        set (set found "roles" (arr (text_items (without_role role_name (roles_of found)))))
          "updated_at" (num now))

  abbrev pub checked : Option Doc → String → Bool
  checked none password = false
  checked (some user) password = verify_password hash_password password (credentials user)

  unfoldable pub verify : String → String → M z Bool
  verify username password =
      if bootstrap_matches settings username password
      then pure true
      else do user ← get_user z username; pure (checked user password)
