-- ===== src/Examples/Accounts.antt =====
-- A user and an alias that are written and read.
use xvector.Prelude.{not, ◌&&◌, String, ◌≡◌, refl, none, some, [], ◌∷◌, ◌==◌, ◌||◌}
use Prim.Native.String.{◌++◌}
use xvector.Errors.{ok}
use xvector.Dict.{get, set}
use xvector.Json.{Items, nil, cons, Doc, str, get_value, or_else, truthy}
use xvector.Auth.{Settings, bootstrap_matches}
use xvector.Meta.DocId.{make_id, safe_key}
use xvector.Meta.Store.{Store, upsert, write, find, stamped}
use xvector.Meta.Catalog.{get_alias, get_collection, require_collection, put_alias}
use xvector.Meta.Catalog.Open.{IsOpen}
use xvector.Meta.Catalog.Accounts.{get_user, put_user}
use xvector.Services.Roles.{entry, granted, revoked}
use xvector.Services.Roles.Privileges.{holds, holds-granted, holds-revoked}
use xvector.Services.Users.{create, verify}
use xvector.Services.Users.Passwords.{verify-create}
use xvector.Services.Aliases.{shown, alias_of, collection_of, db_of, alter_alias, describe_alias}
use xvector.Services.Aliases.Altered.{alter_alias-describe_alias}
use xvector.Examples.Stores.{Kept, kept_zvec, empty_store}

abbrev settings : Settings
settings = record {
  username = "root";
  password = "secret";
  internal_token = "";
  env_username = none;
  env_password = none;
}

-- a password hash that hides nothing
abbrev plain : String → String → String
plain password salt = salt ++ password

abbrev with_ann : Store Kept
with_ann = (create kept_zvec settings plain 5 "salt" "ann" "pw" empty_store).1

ann_created : create kept_zvec settings plain 5 "salt" "ann" "pw" empty_store ≡ (ok tt, with_ann)
unfolding create get_user put_user find upsert write get
ann_created = refl

verify-create_example : verify kept_zvec settings plain "ann" "pw" with_ann ≡ (
  ok (bootstrap_matches settings "ann" "pw" || plain "pw" "salt" == plain "pw" "salt"),
  with_ann,
)
verify-create_example =
    verify-create kept_zvec settings plain 5 "salt" "ann" "pw" "pw" empty_store
      (record { writer = refl; open_now = refl }) ann_created

abbrev body : Doc
body = ("aliasName", str "b") ∷ ("collectionName", str "books") ∷ []

-- a collection "books", and an alias "b" for another
abbrev with_alias : Store Kept
with_alias =
    (put_alias kept_zvec 3 "default" "b" "papers"
      (upsert kept_zvec 2 "collection__default__books" "collection" [] empty_store).1).1

with_alias-IsOpen : IsOpen with_alias
unfolding put_alias upsert write
with_alias-IsOpen = record { writer = refl; open_now = refl }

abbrev altered : Store Kept
altered = (alter_alias kept_zvec 4 body with_alias).1

was_altered : alter_alias kept_zvec 4 body with_alias ≡ (ok tt, altered)
unfolding alter_alias get_alias get_collection require_collection put_alias find upsert write get
    set stamped make_id safe_key or_else truthy get_value
was_altered = refl

alter_alias-describe_alias_example :
    ((a : Doc) × (get_alias kept_zvec (db_of body) (shown (alias_of body)) with_alias
        ≡ (ok (some a), with_alias)))
    × ((c : Doc) × (get_collection kept_zvec (db_of body) (shown (collection_of body)) with_alias
          ≡ (ok (some c), with_alias)))
    × (describe_alias kept_zvec body altered
        ≡ (ok (shown (alias_of body), shown (collection_of body), db_of body), altered))
alter_alias-describe_alias_example =
    alter_alias-describe_alias kept_zvec 4 body with_alias with_alias-IsOpen was_altered

abbrev insert_books : Items
insert_books = cons (entry "Collection" "books" "Insert") nil

holds-granted_example :
    holds "Collection" "books" "Search" (granted "Collection" "books" "Search" insert_books) ≡ (
      holds "Collection" "books" "Search" insert_books
      || ("Collection" == "Collection" && "books" == "books" && "Search" == "Search"))
holds-granted_example =
    holds-granted "Collection" "books" "Search" "Collection" "books" "Search" insert_books

holds-revoked_example :
    holds "Collection" "books" "Insert" (revoked "Collection" "books" "Insert" insert_books) ≡ (
      holds "Collection" "books" "Insert" insert_books
      && not ("Collection" == "Collection" && "books" == "books" && "Insert" == "Insert"))
holds-revoked_example =
    holds-revoked "Collection" "books" "Insert" "Collection" "books" "Insert" insert_books
