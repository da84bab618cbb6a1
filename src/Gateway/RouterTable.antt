-- ===== src/Gateway/RouterTable.antt =====
-- xvector/gateway/router_table.py: which process serves a path.
pub mod Served
use xvector.Prelude.{String, Option, none, some, List, [], ◌∷◌, ◌==◌, if◌then◌else◌}
use xvector.Text.{after, is_empty}
use Prim.Native.String.{◌++◌}
use text.Mathlib.Text.{starts_with}
use xvector.Dict.{get}

-- "W" or "R"
pub data Target : Type 0 where
  writer reader : Target

unfoldable pub route_table : List (String × Target)
route_table =
    ("/databases/create", writer)
    ∷ ("/databases/drop", writer)
    ∷ ("/databases/list", reader)
    ∷ ("/databases/describe", reader)
    ∷ ("/aliases/create", writer)
    ∷ ("/aliases/drop", writer)
    ∷ ("/aliases/alter", writer)
    ∷ ("/aliases/describe", reader)
    ∷ ("/aliases/list", reader)
    ∷ ("/collections/create", writer)
    ∷ ("/collections/drop", writer)
    ∷ ("/collections/describe", reader)
    ∷ ("/collections/has", reader)
    ∷ ("/collections/list", reader)
    ∷ ("/collections/rename", writer)
    ∷ ("/collections/load", writer)
    ∷ ("/collections/release", writer)
    ∷ ("/collections/get_load_state", reader)
    ∷ ("/collections/get_stats", reader)
    ∷ ("/partitions/create", writer)
    ∷ ("/partitions/drop", writer)
    ∷ ("/partitions/has", reader)
    ∷ ("/partitions/list", reader)
    ∷ ("/partitions/get_stats", reader)
    ∷ ("/partitions/load", writer)
    ∷ ("/partitions/release", writer)
    ∷ ("/indexes/create", writer)
    ∷ ("/indexes/describe", reader)
    ∷ ("/indexes/drop", writer)
    ∷ ("/indexes/list", reader)
    ∷ ("/jobs/import/create", writer)
    ∷ ("/jobs/import/get_progress", writer)
    ∷ ("/jobs/import/list", writer)
    ∷ ("/import/create", writer)
    ∷ ("/import/get_progress", writer)
    ∷ ("/import/list", writer)
    ∷ ("/roles/create", writer)
    ∷ ("/roles/drop", writer)
    ∷ ("/roles/describe", writer)
    ∷ ("/roles/list", writer)
    ∷ ("/roles/lists", writer)
    ∷ ("/roles/grant_privilege", writer)
    ∷ ("/roles/revoke_privilege", writer)
    ∷ ("/users/create", writer)
    ∷ ("/users/drop", writer)
    ∷ ("/users/describe", writer)
    ∷ ("/users/list", writer)
    ∷ ("/users/lists", writer)
    ∷ ("/users/update_password", writer)
    ∷ ("/users/grant_role", writer)
    ∷ ("/users/revoke_role", writer)
    ∷ ("/entities/insert", writer)
    ∷ ("/entities/upsert", writer)
    ∷ ("/entities/delete", writer)
    ∷ ("/entities/get", reader)
    ∷ ("/entities/query", reader)
    ∷ ("/entities/search", reader)
    ∷ ("/entities/hybrid_search", reader)
    ∷ []

abbrev pub prefix : String
prefix = "/v2/vectordb"

-- suffix = path[len(prefix):] or "/", with a slash put before it if it has none
unfoldable pub absolute : String → String
absolute suffix =
    if is_empty suffix then "/" else if starts_with suffix "/" then suffix else "/" ++ suffix

-- ROUTE_TABLE.get(suffix), where the path has the prefix
unfoldable pub resolve_suffix : Option String → Option Target
resolve_suffix none = none
resolve_suffix (some suffix) = get route_table (absolute suffix)

unfoldable pub resolve_target : String → Option Target
resolve_target path = resolve_suffix (after prefix path)
