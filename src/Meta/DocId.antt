-- ===== src/Meta/DocId.antt =====
-- `make_id` of xvector/meta/docs.py: the ids under which the catalog stores its documents.
pub mod Unique
use Prim.Native.String
use Prim.Native.String.{[], ◌∷◌, ◌++◌}
use xvector.Prelude.{String, code, nat_beq, if◌then◌else◌}

abbrev pub doc_user : String
doc_user = "user"

abbrev pub doc_role : String
doc_role = "role"

abbrev pub doc_database : String
doc_database = "database"

abbrev pub doc_collection : String
doc_collection = "collection"

abbrev pub doc_partition : String
doc_partition = "partition"

abbrev pub doc_alias : String
doc_alias = "alias"

abbrev pub doc_index : String
doc_index = "index"

abbrev pub doc_load : String
doc_load = "load_state"

abbrev pub doc_import : String
doc_import = "import_job"

-- natural_key.replace("/", "__")
unfoldable pub safe_key : String → String
safe_key [] = []
safe_key (c ∷ s) = let rest = safe_key s in if nat_beq (code c) b'/' then "__" ++ rest else c ∷ rest

unfoldable pub make_id : String → String → String
make_id doc_type natural_key = doc_type ++ "__" ++ safe_key natural_key

-- the natural keys f"{db_name}/{name}" and f"{db_name}/{collection_name}/{name}"
abbrev pub pair_key : String → String → String
pair_key a b = a ++ "/" ++ b

abbrev pub triple_key : String → String → String → String
triple_key a b c = a ++ "/" ++ b ++ "/" ++ c
