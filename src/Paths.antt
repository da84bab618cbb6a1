-- ===== src/Paths.antt =====
-- xvector/common/paths.py: which names are accepted, and the directories of the data tree. A
-- path is the list of its parts.
pub mod Names
pub mod Layout
use Prim.Native.String
use Prim.Native.String.{[], ◌∷◌}
use xvector.Prelude.{
  ℕ, zero, suc, String, Char, code, Bool, true, false, ◌&&◌, ◌||◌, Option, none, some, List, [],
  ◌∷◌, ◌++◌, ◌==◌, leb, nat_beq, if◌then◌else◌,
}
use xvector.Errors.{param, Result, ok, err}
use xvector.Text.{is_empty}

abbrev pub default_db : String
default_db = "default"

abbrev pub default_partition : String
default_partition = "_default"

abbrev pub meta_name : String
meta_name = "xvector_meta"

-- [A-Za-z_]
abbrev pub is_name_start : Char → Bool
is_name_start c =
    (leb b'A' (code c) && leb (code c) b'Z')
    || (leb b'a' (code c) && leb (code c) b'z')
    || nat_beq (code c) b'_'

-- [A-Za-z0-9_]
abbrev pub is_name_char : Char → Bool
is_name_char c = is_name_start c || (leb b'0' (code c) && leb (code c) b'9')

-- `$` of a Python pattern: the end of the text, or just before a newline that ends it
unfoldable pub at_dollar : String → Bool
at_dollar [] = true
at_dollar (c ∷ []) = nat_beq (code c) 10
at_dollar (c ∷ d ∷ s) = false

-- [A-Za-z0-9_]{0,n}$ (no character of the class can stand where `$` matches, so the longest run
-- is the only one to try)
unfoldable pub match_tail : ℕ → String → Bool
unfolding at_dollar
match_tail n [] = true
match_tail zero (c ∷ s) = at_dollar (c ∷ s)
match_tail (suc n) (c ∷ s) =
    let rest = match_tail n s in if is_name_char c then rest else at_dollar (c ∷ s)

-- NAME_RE.match(name)
unfoldable pub match_name : String → Bool
unfolding match_tail
match_name [] = false
match_name (c ∷ s) = is_name_start c && match_tail 254 s

-- validate_name(name, kind); an absent name is None
unfoldable pub validate_name : Option String → String → Result String
validate_name none kind = err param
validate_name (some name) kind =
    if is_empty name
    then err param
    else if name == meta_name
    then err param
    else if kind == "partition" && name == default_partition
    then ok name
    else if match_name name
    then ok name
    else err param

-- The parts of a relative path: pathlib drops the empty ones and ".".
unfoldable pub parts_from : String → String → List String
parts_from cur [] = if is_empty cur || cur == "." then [] else cur ∷ []
parts_from cur (c ∷ s) =
    let whole = parts_from "" s in
    let more = parts_from (String.◌++◌ cur (c ∷ [])) s in
    if nat_beq (code c) b'/'
    then (if is_empty cur || cur == "." then whole else cur ∷ whole)
    else more

abbrev pub FilePath : Type 0
FilePath = List String

-- base / name: an absolute name replaces the base (two leading slashes, which pathlib keeps as a
-- root of their own, are read as one)
unfoldable pub join : FilePath → String → FilePath
join base [] = base
join base (c ∷ s) =
    if nat_beq (code c) b'/' then "/" ∷ parts_from "" s else base ++ parts_from "" (c ∷ s)

-- The directories under `DataPaths.root`.
module _ (root : FilePath) where
  unfoldable pub meta_dir : FilePath
  meta_dir = join (join root "meta") meta_name

  unfoldable pub meta_snapshot : FilePath
  meta_snapshot = join (join root "meta") "catalog_snapshot.json"

  unfoldable pub dbs_dir : FilePath
  dbs_dir = join root "dbs"

  unfoldable pub db_dir : String → FilePath
  unfolding dbs_dir
  db_dir db_name = join dbs_dir db_name

  unfoldable pub collection_dir : String → String → FilePath
  unfolding db_dir
  collection_dir db_name collection_name =
      join (join (db_dir db_name) "collections") collection_name

  unfoldable pub partition_dir : String → String → String → FilePath
  unfolding collection_dir
  partition_dir db_name collection_name partition_name =
      join (collection_dir db_name collection_name) partition_name
