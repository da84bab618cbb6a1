-- ===== src/Services/Vector/Ranking.antt =====
-- The rows of a search in xvector/services/vector.py: those of all partitions are sorted by their
-- score, one row is kept for an id, and the first ones are returned. The values in a row, with
-- their `==`, their `<=` and their arithmetic, are the parameter `v`.
pub mod Top
use xvector.Prelude.{
  ℕ, String, ◌≡◌, ◌↔◌, ◌⊎◌, Bool, true, false, ◌||◌, Option, none, some, List, [], ◌∷◌, ◌++◌,
  if◌then◌else◌,
}
use xvector.Prelude.Lists.{take}
use xvector.Prelude.Sorting.{sort_by}
use xvector.Errors.{Result, ok, err}
use xvector.Dict.{get}

-- the values of rows: ids and floats
pub record Values (V : Type 0) : Type 0 where
  pub same : V → V → Bool
  pub le : V → V → Bool
  -- 0.0
  pub nought : V
  pub add : V → V → V
  pub mul : V → V → V
  pub div : V → V → V
  pub abs : V → V
  -- float(n)
  pub of_nat : ℕ → V

-- `==` is equality and `<=` a total order, as they are for ids and for floats that are numbers
pub record IsOrdered {V : Type 0} (v : Values V) : Type 0 where
  pub same_iff : (a b : V) → (v.same a b ≡ true) ↔ (a ≡ b)
  pub le_total : (a b : V) → (v.le a b ≡ true) ⊎ (v.le b a ≡ true)
  pub le_trans : (a b c : V) → v.le a b ≡ true → v.le b c ≡ true → v.le a c ≡ true

abbrev pub Row : Type 0 → Type 0
Row V = List (String × V)

abbrev pub or_value : {V : Type 0} → V → Option V → V
or_value a none = a
or_value a (some b) = b

-- row.get("id")
unfoldable pub row_id : {V : Type 0} → Row V → Option V
unfolding get
row_id row = get row "id"

module _ {V : Type 0} (v : Values V) where
  -- row.get("score", 0.0)
  unfoldable pub score : Row V → V
  unfolding get
  score row = or_value v.nought (get row "score")

  unfoldable pub same_id : Option V → Option V → Bool
  same_id none none = true
  same_id (some a) (some b) = v.same a b
  same_id _ _ = false

  -- rid in seen
  unfoldable pub seen_has : Option V → List (Option V) → Bool
  unfolding same_id
  seen_has rid [] = false
  seen_has rid (s ∷ seen) = same_id s rid || seen_has rid seen

  -- a row may stand before another one
  unfoldable pub leads : Bool → Row V → Row V → Bool
  unfolding score
  leads reverse a b = if reverse then v.le (score b) (score a) else v.le (score a) (score b)

  -- merged.sort(key=..., reverse=reverse), which keeps the order of rows with equal scores
  unfoldable pub sort_rows : Bool → List (Row V) → List (Row V)
  unfolding sort_by
  sort_rows reverse rows = sort_by (leads reverse) rows

  -- for row in merged: if rid in seen: continue
  unfoldable pub dedupe : List (Option V) → List (Row V) → List (Row V)
  unfolding seen_has row_id
  dedupe seen [] = []
  dedupe seen (x ∷ rows) = elim (seen_has (row_id x) seen) [
    | true ↦ dedupe seen rows
    | false ↦ x ∷ dedupe (row_id x ∷ seen) rows
  ]

  -- deduped[:limit]
  unfoldable pub top : Bool → ℕ → List (Row V) → List (Row V)
  unfolding dedupe sort_rows
  top reverse limit merged = take limit (dedupe [] (sort_rows reverse merged))

  abbrev pub extended : List (Row V) → Result (List (Row V)) → Result (List (Row V))
  extended rows (ok more) = ok (rows ++ more)
  extended rows (err e) = err e

  abbrev pub paged : List (Row V) → Result (List (List (Row V))) → Result (List (List (Row V)))
  paged page (ok pages) = ok (page ∷ pages)
  paged page (err e) = err e

  -- for part in parts: merged.extend(...), where `hits` is the query of a partition
  unfoldable pub gather : (String → Result (List (Row V))) → List String → Result (List (Row V))
  gather hits [] = ok []
  gather hits (part ∷ parts) = elim (hits part) [
    | ok rows ↦ extended rows (gather hits parts)
    | err e ↦ err e
  ]

  -- for vec in data
  unfoldable pub search_all :
      {W : Type 0}
      → (W → String → Result (List (Row V)))
      → List String
      → Bool
      → ℕ
      → List W
      → Result (List (List (Row V)))
  unfolding gather top
  search_all hits parts reverse limit [] = ok []
  search_all hits parts reverse limit (vec ∷ vecs) = elim (gather (hits vec) parts) [
    | ok merged ↦ paged (top reverse limit merged) (search_all hits parts reverse limit vecs)
    | err e ↦ err e
  ]
