-- ===== src/Services/Vector/Fusion.antt =====
-- `_rrf_fuse` and `_weighted_fuse` of xvector/services/vector.py: several ranked lists become one.
-- A dict with ids for its keys is a list of its items in the order of insertion; the constant `k`
-- of the reciprocal ranks and the weights are not negative.
pub mod Tallied
pub mod Fused
use xvector.Prelude.{
  ℕ, suc, ◌+◌, String, Bool, true, false, Option, none, some, List, [], ◌∷◌, map, if◌then◌else◌,
}
use xvector.Prelude.Lists.{take}
use xvector.Prelude.Sorting.{sort_by}
use xvector.Dict.{set}
use xvector.Services.Vector.Ranking.{Values, Row, or_value, row_id, score, same_id}

pub record Tally (V : Type 0) : Type 0 where
  pub scores : List (Option V × V)
  pub payload : List (Option V × Row V)

abbrev pub no_votes : {V : Type 0} → Tally V
no_votes = record { scores = []; payload = [] }

-- row["score"] = sc and row["distance"] = sc
unfoldable pub with_score : {V : Type 0} → V → Row V → Row V
unfolding set
with_score sc row = set (set row "score" sc) "distance" sc

module _ {V : Type 0} (v : Values V) where
  -- d.get(rid)
  unfoldable pub look : {A : Type 0} → List (Option V × A) → Option V → Option A
  unfolding same_id
  look [] rid = none
  look ((k, a) ∷ d) rid = if same_id v k rid then some a else look d rid

  -- d[rid] = a
  unfoldable pub put_item : {A : Type 0} → List (Option V × A) → Option V → A → List (Option V × A)
  unfolding same_id
  put_item [] rid a = (rid, a) ∷ []
  put_item ((k, b) ∷ d) rid a = if same_id v k rid then (k, a) ∷ d else (k, b) ∷ put_item d rid a

  -- scores[rid] = scores.get(rid, 0.0) + x; payload[rid] = row
  unfoldable pub note : Row V → V → Tally V → Tally V
  unfolding look put_item row_id
  note row x t = record {
    scores =
        put_item t.scores (row_id row) (v.add (or_value v.nought (look t.scores (row_id row))) x);
    payload = put_item t.payload (row_id row) row;
  }

  -- for rank, row in enumerate(lst, start=rank)
  unfoldable pub note_ranks : ℕ → ℕ → List (Row V) → Tally V → Tally V
  unfolding note
  note_ranks k rank [] t = t
  note_ranks k rank (row ∷ rows) t =
      note_ranks k (suc rank) rows (note row (v.div (v.of_nat 1) (v.of_nat (k + rank))) t)

  unfoldable pub note_lists : ℕ → List (List (Row V)) → Tally V → Tally V
  unfolding note_ranks
  note_lists k [] t = t
  note_lists k (rows ∷ lists) t = note_lists k lists (note_ranks k 1 rows t)

  abbrev pub item_le : Option V × V → Option V × V → Bool
  item_le a b = v.le b.1 a.1

  -- sorted(scores.items(), key=lambda x: x[1], reverse=True)
  unfoldable pub ordered : List (Option V × V) → List (Option V × V)
  unfolding sort_by
  ordered items = sort_by item_le items

  abbrev pub fused_row : Tally V → Option V × V → Row V
  fused_row t (rid, sc) = with_score sc (or_value [] (look t.payload rid))

  unfoldable pub fused : Tally V → List (Row V)
  unfolding ordered look with_score
  fused t = map (fused_row t) (ordered t.scores)

  unfoldable pub rrf_fuse : ℕ → List (List (Row V)) → List (Row V)
  unfolding note_lists fused
  rrf_fuse k lists = fused (note_lists k lists no_votes)

  -- max(a, b), the first of equal ones
  abbrev pub larger : V → V → V
  larger a b = if v.le b a then a else b

  unfoldable pub largest : V → List (Row V) → V
  unfolding score
  largest a [] = a
  largest a (row ∷ rows) = largest (larger a (v.abs (score v row))) rows

  -- max(abs(r.get("score", 0.0)) for r in lst) or 1.0
  unfoldable pub max_score : Row V → List (Row V) → V
  unfolding largest score
  max_score row rows =
      let m = largest (v.abs (score v row)) rows in if v.same m v.nought then v.of_nat 1 else m

  -- for row in lst
  unfoldable pub note_weighted : V → V → List (Row V) → Tally V → Tally V
  unfolding note score
  note_weighted w max_s [] t = t
  note_weighted w max_s (row ∷ rows) t =
      note_weighted w max_s rows (note row (v.mul w (v.div (score v row) max_s)) t)

  -- for w, lst in zip(weights, lists)
  unfoldable pub note_all_weighted : List V → List (List (Row V)) → Tally V → Tally V
  unfolding note_weighted max_score
  note_all_weighted [] lists t = t
  note_all_weighted (w ∷ ws) [] t = t
  note_all_weighted (w ∷ ws) ([] ∷ lists) t = note_all_weighted ws lists t
  note_all_weighted (w ∷ ws) ((row ∷ rows) ∷ lists) t =
      note_all_weighted ws lists (note_weighted w (max_score row rows) (row ∷ rows) t)

  unfoldable pub weighted_fuse : List V → List (List (Row V)) → List (Row V)
  unfolding note_all_weighted fused
  weighted_fuse weights lists = fused (note_all_weighted weights lists no_votes)

  -- the strategies of `hybrid_search`, and fused[:limit]
  pub data Strategy : Type 0 where
    rrf : ℕ → Strategy
    weighted : List V → Strategy

  unfoldable pub fuse : Strategy → List (List (Row V)) → List (Row V)
  unfolding rrf_fuse weighted_fuse
  fuse (rrf k) lists = rrf_fuse k lists
  fuse (weighted weights) lists = weighted_fuse weights lists

  unfoldable pub hybrid_page : Strategy → ℕ → List (List (Row V)) → List (Row V)
  unfolding fuse
  hybrid_page strategy limit lists = take limit (fuse strategy lists)
