-- ===== src/Services/Vector/Fusion/Tallied.antt =====
-- The scores and the rows of a fusion are one id's affair each.
use xvector.Prelude.{
  ℕ, suc, ◌+◌, ◌≡◌, refl, sym, ap, ◌∙◌, ◌↔◌, true, Option, none, some, List, [], ◌∷◌, ◌++◌, arith,
  if◌then◌else◌,
}
use xvector.Services.Vector.Ranking.{Values, IsOrdered, Row, or_value, row_id, score, same_id}
use xvector.Services.Vector.Fusion.{
  Tally, look, put_item, note, note_ranks, note_lists, max_score, note_weighted, note_all_weighted,
  Strategy, rrf, weighted,
}

module _ {V : Type 0} (v : Values V) where
  -- what every row is worth, in the order in which it is counted
  abbrev pub Votes : Type 0
  Votes = List (Row V × V)

  abbrev pub rank_votes : ℕ → ℕ → List (Row V) → Votes
  rank_votes k rank [] = []
  rank_votes k rank (row ∷ rows) =
      (row, v.div (v.of_nat 1) (v.of_nat (k + rank))) ∷ rank_votes k (suc rank) rows

  abbrev pub rrf_votes : ℕ → List (List (Row V)) → Votes
  rrf_votes k [] = []
  rrf_votes k (rows ∷ lists) = rank_votes k 1 rows ++ rrf_votes k lists

  abbrev pub share_votes : V → V → List (Row V) → Votes
  share_votes w max_s [] = []
  share_votes w max_s (row ∷ rows) =
      (row, v.mul w (v.div (score v row) max_s)) ∷ share_votes w max_s rows

  abbrev pub weighted_votes : List V → List (List (Row V)) → Votes
  weighted_votes [] lists = []
  weighted_votes (w ∷ ws) [] = []
  weighted_votes (w ∷ ws) ([] ∷ lists) = weighted_votes ws lists
  weighted_votes (w ∷ ws) ((row ∷ rows) ∷ lists) =
      share_votes w (max_score v row rows) (row ∷ rows) ++ weighted_votes ws lists

  abbrev pub votes_of : Strategy v → List (List (Row V)) → Votes
  votes_of (rrf k) lists = rrf_votes k lists
  votes_of (weighted weights) lists = weighted_votes weights lists

  abbrev pub count : Votes → Tally V → Tally V
  count [] t = t
  count ((row, x) ∷ votes) t = count votes (note v row x t)

  -- the sum of what the rows of one id are worth
  abbrev pub sum_for : Option V → Option V → Votes → Option V
  sum_for rid acc [] = acc
  sum_for rid acc ((row, x) ∷ votes) =
      sum_for rid
        (if same_id v (row_id row) rid then some (v.add (or_value v.nought acc) x) else acc) votes

  count-append :
      (votes more : Votes) (t : Tally V) → count (votes ++ more) t ≡ count more (count votes t)
  count-append [] more t = refl
  count-append ((row, x) ∷ votes) more t = count-append votes more (note v row x t)

  note_ranks-count :
      (k rank : ℕ) (rows : List (Row V)) (t : Tally V)
      → note_ranks v k rank rows t ≡ count (rank_votes k rank rows) t
  unfolding note_ranks
  note_ranks-count k rank [] t = refl
  note_ranks-count k rank (row ∷ rows) t = note_ranks-count k (suc rank) rows (note v row _ t)

  pub note_lists-count :
      (k : ℕ) (lists : List (List (Row V))) (t : Tally V)
      → note_lists v k lists t ≡ count (rrf_votes k lists) t
  unfolding note_lists
  note_lists-count k [] t = refl
  note_lists-count k (rows ∷ lists) t =
      note_lists-count k lists (note_ranks v k 1 rows t)
      ∙ ap (count (rrf_votes k lists)) (note_ranks-count k 1 rows t)
      ∙ sym (count-append (rank_votes k 1 rows) (rrf_votes k lists) t)

  note_weighted-count :
      (w max_s : V) (rows : List (Row V)) (t : Tally V)
      → note_weighted v w max_s rows t ≡ count (share_votes w max_s rows) t
  unfolding note_weighted
  note_weighted-count w max_s [] t = refl
  note_weighted-count w max_s (row ∷ rows) t = note_weighted-count w max_s rows (note v row _ t)

  pub note_all_weighted-count :
      (weights : List V) (lists : List (List (Row V))) (t : Tally V)
      → note_all_weighted v weights lists t ≡ count (weighted_votes weights lists) t
  unfolding note_all_weighted
  note_all_weighted-count [] lists t = refl
  note_all_weighted-count (w ∷ ws) [] t = refl
  note_all_weighted-count (w ∷ ws) ([] ∷ lists) t = note_all_weighted-count ws lists t
  note_all_weighted-count (w ∷ ws) ((row ∷ rows) ∷ lists) t =
      let max_s = max_score v row rows in
      note_all_weighted-count ws lists (note_weighted v w max_s (row ∷ rows) t)
      ∙ ap (count (weighted_votes ws lists)) (note_weighted-count w max_s (row ∷ rows) t)
      ∙ sym (count-append (share_votes w max_s (row ∷ rows)) (weighted_votes ws lists) t)

  module _ (law : IsOrdered v) where
    pub same_id_iff : (a b : Option V) → (same_id v a b ≡ true) ↔ (a ≡ b)
    unfolding same_id
    same_id_iff none none = (λ h. refl, λ h. refl)
    same_id_iff none (some b) = (λ h. cc, λ h. cc)
    same_id_iff (some a) none = (λ h. cc, λ h. cc)
    same_id_iff (some a) (some b) =
        (λ h. ap some ((law.same_iff a b).0 h), λ e. (law.same_iff a b).1 cc)

    pub look-put_item :
        {A : Type 0} (d : List (Option V × A)) (i j : Option V) (a : A)
        → look v (put_item v d i a) j ≡ (if same_id v i j then some a else look v d j)
    unfolding look put_item
    look-put_item [] i j a = refl
    look-put_item ((k, b) ∷ d) i j a =
        ground (arith, same_id_iff i j, same_id_iff k i, same_id_iff k j, look-put_item d i j a)

    pub look-count :
        (votes : Votes) (t : Tally V) (j : Option V)
        → look v (count votes t).scores j ≡ sum_for j (look v t.scores j) votes
    unfolding note
    look-count [] t j = refl
    look-count ((row, x) ∷ votes) t j =
        look-count votes (note v row x t) j
        ∙ ap (λ acc. sum_for j acc votes) (look-put_item t.scores (row_id row) j _ ∙ found)
      where
        found :
            (if same_id v (row_id row) j
              then some (v.add (or_value v.nought (look v t.scores (row_id row))) x)
              else look v t.scores j)
            ≡ (if same_id v (row_id row) j
                then some (v.add (or_value v.nought (look v t.scores j)) x)
                else look v t.scores j)
        found = ground (arith, same_id_iff (row_id row) j)
