-- ===== src/Services/Vector/Fusion/Fused.antt =====
-- A fusion has every id of its lists once, with the sum of what its rows are worth.
use xvector.Prelude.{
  ◌≡◌, refl, sym, ap, ◌∙◌, ◌⊎◌, inl, inr, true, false, Option, none, some, List, [], ◌∷◌, map,
  if◌then◌else◌, Bool-cases,
}
use xvector.Prelude.Lists.{
  All, none_left, both, Pairs, no_pairs, ahead, Any, here, there, All-map, All-any, Any-map,
  All-zip, All-of_Has, All-Has, All-over_map, Any-over_map, Pairs-over_map, Pairs-with,
}
use xvector.Prelude.Sorting.{sort_by-All, All-sort_by, sort_by-Pairs, sort_by-flip}
use xvector.Dict.Laws.{get-set}
use xvector.Dict.{set}
use xvector.Services.Vector.Ranking.{Values, IsOrdered, Row, or_value, row_id, score, same_id}
use xvector.Services.Vector.Fusion.{
  Tally, look, put_item, note, no_votes, with_score, item_le, ordered, fused_row, fused, Strategy,
  rrf, weighted, rrf_fuse, weighted_fuse, fuse,
}
use xvector.Services.Vector.Fusion.Tallied.{
  Votes, votes_of, count, sum_for, note_lists-count, note_all_weighted-count, same_id_iff,
  look-put_item, look-count,
}

module _ {V : Type 0} where
  with_score-id : (sc : V) (row : Row V) → row_id (with_score sc row) ≡ row_id row
  unfolding with_score row_id
  with_score-id sc row =
      get-set (set row "score" sc) "distance" "id" sc ∙ get-set row "score" "id" sc

  with_score-score : (v : Values V) (sc : V) (row : Row V) → score v (with_score sc row) ≡ sc
  unfolding with_score score
  with_score-score v sc row =
      ap (or_value v.nought)
        (get-set (set row "score" sc) "distance" "score" sc ∙ get-set row "score" "score" sc)

module _ {V : Type 0} (v : Values V) where
  abbrev OtherKey : {A : Type 0} → Option V × A → Option V × A → Type 0
  OtherKey a b = same_id v a.0 b.0 ≡ false

  -- What the fusion of these votes is: the ids in the order of their sums, no id twice, every id
  -- with its sum, and no id of a vote left out.
  pub record IsFused (votes : Votes v) (page : List (Row V)) : Type 0 where
    pub in_order : Pairs (λ a b. v.le (score v b) (score v a) ≡ true) page
    pub one_each : Pairs (λ a b. same_id v (row_id a) (row_id b) ≡ false) page
    pub weighed : All (λ r. sum_for v (row_id r) none votes ≡ some (score v r)) page
    pub complete : All (λ w. Any (λ r. row_id r ≡ row_id w.0) page) votes

  put_item-All :
      {A : Type 0} (P : Option V → Type 0) (d : List (Option V × A)) (rid : Option V) (a : A)
      → P rid
      → All (λ e. P e.0) d
      → All (λ e. P e.0) (put_item v d rid a)
  unfolding put_item
  put_item-All P [] rid a p h = both p none_left
  put_item-All P ((k, b) ∷ d) rid a p (both q h) = elim (Bool-cases (same_id v k rid)) [
    | inl same ↦ rw same (both q h)
    | inr other ↦ rw other (both q (put_item-All P d rid a p h))
  ]

  put_item-OtherKey :
      {A : Type 0} (d : List (Option V × A)) (rid : Option V) (a : A)
      → Pairs OtherKey d
      → Pairs OtherKey (put_item v d rid a)
  unfolding put_item
  put_item-OtherKey [] rid a h = ahead none_left no_pairs
  put_item-OtherKey ((k, b) ∷ d) rid a (ahead p h) = elim (Bool-cases (same_id v k rid)) [
    | inl same ↦ rw same (ahead p h)
    | inr other ↦ rw other (
        ahead (put_item-All (λ j. same_id v k j ≡ false) d rid a other p)
          (put_item-OtherKey d rid a h))
  ]

  count-OtherKey :
      (votes : Votes v) (t : Tally V)
      → Pairs OtherKey t.scores
      → Pairs OtherKey (count v votes t).scores
  unfolding note
  count-OtherKey [] t h = h
  count-OtherKey ((row, x) ∷ votes) t h =
      count-OtherKey votes (note v row x t) (put_item-OtherKey t.scores (row_id row) _ h)

  -- an id that has begun a sum keeps one
  sum_for-some :
      (rid : Option V) (votes : Votes v) (s : V) → (r : V) × (sum_for v rid (some s) votes ≡ some r)
  sum_for-some rid [] s = (s, refl)
  sum_for-some rid ((row, x) ∷ votes) s = elim (Bool-cases (same_id v (row_id row) rid)) [
    | inl same ↦ rw same (sum_for-some rid votes (v.add s x))
    | inr other ↦ rw other (sum_for-some rid votes s)
  ]

  module _ (law : IsOrdered v) where
    -- every sum stands for a row of its id
    abbrev Backed : Tally V → Type 0
    Backed t =
        (j : Option V) (s : V)
        → look v t.scores j ≡ some s
        → (row : Row V) × (look v t.payload j ≡ some row) × (row_id row ≡ j)

    note-Backed : (row : Row V) (x : V) (t : Tally V) → Backed t → Backed (note v row x t)
    unfolding note
    note-Backed row x t h j s e =
        let scored = sym (look-put_item v law t.scores (row_id row) j _) ∙ e in
        let stored = look-put_item v law t.payload (row_id row) j row in
        elim (Bool-cases (same_id v (row_id row) j)) [
          | inl same ↦ (row, stored ∙ (rw same refl), (same_id_iff v law (row_id row) j).0 same)
          | inr other ↦
              let (old, there_it_is, own) = h j s (rw other at scored) in
              (old, stored ∙ (rw other there_it_is), own)
        ]

    count-Backed : (votes : Votes v) (t : Tally V) → Backed t → Backed (count v votes t)
    count-Backed [] t h = h
    count-Backed ((row, x) ∷ votes) t h =
        count-Backed votes (note v row x t) (note-Backed row x t h)

    look-entry :
        {A : Type 0} (d : List (Option V × A))
        → Pairs OtherKey d
        → All (λ e. look v d e.0 ≡ some e.1) d
    unfolding look
    look-entry [] h = none_left
    look-entry ((k, a) ∷ d) (ahead p h) =
        both (ap (λ b. if b then some a else look v d k) ((same_id_iff v law k k).1 refl)) (
          All-map d (λ e (other, found). ap (λ b. if b then some a else look v d e.0) other ∙ found)
            (All-zip d p (look-entry d h)))

    look-key :
        {A : Type 0} (d : List (Option V × A)) (j : Option V) (a : A)
        → look v d j ≡ some a
        → Any (λ e. e.0 ≡ j) d
    unfolding look
    look-key [] j a h = cc
    look-key ((k, b) ∷ d) j a h = elim (Bool-cases (same_id v k j)) [
      | inl same ↦ here ((same_id_iff v law k j).0 same)
      | inr other ↦ there (look-key d j a (rw other at h))
    ]

    All-summed :
        (f : Option V → Option V) (votes : Votes v)
        → All (λ w. (s : V) × (sum_for v (row_id w.0) (f (row_id w.0)) votes ≡ some s)) votes
    All-summed f [] = none_left
    All-summed f ((row, x) ∷ votes) =
        both
          (rw ((same_id_iff v law (row_id row) (row_id row)).1 refl)
            (sum_for-some (row_id row) votes _))
          (All-summed
            (λ j.
              if same_id v (row_id row) j then some (v.add (or_value v.nought (f j)) x) else f j)
            votes)

    -- A sum is the score of the row that is made of it.
    abbrev Made : Tally V → Option V × V → Type 0
    Made t e = (row_id (fused_row v t e) ≡ e.0) × (score v (fused_row v t e) ≡ e.1)

    row-Made :
        (t : Tally V) (j : Option V) (s : V) → Backed t → look v t.scores j ≡ some s → Made t (j, s)
    row-Made t j s h e =
        let (row, there_it_is, own) = h j s e in
        let stored : or_value [] (look v t.payload j) ≡ row = ap (or_value []) there_it_is in
        (with_score-id s _ ∙ ap row_id stored ∙ own, with_score-score v s _)

    flip_other : (a b : Option V × V) → OtherKey a b → OtherKey b a
    flip_other (i, s) (j, r) h = elim (Bool-cases (same_id v j i)) [
      | inl same ↦
          let back : same_id v i j ≡ true =
            (same_id_iff v law i j).1 (sym ((same_id_iff v law j i).0 same)) in
          cc
      | inr other ↦ other
    ]

    fused_facts :
        (votes : Votes v)
        → All
            (λ e. Made (count v votes no_votes) e × (sum_for v e.0 none votes ≡ some e.1))
            (count v votes no_votes).scores
    unfolding look
    fused_facts votes =
        let t = count v votes no_votes in
        All-map t.scores
          (λ e found. (
            row-Made t e.0 e.1 (count-Backed votes no_votes λ j s k. cc) found,
            sym (look-count v law votes no_votes e.0) ∙ found,
          ))
          (look-entry t.scores (count-OtherKey votes no_votes no_pairs))

    shown-All :
        (votes : Votes v)
        → All
            (λ e. Any (λ r. row_id r ≡ e.0) (fused v (count v votes no_votes)))
            (count v votes no_votes).scores
    unfolding fused ordered
    shown-All votes =
        let t = count v votes no_votes in
        let le = item_le v in
        let sorted = ordered v t.scores in
        let row = fused_row v t in
        let facts = sort_by-All le t.scores (fused_facts votes) in
        All-sort_by le t.scores (
          All-of_Has sorted λ e m. Any-over_map row sorted (
            Any-map sorted
              (λ x same. ap (λ y. row_id (row y)) (sym same) ∙ (All-Has sorted facts m).0.0) m))

    pub count-IsFused : (votes : Votes v) → IsFused votes (fused v (count v votes no_votes))
    unfolding fused ordered look
    count-IsFused votes =
        let t = count v votes no_votes in
        let le = item_le v in
        let sorted = ordered v t.scores in
        let row = fused_row v t in
        let facts = sort_by-All le t.scores (fused_facts votes) in
        let total : (a b : Option V × V) → (le a b ≡ true) ⊎ (le b a ≡ true) =
          λ a b. law.le_total b.1 a.1 in
        record {
          in_order = Pairs-over_map row sorted (
              Pairs-with sorted (λ a b p q r. rw (p.0.1, q.0.1) r) facts
                (sort_by-Pairs le total (λ a b c h k. law.le_trans c.1 b.1 a.1 k h) t.scores));
          one_each = Pairs-over_map row sorted (
              Pairs-with sorted (λ a b p q r. rw (p.0.0, q.0.0) r) facts
                (sort_by-flip le flip_other t.scores (count-OtherKey votes no_votes no_pairs)));
          weighed = All-over_map row sorted (All-map sorted (λ e p. rw (p.0.0, p.0.1) p.1) facts);
          complete =
              All-map votes
                (λ w (s, sum).
                  let found : look v t.scores (row_id w.0) ≡ some s =
                    look-count v law votes no_votes (row_id w.0) ∙ sum in
                  All-any t.scores (λ e shown k. Any-map (map row sorted) (λ r q. q ∙ k) shown)
                    (shown-All votes) (look-key t.scores (row_id w.0) s found))
                (All-summed (λ j. none) votes);
        }

    -- The fusion of ranked lists, by reciprocal ranks and by weights: every id of the counted rows
    -- stands in it once, with the sum of what its rows are worth, and greater sums stand first,
    -- when `==` is equality and `<=` a total order.
    pub fuse-IsFused :
        (strategy : Strategy v) (lists : List (List (Row V)))
        → IsFused (votes_of v strategy lists) (fuse v strategy lists)
    unfolding fuse rrf_fuse weighted_fuse
    fuse-IsFused (rrf k) lists =
        rw (note_lists-count v k lists no_votes) (count-IsFused (votes_of v (rrf k) lists))
    fuse-IsFused (weighted weights) lists =
        rw (note_all_weighted-count v weights lists no_votes)
          (count-IsFused (votes_of v (weighted weights) lists))
