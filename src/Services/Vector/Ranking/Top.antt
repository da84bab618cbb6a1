-- ===== src/Services/Vector/Ranking/Top.antt =====
-- The page of a search: the best row of every id, the best ones first.
use xvector.Prelude.{
  ℕ, zero, suc, ◌≤◌, ◌≡◌, refl, ap, ◌⊎◌, inl, inr, Bool, true, false, Option, none, some, List, [],
  ◌∷◌, arith, Bool-cases,
}
use xvector.Prelude.Lists.{
  length, take, length-take, Any, here, there, All, none_left, both, Pairs, no_pairs, ahead, Has,
  All-take, All-of_Has, All-map, All-any, All-zip, Pairs-take,
}
use xvector.Prelude.Sorting.{sort_by-All, All-sort_by, sort_by-Pairs}
use xvector.Services.Vector.Ranking.{
  Values, IsOrdered, Row, row_id, score, same_id, seen_has, leads, sort_rows, dedupe, top,
}

module _ {V : Type 0} (v : Values V) (reverse : Bool) where
  -- a row may stand before the other one
  abbrev pub Leads : Row V → Row V → Type 0
  Leads a b = leads v reverse a b ≡ true

  abbrev pub SameId : Row V → Row V → Type 0
  SameId a b = same_id v (row_id a) (row_id b) ≡ true

  abbrev pub OtherId : Row V → Row V → Type 0
  OtherId a b = same_id v (row_id a) (row_id b) ≡ false

  -- a row of the page has the id of this row and may stand before it
  abbrev pub Shown : List (Row V) → Row V → Type 0
  Shown page r = Any (λ p. SameId p r × Leads p r) page

  -- the page is full, and all of it may stand before this row
  abbrev pub Outranked : ℕ → List (Row V) → Row V → Type 0
  Outranked limit page r = (length page ≡ limit) × All (λ p. Leads p r) page

  -- What a page of at most `limit` of these rows is: rows of theirs, in order, no id twice, and
  -- whatever is missing is shown by a row of its id or outranked.
  pub record IsTop (limit : ℕ) (rows page : List (Row V)) : Type 0 where
    pub within : length page ≤ limit
    pub taken : All (λ p. Has p rows) page
    pub in_order : Pairs Leads page
    pub one_each : Pairs OtherId page
    pub best : All (λ r. Shown page r ⊎ Outranked limit page r) rows

  dedupe-old :
      (seen : List (Option V)) (x : Row V) (l : List (Row V))
      → seen_has v (row_id x) seen ≡ true
      → dedupe v seen (x ∷ l) ≡ dedupe v seen l
  unfolding dedupe
  dedupe-old seen x l old =
      ap (λ b. elim b [ true ↦ dedupe v seen l | false ↦ x ∷ dedupe v (row_id x ∷ seen) l ]) old

  dedupe-new :
      (seen : List (Option V)) (x : Row V) (l : List (Row V))
      → seen_has v (row_id x) seen ≡ false
      → dedupe v seen (x ∷ l) ≡ x ∷ dedupe v (row_id x ∷ seen) l
  unfolding dedupe
  dedupe-new seen x l new =
      ap (λ b. elim b [ true ↦ dedupe v seen l | false ↦ x ∷ dedupe v (row_id x ∷ seen) l ]) new

  dedupe-All :
      {P : Row V → Type 0} (seen : List (Option V)) (l : List (Row V))
      → All P l
      → All P (dedupe v seen l)
  unfolding dedupe
  dedupe-All seen [] h = none_left
  dedupe-All seen (x ∷ l) (both p h) = elim (Bool-cases (seen_has v (row_id x) seen)) [
    | inl old ↦ rw (dedupe-old seen x l old) (dedupe-All seen l h)
    | inr new ↦ rw (dedupe-new seen x l new) (both p (dedupe-All (row_id x ∷ seen) l h))
  ]

  dedupe-Leads :
      (seen : List (Option V)) (l : List (Row V)) → Pairs Leads l → Pairs Leads (dedupe v seen l)
  unfolding dedupe
  dedupe-Leads seen [] h = no_pairs
  dedupe-Leads seen (x ∷ l) (ahead a h) = elim (Bool-cases (seen_has v (row_id x) seen)) [
    | inl old ↦ rw (dedupe-old seen x l old) (dedupe-Leads seen l h)
    | inr new ↦
        rw (dedupe-new seen x l new)
          (ahead (dedupe-All (row_id x ∷ seen) l a) (dedupe-Leads (row_id x ∷ seen) l h))
  ]

  seen_has-cons :
      (r s : Option V) (seen : List (Option V))
      → seen_has v r (s ∷ seen) ≡ false
      → (same_id v s r ≡ false) × (seen_has v r seen ≡ false)
  unfolding seen_has
  seen_has-cons r s seen h = (ground arith, ground arith)

  -- no row that is kept has an id from before
  dedupe-unseen :
      (seen : List (Option V)) (l : List (Row V))
      → All (λ r. seen_has v (row_id r) seen ≡ false) (dedupe v seen l)
  unfolding dedupe
  dedupe-unseen seen [] = none_left
  dedupe-unseen seen (x ∷ l) = elim (Bool-cases (seen_has v (row_id x) seen)) [
    | inl old ↦ rw (dedupe-old seen x l old) (dedupe-unseen seen l)
    | inr new ↦ rw (dedupe-new seen x l new) (
        both new (
          All-map (dedupe v (row_id x ∷ seen) l)
            (λ r h. (seen_has-cons (row_id r) (row_id x) seen h).1)
            (dedupe-unseen (row_id x ∷ seen) l)))
  ]

  dedupe-OtherId : (seen : List (Option V)) (l : List (Row V)) → Pairs OtherId (dedupe v seen l)
  unfolding dedupe
  dedupe-OtherId seen [] = no_pairs
  dedupe-OtherId seen (x ∷ l) = elim (Bool-cases (seen_has v (row_id x) seen)) [
    | inl old ↦ rw (dedupe-old seen x l old) (dedupe-OtherId seen l)
    | inr new ↦ rw (dedupe-new seen x l new) (
        ahead
          (All-map (dedupe v (row_id x ∷ seen) l)
            (λ r h. (seen_has-cons (row_id r) (row_id x) seen h).0)
            (dedupe-unseen (row_id x ∷ seen) l))
          (dedupe-OtherId (row_id x ∷ seen) l))
  ]

  module _ (law : IsOrdered v) where
    Leads-total : (a b : Row V) → Leads a b ⊎ Leads b a
    unfolding leads
    Leads-total a b = elim (Bool-cases reverse) [
      | inl r ↦ rw r (law.le_total (score v b) (score v a))
      | inr r ↦ rw r (law.le_total (score v a) (score v b))
    ]

    Leads-trans : (a b c : Row V) → Leads a b → Leads b c → Leads a c
    unfolding leads
    Leads-trans a b c h k = elim (Bool-cases reverse) [
      | inl r ↦ rw r (law.le_trans (score v c) (score v b) (score v a) (rw r at k) (rw r at h))
      | inr r ↦ rw r (law.le_trans (score v a) (score v b) (score v c) (rw r at h) (rw r at k))
    ]

    Leads-refl : (a : Row V) → Leads a a
    Leads-refl a = elim (Leads-total a a) [ inl h ↦ h | inr h ↦ h ]

    same_id_refl : (a : Option V) → same_id v a a ≡ true
    unfolding same_id
    same_id_refl none = refl
    same_id_refl (some a) = (law.same_iff a a).1 refl

    -- a row of a sorted list has been seen before, or is shown by what is kept
    abbrev Accounted : List (Option V) → List (Row V) → Row V → Type 0
    Accounted seen page r = (seen_has v (row_id r) seen ≡ true) ⊎ Shown page r

    Accounted-later :
        (x r : Row V) (seen : List (Option V)) (page : List (Row V))
        → Leads x r × Accounted (row_id x ∷ seen) page r
        → Accounted seen (x ∷ page) r
    unfolding seen_has
    Accounted-later x r seen page (lead, inr shown) = inr (there shown)
    Accounted-later x r seen page (lead, inl old) =
        elim (Bool-cases (same_id v (row_id x) (row_id r))) [
          | inl same ↦ inr (here (same, lead))
          | inr other ↦ inl (rw other at old)
        ]

    dedupe-Accounted :
        (seen : List (Option V)) (l : List (Row V))
        → Pairs Leads l
        → All (Accounted seen (dedupe v seen l)) l
    unfolding dedupe
    dedupe-Accounted seen [] h = none_left
    dedupe-Accounted seen (x ∷ l) (ahead a h) = elim (Bool-cases (seen_has v (row_id x) seen)) [
      | inl old ↦ rw (dedupe-old seen x l old) (both (inl old) (dedupe-Accounted seen l h))
      | inr new ↦ rw (dedupe-new seen x l new) (
          both (inr (here (same_id_refl (row_id x), Leads-refl x))) (
            All-map l (λ r k. Accounted-later x r seen (dedupe v (row_id x ∷ seen) l) k)
              (All-zip l a (dedupe-Accounted (row_id x ∷ seen) l h))))
    ]

    Shown-or_Outranked :
        (limit : ℕ) (l : List (Row V)) (r : Row V)
        → Pairs Leads l
        → Shown l r
        → Shown (take limit l) r ⊎ Outranked limit (take limit l) r
    Shown-or_Outranked zero l r h s = inr (refl, none_left)
    Shown-or_Outranked (suc limit) [] r h s = inl s
    Shown-or_Outranked (suc limit) (x ∷ l) r (ahead a h) (here c) = inl (here c)
    Shown-or_Outranked (suc limit) (x ∷ l) r (ahead a h) (there s) =
        elim (Shown-or_Outranked limit l r h s) [
          | inl shown ↦ inl (there shown)
          | inr (full, all) ↦
              inr (ap suc full, both (All-any l (λ p k c. Leads-trans x p r k c.1) a s) all)
        ]

    kept_best :
        (limit : ℕ) (rows l : List (Row V))
        → Pairs Leads l
        → All (Accounted [] l) rows
        → All (λ r. Shown (take limit l) r ⊎ Outranked limit (take limit l) r) rows
    unfolding seen_has
    kept_best limit rows l h =
        All-map rows
          λ r k. elim k [ inl old ↦ cc | inr shown ↦ Shown-or_Outranked limit l r h shown ]

    -- The page of a search is the best row of every id among the rows of the partitions, in the
    -- order of their scores and cut at the limit, when `==` is equality and `<=` a total order.
    pub top-IsTop : (limit : ℕ) (rows : List (Row V)) → IsTop limit rows (top v reverse limit rows)
    unfolding top sort_rows
    top-IsTop limit rows =
        let sorted = sort_rows v reverse rows in
        let kept = dedupe v [] sorted in
        let ordered : Pairs Leads sorted =
          sort_by-Pairs (leads v reverse) Leads-total Leads-trans rows in
        let kept_ordered : Pairs Leads kept = dedupe-Leads [] sorted ordered in
        record {
          within = length-take limit kept;
          taken = All-take limit kept (
              dedupe-All [] sorted (sort_by-All (leads v reverse) rows (All-of_Has rows λ x h. h)));
          in_order = Pairs-take limit kept kept_ordered;
          one_each = Pairs-take limit kept (dedupe-OtherId [] sorted);
          best =
              kept_best limit rows kept kept_ordered
                (All-sort_by (leads v reverse) rows (dedupe-Accounted [] sorted ordered));
        }
