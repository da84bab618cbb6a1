-- ===== src/Prelude/Sorting.antt =====
-- list.sort and sorted: insertion keeps the order of elements that compare equal.
use mathlib.Core.Path.{◌≡◌}
use mathlib.Core.Logic.{◌⊎◌, inl, inr}
use mathlib.Core.Bool.{Bool, true, false}
use mathlib.Core.List.{List, [], ◌∷◌}
use xvector.Prelude.Tests.{if◌then◌else◌, Bool-cases}
use xvector.Prelude.Lists.{All, none_left, both, All-heads, All-map, Pairs, no_pairs, ahead}

module _ {ℓ} {A : Type ℓ} (le : A → A → Bool) where
  unfoldable pub insert_by : A → List A → List A
  insert_by x [] = x ∷ []
  insert_by x (y ∷ l) = let rest = insert_by x l in if le x y then x ∷ y ∷ l else y ∷ rest

  unfoldable pub sort_by : List A → List A
  unfolding insert_by
  sort_by [] = []
  sort_by (x ∷ l) = insert_by x (sort_by l)

  module _ {κ} {P : A → Type κ} where
    insert_by-All : (x : A) (l : List A) → P x → All P l → All P (insert_by x l)
    unfolding insert_by
    insert_by-All x [] p h = both p none_left
    insert_by-All x (y ∷ l) p (both q h) = elim (Bool-cases (le x y)) [
      | inl first ↦ rw first (both p (both q h))
      | inr later ↦ rw later (both q (insert_by-All x l p h))
    ]

    All-insert_by : (x : A) (l : List A) → All P (insert_by x l) → P x × All P l
    unfolding insert_by
    All-insert_by x [] (both p h) = (p, h)
    All-insert_by x (y ∷ l) h = elim (Bool-cases (le x y)) [
      | inl first ↦ All-heads (rw first at h)
      | inr later ↦
          let (q, k) = All-heads (rw later at h) in
          let (p, k) = All-insert_by x l k in (p, both q k)
    ]

    pub sort_by-All : (l : List A) → All P l → All P (sort_by l)
    unfolding sort_by
    sort_by-All [] h = none_left
    sort_by-All (x ∷ l) (both p h) = insert_by-All x (sort_by l) p (sort_by-All l h)

    pub All-sort_by : (l : List A) → All P (sort_by l) → All P l
    unfolding sort_by
    All-sort_by [] h = none_left
    All-sort_by (x ∷ l) h = let (p, k) = All-insert_by x (sort_by l) h in both p (All-sort_by l k)

  -- a relation that holds both ways or not at all survives any change of order
  module _ {κ} {R : A → A → Type κ} (flip : (a b : A) → R a b → R b a) where
    insert_by-flip : (x : A) (l : List A) → All (R x) l → Pairs R l → Pairs R (insert_by x l)
    unfolding insert_by
    insert_by-flip x [] a h = ahead none_left no_pairs
    insert_by-flip x (y ∷ l) (both r a) (ahead b h) = elim (Bool-cases (le x y)) [
      | inl first ↦ rw first (ahead (both r a) (ahead b h))
      | inr later ↦ rw later (ahead (insert_by-All x l (flip x y r) b) (insert_by-flip x l a h))
    ]

    pub sort_by-flip : (l : List A) → Pairs R l → Pairs R (sort_by l)
    unfolding sort_by
    sort_by-flip [] h = no_pairs
    sort_by-flip (x ∷ l) (ahead a h) =
        insert_by-flip x (sort_by l) (sort_by-All l a) (sort_by-flip l h)

  module _ (total : (a b : A) → (le a b ≡ true) ⊎ (le b a ≡ true))
      (trans : (a b c : A) → le a b ≡ true → le b c ≡ true → le a c ≡ true) where
    insert_by-Pairs :
        (x : A) (l : List A)
        → Pairs (λ a b. le a b ≡ true) l
        → Pairs (λ a b. le a b ≡ true) (insert_by x l)
    unfolding insert_by
    insert_by-Pairs x [] h = ahead none_left no_pairs
    insert_by-Pairs x (y ∷ l) (ahead a h) = elim (Bool-cases (le x y)) [
      | inl first ↦
          rw first (ahead (both first (All-map l (λ z k. trans x y z first k) a)) (ahead a h))
      | inr later ↦ rw later (ahead (insert_by-All x l (behind later) a) (insert_by-Pairs x l h))
    ]
      where
        behind : le x y ≡ false → le y x ≡ true
        behind later = elim (total x y) [ inl k ↦ cc | inr k ↦ k ]

    pub sort_by-Pairs : (l : List A) → Pairs (λ a b. le a b ≡ true) (sort_by l)
    unfolding sort_by
    sort_by-Pairs [] = no_pairs
    sort_by-Pairs (x ∷ l) = insert_by-Pairs x (sort_by l) (sort_by-Pairs l)
