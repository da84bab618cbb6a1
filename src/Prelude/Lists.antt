-- ===== src/Prelude/Lists.antt =====
-- Lists by native numbers, and what holds of all elements or of all pairs of a list.
use Prim.Native.Nat.{ℕ, zero, suc, ◌+◌, ◌≤◌}
use mathlib.Core.Path.{◌≡◌, refl, sym, subst}
use mathlib.Core.List.{List, [], ◌∷◌, ◌++◌, map}
use native.Mathlib.Omega.{arith}

module _ {ℓ} {A : Type ℓ} where
  abbrev pub length : List A → ℕ
  length [] = 0
  length (x ∷ xs) = suc (length xs)

  -- l[:n]
  abbrev pub take : ℕ → List A → List A
  take zero xs = []
  take (suc n) [] = []
  take (suc n) (x ∷ xs) = x ∷ take n xs

  -- l[n:]
  abbrev pub drop : ℕ → List A → List A
  drop zero xs = xs
  drop (suc n) [] = []
  drop (suc n) (x ∷ xs) = drop n xs

  pub length-take : (n : ℕ) (l : List A) → length (take n l) ≤ n
  length-take zero l = omega arith
  length-take (suc n) [] = omega arith
  length-take (suc n) (x ∷ l) = omega (arith, length-take n l)

  pub take-append-drop : (n : ℕ) (l : List A) → take n l ++ drop n l ≡ l
  take-append-drop zero l = refl
  take-append-drop (suc n) [] = refl
  take-append-drop (suc n) (x ∷ l) = rw (take-append-drop n l)

  pub length-take-drop : (n : ℕ) (l : List A) → length (take n l) + length (drop n l) ≡ length l
  length-take-drop zero l = omega arith
  length-take-drop (suc n) [] = omega arith
  length-take-drop (suc n) (x ∷ l) = omega (arith, length-take-drop n l)

-- an element of the list has the property
pub data Any {ℓ κ} {A : Type ℓ} (P : A → Type κ) : List A → Type (ℓ ⊔ κ) where
  here : {x : A} {l : List A} → P x → Any P (x ∷ l)
  there : {x : A} {l : List A} → Any P l → Any P (x ∷ l)

-- every element has the property
pub data All {ℓ κ} {A : Type ℓ} (P : A → Type κ) : List A → Type (ℓ ⊔ κ) where
  none_left : All P []
  both : {x : A} {l : List A} → P x → All P l → All P (x ∷ l)

-- every earlier element is related to every later one
pub data Pairs {ℓ κ} {A : Type ℓ} (R : A → A → Type κ) : List A → Type (ℓ ⊔ κ) where
  no_pairs : Pairs R []
  ahead : {x : A} {l : List A} → All (R x) l → Pairs R l → Pairs R (x ∷ l)

-- x is an element of l
abbrev pub Has {ℓ} : {A : Type ℓ} → A → List A → Type ℓ
Has x l = Any (λ y. x ≡ y) l

module _ {ℓ κ} {A : Type ℓ} {P : A → Type κ} where
  pub Any-take : (n : ℕ) (l : List A) → Any P (take n l) → Any P l
  Any-take zero l h = elim h [ ]
  Any-take (suc n) [] h = elim h [ ]
  Any-take (suc n) (y ∷ l) (here e) = here e
  Any-take (suc n) (y ∷ l) (there h) = there (Any-take n l h)

  pub All-take : (n : ℕ) (l : List A) → All P l → All P (take n l)
  All-take zero l h = none_left
  All-take (suc n) [] h = none_left
  All-take (suc n) (x ∷ l) (both p h) = both p (All-take n l h)

  pub All-heads : {x : A} {l : List A} → All P (x ∷ l) → P x × All P l
  All-heads (both p h) = (p, h)

  pub All-Has : (l : List A) {x : A} → All P l → Has x l → P x
  All-Has [] h m = elim m [ ]
  All-Has (y ∷ l) (both p h) (here e) = subst P (sym e) p
  All-Has (y ∷ l) (both p h) (there m) = All-Has l h m

  pub All-of_Has : (l : List A) → ((x : A) → Has x l → P x) → All P l
  All-of_Has [] f = none_left
  All-of_Has (x ∷ l) f = both (f x (here refl)) (All-of_Has l λ y m. f y (there m))

module _ {ℓ κ μ} {A : Type ℓ} {P : A → Type κ} {Q : A → Type μ} where
  pub All-map : (l : List A) → ((x : A) → P x → Q x) → All P l → All Q l
  All-map [] f h = none_left
  All-map (x ∷ l) f (both p h) = both (f x p) (All-map l f h)

  pub Any-map : (l : List A) → ((x : A) → P x → Q x) → Any P l → Any Q l
  Any-map [] f h = elim h [ ]
  Any-map (x ∷ l) f (here p) = here (f x p)
  Any-map (x ∷ l) f (there h) = there (Any-map l f h)

  -- what all have and one more has of one
  pub All-any {ν} : {B : Type ν} (l : List A) → ((x : A) → P x → Q x → B) → All P l → Any Q l → B
  All-any [] f h m = elim m [ ]
  All-any (x ∷ l) f (both p h) (here q) = f x p q
  All-any (x ∷ l) f (both p h) (there m) = All-any l f h m

  pub All-zip : (l : List A) → All P l → All Q l → All (λ x. P x × Q x) l
  All-zip [] h k = none_left
  All-zip (x ∷ l) (both p h) (both q k) = both (p, q) (All-zip l h k)

module _ {ℓ κ} {A : Type ℓ} {R : A → A → Type κ} where
  pub Pairs-take : (n : ℕ) (l : List A) → Pairs R l → Pairs R (take n l)
  Pairs-take zero l h = no_pairs
  Pairs-take (suc n) [] h = no_pairs
  Pairs-take (suc n) (x ∷ l) (ahead a h) = ahead (All-take n l a) (Pairs-take n l h)

module _ {ℓ κ} {A B : Type ℓ} (f : A → B) where
  pub All-over_map : {P : B → Type κ} (l : List A) → All (λ a. P (f a)) l → All P (map f l)
  All-over_map [] h = none_left
  All-over_map (x ∷ l) (both p h) = both p (All-over_map l h)

  pub Any-over_map : {P : B → Type κ} (l : List A) → Any (λ a. P (f a)) l → Any P (map f l)
  Any-over_map [] h = elim h [ ]
  Any-over_map (x ∷ l) (here p) = here p
  Any-over_map (x ∷ l) (there h) = there (Any-over_map l h)

  pub Pairs-over_map :
      {R : B → B → Type κ} (l : List A) → Pairs (λ a b. R (f a) (f b)) l → Pairs R (map f l)
  Pairs-over_map [] h = no_pairs
  Pairs-over_map (x ∷ l) (ahead a h) = ahead (All-over_map l a) (Pairs-over_map l h)

pub Pairs-with {ℓ κ μ ν} :
    {A : Type ℓ} {P : A → Type κ} {R : A → A → Type μ} {S : A → A → Type ν} (l : List A)
    → ((a b : A) → P a → P b → R a b → S a b)
    → All P l
    → Pairs R l
    → Pairs S l
Pairs-with [] f h k = no_pairs
Pairs-with (x ∷ l) f (both p h) (ahead a k) =
    ahead (All-map l (λ y (q, r). f x y p q r) (All-zip l h a)) (Pairs-with l f h k)
