-- ===== src/Dict.antt =====
-- Python dictionaries with text keys, in the order of insertion.
pub mod Laws
use xvector.Prelude.{
  ℕ, suc, String, Bool, true, false, Option, none, some, List, [], ◌∷◌, ◌==◌, if◌then◌else◌,
}

module _ {ℓ} {V : Type ℓ} where
  -- d.get(k)
  unfoldable pub get : List (String × V) → String → Option V
  get [] k = none
  get ((j, v) ∷ d) k = if j == k then some v else get d k

  -- d[k] = v: a key that is there keeps its place
  unfoldable pub set : List (String × V) → String → V → List (String × V)
  set [] k v = (k, v) ∷ []
  set ((j, w) ∷ d) k v = if j == k then (k, v) ∷ d else (j, w) ∷ set d k v

  -- d.pop(k, None)
  unfoldable pub remove : List (String × V) → String → List (String × V)
  remove [] k = []
  remove ((j, w) ∷ d) k = let rest = remove d k in if j == k then rest else (j, w) ∷ rest

  -- d.values()
  unfoldable pub values : List (String × V) → List V
  values [] = []
  values ((j, v) ∷ d) = v ∷ values d

  -- len(d)
  abbrev pub size : List (String × V) → ℕ
  size [] = 0
  size ((j, v) ∷ d) = suc (size d)
