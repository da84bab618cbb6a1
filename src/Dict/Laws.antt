-- ===== src/Dict/Laws.antt =====
-- Reading a dictionary after a write.
use xvector.Prelude.{
  String, ◌≡◌, refl, none, some, List, [], ◌∷◌, arith, ◌==◌, eq_iff, if◌then◌else◌,
}
use xvector.Dict.{get, set, remove}

module _ {ℓ} {V : Type ℓ} where
  pub get-set :
      (d : List (String × V)) (k j : String) (v : V)
      → get (set d k v) j ≡ (if k == j then some v else get d j)
  unfolding get set
  get-set [] k j v = refl
  get-set ((i, w) ∷ d) k j v = ground (arith, eq_iff k j, eq_iff i k, eq_iff i j, get-set d k j v)

  pub get-remove :
      (d : List (String × V)) (k j : String)
      → get (remove d k) j ≡ (if k == j then none else get d j)
  unfolding get remove
  get-remove [] k j = ground arith
  get-remove ((i, w) ∷ d) k j = ground (arith, eq_iff k j, eq_iff i k, eq_iff i j, get-remove d k j)
