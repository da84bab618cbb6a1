-- ===== src/Exec.antt =====
-- Methods that change an object and may raise. What was changed before a raise stays changed.
use xvector.Prelude.{◌≡◌, refl}
use xvector.Errors.{Error, Result, ok, err}

abbrev pub Exec {ℓ} : Type ℓ → Type ℓ → Type ℓ
Exec S A = S → Result A × S

module _ {ℓ} {S A : Type ℓ} where
  abbrev pub pure : A → Exec S A
  pure a s = (ok a, s)

  abbrev pub raise : Error → Exec S A
  raise e s = (err e, s)

  abbrev pub lift : Result A → Exec S A
  lift r s = (r, s)

module _ {ℓ} {S A B : Type ℓ} where
  abbrev pub next : Result A × S → (A → Exec S B) → Result B × S
  next (ok a, s) f = f a s
  next (err e, s) f = (err e, s)

  infixl 10 ◌>>=◌ ◌>>◌
  abbrev pub ◌>>=◌ : Exec S A → (A → Exec S B) → Exec S B
  ◌>>=◌ m f s = next (m s) f

  abbrev pub ◌>>◌ : Exec S A → Exec S B → Exec S B
  m >> n = m >>= λ _. n

-- What ends well has begun well.
pub next-ok {ℓ} :
    {S A B : Type ℓ} (r : Result A) (s : S) (f : A → Exec S B) {b : B} {t : S}
    → next (r, s) f ≡ (ok b, t)
    → (a : A) × (r ≡ ok a)
next-ok (ok a) s f h = (a, refl)
next-ok (err e) s f h = cc

-- What ends well consists of two calls that end well.
pub next-ran {ℓ} :
    {S A B : Type ℓ} (x : Result A × S) (f : A → Exec S B) {b : B} {t : S}
    → next x f ≡ (ok b, t)
    → (a : A) × (u : S) × (x ≡ (ok a, u)) × (f a u ≡ (ok b, t))
next-ran (ok a, s) f h = (a, s, refl, h)
next-ran (err e, s) f h = cc
