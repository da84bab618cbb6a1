-- ===== src/Errors.antt =====
-- xvector/common/errors.py: the exceptions of the program, without their messages, and the
-- `Result` of code that may raise one.
use xvector.Prelude.{ℕ, ◌≡◌, refl, Bool, if◌then◌else◌}

-- The `XvectorError` subclasses, then the other Python exceptions that the modelled code raises.
pub data Error : Type 0 where
  param not_found not_loaded unauthorized internal index_unsupported import_failed already_exists :
      Error
  runtime fenced file_exists file_not_found meta_not_ready type_error value_error : Error

-- `XvectorError.code`; any other exception is answered as an internal error
unfoldable pub error_code : Error → ℕ
error_code param = 100
error_code not_found = 1001
error_code not_loaded = 1200
error_code unauthorized = 1800
error_code index_unsupported = 2100
error_code import_failed = 2200
error_code already_exists = 65535
error_code _ = 2000

-- what a call returns or raises
pub data Result {ℓ} (A : Type ℓ) : Type ℓ where
  ok : A → Result A
  err : Error → Result A

-- if not b: raise e
abbrev pub guard : Bool → Error → Result (Unit {0})
guard b e = if b then ok tt else err e

-- a call that goes on with what another one returned
abbrev pub bind : {A B : Type 0} → Result A → (A → Result B) → Result B
bind (ok a) f = f a
bind (err e) f = err e

pub bind-ok :
    {A B : Type 0} (r : Result A) (f : A → Result B) {b : B}
    → bind r f ≡ ok b
    → (a : A) × (r ≡ ok a) × (f a ≡ ok b)
bind-ok (ok a) f h = (a, refl, h)
bind-ok (err e) f h = cc

pub ok-eq : {A : Type 0} {a b : A} → Path (Result A) (ok a) (ok b) → a ≡ b
ok-eq h = cc
