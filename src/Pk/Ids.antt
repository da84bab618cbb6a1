-- ===== src/Pk/Ids.antt =====
-- The ids of zvec documents and the primary keys that they stand for, in xvector/common/pk.py. The
-- text of a list or a dict is the parameter `repr`.
use xvector.Prelude.{
  subst, String, ◌≡◌, refl, inl, inr, Bool, true, false, Option, none, some, ◌==◌, if◌then◌else◌,
  Bool-cases,
}
use xvector.Errors.{Result, ok, err, value_error, ok-eq}
use xvector.Text.{strip}
use xvector.Text.Decimal.{decimal, int_str, parse_int, parse_int-int_str, strip-int_str}
use xvector.Prelude.Integers.{ℤ, pos, negsuc}
use xvector.Json.Reads.{int_of}
use xvector.Json.{Json, null, bool, num, neg, number, str}

-- str(n), for what int() has returned
abbrev pub number_text : Result ℤ → Result String
number_text (err e) = err e
number_text (ok n) = ok (int_str n)

-- str(int(value))
unfoldable pub int_text : Json → Result String
unfolding int_str int_of
int_text v = number_text (int_of v)

-- str(value)
unfoldable pub text_form : (Json → String) → Json → String
unfolding decimal int_str
text_form repr null = "None"
text_form repr (bool true) = "True"
text_form repr (bool false) = "False"
text_form repr (num n) = decimal n
text_form repr (neg n) = int_str (negsuc n)
text_form repr (str s) = s
text_form repr v = repr v

-- primary_type == "Int64"
abbrev pub is_int64 : String → Bool
is_int64 primary_type = primary_type == "Int64"

unfoldable pub to_internal_id : (Json → String) → Json → String → Result String
unfolding int_text text_form
to_internal_id repr null primary_type = err value_error
to_internal_id repr v primary_type =
    if is_int64 primary_type then int_text v else ok (text_form repr v)

abbrev pub number_value : Option ℤ → Result Json
number_value none = err value_error
number_value (some n) = ok (number n)

unfoldable pub from_internal_id : String → String → Result Json
unfolding parse_int strip
from_internal_id value primary_type =
    if is_int64 primary_type then number_value (parse_int (strip value)) else ok (str value)

-- A primary key of the type stands for the id.
abbrev pub StandsFor : (Json → String) → String → String → Type 0
StandsFor repr id primary_type =
    (w : Json) × (from_internal_id id primary_type ≡ ok w)
    × (to_internal_id repr w primary_type ≡ ok id)

number_text-int_str :
    (r : Result ℤ) (id : String) → number_text r ≡ ok id → (n : ℤ) × (int_str n ≡ id)
number_text-int_str (err e) id h = cc
number_text-int_str (ok n) id h = (n, ok-eq h)

int_text-int_str : (v : Json) (id : String) → int_text v ≡ ok id → (n : ℤ) × (int_str n ≡ id)
unfolding int_text
int_text-int_str v id h = number_text-int_str (int_of v) id h

int_text-number : (n : ℤ) → int_text (number n) ≡ ok (int_str n)
unfolding int_text int_of
int_text-number (pos n) = refl
int_text-number (negsuc n) = refl

to_internal_id-number :
    (repr : Json → String) (n : ℤ) (t : String)
    → is_int64 t ≡ true
    → to_internal_id repr (number n) t ≡ ok (int_str n)
unfolding to_internal_id
to_internal_id-number repr (pos n) t is_int = rw is_int (int_text-number (pos n))
to_internal_id-number repr (negsuc n) t is_int = rw is_int (int_text-number (negsuc n))

int_str-StandsFor :
    (repr : Json → String) (n : ℤ) (t : String) → is_int64 t ≡ true → StandsFor repr (int_str n) t
unfolding from_internal_id
int_str-StandsFor repr n t is_int = (
  number n,
  rw (is_int, strip-int_str n, parse_int-int_str n) refl,
  to_internal_id-number repr n t is_int,
)

accepted_text :
    (repr : Json → String) (v : Json) (id t : String)
    → (if is_int64 t then int_text v else ok (text_form repr v)) ≡ ok id
    → StandsFor repr id t
unfolding from_internal_id to_internal_id text_form
accepted_text repr v id t h = elim (Bool-cases (is_int64 t)) [
  | inl is_int ↦
      let (n, e) = int_text-int_str v id (rw is_int at h) in
      subst (λ i. StandsFor repr i t) e (int_str-StandsFor repr n t is_int)
  | inr is_text ↦ (str id, rw is_text refl, rw is_text refl)
]

-- An id made from a primary key is read as a primary key that has the same id.
pub to_internal_id-StandsFor :
    (repr : Json → String) (v : Json) (id primary_type : String)
    → to_internal_id repr v primary_type ≡ ok id
    → StandsFor repr id primary_type
unfolding to_internal_id
to_internal_id-StandsFor repr null id t h = cc
to_internal_id-StandsFor repr v id t h = accepted_text repr v id t h
