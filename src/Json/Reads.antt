-- ===== src/Json/Reads.antt =====
-- Reading values: entries of dicts inside values, and int.
use xvector.Prelude.{String, true, false, Option, none, some, List, [], ◌∷◌, ◌==◌, if◌then◌else◌}
use xvector.Errors.{Result, ok, err, type_error, value_error}
use xvector.Text.{strip}
use xvector.Prelude.Integers.{ℤ, pos, negsuc}
use xvector.Text.Decimal.{parse_int}
use xvector.Json.{
  Json, null, bool, num, neg, str, arr, obj, Items, nil, cons, Fields, end, field, or_null, or_else,
  is_text,
}

-- data[key], if it is there
unfoldable pub field_of : String → Fields → Option Json
field_of key end = none
field_of key (field k v fs) = if k == key then some v else field_of key fs

-- v.get(key), where v is a dict
unfoldable pub value_at : Json → String → Json
unfolding field_of
value_at (obj fs) key = or_null (field_of key fs)
value_at _ key = null

-- v.get(key) or v.get(other)
abbrev pub either_at : Json → String → String → Json
either_at v key other = or_else (value_at v key) (value_at v other)

abbrev pub number_or_error : Option ℤ → Result ℤ
number_or_error none = err value_error
number_or_error (some n) = ok n

-- int(v)
unfoldable pub int_of : Json → Result ℤ
unfolding parse_int strip
int_of (num n) = ok (pos n)
int_of (neg n) = ok (negsuc n)
int_of (bool true) = ok (pos 1)
int_of (bool false) = ok (pos 0)
int_of (str s) = number_or_error (parse_int (strip s))
int_of _ = err type_error

-- {p.get("key"): p.get("value") for p in items}.get(key)
unfoldable pub pair_value : String → Items → Json → Json
unfolding value_at
pair_value key nil found = found
pair_value key (cons p ps) found =
    pair_value key ps (if is_text (value_at p "key") key then value_at p "value" else found)

-- an entry of parameters, which are a dict or a list of keys with their values
unfoldable pub param_at : Json → String → Json
unfolding pair_value value_at
param_at (arr ps) key = pair_value key ps null
param_at v key = value_at v key

-- the elements of a list
unfoldable pub elements : Items → List Json
elements nil = []
elements (cons v vs) = v ∷ elements vs

unfoldable pub list_at : Json → List Json
unfolding elements
list_at (arr vs) = elements vs
list_at _ = []
