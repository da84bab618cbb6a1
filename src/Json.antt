-- ===== src/Json.antt =====
-- JSON values: the documents of the metadata store and the bodies of requests. Their numbers are
-- keys, times, counts and sizes, so that integers serve; a fraction is left out.
pub mod Reads
use xvector.Prelude.{
  ℕ, String, Bool, true, false, not, Option, none, some, List, [], ◌∷◌, ◌==◌, nat_beq,
  if◌then◌else◌,
}
use xvector.Prelude.Integers.{ℤ, pos, negsuc}
use xvector.Text.{is_empty}
use xvector.Dict.{get}

mutual
  pub data Json : Type 0 where
    null : Json
    bool : Bool → Json
    num : ℕ → Json
    -- `neg n` is the number -(n + 1)
    neg : ℕ → Json
    str : String → Json
    arr : Items → Json
    obj : Fields → Json

  pub data Items : Type 0 where
    nil : Items
    cons : Json → Items → Items

  pub data Fields : Type 0 where
    end : Fields
    field : String → Json → Fields → Fields

-- an integer as a value
abbrev pub number : ℤ → Json
number (pos n) = num n
number (negsuc n) = neg n

-- a dict at the top of a document
abbrev pub Doc : Type 0
Doc = List (String × Json)

-- `None` for what is not there
abbrev pub or_null : Option Json → Json
or_null none = null
or_null (some v) = v

-- d.get(key)
unfoldable pub get_value : Doc → String → Json
unfolding get
get_value d key = or_null (get d key)

-- bool(v)
unfoldable pub truthy : Json → Bool
truthy null = false
truthy (bool b) = b
truthy (num n) = not (nat_beq n 0)
truthy (neg n) = true
truthy (str s) = not (is_empty s)
truthy (arr nil) = false
truthy (arr (cons v vs)) = true
truthy (obj end) = false
truthy (obj (field k v fs)) = true

-- v or w
unfoldable pub or_else : Json → Json → Json
unfolding truthy
or_else v w = if truthy v then v else w

-- v == text
unfoldable pub is_text : Json → String → Bool
is_text (str s) t = s == t
is_text _ t = false

-- the texts of a list of texts
unfoldable pub texts_of : Items → List String
texts_of nil = []
texts_of (cons (str s) vs) = s ∷ texts_of vs
texts_of (cons _ vs) = texts_of vs

-- a list of texts as a value
unfoldable pub text_items : List String → Items
text_items [] = nil
text_items (s ∷ ss) = cons (str s) (text_items ss)
