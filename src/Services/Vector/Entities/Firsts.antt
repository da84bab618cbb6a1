-- ===== src/Services/Vector/Entities/Firsts.antt =====
-- The first of several answers, and the look-ups of a list of answers.
use xvector.Prelude.{
  Bool, ◌||◌, refl, if◌then◌else◌, String, ◌≡◌, inl, inr, true, false, Option, none, some, List, [],
  ◌∷◌, ◌++◌, ◌==◌, Bool-cases,
}
use xvector.Errors.{Result, ok, err}
use xvector.Dict.{get}
use xvector.Json.{Doc}
use xvector.Services.Vector.Entities.{is_seen}

abbrev pub first_of : Option Doc → Option Doc → Option Doc
first_of none o = o
first_of (some d) o = some d

pub get-append :
    (out : List (String × Doc)) (i j : String) (e : Doc)
    → get (out ++ (i, e) ∷ []) j ≡ first_of (get out j) (if i == j then some e else none)
unfolding get
get-append [] i j e = refl
get-append ((k, d) ∷ out) i j e = elim (Bool-cases (k == j)) [
  | inl same ↦ rw same
  | inr other ↦ rw (other, get-append out i j e)
]

pub first_of-none : (o : Option Doc) → first_of o none ≡ o
first_of-none none = refl
first_of-none (some d) = refl

pub first_of_assoc : (o p q : Option Doc) → first_of (first_of o p) q ≡ first_of o (first_of p q)
first_of_assoc none p q = refl
first_of_assoc (some d) p q = refl

-- one of two places that have the same
pub first_of-either :
    (a b : Bool) (o : Option Doc)
    → first_of (if a then o else none) (if b then o else none) ≡ (if a || b then o else none)
first_of-either true true none = refl
first_of-either true true (some d) = refl
first_of-either true false o = first_of-none o
first_of-either false b o = refl

pub no_answer : (b : Bool) → Path (Option Doc) none (if b then none else none)
no_answer true = refl
no_answer false = refl

-- two places behind another
pub first_of-both :
    (b : Bool) (o p : Option Doc)
    → first_of (if b then o else none) (if b then p else none) ≡ (if b then first_of o p else none)
first_of-both true o p = refl
first_of-both false o p = refl

pub seen_first : (o p : Option Doc) → is_seen o ≡ true → first_of o p ≡ o
seen_first none p h = cc
seen_first (some d) p h = refl

pub unseen_none : (o : Option Doc) → is_seen o ≡ false → o ≡ none
unseen_none none h = refl
unseen_none (some d) h = cc

abbrev pub entity_or_none : Result Doc → Option Doc
entity_or_none (ok e) = some e
entity_or_none (err x) = none

abbrev pub answer_or_none : Result (Option Doc) → Option Doc
answer_or_none (ok o) = o
answer_or_none (err e) = none
