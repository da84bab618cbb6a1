-- ===== src/Meta/DocId/Unique.antt =====
-- When the ids of `make_id` (xvector/meta/docs.py) tell documents apart, and when they do not.
use Prim.Native.Char.{char}
use Prim.Native.String.{[], ◌∷◌, ◌++◌, ◌++◌ as append}
use text.Mathlib.TextLemmas.{
  nil-append, cons-append, append_assoc, append_cancel_left, head-eq_of_cons-eq, tail-eq_of_cons-eq,
}
use xvector.Prelude.{
  String, Char, code, ◌≡◌, refl, sym, ap, ap₂, ◌∙◌, ◌≢◌, ◌⊎◌, inl, inr, false, nat_beq, Bool-cases,
}
use xvector.Text.{Lacks}
use xvector.Text.Cut.{Lacks-append}
use xvector.Meta.DocId.{safe_key, make_id, pair_key}

abbrev pub low_line : Char
low_line = char 95 tt

-- Each low line of the text is followed by another character: there is no "__" in it and no "_"
-- at its end.
abbrev pub IsSpaced : String → Type 0
IsSpaced [] = Unit
IsSpaced (c ∷ []) = c ≢ low_line
IsSpaced (c ∷ d ∷ s) = ((c ≢ low_line) ⊎ (d ≢ low_line)) × IsSpaced (d ∷ s)

IsSpaced-tail : (c : Char) (s : String) → IsSpaced (c ∷ s) → IsSpaced s
IsSpaced-tail c [] h = tt
IsSpaced-tail c (d ∷ s) h = h.1

pub no_low_line : (c : Char) → nat_beq (code c) b'_' ≡ false → c ≢ low_line
no_low_line c h e = cc (h, ap (λ d. nat_beq (code d) b'_') e)

-- A text without "_" is spaced.
pub Lacks-IsSpaced : (s : String) → Lacks b'_' s → IsSpaced s
Lacks-IsSpaced [] h = tt
Lacks-IsSpaced (c ∷ []) (h, tt) = no_low_line c h
Lacks-IsSpaced (c ∷ d ∷ s) (h, k) = (inl (no_low_line c h), Lacks-IsSpaced (d ∷ s) k)

bars : (x : String) → "__" ++ x ≡ low_line ∷ low_line ∷ x
bars x =
    cons-append low_line "_" x
    ∙ ap (λ r. low_line ∷ r) (cons-append low_line "" x ∙ ap (λ r. low_line ∷ r) (nil-append x))

-- A spaced text cannot begin where "__" does.
not_cut : (c : Char) (t x y : String) → IsSpaced (c ∷ t) → "__" ++ x ≢ (c ∷ t) ++ "__" ++ y
not_cut c [] x y h e =
    h (sym (head-eq_of_cons-eq (sym (bars x) ∙ e ∙ cons-append c "" ("__" ++ y))))
not_cut c (d ∷ t) x y h e =
    let e' =
      sym (bars x)
      ∙ e
      ∙ cons-append c (d ∷ t) ("__" ++ y)
      ∙ ap (λ r. c ∷ r) (cons-append d t ("__" ++ y)) in
    elim h.0 [
      | inl ne ↦ ne (sym (head-eq_of_cons-eq e'))
      | inr ne ↦ ne (sym (head-eq_of_cons-eq (tail-eq_of_cons-eq e')))
    ]

-- The first "__" after a spaced text marks its end.
pub cut_unique :
    (s t : String) {x y : String}
    → IsSpaced s
    → IsSpaced t
    → s ++ "__" ++ x ≡ t ++ "__" ++ y
    → (s ≡ t) × (x ≡ y)
cut_unique [] [] {x} {y} h k e =
    (refl, append_cancel_left "__" x y (sym (nil-append _) ∙ e ∙ nil-append _))
cut_unique [] (d ∷ t) {x} {y} h k e = absurd (not_cut d t x y k (sym (nil-append _) ∙ e))
cut_unique (c ∷ s) [] {x} {y} h k e = absurd (not_cut c s y x h (sym (nil-append _) ∙ sym e))
cut_unique (c ∷ s) (d ∷ t) h k e =
    let e' = sym (cons-append c s _) ∙ e ∙ cons-append d t _ in
    let (same, rest) =
      cut_unique s t (IsSpaced-tail c s h) (IsSpaced-tail d t k) (tail-eq_of_cons-eq e') in
    (ap₂ (λ a r. a ∷ r) (head-eq_of_cons-eq e') same, rest)

safe_key-append : (s t : String) → safe_key (s ++ t) ≡ safe_key s ++ safe_key t
unfolding safe_key
safe_key-append [] t = simp nil-append
safe_key-append (c ∷ s) t = elim (Bool-cases (nat_beq (code c) b'/')) [
  | inl slash ↦ simp (cons-append, slash, safe_key-append s t, append_assoc)
  | inr other ↦ simp (cons-append, other, safe_key-append s t)
]

safe_key_of_Lacks : (s : String) → Lacks b'/' s → safe_key s ≡ s
unfolding safe_key
safe_key_of_Lacks [] h = refl
safe_key_of_Lacks (c ∷ s) (h, hs) = rw (h, safe_key_of_Lacks s hs)

safe_key-slash : (s : String) → safe_key ("/" ++ s) ≡ "__" ++ safe_key s
unfolding safe_key
safe_key-slash s = rw (safe_key-append "/" s)

-- The id of a document under two names.
pub make_id-pair_key :
    (doc_type a b : String)
    → Lacks b'/' a
    → Lacks b'/' b
    → make_id doc_type (pair_key a b) ≡ doc_type ++ "__" ++ a ++ "__" ++ b
unfolding make_id
make_id-pair_key doc_type a b h k =
    simp
      (safe_key-append a ("/" ++ b), safe_key-slash b, safe_key_of_Lacks a h, safe_key_of_Lacks b k)

-- Documents with one id are of one type, when their types are spaced.
pub make_id-type : (s t x y : String) → IsSpaced s → IsSpaced t → make_id s x ≡ make_id t y → s ≡ t
unfolding make_id
make_id-type s t x y h k e = (cut_unique s t h k e).0

-- The database name and the name in it can be read off the id of a collection (an alias, a load
-- state), of names without "/", when the database name is spaced: it has no "__" and does not end
-- in "_".
pub make_id-injective :
    (doc_type : String) {db name db' name' : String}
    → Lacks b'/' db × Lacks b'/' name × Lacks b'/' db' × Lacks b'/' name'
    → IsSpaced db
    → IsSpaced db'
    → make_id doc_type (pair_key db name) ≡ make_id doc_type (pair_key db' name')
    → (db ≡ db') × (name ≡ name')
make_id-injective doc_type {db} {name} {db'} {name'} (h₁, h₂, h₃, h₄) k l e =
    cut_unique db db' k l (
      append_cancel_left "__" _ _ (
        append_cancel_left doc_type _ _ (
          sym (make_id-pair_key doc_type db name h₁ h₂)
          ∙ e
          ∙ make_id-pair_key doc_type db' name' h₃ h₄)))

Lacks-bars : (a b : String) → Lacks b'/' a → Lacks b'/' b → Lacks b'/' (a ++ "__" ++ b)
Lacks-bars a b h k =
    Lacks-append b'/' a ("__" ++ b) h (Lacks-append b'/' "__" b (refl, (refl, tt)) k)

regroup : (a b c : String) → (a ++ "__" ++ b) ++ "__" ++ c ≡ a ++ "__" ++ b ++ "__" ++ c
regroup a b c = append_assoc a ("__" ++ b) _ ∙ ap (append a) (append_assoc "__" b _)

-- Without that condition ids collide: name b__c in database a and name c in database a__b have
-- one id, whatever texts without "/" a, b and c are.
pub make_id_collision :
    (doc_type a b c : String)
    → Lacks b'/' a × Lacks b'/' b × Lacks b'/' c
    → make_id doc_type (pair_key a (b ++ "__" ++ c))
      ≡ make_id doc_type (pair_key (a ++ "__" ++ b) c)
make_id_collision doc_type a b c (h, k, l) =
    make_id-pair_key doc_type a (b ++ "__" ++ c) h (Lacks-bars b c k l)
    ∙ ap (λ r. doc_type ++ "__" ++ r) (sym (regroup a b c))
    ∙ sym (make_id-pair_key doc_type (a ++ "__" ++ b) c (Lacks-bars a b h k) l)
