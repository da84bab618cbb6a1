-- ===== src/Engine/Handles/Keys.antt =====
-- The keys of `CollectionManager` (xvector/engine/collection_mgr.py) as texts, and its sets of keys.
use Prim.Native.String.{◌++◌, ◌∷◌}
use Prim.Native.Char.{char}
use text.Mathlib.TextLemmas.{append_assoc, nil-append, cons-append}
use xvector.Prelude.{
  Char, String, Bool, true, false, ◌&&◌, ◌||◌, Option, none, some, List, [], ◌∷◌, ◌==◌,
  if◌then◌else◌, ◌≡◌, refl, sym, ap, ◌∙◌, arith, eq_iff, Bool-cases, Option-cases, ◌⊎◌, inl, inr,
  subst,
}
use xvector.Text.{Lacks, split_once, after}
use xvector.Text.Cut.{after-append, split_once-append, split_once-eq-some}
use xvector.Dict.{get}
use xvector.Meta.Catalog.{mem}
use xvector.Engine.Handles.{
  key, key_prefix, found, starts_with, add, add_all, keys, with_prefix, split_key, split_rest,
  split_first,
}

abbrev slash : Char
slash = char 47 tt

slash-append : (s : String) → "/" ++ s ≡ slash ∷ s
slash-append s = cons-append slash "" s ∙ ap (λ r. slash ∷ r) (nil-append s)

cut_slash : (u p : String) → Lacks b'/' u → split_once b'/' (u ++ "/" ++ p) ≡ some (u, p)
cut_slash u p h =
    ap (λ r. split_once b'/' (u ++ r)) (slash-append p) ∙ split_once-append b'/' u slash p h refl

-- The names of a key are read off it, where the database and the collection have no "/" in theirs.
split_key-key :
    (db coll part : String)
    → Lacks b'/' db
    → Lacks b'/' coll
    → split_key (key db coll part) ≡ some (db, coll, part)
unfolding split_key
split_key-key db coll part h k =
    ap split_first (cut_slash db (coll ++ "/" ++ part) h)
    ∙ ap (split_rest db) (cut_slash coll part k)

pub key-injective :
    {db coll part db' coll' part' : String}
    → Lacks b'/' db × Lacks b'/' coll × Lacks b'/' db' × Lacks b'/' coll'
    → key db coll part ≡ key db' coll' part'
    → (db ≡ db') × (coll ≡ coll') × (part ≡ part')
key-injective {db} {coll} {part} {db'} {coll'} {part'} (h₁, h₂, h₃, h₄) e =
    let same : Path (Option (String × String × String)) (some (db, coll, part))
        (some (db', coll', part')) =
      sym (split_key-key db coll part h₁ h₂)
      ∙ ap split_key e
      ∙ split_key-key db' coll' part' h₃ h₄ in
    (cc, cc, cc)

pub split_key-parts :
    (k : String) (o : Option (String × String)) {db coll part : String}
    → split_once b'/' k ≡ o
    → split_first o ≡ some (db, coll, part)
    → Lacks b'/' db × Lacks b'/' coll
split_key-parts k none first e = cc
split_key-parts k (some (a, rest)) {db} {coll} {part} first e =
    elim (Option-cases (split_once b'/' rest)) [
      | inl missing ↦ let no_key = sym (ap (split_rest a) missing) ∙ e in cc
      | inr ((b, c), second) ↦
          let same : Path (Option (String × String × String)) (some (a, b, c))
              (some (db, coll, part)) =
            sym (ap (split_rest a) second) ∙ e in
          let e₀ : a ≡ db = cc in
          let e₁ : b ≡ coll = cc in
          (
            subst (Lacks b'/') e₀ (split_once-eq-some b'/' k first).1,
            subst (Lacks b'/') e₁ (split_once-eq-some b'/' rest second).1,
          )
    ]

pub key_prefix-key :
    (db coll part : String) → starts_with (key_prefix db coll) (key db coll part) ≡ true
key_prefix-key db coll part =
    let whole : key db coll part ≡ key_prefix db coll ++ part = sym (
      append_assoc db ("/" ++ coll ++ "/" ++ "") part
      ∙ ap (λ r. db ++ r) (append_assoc "/" (coll ++ "/" ++ "") part)
      ∙ ap (λ r. db ++ "/" ++ r) (append_assoc coll ("/" ++ "") part)) in
    ap found (ap (after (key_prefix db coll)) whole ∙ after-append (key_prefix db coll) part)

pub mem-add : (j k : String) (l : List String) → mem j (add k l) ≡ (j == k || mem j l)
unfolding mem
mem-add j k l = elim (Bool-cases (j == k)) [
  | inl same ↦ ground (arith, ap (λ i. mem i l) ((eq_iff j k).0 same))
  | inr other ↦ ground arith
]

pub mem-add_all : (j : String) (ks l : List String) → mem j (add_all ks l) ≡ (mem j ks || mem j l)
unfolding mem add_all
mem-add_all j [] l = refl
mem-add_all j (k ∷ ks) l = ground (arith, mem-add_all j ks (add k l), mem-add j k l)

mem-if :
    (j k : String) (l : List String) (b : Bool)
    → mem j (if b then k ∷ l else l) ≡ (b && j == k || mem j l)
unfolding mem
mem-if j k l true = refl
mem-if j k l false = refl

at_key : (p j k : String) → (starts_with p k && j == k) ≡ (starts_with p j && j == k)
at_key p j k = elim (Bool-cases (j == k)) [
  | inl same ↦ ap (λ i. starts_with p i && j == k) (sym ((eq_iff j k).0 same))
  | inr other ↦ ground arith
]

pub mem-with_prefix :
    (p j : String) (ks : List String) → mem j (with_prefix p ks) ≡ (starts_with p j && mem j ks)
unfolding mem with_prefix
mem-with_prefix p j [] = ground arith
mem-with_prefix p j (k ∷ ks) =
    mem-if j k (with_prefix p ks) (starts_with p k)
    ∙ ap (λ b. starts_with p k && j == k || b) (mem-with_prefix p j ks)
    ∙ ap (λ b. b || starts_with p j && mem j ks) (at_key p j k)
    ∙ ground arith

pub get-keys :
    {H : Type 0} (j : String) (handles : List (String × H))
    → (mem j (keys handles) ≡ true) ⊎ (get handles j ≡ none)
unfolding mem keys get
get-keys j [] = inr refl
get-keys j ((k, v) ∷ handles) = ground (arith, eq_iff j k, eq_iff k j, get-keys j handles)
