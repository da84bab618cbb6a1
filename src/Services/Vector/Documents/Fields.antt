-- ===== src/Services/Vector/Documents/Fields.antt =====
-- The fields of a stored document, and what showing them does to a key of the entity.
use xvector.Prelude.{
  String, ◌≡◌, refl, sym, ap, ◌∙◌, inl, inr, Bool, true, false, Option, none, some, [], ◌∷◌, ◌==◌,
  eq_iff, arith, if◌then◌else◌, Bool-cases, subst, ◌⊎◌,
}
use xvector.Prelude.Lists.{All, none_left, both}
use xvector.Errors.{ok, bind-ok, ok-eq}
use xvector.Dict.{get, set}
use xvector.Dict.Laws.{get-set}
use xvector.Json.{Json, obj, str, Fields, end, field, Doc}
use xvector.Meta.Catalog.{mem}
use xvector.Schema.{dynamic_field}
use xvector.Services.Vector.Entities.{restricted, update, with_parsed, parsed_value, with_fields}
use xvector.Services.Vector.Documents.{with_dynamic, with_pk, pk_column, Layout}
use xvector.Services.Vector.Documents.Stored.{HasKeysOnce, no_keys, new_key}

-- a dict as a JSON object
unfoldable pub as_fields : Doc → Fields
as_fields [] = end
as_fields ((k, v) ∷ d) = field k v (as_fields d)

pub get-restricted_left :
    (keep : String → Bool) (d : Doc) (k : String)
    → keep k ≡ false
    → get (restricted keep d) k ≡ none
unfolding get restricted
get-restricted_left keep [] k h = refl
get-restricted_left keep ((j, v) ∷ d) k h = elim (Bool-cases (keep j)) [
  | inl kept ↦ elim (Bool-cases (j == k)) [
    | inl same ↦ let e : j ≡ k = (eq_iff j k).0 same in let f = ap keep e in cc
    | inr other ↦ rw (kept, other, get-restricted_left keep d k h)
  ]
  | inr left ↦ rw (left, get-restricted_left keep d k h)
]

update-get : (e d : Doc) (k : String) → get d k ≡ none → get (update e (as_fields d)) k ≡ get e k
unfolding get update as_fields
update-get e [] k h = refl
update-get e ((j, v) ∷ d) k h = elim (Bool-cases (j == k)) [
  | inl same ↦ let f = rw same at h in cc
  | inr other ↦ update-get (set e j v) d k (rw other at h) ∙ get-set e j k v ∙ rw other
]

module _ {P : String × Json → Type 0} where
  All-set : (d : Doc) (k : String) (v : Json) → P (k, v) → All P d → All P (set d k v)
  unfolding set
  All-set [] k v p h = both p none_left
  All-set ((j, w) ∷ d) k v p (both q h) =
      let rest = All-set d k v p h in
      elim (j == k) as (λ b. All P (if b then (k, v) ∷ d else (j, w) ∷ set d k v)) [
        | true ↦ both p h
        | false ↦ both q rest
      ]

  pub All-restricted :
      (keep : String → Bool) (d : Doc)
      → ((j : String) (w : Json) → keep j ≡ true → P (j, w))
      → All P (restricted keep d)
  unfolding restricted
  All-restricted keep [] f = none_left
  All-restricted keep ((j, w) ∷ d) f =
      let rest = All-restricted keep d f in
      let p = f j w in
      elim (keep j)
          as (λ b.
            (b ≡ true → P (j, w))
            → All P (if b then (j, w) ∷ restricted keep d else restricted keep d)) [
              | true ↦ λ g. both (g refl) rest
              | false ↦ λ g. rest
            ]
        p

get-set_other :
    (d : Doc) (j k : String) (v : Json)
    → (j == k) ≡ false
    → get d k ≡ none
    → get (set d j v) k ≡ none
get-set_other d j k v h n = get-set d j k v ∙ rw (h, n)

pub different : (j k : String) → (j == k) ≡ false → (k == j) ≡ false
different j k h = ground (arith, h, eq_iff j k, eq_iff k j)

set-HasKeysOnce : (d : Doc) (k : String) (v : Json) → HasKeysOnce d → HasKeysOnce (set d k v)
unfolding set get
set-HasKeysOnce [] k v h = new_key refl no_keys
set-HasKeysOnce ((j, w) ∷ d) k v (new_key n h) = elim (Bool-cases (j == k)) [
  | inl same ↦
      subst HasKeysOnce (rw same)
        (new_key {v = v} (subst (λ i. get d i ≡ none) ((eq_iff j k).0 same) n) h)
  | inr other ↦
      subst HasKeysOnce (rw other)
        (new_key {v = w} (get-set_other d k j v (different j k other) n) (set-HasKeysOnce d k v h))
]

one_value :
    (b : Bool) (w : Json) {v : Json} (o q : Option Json)
    → b ≡ true
    → (if b then some w else o) ≡ some v
    → (if b then some w else q) ≡ some v
one_value true w o q e h = h
one_value false w o q e h = cc

module _ (loads : String → Option Json) where
  -- if k == DYNAMIC_FIELD
  abbrev step : Doc → String → Json → Doc
  step e j w = if j == dynamic_field then with_parsed e w (parsed_value loads w) else set e j w

  -- what a field of the document does to the key k of the entity
  abbrev Spares : String → String × Json → Type 0
  Spares k f = (e : Doc) → get (step e (f.0) (f.1)) k ≡ (if f.0 == k then some (f.1) else get e k)

  with_fields-other :
      (fs e : Doc) (k : String)
      → All (Spares k) fs
      → get fs k ≡ none
      → get (with_fields loads e fs) k ≡ get e k
  unfolding with_fields get
  with_fields-other [] e k a h = refl
  with_fields-other ((j, w) ∷ fs) e k (both s a) h = elim (Bool-cases (j == k)) [
    | inl same ↦ let f = rw same at h in cc
    | inr other ↦ with_fields-other fs (step e j w) k a (rw other at h) ∙ s e ∙ rw other
  ]

  pub with_fields-get :
      (fs e : Doc) (k : String) (v : Json)
      → All (Spares k) fs
      → HasKeysOnce fs
      → get fs k ≡ some v
      → get (with_fields loads e fs) k ≡ some v
  unfolding with_fields get
  with_fields-get [] e k v a o h = cc
  with_fields-get ((j, w) ∷ fs) e k v (both s a) (new_key n o) h = elim (Bool-cases (j == k)) [
    | inl same ↦
        with_fields-other fs (step e j w) k a (subst (λ i. get fs i ≡ none) ((eq_iff j k).0 same) n)
        ∙ s e
        ∙ one_value (j == k) w (get fs k) (get e k) same h
    | inr other ↦ with_fields-get fs (step e j w) k v a o (rw other at h)
  ]

  pub Spares-plain : (k j : String) (w : Json) → (j == dynamic_field) ≡ false → Spares k (j, w)
  Spares-plain k j w h e =
      ap (λ b. get (if b then with_parsed e w (parsed_value loads w) else set e j w) k) h
      ∙ get-set e j k w

  Spares-dynamic :
      (k s : String) (d : Doc)
      → loads s ≡ some (obj (as_fields d))
      → (dynamic_field == k) ≡ false
      → get d k ≡ none
      → Spares k (dynamic_field, str s)
  Spares-dynamic k s d l n g e =
      ap (λ o. get (with_parsed e (str s) o) k) l ∙ update-get e d k g ∙ rw n

  pub with_dynamic-Spares :
      (dumps : Doc → String) (k : String) (d fs : Doc)
      → loads (dumps d) ≡ some (obj (as_fields d))
      → (dynamic_field == k) ≡ false
      → get d k ≡ none
      → All (Spares k) fs
      → All (Spares k) (with_dynamic dumps d fs)
  with_dynamic-Spares dumps k [] fs l n g a = a
  with_dynamic-Spares dumps k (f ∷ d) fs l n g a =
      All-set fs dynamic_field (str (dumps (f ∷ d)))
        (Spares-dynamic k (dumps (f ∷ d)) (f ∷ d) l n g) a

pub with_dynamic-HasKeysOnce :
    (dumps : Doc → String) (d fs : Doc) → HasKeysOnce fs → HasKeysOnce (with_dynamic dumps d fs)
with_dynamic-HasKeysOnce dumps [] fs h = h
with_dynamic-HasKeysOnce dumps (f ∷ d) fs h =
    set-HasKeysOnce fs dynamic_field (str (dumps (f ∷ d))) h

pub with_dynamic-get :
    (dumps : Doc → String) (k : String) (d fs : Doc)
    → (dynamic_field == k) ≡ false
    → get (with_dynamic dumps d fs) k ≡ get fs k
with_dynamic-get dumps k [] fs n = refl
with_dynamic-get dumps k (f ∷ d) fs n = get-set fs dynamic_field k (str (dumps (f ∷ d))) ∙ rw n

with_pk-cases :
    (repr : Json → String) (meta : Layout) (v : Json) (d : Doc) {fields : Doc}
    → with_pk repr meta v d ≡ ok fields
    → (d ≡ fields) ⊎ ((w : Json) × (set d meta.pk_field w ≡ fields))
with_pk-cases repr meta v d h = elim (Bool-cases (mem meta.pk_field meta.scalar_names)) [
  | inl scalar ↦
      let r = bind-ok (pk_column repr meta.pk_type v) _ (rw scalar at h) in inr (r.0, ok-eq r.2)
  | inr other ↦ inl (ok-eq (rw other at h))
]

module _ (repr : Json → String) (meta : Layout) (v : Json) (d : Doc) where
  pub with_pk-HasKeysOnce :
      {fields : Doc} → with_pk repr meta v d ≡ ok fields → HasKeysOnce d → HasKeysOnce fields
  with_pk-HasKeysOnce h o = elim (with_pk-cases repr meta v d h) [
    | inl e ↦ subst HasKeysOnce e o
    | inr (w, e) ↦ subst HasKeysOnce e (set-HasKeysOnce d meta.pk_field w o)
  ]

  pub with_pk-All :
      {P : String × Json → Type 0} {fields : Doc}
      → with_pk repr meta v d ≡ ok fields
      → ((w : Json) → P (meta.pk_field, w))
      → All P d
      → All P fields
  with_pk-All {P} h p a = elim (with_pk-cases repr meta v d h) [
    | inl e ↦ subst (All P) e a
    | inr (w, e) ↦ subst (All P) e (All-set d meta.pk_field w (p w) a)
  ]

  pub with_pk-get :
      (k : String) {fields : Doc}
      → with_pk repr meta v d ≡ ok fields
      → (meta.pk_field == k) ≡ false
      → get fields k ≡ get d k
  with_pk-get k h n = elim (with_pk-cases repr meta v d h) [
    | inl e ↦ ap (λ l. get l k) (sym e)
    | inr (w, e) ↦ ap (λ l. get l k) (sym e) ∙ get-set d meta.pk_field k w ∙ rw n
  ]
