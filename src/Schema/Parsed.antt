-- ===== src/Schema/Parsed.antt =====
-- What the catalog's schema of a request satisfies.
use xvector.Prelude.{
  ◌≡◌, refl, sym, ap, ◌∙◌, subst, ◌⊎◌, inl, inr, String, true, false, Option, some, List, [], ◌∷◌,
  ◌==◌, eq_iff, Bool-cases,
}
use xvector.Prelude.Lists.{All, none_left, both, All-Has, Has, here, there}
use xvector.Prelude.Integers.{ℤ}
use xvector.Errors.{Result, ok, err, bind, bind-ok, ok-eq}
use xvector.Json.{Json, null, bool, num, neg, str, arr, obj, Doc, truthy}
use xvector.Json.Reads.{int_of}
use xvector.Schema.{
  ScalarField, VectorField, Catalogued, normalize_dtype, fname, dtype_of, same_name, is_vector,
  primaries, is_primary, only, dim_of, dimension, key_field,
}
use xvector.Schema.Parse.{
  Column, vector, key_column, scalar, vector_column, typed_column, column, columns, vectors_of,
  scalars_of, fields_of, with_vectors, key_type, parse_milvus_schema,
}

-- a vector field has a vector's type and, unless it is sparse, a dimension
abbrev pub IsVectorField : VectorField → Type 0
IsVectorField v =
    (is_vector v.data_type ≡ true)
    × ((v.data_type ≡ "SparseFloatVector") ⊎ ((n : ℤ) × (v.dim ≡ some n)))

-- a field of another name than the key, and of no vector's type
abbrev pub IsOther : Json → ScalarField → Type 0
IsOther pk s = (same_name s.name pk ≡ false) × (is_vector s.data_type ≡ false)

-- What a schema in the catalog is: it has a named key of one of two types, the key is the first of
-- the scalar fields and none of the others, and there is a vector field.
pub record IsCatalogued (c : Catalogued) : Type 0 where
  pub named : truthy c.primary_field ≡ true
  pub typed : (c.primary_type ≡ "Int64") ⊎ (c.primary_type ≡ "VarChar")
  pub others : List ScalarField
  pub key_first : c.scalar_fields ≡ key_field c.primary_field c.primary_type ∷ others
  pub others_other : All (IsOther c.primary_field) others
  pub first_vector : VectorField
  pub more_vectors : List VectorField
  pub some_vector : c.vector_fields ≡ first_vector ∷ more_vectors
  pub dimensioned : All IsVectorField c.vector_fields

abbrev GoodColumn : Json → Column → Type 0
GoodColumn pk (vector v) = IsVectorField v
GoodColumn pk key_column = Unit
GoodColumn pk (scalar s) = IsOther pk s

wrapped_some :
    (r : Result ℤ) {d : Option ℤ} → (bind r λ n. ok (some n)) ≡ ok d → (n : ℤ) × (d ≡ some n)
wrapped_some (ok n) h = (n, ok-eq (sym h))
wrapped_some (err e) h = cc

dimension-some :
    (dtype : String) (v : Json) {d : Option ℤ}
    → dimension dtype v ≡ ok d
    → (dtype ≡ "SparseFloatVector") ⊎ ((n : ℤ) × (d ≡ some n))
unfolding dimension
dimension-some dtype null h = elim (Bool-cases (dtype == "SparseFloatVector")) [
  | inl sparse ↦ inl ((eq_iff dtype "SparseFloatVector").0 sparse)
  | inr other ↦ let e = rw other at h in cc
]
dimension-some dtype (bool b) h = inr (wrapped_some (int_of (bool b)) h)
dimension-some dtype (num m) h = inr (wrapped_some (int_of (num m)) h)
dimension-some dtype (neg m) h = inr (wrapped_some (int_of (neg m)) h)
dimension-some dtype (str s) h = inr (wrapped_some (int_of (str s)) h)
dimension-some dtype (arr vs) h = inr (wrapped_some (int_of (arr vs)) h)
dimension-some dtype (obj fs) h = inr (wrapped_some (int_of (obj fs)) h)

vector_column_good :
    (pk f : Json) (dtype : String) (c : Column)
    → is_vector dtype ≡ true
    → vector_column f dtype ≡ ok c
    → GoodColumn pk c
vector_column_good pk f dtype c is_v h =
    let (d, e, k) = bind-ok (dimension dtype (dim_of f)) _ h in
    subst (GoodColumn pk) (ok-eq k) (is_v, dimension-some dtype (dim_of f) e)

typed_column_good :
    (pk f : Json) (dtype : String) (c : Column)
    → typed_column pk f dtype ≡ ok c
    → (truthy (fname f) ≡ true) × GoodColumn pk c
typed_column_good pk f dtype c h = elim (Bool-cases (truthy (fname f))) [
  | inr blank ↦ let e = rw blank at h in cc
  | inl named ↦ (
    named,
    elim (Bool-cases (is_vector dtype)) [
      | inl is_v ↦ vector_column_good pk f dtype c is_v (rw (named, is_v) at h)
      | inr plain ↦ elim (Bool-cases (same_name (fname f) pk)) [
        | inl same ↦ subst (GoodColumn pk) (ok-eq (rw (named, plain, same) at h)) tt
        | inr other ↦ subst (GoodColumn pk) (ok-eq (rw (named, plain, other) at h)) (other, plain)
      ]
    ],
  )
]

column_good :
    (repr : Json → String) (pk f : Json) (c : Column)
    → column repr pk f ≡ ok c
    → (truthy (fname f) ≡ true) × GoodColumn pk c
unfolding column
column_good repr pk f c h =
    let (dtype, e, k) = bind-ok (normalize_dtype repr (dtype_of f)) _ h in
    typed_column_good pk f dtype c k

columns_good :
    (repr : Json → String) (pk : Json) (fields : List Json) (cs : List Column)
    → columns repr pk fields ≡ ok cs
    → All (λ f. truthy (fname f) ≡ true) fields × All (GoodColumn pk) cs
unfolding columns
columns_good repr pk [] cs h = (none_left, subst (All (GoodColumn pk)) (ok-eq h) none_left)
columns_good repr pk (f ∷ fields) cs h =
    let (c, e, k) = bind-ok (column repr pk f) _ h in
    let (rest, d, k) = bind-ok (columns repr pk fields) _ k in
    let (named, good) = column_good repr pk f c e in
    let (all_named, all_good) = columns_good repr pk fields rest d in
    (both named all_named, subst (All (GoodColumn pk)) (ok-eq k) (both good all_good))

vectors_of-All :
    (pk : Json) (cs : List Column) → All (GoodColumn pk) cs → All IsVectorField (vectors_of cs)
unfolding vectors_of
vectors_of-All pk [] h = none_left
vectors_of-All pk (vector v ∷ cs) (both g h) = both g (vectors_of-All pk cs h)
vectors_of-All pk (key_column ∷ cs) (both g h) = vectors_of-All pk cs h
vectors_of-All pk (scalar s ∷ cs) (both g h) = vectors_of-All pk cs h

scalars_of-All :
    (pk : Json) (cs : List Column) → All (GoodColumn pk) cs → All (IsOther pk) (scalars_of cs)
unfolding scalars_of
scalars_of-All pk [] h = none_left
scalars_of-All pk (vector v ∷ cs) (both g h) = scalars_of-All pk cs h
scalars_of-All pk (key_column ∷ cs) (both g h) = scalars_of-All pk cs h
scalars_of-All pk (scalar s ∷ cs) (both g h) = both g (scalars_of-All pk cs h)

deeper : {f g : Json} {l m : List Json} → (Has f l → Has f m) → Has f (g ∷ l) → Has f (g ∷ m)
deeper inner (here e) = here e
deeper inner (there h) = there (inner h)

primaries-Has : (fields : List Json) {f : Json} → Has f (primaries fields) → Has f fields
unfolding primaries
primaries-Has [] h = elim h [ ]
primaries-Has (g ∷ fields) h = elim (Bool-cases (is_primary g)) [
  | inl first ↦ deeper (λ k. primaries-Has fields k) (rw first at h)
  | inr later ↦ there (primaries-Has fields (rw later at h))
]

only-eq : (fs : List Json) (f : Json) → only fs ≡ ok f → fs ≡ f ∷ []
only-eq [] f h = cc
only-eq (g ∷ []) f h = ap (λ x. x ∷ []) (ok-eq h)
only-eq (g ∷ k ∷ fs) f h = cc

key_type-cases : (t : String) {u : String} → key_type t ≡ ok u → (u ≡ "Int64") ⊎ (u ≡ "VarChar")
key_type-cases t h = elim (Bool-cases (t == "Int64")) [
  | inl int ↦ inl (sym (ok-eq (rw int at h)) ∙ (eq_iff t "Int64").0 int)
  | inr other ↦ elim (Bool-cases (t == "VarChar")) [
    | inl text ↦ inr (sym (ok-eq (rw (other, text) at h)) ∙ (eq_iff t "VarChar").0 text)
    | inr none_of ↦ let e = rw (other, none_of) at h in cc
  ]
]

with_vectors-eq :
    (c : Catalogued) (vs : List VectorField) {d : Catalogued}
    → with_vectors c vs ≡ ok d
    → (v : VectorField) × (rest : List VectorField) × (vs ≡ v ∷ rest) × (c ≡ d)
with_vectors-eq c [] h = cc
with_vectors-eq c (v ∷ vs) h = (v, vs, refl, ok-eq h)

-- Whatever schema a request is parsed into has a named key of type Int64 or VarChar that comes
-- first among its scalar fields and is none of the others, and at least one vector field; its
-- vector fields have a vector's type and, unless they are sparse, a dimension.
pub parse_milvus_schema-IsCatalogued :
    (repr : Json → String) (body : Doc) (c : Catalogued)
    → parse_milvus_schema repr body ≡ ok c
    → IsCatalogued c
unfolding parse_milvus_schema
parse_milvus_schema-IsCatalogued repr body c h =
    let fields = fields_of body in
    let (pk, is_only, h) = bind-ok (only (primaries fields)) _ h in
    let (dtype, e, h) = bind-ok (normalize_dtype repr (dtype_of pk)) _ h in
    let (pk_type, is_key, h) = bind-ok (key_type dtype) _ h in
    let (cs, parsed, h) = bind-ok (columns repr (fname pk) fields) _ h in
    let (v, vs, some_vector, made) = with_vectors-eq _ (vectors_of cs) h in
    let (named, good) = columns_good repr (fname pk) fields cs parsed in
    let there_is : Has pk fields =
      primaries-Has fields
        (subst (Has pk) (sym (only-eq (primaries fields) pk is_only)) (here refl)) in
    subst IsCatalogued made (record {
      named = All-Has fields named there_is;
      typed = key_type-cases dtype is_key;
      others = scalars_of cs;
      key_first = refl;
      others_other = scalars_of-All (fname pk) cs good;
      first_vector = v;
      more_vectors = vs;
      some_vector = some_vector;
      dimensioned = vectors_of-All (fname pk) cs good;
    })
