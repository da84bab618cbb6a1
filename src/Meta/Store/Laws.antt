-- ===== src/Meta/Store/Laws.antt =====
-- What zvec promises of a collection, and what the writes and deletions of xvector/meta/store.py do to
-- one.
use xvector.Prelude.{
  ℕ, ◌≤◌, ◌⊎◌, String, ◌≡◌, sym, ap, false, Option, none, some, true, ◌∙◌, ◌==◌, eq_iff,
  Option-cases, Bool-cases, inl, inr, subst, if◌then◌else◌,
}
use xvector.Errors.{Error, ok, err}
use xvector.Dict.{size, get, values}
use xvector.Json.{Doc}
use xvector.Meta.Store.{Zvec, Docs, or_same, outcome, write}
use xvector.Meta.Store.Scan.{HasUniqueIds}

-- What zvec promises of a collection: it maps ids to documents, a write or a deletion changes the
-- entry of its id alone, and the scan for n documents returns every entry where there are at most n.
-- Any call of it may raise.
pub record ZvecLaws {C : Type 0} (z : Zvec C) : Type 0 where
  pub entries : C → Docs
  pub unique : (c : C) → HasUniqueIds (entries c)
  pub upserted :
      (c c' : C) (id : String) (d : Doc)
      → z.upsert c id d ≡ some c'
      → (j : String) → get (entries c') j ≡ (if id == j then some d else get (entries c) j)
  pub inserted :
      (c c' : C) (id : String) (d : Doc)
      → z.insert c id d ≡ some c'
      → (j : String) → get (entries c') j ≡ (if id == j then some d else get (entries c) j)
  pub deleted :
      (c c' : C) (id : String)
      → z.delete c id ≡ some c'
      → (j : String) → get (entries c') j ≡ (if id == j then none else get (entries c) j)
  pub scans : (c : C) (n : ℕ) → size (entries c) ≤ n → z.scan c n ≡ some (values (entries c))

module _ {C : Type 0} {z : Zvec C} (laws : ZvecLaws z) where
  open laws use {entries, unique, upserted, inserted, deleted}

  delete-other :
      (c : C) (id j : String)
      → (id == j) ≡ false
      → get (entries (or_same c (z.delete c id))) j ≡ get (entries c) j
  delete-other c id j other = elim (Option-cases (z.delete c id)) [
    | inl missed ↦ rw missed
    | inr (c', done) ↦ rw done (deleted c c' id done j ∙ rw other)
  ]

  pub delete-fewer :
      (c : C) (id j : String) (d : Doc)
      → get (entries (or_same c (z.delete c id))) j ≡ some d
      → get (entries c) j ≡ some d
  delete-fewer c id j d h = elim (Bool-cases (id == j)) [
    | inr other ↦ sym (delete-other c id j other) ∙ h
    | inl same ↦ elim (Option-cases (z.delete c id)) [
      | inl missed ↦ rw missed at h
      | inr (c', done) ↦ let k = rw done at h in let e = deleted c c' id done j in cc
    ]
  ]

  -- the document that a deletion took away, if zvec did not refuse it
  pub delete-entries :
      (c : C) (id j : String)
      → ((id == j) ≡ true → z.delete c id ≡ none → get (entries c) id ≡ none)
      → get (entries (or_same c (z.delete c id))) j ≡ (if id == j then none else get (entries c) j)
  delete-entries c id j whole = elim (Bool-cases (id == j)) [
    | inr other ↦ rw other (delete-other c id j other)
    | inl same ↦ elim (Option-cases (z.delete c id)) [
      | inl missed ↦
          rw (same, missed)
            (subst (λ k. get (entries c) k ≡ none) ((eq_iff id j).0 same) (whole same missed))
      | inr (c', done) ↦ rw done (deleted c c' id done j)
    ]
  ]

  outcome-ok : (c c' : C) (o : Option C) → outcome z c o ≡ (ok tt, c') → o ≡ some c'
  outcome-ok c c' none h = cc
  outcome-ok c c' (some d) h = cc

  outcome-err : (c c' : C) (o : Option C) {e : Error} → outcome z c o ≡ (err e, c') → c ≡ c'
  outcome-err c c' none h = cc
  outcome-err c c' (some d) h = cc

  pub write-entries :
      (c c' : C) (id : String) (d : Doc) (j : String)
      → write z c id d ≡ (ok tt, c')
      → get (entries c') j ≡ (if id == j then some d else get (entries c) j)
  unfolding write
  write-entries c c' id d j h = elim (Bool-cases z.has_upsert) [
    | inl direct ↦ upserted c c' id d (outcome-ok c c' _ (rw direct at h)) j
    | inr indirect ↦
        let left = or_same c (z.delete c id) in
        let e = inserted left c' id d (outcome-ok left c' _ (rw indirect at h)) j in
        elim (Bool-cases (id == j)) [
          | inl same ↦ rw same (e ∙ rw same)
          | inr other ↦ rw other (e ∙ rw other (delete-other c id j other))
        ]
  ]

  -- what is left of a write that raised was there before
  pub raised-fewer :
      (c c' : C) (id : String) (body : Doc) {e : Error} (j : String) (d : Doc)
      → write z c id body ≡ (err e, c')
      → get (entries c') j ≡ some d
      → get (entries c) j ≡ some d
  unfolding write
  raised-fewer c c' id body j d h g = elim (Bool-cases z.has_upsert) [
    | inl direct ↦
        subst (λ k. get (entries k) j ≡ some d) (sym (outcome-err c c' _ (rw direct at h))) g
    | inr indirect ↦
        let left = or_same c (z.delete c id) in
        delete-fewer c id j d (
          subst (λ k. get (entries k) j ≡ some d) (sym (outcome-err left c' _ (rw indirect at h)))
            g)
  ]

  pub raised-same :
      (c c' : C) (id : String) (body : Doc) {e : Error} (j : String)
      → write z c id body ≡ (err e, c')
      → (z.has_upsert ≡ true) ⊎ ((id == j) ≡ false)
      → get (entries c') j ≡ get (entries c) j
  unfolding write
  raised-same c c' id body j h (inl direct) =
      ap (λ k. get (entries k) j) (sym (outcome-err c c' _ (rw direct at h)))
  raised-same c c' id body j h (inr other) = elim (Bool-cases z.has_upsert) [
    | inl direct ↦ ap (λ k. get (entries k) j) (sym (outcome-err c c' _ (rw direct at h)))
    | inr indirect ↦
        let left = or_same c (z.delete c id) in
        ap (λ k. get (entries k) j) (sym (outcome-err left c' _ (rw indirect at h)))
        ∙ delete-other c id j other
  ]
