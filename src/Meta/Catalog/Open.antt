-- ===== src/Meta/Catalog/Open.antt =====
-- What look-ups and writes of the catalog do on a Writer's open store.
use xvector.Prelude.{
  ℕ, String, ◌≡◌, refl, ◌∙◌, true, false, some, [], ◌∷◌, arith, ◌==◌, eq_refl, inl, inr, subst,
  if◌then◌else◌,
}
use xvector.Errors.{ok}
use xvector.Dict.{get, set}
use xvector.Json.{Json, Doc, str, num}
use xvector.Meta.Store.{Zvec, Store, stamped, set_default, non_empty, find, upsert}
use xvector.Meta.Store.Sync.{upsert-cases, upsert-docs, stored}

-- The store is a Writer's and open.
pub record IsOpen {C : Type 0} (s : Store C) : Type 0 where
  pub writer : s.read_only ≡ false
  pub open_now : s.opened ≡ true

non_empty-set :
    (d : Doc) (key : String) (v : Json) → non_empty (some (set d key v)) ≡ some (set d key v)
unfolding set
non_empty-set [] key v = refl
non_empty-set ((k, w) ∷ d) key v = ground arith

pub non_empty-stamped :
    (now : ℕ) (doc_id doc_type : String) (payload : Doc)
    → non_empty (some (stamped now doc_id doc_type payload))
      ≡ some (stamped now doc_id doc_type payload)
unfolding stamped
non_empty-stamped now doc_id doc_type payload =
    non_empty-set (set_default (set payload "doc_type" (str doc_type)) "updated_at" (num now)) "_id"
      (str doc_id)

module _ {C : Type 0} (z : Zvec C) where
  pub find-IsOpen :
      (j : String) (s : Store C) → IsOpen s → find z j s ≡ (ok (non_empty (get s.docs j)), s)
  unfolding find
  find-IsOpen j s h = let w = h.writer in let o = h.open_now in ground arith

  pub upsert-IsOpen :
      (now : ℕ) (doc_id doc_type : String) (payload : Doc) (s : Store C) {t : Store C}
      → upsert z now doc_id doc_type payload s ≡ (ok tt, t)
      → IsOpen s
      → IsOpen t
  upsert-IsOpen now doc_id doc_type payload s {t} h o =
      elim (upsert-cases z now doc_id doc_type payload s) [
        | inl (e, o, left, raised) ↦ cc
        | inr (c, c', opened, written, done) ↦
            let same : stored z s c' doc_id (stamped now doc_id doc_type payload) ≡ t = cc in
            subst IsOpen same (record { writer = o.writer; open_now = o.open_now })
      ]

  -- A document that `upsert` has stored is found.
  pub find-upsert :
      (now : ℕ) (doc_id doc_type : String) (payload : Doc) (s : Store C) {t : Store C}
      → upsert z now doc_id doc_type payload s ≡ (ok tt, t)
      → IsOpen s
      → (j : String)
      → find z j t ≡ (
        ok (
            if doc_id == j
            then some (stamped now doc_id doc_type payload)
            else non_empty (get s.docs j)),
        t,
      )
  find-upsert now doc_id doc_type payload s {t} h o j =
      let e = (upsert-docs z now doc_id doc_type payload s h j).0 in
      find-IsOpen j t (upsert-IsOpen now doc_id doc_type payload s h o)
      ∙ ground (arith, e, non_empty-stamped now doc_id doc_type payload)

  pub find-stored :
      (now : ℕ) (doc_id doc_type : String) (payload : Doc) (s : Store C) {t : Store C}
      → upsert z now doc_id doc_type payload s ≡ (ok tt, t)
      → IsOpen s
      → find z doc_id t ≡ (ok (some (stamped now doc_id doc_type payload)), t)
  find-stored now doc_id doc_type payload s {t} h o =
      find-upsert now doc_id doc_type payload s h o doc_id ∙ rw eq_refl
