-- ===== src/Services/Aliases/Altered.antt =====
-- What `alter` of xvector/services/alias.py leaves behind.
use xvector.Prelude.{
  ℕ, String, ◌≡◌, sym, ap, ◌∙◌, none, some, [], ◌∷◌, arith, Option-cases, inl, inr,
}
use xvector.Errors.{ok, err, not_found}
use xvector.Dict.{get, set}
use xvector.Json.{Doc, num, str, get_value}
use xvector.Meta.DocId.{doc_alias, doc_collection, make_id, pair_key}
use xvector.Meta.Store.{Zvec, Store, stamped, non_empty, find}
use xvector.Meta.Catalog.{text_of, get_alias, get_collection, require_collection, put_alias}
use xvector.Meta.Catalog.Open.{IsOpen, find-IsOpen, find-stored}
use xvector.Services.Aliases.{db_of, alias_of, collection_of, shown, alter_alias, describe_alias}

abbrev alias_id : Doc → String
alias_id body = make_id doc_alias (pair_key (db_of body) (shown (alias_of body)))

abbrev collection_id : Doc → String
collection_id body = make_id doc_collection (pair_key (db_of body) (shown (collection_of body)))

module _ {C : Type 0} (z : Zvec C) where
  alter_alias-absent :
      (now : ℕ) (body : Doc) (s : Store C)
      → find z (alias_id body) s ≡ (ok none, s)
      → alter_alias z now body s ≡ (err not_found, s)
  unfolding alter_alias get_alias
  alter_alias-absent now body s f = ground (arith, f)

  alter_alias-alone :
      (now : ℕ) (body : Doc) (a : Doc) (s : Store C)
      → find z (alias_id body) s ≡ (ok (some a), s)
      → find z (collection_id body) s ≡ (ok none, s)
      → alter_alias z now body s ≡ (err not_found, s)
  unfolding alter_alias get_alias require_collection get_collection
  alter_alias-alone now body a s f g = ground (arith, f, g)

  alter_alias-there :
      (now : ℕ) (body a c : Doc) (s : Store C)
      → find z (alias_id body) s ≡ (ok (some a), s)
      → find z (collection_id body) s ≡ (ok (some c), s)
      → alter_alias z now body s
        ≡ put_alias z now (db_of body) (shown (alias_of body)) (shown (collection_of body)) s
  unfolding alter_alias get_alias require_collection get_collection
  alter_alias-there now body a c s f g = ground (arith, f, g)

  describe_alias-there :
      (body d : Doc) (s : Store C)
      → find z (alias_id body) s ≡ (ok (some d), s)
      → describe_alias z body s
        ≡ (ok (shown (alias_of body), text_of (get_value d "collection_name"), db_of body), s)
  unfolding describe_alias get_alias
  describe_alias-there body d s f = ground (arith, f)

  described :
      (now : ℕ) (body : Doc) (t : Store C)
      → find z (alias_id body) t ≡ (
        ok (
            some (
              stamped now (alias_id body) doc_alias (
                ("db_name", str (db_of body))
                ∷ ("alias", str (shown (alias_of body)))
                ∷ ("collection_name", str (shown (collection_of body)))
                ∷ ("updated_at", num now)
                ∷ []))),
        t,
      )
      → describe_alias z body t
        ≡ (ok (shown (alias_of body), shown (collection_of body), db_of body), t)
  unfolding stamped get_value get set
  described now body t k = describe_alias-there body _ t k

  -- On a Writer's open store, `alter` succeeds only for an alias that is there and a collection
  -- that is there. The alias is then described with that collection.
  pub alter_alias-describe_alias :
      (now : ℕ) (body : Doc) (s : Store C) {t : Store C}
      → IsOpen s
      → alter_alias z now body s ≡ (ok tt, t)
      → ((a : Doc) × (get_alias z (db_of body) (shown (alias_of body)) s ≡ (ok (some a), s)))
        × ((c : Doc) × (get_collection z (db_of body) (shown (collection_of body)) s
              ≡ (ok (some c), s)))
        × (describe_alias z body t
            ≡ (ok (shown (alias_of body), shown (collection_of body), db_of body), t))
  unfolding get_alias get_collection put_alias
  alter_alias-describe_alias now body s {t} o h =
      elim (Option-cases (non_empty (get s.docs (alias_id body)))) [
        | inl absent ↦
            let f = find-IsOpen z (alias_id body) s o ∙ ap (λ x. (ok x, s)) absent in
            let r = alter_alias-absent now body s f in cc
        | inr (a, there) ↦
            let f = find-IsOpen z (alias_id body) s o ∙ ap (λ x. (ok x, s)) there in
            elim (Option-cases (non_empty (get s.docs (collection_id body)))) [
              | inl missing ↦
                  let g = find-IsOpen z (collection_id body) s o ∙ ap (λ x. (ok x, s)) missing in
                  let r = alter_alias-alone now body a s f g in cc
              | inr (c, present) ↦
                  let g = find-IsOpen z (collection_id body) s o ∙ ap (λ x. (ok x, s)) present in
                  let u = sym (alter_alias-there now body a c s f g) ∙ h in
                  let k =
                    find-stored z now (alias_id body) doc_alias
                      (("db_name", str (db_of body))
                        ∷ ("alias", str (shown (alias_of body)))
                        ∷ ("collection_name", str (shown (collection_of body)))
                        ∷ ("updated_at", num now)
                        ∷ [])
                      s u o in
                  ((a, f), (c, g), described now body t k)
            ]
      ]
