-- ===== src/Meta/Catalog/Aliases.antt =====
-- How xvector/meta/catalog.py resolves the name of a collection or an alias.
use xvector.Prelude.{
  ℕ, String, ◌≡◌, refl, sym, ap, ◌∙◌, false, Option, none, some, [], ◌∷◌, arith, ◌==◌, eq_iff, ◌≢◌,
  Option-cases, inl, inr,
}
use xvector.Errors.{Result, ok}
use xvector.Dict.{get, set}
use xvector.Json.{Doc, str, num, get_value}
use xvector.Meta.DocId.{doc_collection, doc_alias, make_id, pair_key}
use xvector.Meta.DocId.Unique.{IsSpaced, Lacks-IsSpaced, make_id-type}
use xvector.Meta.Store.{Zvec, Store, stamped, non_empty, find}
use xvector.Meta.Catalog.{get_collection, resolve_collection_name, get_alias, put_alias, target_of}
use xvector.Meta.Catalog.Open.{IsOpen, find-IsOpen, find-upsert, find-stored}

abbrev alias_spaced : IsSpaced doc_alias
alias_spaced = Lacks-IsSpaced doc_alias (refl, (refl, (refl, (refl, (refl, tt)))))

abbrev collection_spaced : IsSpaced doc_collection
collection_spaced =
    Lacks-IsSpaced doc_collection
      (refl, (refl, (refl, (refl, (refl, (refl, (refl, (refl, (refl, (refl, tt))))))))))

-- what a name stands for beside an alias of that name: itself if it is a collection's
abbrev pub resolved : String → String → Result (Option Doc) → String
resolved alias collection_name (ok (some d)) = alias
resolved alias collection_name _ = collection_name

module _ {C : Type 0} (z : Zvec C) where
  pub resolve-collection :
      (db_name name : String) (d : Doc) (s : Store C)
      → find z (make_id doc_collection (pair_key db_name name)) s ≡ (ok (some d), s)
      → resolve_collection_name z db_name name s ≡ (ok name, s)
  unfolding resolve_collection_name get_collection
  resolve-collection db_name name d s f = ground arith

  pub resolve-alias :
      (db_name name : String) {o : Option Doc} (s : Store C)
      → find z (make_id doc_collection (pair_key db_name name)) s ≡ (ok none, s)
      → find z (make_id doc_alias (pair_key db_name name)) s ≡ (ok o, s)
      → resolve_collection_name z db_name name s ≡ (ok (target_of name o), s)
  unfolding resolve_collection_name get_collection get_alias
  resolve-alias db_name name s f g = ground arith

  -- An alias stands for its collection, unless a collection has the alias's name: on a Writer's
  -- open store, after `put_alias` the name resolves to itself where `get_collection` finds it, and
  -- to the alias's collection otherwise.
  pub resolve_collection_name-put_alias :
      (now : ℕ) (db_name alias collection_name : String) (s : Store C) {t : Store C}
      → IsOpen s
      → put_alias z now db_name alias collection_name s ≡ (ok tt, t)
      → resolve_collection_name z db_name alias t
        ≡ (ok (resolved alias collection_name (get_collection z db_name alias s).0), t)
  unfolding put_alias get_collection stamped get set get_value
  resolve_collection_name-put_alias now db_name alias collection_name s {t} o h =
      let id = make_id doc_alias (pair_key db_name alias) in
      let k = make_id doc_collection (pair_key db_name alias) in
      let body : Doc =
        ("db_name", str db_name)
        ∷ ("alias", str alias)
        ∷ ("collection_name", str collection_name)
        ∷ ("updated_at", num now)
        ∷ [] in
      let found = find-stored z now id doc_alias body s h o in
      let other : id ≢ k =
        λ e. cc (make_id-type doc_alias doc_collection _ _ alias_spaced collection_spaced e) in
      let b : (id == k) ≡ false = ground (arith, eq_iff id k) in
      let after = find-upsert z now id doc_alias body s h o k ∙ rw b in
      elim (Option-cases (non_empty (get s.docs k))) [
        | inl absent ↦
            let before = find-IsOpen z k s o ∙ ap (λ x. (ok x, s)) absent in
            resolve-alias db_name alias t (after ∙ ap (λ x. (ok x, t)) absent) found
            ∙ ap (λ r. (ok (resolved alias collection_name r.0), t)) (sym before)
        | inr (d, there) ↦
            let before = find-IsOpen z k s o ∙ ap (λ x. (ok x, s)) there in
            resolve-collection db_name alias d t (after ∙ ap (λ x. (ok x, t)) there)
            ∙ ap (λ r. (ok (resolved alias collection_name r.0), t)) (sym before)
      ]
