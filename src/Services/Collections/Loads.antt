-- ===== src/Services/Collections/Loads.antt =====
-- A load state that is stored is the one that the service reports.
use xvector.Prelude.{
  ℕ, String, ◌≡◌, refl, sym, ap, ◌∙◌, ◌≢◌, inl, inr, Bool, false, Option, none, some, List, [], ◌∷◌,
  ◌==◌, eq_iff, arith, Option-cases, if◌then◌else◌,
}
use xvector.Prelude.Integers.{ℤ}
use xvector.Errors.{ok}
use xvector.Dict.{get, set}
use xvector.Json.{Doc, bool, num, number, str, arr, get_value, truthy, text_items}
use xvector.Meta.DocId.{doc_alias, doc_collection, doc_load, make_id, pair_key}
use xvector.Meta.DocId.Unique.{IsSpaced, Lacks-IsSpaced, no_low_line, make_id-type}
use xvector.Meta.Store.{Zvec, Store, stamped, non_empty, find}
use xvector.Meta.Catalog.{resolve_collection_name, target_of}
use xvector.Meta.Catalog.Indexes.{set_load_state, get_load_state}
use xvector.Meta.Catalog.Aliases.{resolve-collection, resolve-alias}
use xvector.Meta.Store.Sync.{upsert-docs}
use xvector.Meta.Catalog.Open.{IsOpen, find-IsOpen, find-stored, upsert-IsOpen}
use xvector.Services.Aliases.{db_of}
use xvector.Services.Collections.{name_of, loaded, not_loaded, load_state, service_load_state}

load_spaced : IsSpaced doc_load
load_spaced = (
  inl (no_low_line _ refl),
  (
    inl (no_low_line _ refl),
    (
      inl (no_low_line _ refl),
      (
        inl (no_low_line _ refl),
        (
          inr (no_low_line _ refl),
          (
            inl (no_low_line _ refl),
            (
              inl (no_low_line _ refl),
              (inl (no_low_line _ refl), (inl (no_low_line _ refl), no_low_line _ refl)),
            ),
          ),
        ),
      ),
    ),
  ),
)

collection_spaced : IsSpaced doc_collection
collection_spaced =
    Lacks-IsSpaced doc_collection
      (refl, (refl, (refl, (refl, (refl, (refl, (refl, (refl, (refl, (refl, tt))))))))))

alias_spaced : IsSpaced doc_alias
alias_spaced = Lacks-IsSpaced doc_alias (refl, (refl, (refl, (refl, (refl, tt)))))

not_load :
    (doc_type : String) (x y : String)
    → IsSpaced doc_type
    → doc_load ≢ doc_type
    → (make_id doc_load x == make_id doc_type y) ≡ false
not_load doc_type x y spaced other =
    let apart : make_id doc_load x ≢ make_id doc_type y =
      λ e. other (make_id-type doc_load doc_type x y load_spaced spaced e) in
    ground (arith, eq_iff (make_id doc_load x) (make_id doc_type y))

differ : (s t : String) → (s == t) ≡ false → s ≢ t
differ s t h e = cc (h, (eq_iff s t).1 e)

load_not_collection : doc_load ≢ doc_collection
load_not_collection = differ doc_load doc_collection refl

load_not_alias : doc_load ≢ doc_alias
load_not_alias = differ doc_load doc_alias refl

module _ {C : Type 0} (z : Zvec C) where
  abbrev coll_id : String → String → String
  coll_id db name = make_id doc_collection (pair_key db name)

  abbrev alias_id : String → String → String
  alias_id db name = make_id doc_alias (pair_key db name)

  -- what the name of a request stands for
  abbrev resolved_in : Store C → String → String → Option Doc → String
  resolved_in s db name none = target_of name (non_empty (get s.docs (alias_id db name)))
  resolved_in s db name (some d) = name

  pub resolve-IsOpen :
      (db name : String) (s : Store C)
      → IsOpen s
      → resolve_collection_name z db name s
        ≡ (ok (resolved_in s db name (non_empty (get s.docs (coll_id db name)))), s)
  resolve-IsOpen db name s o = elim (Option-cases (non_empty (get s.docs (coll_id db name)))) [
    | inl absent ↦
        resolve-alias z db name s (find-IsOpen z (coll_id db name) s o ∙ ap (λ x. (ok x, s)) absent)
          (find-IsOpen z (alias_id db name) s o)
        ∙ ap (λ x. (ok (resolved_in s db name x), s)) (sym absent)
    | inr (d, there) ↦
        resolve-collection z db name d s
          (find-IsOpen z (coll_id db name) s o ∙ ap (λ x. (ok x, s)) there)
        ∙ ap (λ x. (ok (resolved_in s db name x), s)) (sym there)
  ]

  -- the collection that a request names
  abbrev pub named_in : Store C → Doc → String
  named_in s body =
      resolved_in s (db_of body) (name_of body)
        (non_empty (get s.docs (coll_id (db_of body) (name_of body))))

  reported_of :
      (body d : Doc) (name : String) (t : Store C)
      → resolve_collection_name z (db_of body) (name_of body) t ≡ (ok name, t)
      → find z (make_id doc_load (pair_key (db_of body) name)) t ≡ (ok (some d), t)
      → service_load_state z body t ≡ (ok (load_state d), t)
  unfolding service_load_state get_load_state
  reported_of body d name t resolved found = ground (arith, resolved, found)

  module _ (now : ℕ) (db name : String) (b : Bool) (scope : String) (parts : List String) (n : ℤ)
      (s : Store C) {t : Store C} (o : IsOpen s)
      (h : set_load_state z now db name b scope parts n s ≡ (ok tt, t)) where
    abbrev load_doc : Doc
    load_doc =
        ("db_name", str db)
        ∷ ("collection_name", str name)
        ∷ ("scope", str scope)
        ∷ ("partition_names", arr (text_items parts))
        ∷ ("loaded", bool b)
        ∷ ("replica_number", number n)
        ∷ ("updated_at", num now)
        ∷ []

    abbrev load_id : String
    load_id = make_id doc_load (pair_key db name)

    other_docs : (j : String) → (load_id == j) ≡ false → get t.docs j ≡ get s.docs j
    unfolding set_load_state
    other_docs j other = (upsert-docs z now load_id doc_load load_doc s h j).0 ∙ rw other refl

    pub set_load_state-IsOpen : IsOpen t
    unfolding set_load_state
    set_load_state-IsOpen = upsert-IsOpen z now load_id doc_load load_doc s h o

    pub resolved_in-set_load_state : (body : Doc) → named_in t body ≡ named_in s body
    resolved_in-set_load_state body =
        let c = coll_id (db_of body) (name_of body) in
        let a = alias_id (db_of body) (name_of body) in
        let coll_same =
          other_docs c (not_load doc_collection _ _ collection_spaced load_not_collection) in
        let alias_same = other_docs a (not_load doc_alias _ _ alias_spaced load_not_alias) in
        same_target (non_empty (get t.docs c)) alias_same
        ∙ ap (λ d. resolved_in s (db_of body) (name_of body) (non_empty d)) coll_same
      where
        same_target :
            (o : Option Doc)
            → get t.docs (alias_id (db_of body) (name_of body))
              ≡ get s.docs (alias_id (db_of body) (name_of body))
            → resolved_in t (db_of body) (name_of body) o
              ≡ resolved_in s (db_of body) (name_of body) o
        same_target none e = ap (λ d. target_of (name_of body) (non_empty d)) e
        same_target (some d) e = refl

    -- the state that is stored for the collection of a request is the one that is reported
    pub service_load_state-set_load_state :
        (body : Doc)
        → db_of body ≡ db
        → named_in s body ≡ name
        → service_load_state z body t ≡ (ok (if b then loaded else not_loaded), t)
    unfolding set_load_state
    service_load_state-set_load_state body same_db same_coll =
        let found = find-stored z now load_id doc_load load_doc s h o in
        let resolved =
          resolve-IsOpen (db_of body) (name_of body) t set_load_state-IsOpen
          ∙ ap (λ r. (ok r, t)) (resolved_in-set_load_state body ∙ same_coll) in
        reported_of body (stamped now load_id doc_load load_doc) name t resolved (rw same_db found)
        ∙ ap (λ l. (ok l, t)) shown_state
      where
        shown_state :
            load_state (stamped now load_id doc_load load_doc) ≡ (if b then loaded else not_loaded)
        shown_state = unfold stamped get set get_value truthy in refl
