-- ===== src/Meta/Store/Scan.antt =====
-- What the scan of the zvec collection rebuilds in the memory of xvector/meta/store.py.
use xvector.Prelude.{
  ℕ, String, ◌≡◌, refl, ap, ◌∙◌, false, Option, none, some, List, [], ◌∷◌, arith, ◌==◌, eq_iff,
  eq_refl, Bool-cases, inl, inr, subst, if◌then◌else◌,
}
use xvector.Text.{is_empty}
use xvector.Dict.{get, set, values}
use xvector.Dict.Laws.{get-set}
use xvector.Json.{str, num, or_null, Doc, get_value}
use xvector.Meta.Store.{Docs, stamped, set_default, add_payload, rebuilt}

-- no id stands twice
abbrev pub HasUniqueIds : Docs → Type 0
HasUniqueIds [] = Unit
HasUniqueIds ((id, d) ∷ docs) = (get docs id ≡ none) × HasUniqueIds docs

-- Each document names its id, which is not empty.
abbrev pub IsKeyed : Docs → Type 0
IsKeyed docs =
    (id : String) (d : Doc)
    → get docs id ≡ some d
    → (get_value d "_id" ≡ str id) × (is_empty id ≡ false)

abbrev pub or_first : Option Doc → Option Doc → Option Doc
or_first none o = o
or_first (some d) o = some d

IsKeyed-tail :
    (id : String) (d : Doc) (docs : Docs)
    → HasUniqueIds ((id, d) ∷ docs)
    → IsKeyed ((id, d) ∷ docs)
    → IsKeyed docs
unfolding get
IsKeyed-tail id d docs (fresh, u) k j e h = elim (Bool-cases (id == j)) [
  | inl same ↦ cc (h, fresh, (eq_iff id j).0 same)
  | inr other ↦ k j e (rw other h)
]

rebuilt-cons :
    (acc : Docs) (id : String) (d : Doc) (rest : List Doc)
    → get_value d "_id" ≡ str id
    → is_empty id ≡ false
    → rebuilt acc (d ∷ rest) ≡ rebuilt (set acc id d) rest
unfolding rebuilt
rebuilt-cons acc id d rest e h =
    ap (λ v. rebuilt (add_payload acc d v) rest) e
    ∙ ap (λ b. rebuilt (if b then acc else set acc id d) rest) h

first_wins :
    (id : String) (d : Doc) (docs acc : Docs) (j : String)
    → get docs id ≡ none
    → or_first (get docs j) (get (set acc id d) j) ≡ or_first (get ((id, d) ∷ docs) j) (get acc j)
unfolding get
first_wins id d docs acc j fresh = elim (Bool-cases (id == j)) [
  | inl same ↦
      let e : id ≡ j = (eq_iff id j).0 same in
      let gone : get docs j ≡ none = subst (λ k. get docs k ≡ none) e fresh in
      ground (arith, get-set acc id j d)
  | inr other ↦ ground (arith, get-set acc id j d)
]

pub get-rebuilt :
    (acc docs : Docs) (j : String)
    → HasUniqueIds docs
    → IsKeyed docs
    → get (rebuilt acc (values docs)) j ≡ or_first (get docs j) (get acc j)
unfolding values get
get-rebuilt acc [] j u k = unfold rebuilt in refl
get-rebuilt acc ((id, d) ∷ docs) j (fresh, u) k =
    let (named, full) = k id d (rw eq_refl) in
    rebuilt-get acc id d docs j named full
    ∙ get-rebuilt (set acc id d) docs j u (IsKeyed-tail id d docs (fresh, u) k)
    ∙ first_wins id d docs acc j fresh
  where
    rebuilt-get :
        (acc : Docs) (id : String) (d : Doc) (docs : Docs) (j : String)
        → get_value d "_id" ≡ str id
        → is_empty id ≡ false
        → get (rebuilt acc (d ∷ values docs)) j ≡ get (rebuilt (set acc id d) (values docs)) j
    rebuilt-get acc id d docs j named full =
        ap (λ r. get r j) (rebuilt-cons acc id d (values docs) named full)

pub stamped-id :
    (now : ℕ) (doc_id doc_type : String) (payload : Doc)
    → get_value (stamped now doc_id doc_type payload) "_id" ≡ str doc_id
unfolding stamped get_value
stamped-id now doc_id doc_type payload =
    let d = set_default (set payload "doc_type" (str doc_type)) "updated_at" (num now) in
    ap or_null (get-set d "_id" "_id" (str doc_id))

pub or_first_none : (o : Option Doc) (j : String) → or_first o (get [] j) ≡ o
unfolding get
or_first_none none j = refl
or_first_none (some d) j = refl

-- a look-up of documents after one was written
pub IsKeyed-written :
    (old new : Docs) (doc_id : String) (body : Doc)
    → ((j : String) → get new j ≡ (if doc_id == j then some body else get old j))
    → IsKeyed old
    → get_value body "_id" ≡ str doc_id
    → is_empty doc_id ≡ false
    → IsKeyed new
IsKeyed-written old new doc_id body w k named full id d e = elim (Bool-cases (doc_id == id)) [
  | inl same ↦
      let here : doc_id ≡ id = (eq_iff doc_id id).0 same in
      let it : body ≡ d = ground (arith, w id) in
      subst (λ b. (get_value b "_id" ≡ str id) × (is_empty id ≡ false)) it
        (subst (λ i. (get_value body "_id" ≡ str i) × (is_empty i ≡ false)) here (named, full))
  | inr other ↦ k id d (ground (arith, w id))
]
