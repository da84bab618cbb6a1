-- ===== src/Services/Vector/Entities/Fetched.antt =====
-- Which ids `get` answers.
use xvector.Prelude.{
  refl, eq_iff, arith, if◌then◌else◌, String, ◌≡◌, sym, ap, ◌∙◌, inl, inr, true, false, Option,
  none, some, List, [], ◌∷◌, ◌++◌, ◌==◌, Bool-cases, subst,
}
use xvector.Prelude.Lists.{All, none_left, both, Pairs, no_pairs, ahead}
use xvector.Errors.{Result, ok, err, bind, bind-ok, ok-eq}
use xvector.Dict.{get}
use xvector.Json.{Json, Doc}
use xvector.Meta.Catalog.{mem}
use xvector.Services.Vector.Entities.{
  Found, Item, as_dict, read_item, FetchAnswer, nothing, alone, listed, keyed, fetch_to_entity,
  Fetch, is_seen, fetched, answer_for, append_answer, fetch_ids, fetch_parts, get_entities,
}
use xvector.Services.Vector.Entities.Firsts.{
  first_of, get-append, first_of-none, first_of_assoc, first_of-either, no_answer, first_of-both,
  seen_first, unseen_none, entity_or_none, answer_or_none,
}

-- answers for different ids
abbrev pub Apart : String × Doc → String × Doc → Type 0
Apart a b = (a.0 == b.0) ≡ false

Apart-new :
    (out : List (String × Doc)) (i : String) (e : Doc)
    → is_seen (get out i) ≡ false
    → All (λ a. Apart a (i, e)) out
unfolding get
Apart-new [] i e h = none_left
Apart-new ((j, d) ∷ out) i e h = elim (Bool-cases (j == i)) [
  | inl same ↦ let k = rw same at h in cc
  | inr other ↦ both other (Apart-new out i e (rw other at h))
]

All-append_one :
    {P : String × Doc → Type 0} (l : List (String × Doc)) (x : String × Doc)
    → All P l
    → P x
    → All P (l ++ x ∷ [])
All-append_one [] x h p = both p none_left
All-append_one (y ∷ l) x (both q h) p = both q (All-append_one l x h p)

Pairs-append_one :
    (l : List (String × Doc)) (x : String × Doc)
    → Pairs Apart l
    → All (λ a. Apart a x) l
    → Pairs Apart (l ++ x ∷ [])
Pairs-append_one [] x h a = ahead none_left no_pairs
Pairs-append_one (y ∷ l) x (ahead b h) (both p a) =
    ahead (All-append_one l x b p) (Pairs-append_one l x h a)

append_answer-Apart :
    (out : List (String × Doc)) (i : String) (e : Doc)
    → is_seen (get out i) ≡ false
    → Pairs Apart out
    → Pairs Apart (out ++ (i, e) ∷ [])
append_answer-Apart out i e h p = Pairs-append_one out (i, e) p (Apart-new out i e h)

module _ (repr : Json → String) (entity_of : Found → Result Doc) where
  answer_for-Apart :
      (fetch : Fetch repr entity_of) (out : List (String × Doc)) (i : String) (e : Option Doc)
      → answer_for repr entity_of fetch out i ≡ ok e
      → Pairs Apart out
      → Pairs Apart (append_answer repr entity_of out i e)
  answer_for-Apart fetch out i none h p = p
  answer_for-Apart fetch out i (some e) h p = elim (Bool-cases (is_seen (get out i))) [
    | inl seen ↦ let k = rw seen at h in cc
    | inr new ↦ append_answer-Apart out i e new p
  ]

  fetch_ids-Apart :
      (fetch : Fetch repr entity_of) (ids : List String) (out : List (String × Doc))
      {end : List (String × Doc)}
      → fetch_ids repr entity_of fetch ids out ≡ ok end
      → Pairs Apart out
      → Pairs Apart end
  unfolding fetch_ids
  fetch_ids-Apart fetch [] out h p = subst (Pairs Apart) (ok-eq h) p
  fetch_ids-Apart fetch (i ∷ ids) out h p =
      let r = bind-ok (answer_for repr entity_of fetch out i) _ h in
      fetch_ids-Apart fetch ids _ r.2 (answer_for-Apart fetch out i r.0 r.1 p)

  fetch_parts-Apart :
      (open_part : String → Result (Fetch repr entity_of)) (parts ids : List String)
      (out : List (String × Doc)) {end : List (String × Doc)}
      → fetch_parts repr entity_of open_part parts ids out ≡ ok end
      → Pairs Apart out
      → Pairs Apart end
  unfolding fetch_parts
  fetch_parts-Apart open_part [] ids out h p = subst (Pairs Apart) (ok-eq h) p
  fetch_parts-Apart open_part (q ∷ parts) ids out h p =
      let r = bind-ok (open_part q) _ h in
      let s = bind-ok (fetch_ids repr entity_of r.0 ids out) _ r.2 in
      fetch_parts-Apart open_part parts ids s.0 s.2 (fetch_ids-Apart r.0 ids out s.1 p)

  -- the document that an answer of zvec holds; an empty dict is taken for one
  abbrev pub document_in : FetchAnswer → Option Item
  document_in nothing = none
  document_in (alone item) = some item
  document_in (listed []) = none
  document_in (listed (item ∷ items)) = some item
  document_in (keyed none) = some (as_dict [])
  document_in (keyed (some item)) = some item

  abbrev pub shown_by : Option Item → Option Doc
  shown_by none = none
  shown_by (some item) = entity_or_none (entity_of (read_item repr item))

  abbrev pub shown_in : Option FetchAnswer → Option Doc
  shown_in none = none
  shown_in (some answer) = shown_by (document_in answer)

  -- what a partition answers for an id
  abbrev pub answer_in : Fetch repr entity_of → String → Option Doc
  answer_in fetch j = shown_in (fetch j)

  entity_for-shown : (r : Result Doc) → answer_or_none (bind r λ e. ok (some e)) ≡ entity_or_none r
  entity_for-shown (ok e) = refl
  entity_for-shown (err x) = refl

  fetched-shown : (o : Option FetchAnswer) → answer_or_none (fetched repr entity_of o) ≡ shown_in o
  unfolding fetch_to_entity
  fetched-shown none = refl
  fetched-shown (some nothing) = refl
  fetched-shown (some (alone item)) = entity_for-shown (entity_of (read_item repr item))
  fetched-shown (some (listed [])) = refl
  fetched-shown (some (listed (item ∷ items))) = entity_for-shown (entity_of (read_item repr item))
  fetched-shown (some (keyed none)) = entity_for-shown (entity_of (read_item repr (as_dict [])))
  fetched-shown (some (keyed (some item))) = entity_for-shown (entity_of (read_item repr item))

  abbrev pub answer_of : Result (Fetch repr entity_of) → String → Option Doc
  answer_of (ok fetch) j = answer_in fetch j
  answer_of (err e) j = none

  -- the answer of the first partition that has one
  unfoldable pub first_answer :
      (String → Result (Fetch repr entity_of)) → List String → String → Option Doc
  first_answer open_part [] j = none
  first_answer open_part (p ∷ parts) j =
      first_of (answer_of (open_part p) j) (first_answer open_part parts j)

  answered_new :
      (out : List (String × Doc)) (i j : String) (e : Option Doc)
      → get out i ≡ none
      → get (append_answer repr entity_of out i e) j
        ≡ first_of (get out j) (if i == j then e else none)
  answered_new out i j (some e) n = get-append out i j e
  answered_new out i j none n = elim (Bool-cases (i == j)) [
    | inl same ↦ rw same (sym (first_of-none (get out j)))
    | inr other ↦ rw other (sym (first_of-none (get out j)))
  ]

  answered_old :
      (out : List (String × Doc)) (i j : String) (p : Option Doc)
      → is_seen (get out i) ≡ true
      → get out j ≡ first_of (get out j) (if i == j then p else none)
  answered_old out i j p seen = elim (Bool-cases (i == j)) [
    | inl same ↦ sym (
        seen_first (get out j) _
          (subst (λ k. is_seen (get out k) ≡ true) ((eq_iff i j).0 same) seen))
    | inr other ↦ rw other (sym (first_of-none (get out j)))
  ]

  append_answer-get :
      (fetch : Fetch repr entity_of) (out : List (String × Doc)) (i j : String) (e : Option Doc)
      → answer_for repr entity_of fetch out i ≡ ok e
      → get (append_answer repr entity_of out i e) j
        ≡ first_of (get out j) (if i == j then answer_in fetch i else none)
  append_answer-get fetch out i j e h = elim (Bool-cases (is_seen (get out i))) [
    | inl seen ↦
        let gone : none ≡ e = ok-eq (rw seen at h) in
        subst
          (λ o.
            get (append_answer repr entity_of out i o) j
            ≡ first_of (get out j) (if i == j then answer_in fetch i else none))
          gone (answered_old out i j (answer_in fetch i) seen)
    | inr new ↦
        let k : fetched repr entity_of (fetch i) ≡ ok e = rw new at h in
        answered_new out i j e (unseen_none (get out i) new)
        ∙ ap (λ o. first_of (get out j) (if i == j then o else none))
            (sym (sym (fetched-shown (fetch i)) ∙ ap answer_or_none k))
  ]

  -- the same by the id that is looked up
  one_answer :
      (fetch : Fetch repr entity_of) (i j : String)
      → (if i == j then answer_in fetch i else none) ≡ (if j == i then answer_in fetch j else none)
  one_answer fetch i j = elim (Bool-cases (i == j)) [
    | inl same ↦
        let e : i ≡ j = (eq_iff i j).0 same in
        rw (same, (eq_iff j i).1 (sym e)) (ap (answer_in fetch) e)
    | inr other ↦
        let back : (j == i) ≡ false = ground (arith, other, eq_iff i j, eq_iff j i) in
        rw (other, back) refl
  ]

  fetch_ids-get :
      (fetch : Fetch repr entity_of) (ids : List String) (out : List (String × Doc)) (j : String)
      {end : List (String × Doc)}
      → fetch_ids repr entity_of fetch ids out ≡ ok end
      → get end j ≡ first_of (get out j) (if mem j ids then answer_in fetch j else none)
  unfolding fetch_ids mem
  fetch_ids-get fetch [] out j h =
      ap (λ l. get l j) (sym (ok-eq h)) ∙ sym (first_of-none (get out j))
  fetch_ids-get fetch (i ∷ ids) out j h =
      let r = bind-ok (answer_for repr entity_of fetch out i) _ h in
      let here = if j == i then answer_in fetch j else none in
      let later = if mem j ids then answer_in fetch j else none in
      fetch_ids-get fetch ids _ j r.2
      ∙ ap (λ o. first_of o later)
          (append_answer-get fetch out i j r.0 r.1
            ∙ ap (first_of (get out j)) (one_answer fetch i j))
      ∙ first_of_assoc (get out j) here later
      ∙ ap (first_of (get out j)) (first_of-either (j == i) (mem j ids) (answer_in fetch j))

  fetch_parts-get :
      (open_part : String → Result (Fetch repr entity_of)) (parts ids : List String)
      (out : List (String × Doc)) (j : String) {end : List (String × Doc)}
      → fetch_parts repr entity_of open_part parts ids out ≡ ok end
      → get end j
        ≡ first_of (get out j) (if mem j ids then first_answer open_part parts j else none)
  unfolding fetch_parts first_answer
  fetch_parts-get open_part [] ids out j h =
      ap (λ l. get l j) (sym (ok-eq h))
      ∙ sym (first_of-none (get out j))
      ∙ ap (first_of (get out j)) (no_answer (mem j ids))
  fetch_parts-get open_part (q ∷ parts) ids out j h =
      let r = bind-ok (open_part q) _ h in
      let t = bind-ok (fetch_ids repr entity_of r.0 ids out) _ r.2 in
      let rest = first_answer open_part parts j in
      fetch_parts-get open_part parts ids t.0 j t.2
      ∙ ap (λ o. first_of o (if mem j ids then rest else none)) (fetch_ids-get r.0 ids out j t.1)
      ∙ first_of_assoc (get out j) (if mem j ids then answer_in r.0 j else none) _
      ∙ ap (first_of (get out j)) (first_of-both (mem j ids) (answer_in r.0 j) rest)
      ∙ ap (λ o. first_of (get out j) (if mem j ids then first_of (answer_of o j) rest else none))
          (sym r.1)

  -- one answer for an id, which is that of the first partition that has one, and none for another id
  pub record IsAnswered (open_part : String → Result (Fetch repr entity_of))
      (parts ids : List String) (end : List (String × Doc)) : Type 0 where
    pub once : Pairs Apart end
    pub answers :
        (j : String) → get end j ≡ (if mem j ids then first_answer open_part parts j else none)

  -- Whatever ids are asked for and whatever partitions are opened, a `get` that succeeds answers at
  -- most once for an id; its answer for an id that is asked for shows the document of the first
  -- partition whose fetch neither raises nor returns None or an empty list, an empty dict being taken
  -- for a document, and there is none for other ids.
  pub get_entities-IsAnswered :
      (open_part : String → Result (Fetch repr entity_of)) (parts ids : List String)
      {end : List (String × Doc)}
      → get_entities repr entity_of open_part parts ids ≡ ok end
      → IsAnswered open_part parts ids end
  unfolding get_entities get
  get_entities-IsAnswered open_part parts ids h = record {
    once = fetch_parts-Apart open_part parts ids [] h no_pairs;
    answers = λ j. fetch_parts-get open_part parts ids [] j h;
  }
