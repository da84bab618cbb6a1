-- ===== src/Engine/Handles/Elsewhere.antt =====
-- Ending the fences of another collection (xvector/engine/collection_mgr.py).
use Prim.Native.String.{◌++◌}
use xvector.Prelude.{
  String, true, false, ◌&&◌, Option, none, some, List, [], ◌∷◌, ◌==◌, ◌≡◌, refl, ap, ◌∙◌, arith,
  eq_iff, Bool-cases, inl, inr, subst,
}
use text.Mathlib.TextLemmas.{append_assoc}
use xvector.Text.{Lacks, after}
use xvector.Text.Cut.{after-eq-some}
use xvector.Meta.Catalog.{mem}
use xvector.Engine.{Disk}
use xvector.Engine.Handles.{
  Manager, key, wild, key_prefix, keys_of, discard, discard_all, discard_prefix, found, starts_with,
  unfence_partitions,
}
use xvector.Engine.Handles.Keys.{key-injective}
use xvector.Engine.Handles.Fencing.{mem-discard}
use xvector.Engine.Handles.Fences.{IsShut, refenced}

-- another collection
abbrev pub IsOther : String → String → String → String → Type 0
IsOther db coll db' coll' = (db == db' && coll == coll') ≡ false

-- no key of the one collection is a key of the other
key_other :
    (db coll db' coll' x y : String)
    → Lacks b'/' db × Lacks b'/' coll × Lacks b'/' db' × Lacks b'/' coll'
    → IsOther db coll db' coll'
    → (key db coll x == key db' coll' y) ≡ false
key_other db coll db' coll' x y names other = elim (Bool-cases (key db coll x == key db' coll' y)) [
  | inr apart ↦ apart
  | inl same ↦
      let (e, f, g) = key-injective names ((eq_iff (key db coll x) (key db' coll' y)).0 same) in
      let d = (eq_iff db db').1 e in let c = (eq_iff coll coll').1 f in ground (arith, d, c, other)
]

mem-discard_prefix :
    (p j : String) (l : List String)
    → starts_with p j ≡ false
    → mem j l ≡ true
    → mem j (discard_prefix p l) ≡ true
unfolding mem discard_prefix
mem-discard_prefix p j [] n h = h
mem-discard_prefix p j (k ∷ l) n h = elim (Bool-cases (j == k)) [
  | inl same ↦
      let e : j ≡ k = (eq_iff j k).0 same in
      let keeps : starts_with p k ≡ false = subst (λ i. starts_with p i ≡ false) e n in
      rw keeps (ground (arith, same))
  | inr other ↦
      let rest = mem-discard_prefix p j l n (ground (arith, h, other)) in
      elim (Bool-cases (starts_with p k)) [
        | inl starts ↦ rw starts rest
        | inr keeps ↦ rw keeps (ground (arith, rest))
      ]
]

mem-discard_keys :
    (j db coll : String) (parts l : List String)
    → ((y : String) → (j == key db coll y) ≡ false)
    → mem j l ≡ true
    → mem j (discard_all (keys_of db coll parts) l) ≡ true
unfolding discard_all keys_of
mem-discard_keys j db coll [] l n h = h
mem-discard_keys j db coll (p ∷ parts) l n h =
    mem-discard_keys j db coll parts (discard (key db coll p) l) n
      (ground (arith, mem-discard j (key db coll p) l, n p, h))

key_prefix-part : (db coll part : String) → key_prefix db coll ++ part ≡ key db coll part
key_prefix-part db coll part =
    append_assoc db ("/" ++ coll ++ "/" ++ "") part
    ∙ ap (λ r. db ++ r) (append_assoc "/" (coll ++ "/" ++ "") part)
    ∙ ap (λ r. db ++ "/" ++ r) (append_assoc coll ("/" ++ "") part)

found-after :
    (db coll j : String) (o : Option String)
    → after (key_prefix db coll) j ≡ o
    → ((y : String) → (j == key db coll y) ≡ false)
    → found o ≡ false
found-after db coll j none e n = refl
found-after db coll j (some y) e n =
    let whole : j ≡ key db coll y =
      after-eq-some (key_prefix db coll) j e ∙ key_prefix-part db coll y in
    let same = (eq_iff j (key db coll y)).1 whole in let apart = n y in cc

mem-unfenced :
    {H F : Type 0} (disk : Disk H F) (j db coll : String) (parts : List String) (m : Manager H F)
    → ((y : String) → (j == key db coll y) ≡ false)
    → mem j m.fences ≡ true
    → mem j (unfence_partitions disk db coll parts m).1.fences ≡ true
unfolding unfence_partitions
mem-unfenced disk j db coll [] m n h =
    mem-discard_prefix (key_prefix db coll) j (discard (wild db coll) m.fences)
      (found-after db coll j (after (key_prefix db coll) j) refl n)
      (ground (arith, mem-discard j (wild db coll) m.fences, n "*", h))
mem-unfenced disk j db coll (p ∷ parts) m n h =
    mem-discard_keys j db coll (p ∷ parts) (discard (wild db coll) m.fences) n
      (ground (arith, mem-discard j (wild db coll) m.fences, n "*", h))

only_fences :
    {H F : Type 0} (disk : Disk H F) (db coll : String) (parts : List String) (m : Manager H F)
    → Path
        (Manager H F)
        (record m { fences = (unfence_partitions disk db coll parts m).1.fences })
        (unfence_partitions disk db coll parts m).1
unfolding unfence_partitions
only_fences disk db coll [] m = refl
only_fences disk db coll (p ∷ parts) m = refl

-- What is fenced and closed stays so when fences of another collection end.
pub unfence_partitions-IsShut :
    {H F : Type 0} (disk : Disk H F) (db coll part db' coll' : String) (parts : List String)
    (m : Manager H F)
    → Lacks b'/' db × Lacks b'/' coll × Lacks b'/' db' × Lacks b'/' coll'
    → IsOther db coll db' coll'
    → IsShut disk db coll part m
    → IsShut disk db coll part (unfence_partitions disk db' coll' parts m).1
unfence_partitions-IsShut disk db coll part db' coll' parts m names other s =
    let fences = (unfence_partitions disk db' coll' parts m).1.fences in
    let k =
      refenced disk db coll part m fences s
        (mem-unfenced disk (key db coll part) db' coll' parts m
          (λ y. key_other db coll db' coll' part y names other))
        (mem-unfenced disk (wild db coll) db' coll' parts m
          (λ y. key_other db coll db' coll' "*" y names other)) in
    subst (IsShut disk db coll part) (only_fences disk db' coll' parts m) k
