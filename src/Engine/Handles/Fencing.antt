-- ===== src/Engine/Handles/Fencing.antt =====
-- What `fence_partitions` and `unfence_partitions` of xvector/engine/collection_mgr.py do to the
-- fences.
use Prim.Native.String.{◌∷◌}
use xvector.Prelude.{
  String, true, false, not, ◌&&◌, List, [], ◌∷◌, ◌==◌, ◌≡◌, refl, ap, ◌∙◌, arith, eq_iff, eq_refl,
  Bool-cases, ◌⊎◌, inl, inr,
}
use xvector.Dict.Laws.{get-remove}
use xvector.Meta.Catalog.{mem}
use xvector.Engine.{Disk}
use xvector.Engine.Handles.{
  Manager, key, wild, key_prefix, add, add_all, keys, keys_of, with_prefix, is_fenced, pop, pop_all,
  fence_partitions,
}
use xvector.Engine.Handles.Keys.{key_prefix-key, mem-add, mem-add_all, mem-with_prefix, get-keys}
use xvector.Engine.Handles.{discard, discard_all, unfence_partitions}
use xvector.Engine.Handles.Fences.{IsShut, pop_all-IsShut, refenced}

pub mem-key :
    (db coll p : String) (parts : List String)
    → mem p parts ≡ true
    → mem (key db coll p) (keys_of db coll parts) ≡ true
unfolding mem keys_of
mem-key db coll p [] h = h
mem-key db coll p (q ∷ parts) h = elim (Bool-cases (p == q)) [
  | inl same ↦
      ground (arith, eq_iff (key db coll p) (key db coll q), ap (key db coll) ((eq_iff p q).0 same))
  | inr other ↦ ground (arith, mem-key db coll p parts (rw other at h))
]

pub mem-discard : (j k : String) (l : List String) → mem j (discard k l) ≡ (not (j == k) && mem j l)
unfolding mem discard
mem-discard j k [] = ground arith
mem-discard j k (f ∷ l) = ground (arith, mem-discard j k l, eq_iff f k, eq_iff j k, eq_iff j f)

module _ {H F : Type 0} (disk : Disk H F) (db coll part : String) where
  pop_all-shuts :
      (ks : List String) (m : Manager H F)
      → m.read_only ≡ true
      → is_fenced m db coll part ≡ true
      → mem (key db coll part) ks ≡ true
      → IsShut disk db coll part (pop_all disk ks m).1
  unfolding pop_all pop mem
  pop_all-shuts [] m r f h = ground arith
  pop_all-shuts (k ∷ ks) m r f h =
      let m' = (pop disk k (not m.read_only) m).1 in
      elim (Bool-cases (key db coll part == k)) [
        | inl here ↦ pop_all-IsShut disk db coll part ks m' (record {
          reader = r;
          fenced_now = (unfold is_fenced in f);
          closed = ground (
            arith,
            get-remove m.handles k (key db coll part),
            eq_iff k (key db coll part),
            eq_iff (key db coll part) k,
          );
        })
        | inr later ↦ pop_all-shuts ks m' r (unfold is_fenced in f) (ground arith)
      ]

  -- A Reader's call of `fence_partitions` for the whole collection, or for some partitions that
  -- this is one of, fences and closes the partition.
  pub fence_partitions-shuts :
      (parts : List String) (m : Manager H F)
      → m.read_only ≡ true
      → (parts ≡ []) ⊎ (mem part parts ≡ true)
      → IsShut disk db coll part (fence_partitions disk db coll parts m).1
  unfolding fence_partitions
  fence_partitions-shuts [] m r c =
      let fences = add (wild db coll) m.fences in
      let f : is_fenced (record m { fences = fences }) db coll part ≡ true =
        unfold is_fenced in
        ground (arith, mem-add (wild db coll) (wild db coll) m.fences, eq_refl (wild db coll)) in
      elim (get-keys (key db coll part) m.handles) [
        | inl there ↦
            pop_all-shuts (with_prefix (key_prefix db coll) (keys m.handles))
              (record m { fences = fences }) r f
              (mem-with_prefix (key_prefix db coll) (key db coll part) (keys m.handles)
                ∙ ground (arith, key_prefix-key db coll part))
        | inr missing ↦
            pop_all-IsShut disk db coll part (with_prefix (key_prefix db coll) (keys m.handles))
              (record m { fences = fences })
              (record { reader = r; fenced_now = f; closed = missing })
      ]
  fence_partitions-shuts (p ∷ parts) m r (inl e) = cc
  fence_partitions-shuts (p ∷ parts) m r (inr h) =
      let ks = keys_of db coll (p ∷ parts) in
      let there : mem (key db coll part) ks ≡ true = mem-key db coll part (p ∷ parts) h in
      let f : is_fenced (record m { fences = add_all ks m.fences }) db coll part ≡ true =
        unfold is_fenced in ground (arith, mem-add_all (key db coll part) ks m.fences) in
      pop_all-shuts ks (record m { fences = add_all ks m.fences }) r f there

  pub fence_partitions-IsShut :
      (db' coll' : String) (parts : List String) (m : Manager H F)
      → IsShut disk db coll part m
      → IsShut disk db coll part (fence_partitions disk db' coll' parts m).1
  unfolding fence_partitions
  fence_partitions-IsShut db' coll' [] m s =
      let w = wild db' coll' in
      pop_all-IsShut disk db coll part (with_prefix (key_prefix db' coll') (keys m.handles))
        (record m { fences = add w m.fences })
        (refenced disk db coll part m (add w m.fences) s
          (λ h. mem-add (key db coll part) w m.fences ∙ ground arith)
          (λ h. mem-add (wild db coll) w m.fences ∙ ground arith))
  fence_partitions-IsShut db' coll' (p ∷ parts) m s =
      let ks = keys_of db' coll' (p ∷ parts) in
      pop_all-IsShut disk db coll part ks (record m { fences = add_all ks m.fences })
        (refenced disk db coll part m (add_all ks m.fences) s
          (λ h. mem-add_all (key db coll part) ks m.fences ∙ ground arith)
          (λ h. mem-add_all (wild db coll) ks m.fences ∙ ground arith))

mem-discard_all :
    (j k : String) (l : List String) → mem j (discard_all (k ∷ []) l) ≡ (not (j == k) && mem j l)
unfolding discard_all
mem-discard_all j k l = mem-discard j k l

module _ {H F : Type 0} (disk : Disk H F) where
  pop_all-fences : (ks : List String) (m : Manager H F) → (pop_all disk ks m).1.fences ≡ m.fences
  unfolding pop_all pop
  pop_all-fences [] m = refl
  pop_all-fences (k ∷ ks) m = pop_all-fences ks (pop disk k (not m.read_only) m).1

  -- A fence of a whole collection ends as soon as one partition is unfenced, whichever it is: no
  -- partition is fenced after that but those that were on their own.
  pub unfence_partitions-one :
      (db coll p q : String) (m : Manager H F)
      → mem (key db coll q) m.fences ≡ false
      → is_fenced
          (unfence_partitions disk db coll (p ∷ []) (fence_partitions disk db coll [] m).1).1
          db
          coll
          q
        ≡ false
  unfolding fence_partitions unfence_partitions keys_of is_fenced
  unfence_partitions-one db coll p q m alone =
      let w = wild db coll in
      let k = key db coll p in
      let l = (fence_partitions disk db coll [] m).1.fences in
      let fences : l ≡ add w m.fences =
        pop_all-fences (with_prefix (key_prefix db coll) (keys m.handles))
          (record m { fences = add w m.fences }) in
      let one : mem (key db coll q) (discard_all (k ∷ []) (discard w l)) ≡ false =
        mem-discard_all (key db coll q) k (discard w l)
        ∙ ground (
          arith,
          mem-discard (key db coll q) w l,
          ap (mem (key db coll q)) fences,
          mem-add (key db coll q) w m.fences,
        ) in
      let all : mem w (discard_all (k ∷ []) (discard w l)) ≡ false =
        mem-discard_all w k (discard w l) ∙ ground (arith, mem-discard w w l, eq_refl w) in
      ground (arith, one, all)
