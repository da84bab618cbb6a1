-- ===== src/Services/Collections/Loaded.antt =====
-- What loading and releasing a collection leave in the catalog and in the Reader.
use xvector.Prelude.{
  ℕ, String, ◌≡◌, refl, sym, ap, ◌∙◌, inl, true, false, none, List, [], ◌∷◌, arith, if◌then◌else◌,
  subst, eq_iff,
}
use xvector.Prelude.Integers.{ℤ, pos}
use xvector.Errors.{Result, ok, err, ok-eq}
use xvector.Prelude.Lists.{All, All-of_Has, Has, here, there}
use xvector.Exec.{next, lift, ◌>>◌, next-ran}
use xvector.Json.{Doc}
use xvector.Json.Reads.{int_of}
use xvector.Dict.{values}
use xvector.Meta.DocId.{doc_collection, doc_partition, make_id, pair_key}
use xvector.Meta.Store.{Zvec, Store, list_by_type, of_type, answer, load_snapshot}
use xvector.Meta.Catalog.{
  mem, required, list_partitions, get_collection, require_collection, resolve_collection_name,
}
use xvector.Meta.Catalog.Indexes.{set_load_state}
use xvector.Meta.Catalog.Open.{IsOpen, find-IsOpen}
use xvector.Services.Aliases.{db_of}
use xvector.Engine.{Disk}
use xvector.Engine.Handles.{is_fenced}
use xvector.Engine.Handles.Opens.{close_collection}
use xvector.Engine.Handles.Fences.{IsShut}
use xvector.Engine.Handles.Fencing.{fence_partitions-shuts}
use xvector.Services.Coordination.{
  System, on_writer, on_reader, notify_reader, internal_open, internal_close,
}
use xvector.Services.Coordination.Released.{internal_open-ends}
use xvector.Services.Collections.{
  Site, with_store, in_store, notify, close_all_of, name_of, replicas, loaded, not_loaded,
  service_load_state, load_collection, release_collection,
}
use xvector.Services.Collections.Loads.{
  named_in, resolve-IsOpen, service_load_state-set_load_state, set_load_state-IsOpen,
}

mem-Has : (p : String) (parts : List String) → Has p parts → mem p parts ≡ true
unfolding mem
mem-Has p [] h = elim h [ ]
mem-Has p (q ∷ parts) (here e) = let b = (eq_iff p q).1 e in ground (arith, b)
mem-Has p (q ∷ parts) (there h) = let b = mem-Has p parts h in ground (arith, b)

module _ {C H F : Type 0} (z : Zvec C) (disk : Disk H F) where
  in_store-ran :
      {A : Type 0} (s : Site C H F) (x : Result A × Store C) {a : A} {u : Site C H F}
      → with_store z disk s x ≡ (ok a, u)
      → (v : Store C) × (x ≡ (ok a, v)) × (record s { store = v } ≡ u)
  in_store-ran s (ok b, v) h = (v, cc, cc)
  in_store-ran s (err e, v) h = cc

  require-same :
      (db name : String) (s : Store C) {d : Doc} {t : Store C}
      → IsOpen s
      → require_collection z db name s ≡ (ok d, t)
      → s ≡ t
  unfolding require_collection get_collection
  require-same db name s o h =
      let e =
        ap (λ r. next r λ coll. lift (required coll))
          (find-IsOpen z (make_id doc_collection (pair_key db name)) s o) in
      ap (λ p. p.1) (sym e ∙ h)

  list_by_type-IsOpen :
      (doc_type : String) (s : Store C)
      → IsOpen s
      → list_by_type z doc_type s ≡ (ok (of_type doc_type (values s.docs)), s)
  unfolding list_by_type
  list_by_type-IsOpen doc_type s o =
      ap
        (λ b.
          answer z (λ t. of_type doc_type (values t.docs))
            (if b then load_snapshot z s s.snapshot else (ok tt, s)))
        o.writer

  list_partitions-same :
      (db name : String) (s : Store C) {parts : List String} {t : Store C}
      → IsOpen s
      → list_partitions z db name s ≡ (ok parts, t)
      → s ≡ t
  unfolding list_partitions get_collection
  list_partitions-same db name s o h =
      let listed = list_by_type-IsOpen doc_partition s o in
      let found = find-IsOpen z (make_id doc_collection (pair_key db name)) s o in
      ground (arith, listed, found, h)

  -- After the first two calls of a handler, which only read, the site is what it was, and the
  -- name is that of the collection.
  found_first :
      (body : Doc) (s : Site C H F) {name : String} {u : Site C H F}
      → IsOpen s.store
      → in_store z disk (resolve_collection_name z (db_of body) (name_of body)) s ≡ (ok name, u)
      → (named_in z s.store body ≡ name) × (s ≡ u)
  found_first body s o e =
      let (v, ran, same) =
        in_store-ran s (resolve_collection_name z (db_of body) (name_of body) s.store) e in
      let known = sym (resolve-IsOpen z (db_of body) (name_of body) s.store o) ∙ ran in
      let kept : s.store ≡ v = ap (λ p. p.1) known in
      (ok-eq (ap (λ p. p.0) known), ap (λ w. record s { store = w }) kept ∙ same)

  required_next :
      (db name : String) (s : Site C H F) {d : Doc} {u : Site C H F}
      → IsOpen s.store
      → in_store z disk (require_collection z db name) s ≡ (ok d, u)
      → s ≡ u
  required_next db name s o e =
      let (v, ran, same) = in_store-ran s (require_collection z db name s.store) e in
      ap (λ w. record s { store = w }) (require-same db name s.store o ran) ∙ same

  release-shuts :
      (db name part : String) (u : System H F)
      → u.reader.read_only ≡ true
      → IsShut disk db name part
          (notify_reader disk true
            (internal_close disk db name [] none)
            (on_writer disk (close_collection disk db name) u).1).reader
  unfolding notify_reader on_reader on_writer internal_close
  release-shuts db name part u r = fence_partitions-shuts disk db name part [] _ r (inl refl)

  released :
      (now : ℕ) (body : Doc) (part name : String) (s x : Site C H F) {t : Site C H F}
      → IsOpen s.store
      → s.system.reader.read_only ≡ true
      → named_in z s.store body ≡ name
      → in_store z disk (set_load_state z now (db_of body) name false "collection" [] (pos 1)) s
        ≡ (ok tt, x)
      → (close_all_of z disk (db_of body) name
            >> notify z disk true (internal_close disk (db_of body) name [] none))
          x
        ≡ (ok tt, t)
      → (service_load_state z body t.store ≡ (ok not_loaded, t.store))
        × IsShut disk (db_of body) name part t.system.reader
  released now body part name s x {t} o r named e h =
      let (v, ran, same) =
        in_store-ran s
          (set_load_state z now (db_of body) name false "collection" [] (pos 1) s.store) e in
      let end = ap (λ p. p.1) h in
      let store_end : v ≡ t.store = ap (λ y. y.store) same ∙ ap (λ y. y.store) end in
      let reader : x.system.reader.read_only ≡ true =
        ap (λ y. y.system.reader.read_only) (sym same) ∙ r in
      (
        subst (λ w. service_load_state z body w ≡ (ok not_loaded, w)) store_end
            (service_load_state-set_load_state z now (db_of body) name false "collection" [] (pos 1)
              s.store o ran body refl named),
        subst (λ y. IsShut disk (db_of body) name part y.system.reader) end
            (release-shuts (db_of body) name part x.system reader),
      )

  -- Once a release of a collection has returned on a Writer's open store, and its notification has
  -- arrived, the collection is reported as not loaded, and each of its partitions is fenced and
  -- closed in the Reader.
  pub release_collection-IsShut :
      (now : ℕ) (body : Doc) (part : String) (s : Site C H F) {t : Site C H F}
      → IsOpen s.store
      → s.system.reader.read_only ≡ true
      → release_collection z disk now true body s ≡ (ok tt, t)
      → (service_load_state z body t.store ≡ (ok not_loaded, t.store))
        × IsShut disk (db_of body) (named_in z s.store body) part t.system.reader
  unfolding release_collection
  release_collection-IsShut now body part s {t} o r h =
      let (name, u, e, h) = next-ran _ _ h in
      let (named, same) = found_first body s o e in
      let (d, w, e, h) = next-ran _ _ h in
      let same = same ∙ required_next (db_of body) name u (subst (λ x. IsOpen x.store) same o) e in
      let (done, x, e, h) =
        next-ran
          (in_store z disk (set_load_state z now (db_of body) name false "collection" [] (pos 1)) w)
          _ h in
      let ran =
        subst
          (λ y.
            in_store z disk (set_load_state z now (db_of body) name false "collection" [] (pos 1)) y
            ≡ (ok tt, x))
          (sym same) e in
      let (state, shut) = released now body part name s x o r named ran h in
      (state, subst (λ n. IsShut disk (db_of body) n part t.system.reader) (sym named) shut)

  load-unfences :
      (db name part : String) (parts : List String) (u : System H F)
      → mem part parts ≡ true
      → is_fenced
          (notify_reader disk true
            (internal_open disk db name parts)
            (on_writer disk (close_collection disk db name) u).1).reader
          db
          name
          part
        ≡ false
  unfolding notify_reader on_reader on_writer
  load-unfences db name part parts u h = internal_open-ends disk db name part parts _ h

  loaded_end :
      (now : ℕ) (body : Doc) (name : String) (parts : List String) (n : ℤ) (s x y : Site C H F)
      {t : Site C H F}
      → IsOpen s.store
      → named_in z s.store body ≡ name
      → in_store z disk (set_load_state z now (db_of body) name true "collection" [] n) s
        ≡ (ok tt, x)
      → in_store z disk (list_partitions z (db_of body) name) x ≡ (ok parts, y)
      → (close_all_of z disk (db_of body) name
            >> notify z disk true (internal_open disk (db_of body) name parts))
          y
        ≡ (ok tt, t)
      → (service_load_state z body t.store ≡ (ok loaded, t.store))
        × (list_partitions z (db_of body) name t.store ≡ (ok parts, t.store))
        × All (λ part. is_fenced t.system.reader (db_of body) name part ≡ false) parts
  loaded_end now body name parts n s x y {t} o named e l h =
      let (v, ran, same) =
        in_store-ran s (set_load_state z now (db_of body) name true "collection" [] n s.store) e in
      let (w, listed, kept) = in_store-ran x (list_partitions z (db_of body) name x.store) l in
      let opened : IsOpen v =
        set_load_state-IsOpen z now (db_of body) name true "collection" [] n s.store o ran in
      let at : v ≡ x.store = ap (λ y. y.store) same in
      let rest : x.store ≡ w =
        list_partitions-same (db_of body) name x.store (subst IsOpen at opened) listed in
      let end = ap (λ p. p.1) h in
      let there : w ≡ t.store = ap (λ y. y.store) kept ∙ ap (λ y. y.store) end in
      let store_end : v ≡ t.store = at ∙ rest ∙ there in
      (
        subst (λ w. service_load_state z body w ≡ (ok loaded, w)) store_end
            (service_load_state-set_load_state z now (db_of body) name true "collection" [] n
              s.store o ran body refl named),
        subst (λ w. list_partitions z (db_of body) name w ≡ (ok parts, w)) (rest ∙ there)
            (subst (λ w. list_partitions z (db_of body) name x.store ≡ (ok parts, w)) (sym rest)
              listed),
        subst (λ q. All (λ part. is_fenced q.system.reader (db_of body) name part ≡ false) parts)
            end
            (All-of_Has parts
              λ part m. load-unfences (db_of body) name part parts y.system (mem-Has part parts m)),
      )

  -- Once a load of a collection has returned on a Writer's open store, and its notification has
  -- arrived, the collection is reported as loaded, and none of the partitions that the catalog lists
  -- for it is fenced in the Reader.
  pub load_collection-unfenced :
      (now : ℕ) (body : Doc) (s : Site C H F) {t : Site C H F}
      → IsOpen s.store
      → load_collection z disk now true body s ≡ (ok tt, t)
      → (service_load_state z body t.store ≡ (ok loaded, t.store))
        × ((parts : List String) × (list_partitions z (db_of body) (named_in z s.store body) t.store
              ≡ (ok parts, t.store))
            × All
                (λ part.
                  is_fenced t.system.reader (db_of body) (named_in z s.store body) part ≡ false)
                parts)
  unfolding load_collection
  load_collection-unfenced now body s {t} o h =
      let (name, u, e, h) = next-ran _ _ h in
      let (named, same) = found_first body s o e in
      let (d, w, e, h) = next-ran _ _ h in
      let same = same ∙ required_next (db_of body) name u (subst (λ x. IsOpen x.store) same o) e in
      let (n, w', e, h) = next-ran (lift (int_of (replicas z disk body)) w) _ h in
      let same = same ∙ ap (λ p. p.1) e in
      let (done, x, e, h) =
        next-ran
          (in_store z disk (set_load_state z now (db_of body) name true "collection" [] n) w') _
          h in
      let ran =
        subst
          (λ y.
            in_store z disk (set_load_state z now (db_of body) name true "collection" [] n) y
            ≡ (ok tt, x))
          (sym same) e in
      let (parts, y, l, h) =
        next-ran (in_store z disk (list_partitions z (db_of body) name) x) _ h in
      let (state, listed, free) = loaded_end now body name parts n s x y o named ran l h in
      let facts =
        subst
          (λ n.
            (list_partitions z (db_of body) n t.store ≡ (ok parts, t.store))
            × All (λ part. is_fenced t.system.reader (db_of body) n part ≡ false) parts)
          (sym named) (listed, free) in
      (state, (parts, facts.0, facts.1))
