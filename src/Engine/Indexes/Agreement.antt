-- ===== src/Engine/Indexes/Agreement.antt =====
-- The parameters of a query and the index that it searches.
use xvector.Prelude.{
  ◌≡◌, ◌⊎◌, subst, refl, sym, ap, ◌∙◌, inl, inr, String, Bool, true, false, none, some,
  if◌then◌else◌, Bool-cases,
}
use xvector.Prelude.Integers.{ℤ}
use xvector.Errors.{Result, ok, err, param, index_unsupported, bind, bind-ok, ok-eq}
use xvector.Text.{is_empty}
use xvector.Json.{Json, null, bool, num, neg, str, arr, obj}
use xvector.Json.Reads.{int_of}
use xvector.Engine.Indexes.{
  Platform, IndexType, flat, hnsw, hnsw_rabitq, diskann, ivf_flat, ivf_sq8, ivf_pq, Metric,
  IndexParam, flat_param, hnsw_param, rabitq_param, diskann_param, ivf_param, QueryParam,
  hnsw_query, rabitq_query, ivf_query, diskann_query, normalize_index_type, normalize_metric,
  index_param, to_zvec_index_param, query_number, query_param, to_zvec_query_param, int_param, m_of,
  ef_construction_of, bits_of, list_size_of,
}

-- the algorithms of zvec
pub data Family : Type 0 where
  exhaustive graph rabitq_graph disk_graph inverted_file : Family

unfoldable pub family : IndexParam → Family
family (flat_param metric) = exhaustive
family (hnsw_param metric m ef) = graph
family (rabitq_param metric m ef bits) = rabitq_graph
family (diskann_param metric max_degree list_size) = disk_graph
family (ivf_param metric n quantized) = inverted_file

unfoldable pub query_family : QueryParam → Family
query_family (hnsw_query n) = graph
query_family (rabitq_query n) = rabitq_graph
query_family (ivf_query n) = inverted_file
query_family (diskann_query n) = disk_graph

-- what a kind of index is for zvec
type_family : IndexType → Family
type_family flat = exhaustive
type_family hnsw = graph
type_family hnsw_rabitq = rabitq_graph
type_family diskann = disk_graph
type_family ivf_flat = inverted_file
type_family ivf_sq8 = inverted_file
type_family ivf_pq = inverted_file

on_linux :
    (linux : Bool) (r : Result IndexParam) {p : IndexParam}
    → (if linux then r else err index_unsupported) ≡ ok p
    → r ≡ ok p
on_linux true r h = h
on_linux false r h = cc

index_param-family :
    (platform : Platform) (params : Json) (metric : Metric) (t : IndexType) {p : IndexParam}
    → index_param platform params metric t ≡ ok p
    → family p ≡ type_family t
unfolding index_param family type_family
index_param-family platform params metric flat h = ap family (ok-eq (sym h))
index_param-family platform params metric hnsw h =
    let (m, e, k) = bind-ok (m_of params) _ h in
    let (ef, e, k) = bind-ok (ef_construction_of params) _ k in ap family (ok-eq (sym k))
index_param-family platform params metric hnsw_rabitq h =
    let (m, e, k) = bind-ok (m_of params) _ h in
    let (ef, e, k) = bind-ok (ef_construction_of params) _ k in
    let (bits, e, k) = bind-ok (bits_of params) _ k in ap family (ok-eq (sym k))
index_param-family platform params metric diskann h =
    let k = on_linux platform.linux _ h in
    let (max_degree, e, k) = bind-ok (int_param params "max_degree" "R" 100) _ k in
    let (list_size, e, k) = bind-ok (list_size_of params) _ k in ap family (ok-eq (sym k))
index_param-family platform params metric ivf_flat h =
    let (n, e, k) = bind-ok (int_param params "nlist" "n_list" 128) _ h in ap family (ok-eq (sym k))
index_param-family platform params metric ivf_sq8 h =
    let (n, e, k) = bind-ok (int_param params "nlist" "n_list" 128) _ h in ap family (ok-eq (sym k))
index_param-family platform params metric ivf_pq h =
    let (n, e, k) = bind-ok (int_param params "nlist" "n_list" 128) _ h in ap family (ok-eq (sym k))

made-family :
    (make : ℤ → QueryParam) (r : Result ℤ) (f : Family) {q : QueryParam}
    → ((n : ℤ) → query_family (make n) ≡ f)
    → (bind r λ n. ok (some (make n))) ≡ ok (some q)
    → query_family q ≡ f
made-family make (ok n) f {q} same h = let e : q ≡ make n = cc in ap query_family e ∙ same n
made-family make (err e) f same h = cc

query_number-family :
    (make : ℤ → QueryParam) (v : Json) (f : Family) {q : QueryParam}
    → ((n : ℤ) → query_family (make n) ≡ f)
    → query_number make v ≡ ok (some q)
    → query_family q ≡ f
query_number-family make null f same h = cc
query_number-family make (bool b) f same h = made-family make (int_of (bool b)) f same h
query_number-family make (num n) f same h = made-family make (int_of (num n)) f same h
query_number-family make (neg n) f same h = made-family make (int_of (neg n)) f same h
query_number-family make (str s) f same h = made-family make (int_of (str s)) f same h
query_number-family make (arr vs) f same h = made-family make (int_of (arr vs)) f same h
query_number-family make (obj fs) f same h = made-family make (int_of (obj fs)) f same h

-- A query's algorithm is that of the index, but for HNSW_RABITQ in a zvec without query parameters
-- of that kind, where it is HNSW's.
abbrev pub Agrees : Platform → Family → Family → Type 0
Agrees platform asked made =
    (asked ≡ made) ⊎ ((platform.has_rabitq_query ≡ false) × (made ≡ rabitq_graph) × (asked ≡ graph))

query_param-family :
    (platform : Platform) (params : Json) (t : IndexType) {q : QueryParam}
    → query_param platform params t ≡ ok (some q)
    → Agrees platform (query_family q) (type_family t)
unfolding query_param query_family type_family
query_param-family platform params flat h = cc
query_param-family platform params hnsw h =
    inl (query_number-family hnsw_query _ graph (λ n. refl) h)
query_param-family platform params hnsw_rabitq h = elim (Bool-cases platform.has_rabitq_query) [
  | inl has ↦ inl (query_number-family rabitq_query _ rabitq_graph (λ n. refl) (rw has at h))
  | inr lacks ↦
      inr (lacks, refl, query_number-family hnsw_query _ graph (λ n. refl) (rw lacks at h))
]
query_param-family platform params diskann h =
    inl (query_number-family diskann_query _ disk_graph (λ n. refl) h)
query_param-family platform params ivf_flat h =
    inl (query_number-family ivf_query _ inverted_file (λ n. refl) h)
query_param-family platform params ivf_sq8 h =
    inl (query_number-family ivf_query _ inverted_file (λ n. refl) h)
query_param-family platform params ivf_pq h =
    inl (query_number-family ivf_query _ inverted_file (λ n. refl) h)

blank_type : (t : String) → is_empty t ≡ true → normalize_index_type t ≡ err param
unfolding normalize_index_type
blank_type t blank = rw blank refl

-- When an index can be made of a kind and a query has parameters for that kind, the parameters of
-- the query belong to the algorithm of the index; where zvec has no query parameters for HNSW_RABITQ,
-- those for an index of that kind are HNSW's.
pub query_family-family :
    (platform : Platform) (index_type metric_type : String) (params search_params : Json)
    {p : IndexParam} {q : QueryParam}
    → to_zvec_index_param platform index_type metric_type params ≡ ok p
    → to_zvec_query_param platform (some index_type) search_params ≡ ok (some q)
    → Agrees platform (query_family q) (family p)
unfolding to_zvec_index_param to_zvec_query_param
query_family-family platform index_type metric_type params search_params {q = q} h k =
    let (t, known, made) = bind-ok (normalize_index_type index_type) _ h in
    let (metric, e, made) = bind-ok (normalize_metric metric_type) _ made in
    let query = bind (normalize_index_type index_type) (query_param platform search_params) in
    elim (Bool-cases (is_empty index_type)) [
      | inl blank ↦ let e = blank_type index_type blank in cc
      | inr there_is ↦
          let asked : query ≡ ok (some q) =
            ap (λ b. if b then ok none else query) (sym there_is) ∙ k in
          let (u, again, answered) = bind-ok (normalize_index_type index_type) _ asked in
          let same : type_family u ≡ family _ =
            ap type_family (ok-eq (sym again ∙ known))
            ∙ sym (index_param-family platform params metric t made) in
          subst (Agrees platform (query_family q)) same
            (query_param-family platform search_params u answered)
    ]
