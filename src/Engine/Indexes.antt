-- ===== src/Engine/Indexes.antt =====
-- xvector/engine/index_map.py: the kinds of an index and the parameters of zvec that they stand
-- for, which are values here. A zvec library of version 0.6 has the quantization INT8 and the query
-- parameters of every kind.
pub mod Agreement
use xvector.Prelude.{
  ℕ, ◌≡◌, String, Bool, true, false, ◌||◌, Option, none, some, List, [], ◌∷◌, map, nat_beq,
  if◌then◌else◌,
}
use xvector.Prelude.Integers.{ℤ}
use xvector.Errors.{Result, ok, err, param, index_unsupported, bind}
use xvector.Text.{strip, is_empty}
use xvector.Text.Upper.{upper, look_up, equals_upper}
use xvector.Json.{Json, null, num, obj, truthy, or_else}
use xvector.Json.Reads.{field_of, value_at, either_at, int_of}

pub data IndexType : Type 0 where
  flat hnsw hnsw_rabitq diskann ivf_flat ivf_sq8 ivf_pq : IndexType

pub data Metric : Type 0 where
  l2 ip cosine : Metric

-- aliases
unfoldable pub index_types : List (String × IndexType)
index_types =
    ("FLAT", flat)
    ∷ ("IDMAP", flat)
    ∷ ("HNSW", hnsw)
    ∷ ("HNSW_RABITQ", hnsw_rabitq)
    ∷ ("DISKANN", diskann)
    ∷ ("IVF_FLAT", ivf_flat)
    ∷ ("IVF_SQ8", ivf_sq8)
    ∷ ("IVF_PQ", ivf_pq)
    ∷ ("IVF", ivf_flat)
    ∷ []

-- .replace("-", "_")
abbrev pub underscored : List ℕ → List ℕ
underscored codes = map (λ n. if nat_beq n b'-' then b'_' else n) codes

abbrev pub supported : Option IndexType → Result IndexType
supported none = err index_unsupported
supported (some t) = ok t

-- The text of the test for "HNSW-RABITQ" is one that the table has too.
unfoldable pub normalize_index_type : String → Result IndexType
unfolding upper look_up index_types strip equals_upper
normalize_index_type index_type =
    if is_empty index_type
    then err param
    else if equals_upper (strip index_type) "HNSW-RABITQ"
        || equals_upper (strip index_type) "HNSW_RABITQ"
    then ok hnsw_rabitq
    else supported (look_up (underscored (upper (strip index_type))) index_types)

unfoldable pub metrics : List (String × Metric)
metrics = ("L2", l2) ∷ ("IP", ip) ∷ ("COSINE", cosine) ∷ []

abbrev pub known_metric : Option Metric → Result Metric
known_metric none = err param
known_metric (some m) = ok m

abbrev pub or_text : String → String → String
or_text s t = if is_empty s then t else s

-- normalize_metric, and the member of zvec's MetricType with its name
unfoldable pub normalize_metric : String → Result Metric
unfolding upper look_up metrics strip
normalize_metric metric_type =
    known_metric (look_up (upper (strip (or_text metric_type "L2"))) metrics)

-- the parameters of zvec for an index
pub data IndexParam : Type 0 where
  flat_param : Metric → IndexParam
  hnsw_param : Metric → ℤ → ℤ → IndexParam
  rabitq_param : Metric → ℤ → ℤ → Option ℤ → IndexParam
  diskann_param : Metric → ℤ → ℤ → IndexParam
  -- the last one says whether the vectors are quantized to INT8
  ivf_param : Metric → ℤ → Bool → IndexParam

-- int(params.get(key) or params.get(other) or n)
abbrev pub int_param : Json → String → String → ℕ → Result ℤ
int_param params key other n = int_of (or_else (either_at params key other) (num n))

abbrev pub m_of : Json → Result ℤ
m_of params = int_param params "M" "m" 16

abbrev pub ef_construction_of : Json → Result ℤ
ef_construction_of params = int_param params "efConstruction" "ef_construction" 200

-- "total_bits" in params or "bits" in params
abbrev pub total_bits_of : Bool → Json → Result (Option ℤ)
total_bits_of false params = ok none
total_bits_of true params = bind (int_param params "total_bits" "bits" 8) λ bits. ok (some bits)

abbrev pub list_size_of : Json → Result ℤ
list_size_of params =
    int_of (
      or_else (value_at params "list_size") (or_else (either_at params "search_list" "L") (num 50)))

-- key in params
unfoldable pub has_key_at : Json → String → Bool
unfolding field_of
has_key_at (obj fs) key = elim (field_of key fs) [ none ↦ false | some v ↦ true ]
has_key_at _ key = false

abbrev pub bits_of : Json → Result (Option ℤ)
bits_of params = total_bits_of (has_key_at params "total_bits" || has_key_at params "bits") params

-- what the platform and the zvec that is installed have: zvec's class HnswRabitqQueryParam and the
-- member INT8 of its QuantizeType
pub record Platform : Type 0 where
  pub linux : Bool
  pub has_rabitq_query : Bool
  pub has_int8 : Bool

unfoldable pub index_param : Platform → Json → Metric → IndexType → Result IndexParam
unfolding int_of value_at has_key_at
index_param platform params metric flat = ok (flat_param metric)
index_param platform params metric hnsw =
    bind (m_of params) λ m. bind (ef_construction_of params) λ ef. ok (hnsw_param metric m ef)
index_param platform params metric hnsw_rabitq = bind (m_of params) λ m.
    bind (ef_construction_of params)
      λ ef. bind (bits_of params) λ bits. ok (rabitq_param metric m ef bits)
index_param platform params metric diskann =
    if platform.linux
    then (bind (int_param params "max_degree" "R" 100) λ max_degree.
        bind (list_size_of params) λ list_size. ok (diskann_param metric max_degree list_size))
    else err index_unsupported
index_param platform params metric ivf_flat =
    bind (int_param params "nlist" "n_list" 128) λ n. ok (ivf_param metric n false)
index_param platform params metric ivf_sq8 =
    bind (int_param params "nlist" "n_list" 128) λ n. ok (ivf_param metric n platform.has_int8)
index_param platform params metric ivf_pq =
    bind (int_param params "nlist" "n_list" 128) λ n. ok (ivf_param metric n false)

unfoldable pub to_zvec_index_param : Platform → String → String → Json → Result IndexParam
unfolding index_param normalize_index_type normalize_metric
to_zvec_index_param platform index_type metric_type params =
    bind (normalize_index_type index_type)
      λ t. bind (normalize_metric metric_type) λ metric. index_param platform params metric t

-- the parameters of zvec for a query
pub data QueryParam : Type 0 where
  hnsw_query rabitq_query ivf_query diskann_query : ℤ → QueryParam

-- None, or what is made of int(v)
abbrev pub query_number : (ℤ → QueryParam) → Json → Result (Option QueryParam)
query_number make null = ok none
query_number make v = bind (int_of v) λ n. ok (some (make n))

-- getattr(zvec, "HnswRabitqQueryParam", zvec.HnswQueryParam)
abbrev pub rabitq_class : Bool → ℤ → QueryParam
rabitq_class true = rabitq_query
rabitq_class false = hnsw_query

unfoldable pub query_param : Platform → Json → IndexType → Result (Option QueryParam)
unfolding int_of value_at
query_param platform params flat = ok none
query_param platform params hnsw = query_number hnsw_query (either_at params "ef" "efSearch")
query_param platform params hnsw_rabitq =
    query_number (rabitq_class platform.has_rabitq_query) (either_at params "ef" "efSearch")
query_param platform params diskann =
    query_number diskann_query (either_at params "search_list" "list_size")
query_param platform params ivf_flat = query_number ivf_query (either_at params "nprobe" "n_probe")
query_param platform params ivf_sq8 = query_number ivf_query (either_at params "nprobe" "n_probe")
query_param platform params ivf_pq = query_number ivf_query (either_at params "nprobe" "n_probe")

unfoldable pub to_zvec_query_param : Platform → Option String → Json → Result (Option QueryParam)
unfolding query_param normalize_index_type
to_zvec_query_param platform none params = ok none
to_zvec_query_param platform (some index_type) params =
    if is_empty index_type
    then ok none
    else bind (normalize_index_type index_type) (query_param platform params)
