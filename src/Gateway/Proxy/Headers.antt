-- ===== src/Gateway/Proxy/Headers.antt =====
-- The headers that the Gateway's proxy (xvector/gateway/proxy.py) sends on.
use xvector.Prelude.{
  String, ◌≡◌, refl, ◌∙◌, sym, true, false, Option, none, some, List, [], ◌∷◌, arith, ◌==◌, eq_iff,
  Bool-cases, inl, inr, ◌≢◌, not, ◌&&◌, ap, subst, if◌then◌else◌,
}
use xvector.Text.{is_empty, equals_lower}
use xvector.Dict.{get, set}
use xvector.Dict.Laws.{get-set}
use xvector.Auth.{Settings}
use xvector.Gateway.Proxy.{Request, is_dropped, kept_from, request_trace_id, outgoing_headers}

-- the last header of this name, as a dict of the items has it
unfoldable pub last_from : Option String → List (String × String) → String → Option String
last_from found [] k = found
last_from found ((j, v) ∷ items) k = last_from (if j == k then some v else found) items k

keep_step :
    (out : List (String × String)) (j v k : String)
    → is_dropped k ≡ false
    → get (if is_dropped j then out else set out j v) k ≡ (if j == k then some v else get out k)
keep_step out j v k h = elim (Bool-cases (j == k)) [
  | inl same ↦
      let e : j ≡ k = (eq_iff j k).0 same in
      ground (arith, get-set out j k v, subst (λ n. is_dropped n ≡ false) (sym e) h)
  | inr other ↦ ground (arith, get-set out j k v)
]

drop_step :
    (out : List (String × String)) (j v k : String)
    → is_dropped k ≡ true
    → get (if is_dropped j then out else set out j v) k ≡ get out k
drop_step out j v k h = elim (Bool-cases (j == k)) [
  | inl same ↦
      let e : j ≡ k = (eq_iff j k).0 same in rw (subst (λ n. is_dropped n ≡ true) (sym e) h)
  | inr other ↦ ground (arith, get-set out j k v)
]

get-kept_from :
    (out items : List (String × String)) (k : String)
    → is_dropped k ≡ false
    → get (kept_from out items) k ≡ last_from (get out k) items k
unfolding kept_from last_from
get-kept_from out [] k h = refl
get-kept_from out ((j, v) ∷ items) k h =
    get-kept_from (if is_dropped j then out else set out j v) items k h
    ∙ ap (λ o. last_from o items k) (keep_step out j v k h)

get-kept_from_dropped :
    (out items : List (String × String)) (k : String)
    → is_dropped k ≡ true
    → get (kept_from out items) k ≡ get out k
unfolding kept_from
get-kept_from_dropped out [] k h = refl
get-kept_from_dropped out ((j, v) ∷ items) k h =
    get-kept_from_dropped (if is_dropped j then out else set out j v) items k h
    ∙ drop_step out j v k h

get-outgoing_headers :
    (settings : Settings) (fresh username : String) (request : Request) (k : String)
    → get (outgoing_headers settings fresh username request) k ≡ (
        if not (is_empty settings.internal_token) && "X-Internal-Token" == k
        then some settings.internal_token
        else if "X-Request-Id" == k
        then some (request_trace_id fresh request.trace_id)
        else if "X-User" == k
        then some username
        else get (kept_from [] request.headers) k)
unfolding outgoing_headers
get-outgoing_headers settings fresh username request k =
    let kept = kept_from [] request.headers in
    let trace = request_trace_id fresh request.trace_id in
    ground (
      arith,
      get-set kept "X-User" k username,
      get-set (set kept "X-User" username) "X-Request-Id" k trace,
      get-set (set (set kept "X-User" username) "X-Request-Id" trace) "X-Internal-Token" k
          settings.internal_token,
    )

get-nil : (k : String) → get {V = String} [] k ≡ none
unfolding get
get-nil k = refl

-- Compared with the names that the Gateway sets, a dropped name is another one.
dropped_name : (k n : String) → is_dropped k ≡ true → is_dropped n ≡ false → (n == k) ≡ false
dropped_name k n h e = elim (Bool-cases (n == k)) [
  | inl same ↦
      let bad : is_dropped n ≡ true =
        subst (λ m. is_dropped m ≡ true) (sym ((eq_iff n k).0 same)) h in
      cc
  | inr other ↦ other
]

own_names :
    (is_dropped "X-User" ≡ false)
    × (is_dropped "X-Request-Id" ≡ false)
    × (is_dropped "X-Internal-Token" ≡ false)
unfolding is_dropped equals_lower
own_names = (refl, refl, refl)

module _ (settings : Settings) (fresh username : String) (request : Request) where
  -- The call that goes out names the authenticated user and the trace id, and carries none of the
  -- headers host, content-length and authorization, in whatever case they are written. The
  -- internal token, if one is set, replaces a header of the same spelling.
  pub outgoing_headers_set :
      (k : String)
      → is_dropped k ≡ true
      → (get (outgoing_headers settings fresh username request) k ≡ none)
        × (get (outgoing_headers settings fresh username request) "X-User" ≡ some username)
        × (get (outgoing_headers settings fresh username request) "X-Request-Id"
            ≡ some (request_trace_id fresh request.trace_id))
        × (get (outgoing_headers settings fresh username request) "X-Internal-Token" ≡ (
            if is_empty settings.internal_token
            then last_from none request.headers "X-Internal-Token"
            else some settings.internal_token))
  outgoing_headers_set k h =
      let (n₁, n₂, n₃) = own_names in
      (
        ground (
          arith,
          get-outgoing_headers settings fresh username request k,
          get-nil k,
          dropped_name k "X-User" h n₁,
          dropped_name k "X-Request-Id" h n₂,
          dropped_name k "X-Internal-Token" h n₃,
          get-kept_from_dropped [] request.headers k h,
        ),
        ground (
          arith,
          get-outgoing_headers settings fresh username request "X-User",
          get-nil "X-User",
        ),
        ground (
          arith,
          get-outgoing_headers settings fresh username request "X-Request-Id",
          get-nil "X-Request-Id",
        ),
        ground (
          arith,
          get-outgoing_headers settings fresh username request "X-Internal-Token",
          get-nil "X-Internal-Token",
          get-kept_from [] request.headers "X-Internal-Token" n₃,
        ),
      )

  -- Every other header of the client goes out as it came, the last one of its name. That includes
  -- the Gateway's own names in any other case, "x-user" among them.
  pub outgoing_headers_kept :
      (k : String)
      → is_dropped k ≡ false
      → k ≢ "X-User"
      → k ≢ "X-Request-Id"
      → k ≢ "X-Internal-Token"
      → get (outgoing_headers settings fresh username request) k ≡ last_from none request.headers k
  outgoing_headers_kept k h n₁ n₂ n₃ = ground (
    arith,
    get-outgoing_headers settings fresh username request k,
    get-kept_from [] request.headers k h,
    get-nil k,
    eq_iff "X-User" k,
    eq_iff "X-Request-Id" k,
    eq_iff "X-Internal-Token" k,
  )
