-- ===== src/Gateway/Proxy/Access.antt =====
-- Who gets through the Gateway (`proxy_all` of xvector/api/gateway_app.py).
use xvector.Prelude.{
  ℕ, String, ◌≡◌, refl, ◌≢◌, ◌↔◌, ◌⊎◌, inl, inr, Bool, true, false, Option, none, some, arith,
  Option-cases,
}
use xvector.Errors.{Result, ok, err}
use xvector.Auth.{Settings, VerifyReply, parse_bearer, authenticate_via_writer}
use xvector.Gateway.RouterTable.{Target, resolve_target}
use xvector.Gateway.Proxy.{
  Request, Outgoing, Upstream, failed, replied, Response, local, relayed, outgoing, media_type,
  relay, authenticated, forward, with_credentials, proxy_all,
}

module _ (settings : Settings) (ask : String → String → VerifyReply) (fresh : String)
    (send : Outgoing → Upstream) (started : Bool) (request : Request) where
  authenticated-eq-relayed :
      (checked : Result Bool) {answer : Response} {status : ℕ} {content media : String}
      → authenticated settings ask checked answer ≡ relayed status content media
      → (checked ≡ ok true) × (answer ≡ relayed status content media)
  authenticated-eq-relayed (err e) h = ground arith
  authenticated-eq-relayed (ok true) h = (refl, h)
  authenticated-eq-relayed (ok false) h = ground arith

  relay-eq-relayed :
      (u : Upstream) {status : ℕ} {content media : String}
      → relay u ≡ relayed status content media
      → (t : Option String) × (u ≡ replied status content t) × (media_type t ≡ media)
  relay-eq-relayed failed h = ground arith
  relay-eq-relayed (replied status content t) h = (t, ground arith, ground arith)

  forward-eq-relayed :
      (username : String) {status : ℕ} {content media : String}
      → forward settings fresh send started request username ≡ relayed status content media
      → (target : Target) × (resolve_target request.path ≡ some target)
        × (t : Option String) × (send (outgoing settings fresh username target request)
            ≡ replied status content t)
        × (media_type t ≡ media)
  unfolding forward
  forward-eq-relayed username h = elim (Option-cases (resolve_target request.path)) [
    | inl unknown ↦ ground arith
    | inr (target, routed) ↦
        let (t, sent, typed) =
          relay-eq-relayed (send (outgoing settings fresh username target request))
            (ground arith) in
        (target, routed, t, sent, typed)
  ]

  forward-ne-401 :
      (username : String) → forward settings fresh send started request username ≢ local 401 1800
  unfolding forward
  forward-ne-401 username = ground arith

  authenticated-eq-401 :
      (checked : Result Bool) (username : String)
      → (authenticated settings ask checked (forward settings fresh send started request username)
          ≡ local 401 1800)
        ↔ (checked ≡ ok false)
  authenticated-eq-401 (err e) username = ground arith
  authenticated-eq-401 (ok true) username = ground (arith, forward-ne-401 username)
  authenticated-eq-401 (ok false) username = (λ _. refl, λ _. refl)

  unauthorized_cases :
      (o : Option (String × String))
      → (with_credentials settings ask o (forward settings fresh send started request)
          ≡ local 401 1800)
        ↔ ((o ≡ none)
            ⊎ ((c : String × String) × (o ≡ some c)
                × (authenticate_via_writer settings ask c.0 c.1 ≡ ok false)))
  unauthorized_cases none = (λ _. inl refl, λ _. refl)
  unauthorized_cases (some (u, p)) =
      let both = authenticated-eq-401 (authenticate_via_writer settings ask u p) u in
      (
        λ h. inr ((u, p), refl, both.0 h),
        λ k. elim k [
          | inl absent ↦ absurd (cc)
          | inr ((v, q), same, denied) ↦ both.1 (ground arith)
        ],
      )

  -- What has happened when the Gateway passes an answer on.
  pub record IsForwarded (status : ℕ) (content media : String) : Type 0 where
    pub username : String
    pub password : String
    pub parsed : parse_bearer request.authorization ≡ some (username, password)
    pub verified : authenticate_via_writer settings ask username password ≡ ok true
    pub target : Target
    pub routed : resolve_target request.path ≡ some target
    pub content_type : Option String
    pub sent :
        send (outgoing settings fresh username target request) ≡ replied status content content_type
    pub typed : media_type content_type ≡ media

  -- The Gateway passes an answer on only if the bearer token of the request was verified, the
  -- path is in the route table, and this is what the process that the table names answered to the
  -- call made for that user.
  pub proxy_all-relayed :
      (status : ℕ) (content media : String)
      → proxy_all settings ask fresh send started request ≡ relayed status content media
      → IsForwarded status content media
  unfolding proxy_all
  proxy_all-relayed status content media h =
      elim (Option-cases (parse_bearer request.authorization)) [
        | inl absent ↦ ground arith
        | inr ((username, password), parsed) ↦
            let (verified, e) =
              authenticated-eq-relayed (authenticate_via_writer settings ask username password)
                (ground arith) in
            let (target, routed, content_type, sent, typed) = forward-eq-relayed username e in
            record {
              username = username;
              password = password;
              parsed = parsed;
              verified = verified;
              target = target;
              routed = routed;
              content_type = content_type;
              sent = sent;
              typed = typed;
            }
      ]

  -- The Gateway answers 401 exactly when there is no bearer token to read or the check said no.
  pub proxy_all_unauthorized_iff :
      (proxy_all settings ask fresh send started request ≡ local 401 1800) ↔ (
        (parse_bearer request.authorization ≡ none)
        ⊎ ((c : String × String) × (parse_bearer request.authorization ≡ some c)
            × (authenticate_via_writer settings ask c.0 c.1 ≡ ok false)))
  unfolding proxy_all
  proxy_all_unauthorized_iff = unauthorized_cases (parse_bearer request.authorization)
