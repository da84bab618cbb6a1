-- ===== src/Gateway/Proxy.antt =====
-- xvector/gateway/proxy.py and the two authenticated endpoints of xvector/api/gateway_app.py. The
-- HTTP client is a function from the call that goes out to what comes back.
pub mod Headers
pub mod Access
use xvector.Prelude.{
  ℕ, String, Bool, true, false, ◌||◌, Option, none, some, List, [], ◌∷◌, if◌then◌else◌,
}
use xvector.Errors.{Result, ok, err}
use xvector.Text.{is_empty, equals_lower}
use xvector.Dict.{set}
use xvector.Auth.{Settings, VerifyReply, parse_bearer, authenticate_via_writer}
use xvector.Gateway.RouterTable.{Target, resolve_target}

-- `headers` are the items of Starlette's header map; `trace_id` is the attribute of
-- `request.state`, if it is a text.
pub record Request : Type 0 where
  pub path : String
  pub query : String
  pub method : String
  pub authorization : Option String
  pub headers : List (String × String)
  pub trace_id : Option String
  pub body : String

-- The call to the Writer or the Reader; its URL is the base of the target, the path and the query.
pub record Outgoing : Type 0 where
  pub target : Target
  pub path : String
  pub query : String
  pub method : String
  pub headers : List (String × String)
  pub body : String

pub data Upstream : Type 0 where
  failed : Upstream
  replied : (status : ℕ) (content : String) (content_type : Option String) → Upstream

-- An answer of the Gateway's own (an HTTP status and the body's code), the answer of `auth`, or
-- one that is passed on.
pub data Response : Type 0 where
  local : (status code : ℕ) → Response
  welcome : (username : String) → Response
  relayed : (status : ℕ) (content media_type : String) → Response

-- if k.lower() not in {"host", "content-length", "authorization"}
unfoldable pub is_dropped : String → Bool
is_dropped k =
    equals_lower k "host" || equals_lower k "content-length" || equals_lower k "authorization"

-- the dict comprehension over request.headers.items()
unfoldable pub kept_from : List (String × String) → List (String × String) → List (String × String)
kept_from out [] = out
kept_from out ((k, v) ∷ items) = kept_from (if is_dropped k then out else set out k v) items

-- headers.get(name, default) where the default is a fresh id
unfoldable pub request_trace_id : String → Option String → String
request_trace_id fresh none = fresh
request_trace_id fresh (some id) = if is_empty id then fresh else id

abbrev pub with_token : String → List (String × String) → List (String × String)
with_token token headers = if is_empty token then headers else set headers "X-Internal-Token" token

unfoldable pub outgoing_headers : Settings → String → String → Request → List (String × String)
outgoing_headers settings fresh username request = with_token settings.internal_token (
    set (set (kept_from [] request.headers) "X-User" username) "X-Request-Id"
      (request_trace_id fresh request.trace_id))

unfoldable pub outgoing : Settings → String → String → Target → Request → Outgoing
outgoing settings fresh username target request = record {
  target = target;
  path = request.path;
  query = request.query;
  method = request.method;
  headers = outgoing_headers settings fresh username request;
  body = request.body;
}

abbrev pub media_type : Option String → String
media_type none = "application/json"
media_type (some t) = t

abbrev pub relay : Upstream → Response
relay failed = local 500 2000
relay (replied status content content_type) = relayed status content (media_type content_type)

module _ (settings : Settings) (fresh : String) (send : Outgoing → Upstream) where
  abbrev pub forward_to : Request → String → Option Target → Response
  forward_to request username none = local 404 100
  forward_to request username (some target) =
      relay (send (outgoing settings fresh username target request))

  -- `started` tells whether the client is there.
  unfoldable pub forward : Bool → Request → String → Response
  forward started request username =
      if started then forward_to request username (resolve_target request.path) else local 500 2000

module _ (settings : Settings) (ask : String → String → VerifyReply) where
  -- what both endpoints do before they answer
  abbrev pub authenticated : Result Bool → Response → Response
  authenticated (err e) answer = local 500 2000
  authenticated (ok false) answer = local 401 1800
  authenticated (ok true) answer = answer

  abbrev pub with_credentials : Option (String × String) → (String → Response) → Response
  with_credentials none answer = local 401 1800
  with_credentials (some (username, password)) answer =
      authenticated (authenticate_via_writer settings ask username password) (answer username)

  -- POST /v2/vectordb/auth
  unfoldable pub auth : Request → Response
  auth request = with_credentials (parse_bearer request.authorization) welcome

  -- /v2/vectordb/{full_path:path}
  unfoldable pub proxy_all : String → (Outgoing → Upstream) → Bool → Request → Response
  proxy_all fresh send started request =
      with_credentials (parse_bearer request.authorization)
        (forward settings fresh send started request)
