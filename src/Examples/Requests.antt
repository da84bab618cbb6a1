-- ===== src/Examples/Requests.antt =====
-- Requests to a Gateway whose Writer verifies everybody and whose processes answer everything.
use Prim.Native.String.{◌++◌}
use xvector.Prelude.{
  String, ◌≡◌, refl, true, false, none, some, [], ◌∷◌, arith, ◌⊎◌, ◌↔◌, if◌then◌else◌, eq_iff,
}
use xvector.Errors.{ok}
use xvector.Text.{is_empty, equals_lower, strip, lstrip, rstrip, is_space, split_once, after}
use xvector.Dict.{get}
use xvector.Auth.{
  Settings, VerifyReply, answered, parse_bearer, parse_parts, authenticate_via_writer,
  bootstrap_matches,
}
use xvector.Auth.Bearer.{parse_bearer_roundtrip}
use xvector.Gateway.Routes.{Handler}
use xvector.Gateway.RouterTable.{
  reader, prefix, resolve_target, resolve_suffix, absolute, route_table,
}
use xvector.Gateway.RouterTable.Served.{routes_of, resolve_target_iff}
use xvector.Gateway.Proxy.{
  Request, Outgoing, Upstream, replied, local, relayed, is_dropped, request_trace_id,
  outgoing_headers, proxy_all, forward,
}
use xvector.Gateway.Proxy.Headers.{last_from, outgoing_headers_set, outgoing_headers_kept}
use xvector.Gateway.Proxy.Access.{IsForwarded, proxy_all-relayed, proxy_all_unauthorized_iff}

abbrev settings : Settings
settings = record {
  username = "root";
  password = "secret";
  internal_token = "token";
  env_username = none;
  env_password = none;
}

abbrev request : Request
request = record {
  path = "/v2/vectordb/collections/list";
  query = "";
  method = "POST";
  authorization = some "Bearer ann:pw";
  headers = ("host", "gateway") ∷ ("x-user", "root") ∷ ("accept", "*/*") ∷ [];
  trace_id = some "t1";
  body = "{}";
}

abbrev ask : String → String → VerifyReply
ask username password = answered 200 true

abbrev send : Outgoing → Upstream
send call = replied 200 "[]" none

listed : proxy_all settings ask "t0" send true request ≡ relayed 200 "[]" "application/json"
unfolding proxy_all parse_bearer parse_parts split_once equals_lower strip lstrip rstrip is_space
    authenticate_via_writer bootstrap_matches forward resolve_target resolve_suffix after get
    route_table absolute
listed = refl

proxy_all-relayed_example :
    IsForwarded settings ask "t0" send true request 200 "[]" "application/json"
proxy_all-relayed_example =
    proxy_all-relayed settings ask "t0" send true request 200 "[]" "application/json" listed

proxy_all_unauthorized_iff_example :
    (proxy_all settings ask "t0" send true request ≡ local 401 1800) ↔ (
      (parse_bearer request.authorization ≡ none)
      ⊎ ((c : String × String) × (parse_bearer request.authorization ≡ some c)
          × (authenticate_via_writer settings ask c.0 c.1 ≡ ok false)))
proxy_all_unauthorized_iff_example = proxy_all_unauthorized_iff settings ask "t0" send true request

resolve_target_iff_example :
    (resolve_target (prefix ++ "/" ++ "collections/list") ≡ some reader)
    ↔ ((h : Handler) × (get (routes_of reader) ("/" ++ "collections/list") ≡ some h))
resolve_target_iff_example = resolve_target_iff reader "collections/list"

outgoing_headers_set_example :
    (get (outgoing_headers settings "t0" "ann" request) "Host" ≡ none)
    × (get (outgoing_headers settings "t0" "ann" request) "X-User" ≡ some "ann")
    × (get (outgoing_headers settings "t0" "ann" request) "X-Request-Id"
        ≡ some (request_trace_id "t0" request.trace_id))
    × (get (outgoing_headers settings "t0" "ann" request) "X-Internal-Token" ≡ (
        if is_empty settings.internal_token
        then last_from none request.headers "X-Internal-Token"
        else some settings.internal_token))
outgoing_headers_set_example =
    outgoing_headers_set settings "t0" "ann" request "Host" (unfold is_dropped equals_lower in refl)

outgoing_headers_kept_example :
    get (outgoing_headers settings "t0" "ann" request) "x-user"
    ≡ last_from none request.headers "x-user"
outgoing_headers_kept_example =
    outgoing_headers_kept settings "t0" "ann" request "x-user"
      (unfold is_dropped equals_lower in refl) (ground (arith, eq_iff "x-user" "X-User"))
      (ground (arith, eq_iff "x-user" "X-Request-Id"))
      (ground (arith, eq_iff "x-user" "X-Internal-Token"))

parse_bearer_roundtrip_example :
    parse_bearer (some ("Bearer " ++ "ann" ++ ":" ++ "p:w")) ≡ some ("ann", "p:w")
parse_bearer_roundtrip_example =
    parse_bearer_roundtrip "ann" "p:w" (refl, (refl, (refl, tt))) (unfold is_space in refl)
      (unfold is_space in refl)
