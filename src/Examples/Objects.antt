-- ===== src/Examples/Objects.antt =====
-- The objects that the examples share.
use controller_powered_by_di.Base.{String, Option, none, some, [], ◌∷◌}
use controller_powered_by_di.Api
use controller_powered_by_di.Api.{
  Protocol, ParentReference, BackendObjectReference, BackendRef, Gateway, Service, Condition,
  ReferenceGrant, PathMatchType, HttpPathMatch, HttpRouteMatch, HttpRouteRule, HttpBackendRef,
  BackendRule, TlsRoute, GroupVersionKind, MatchType, HttpRouteFilter, HttpRouteFilterType,
}
use controller_powered_by_di.Model.{FullyQualifiedResource}
use controller_powered_by_di.Ingestion.Gateway.{Input}

abbrev pub to_gateway : ParentReference
to_gateway = record {
  group = none;
  kind = none;
  namespace = none;
  name = "gw";
  section_name = some "web";
  port = none;
}

abbrev pub shop : Service
shop = record { name = "shop"; namespace = "apps"; ports = 80 ∷ [] }

abbrev pub to_service : Option String → String → BackendRef
to_service namespace name = record {
  ref = record { group = none; kind = none; name = name; namespace = namespace; port = some 80 };
  weight = some 1;
}

abbrev pub web : Api.Listener
web = record {
  name = "web";
  hostname = some "*.example.com";
  port = 80;
  protocol = Protocol.http;
  tls = none;
  allowed_routes = none;
}

abbrev pub stream : Api.Listener
stream = record {
  name = "stream";
  hostname = none;
  port = 9000;
  protocol = Protocol.tcp;
  tls = none;
  allowed_routes = none;
}

abbrev pub gw : Gateway
gw = record {
  name = "gw";
  namespace = "apps";
  group = "gateway.networking.k8s.io";
  version = "v1";
  kind = "Gateway";
  uid = "1";
  generation = 1;
  listeners = web ∷ stream ∷ [];
  infrastructure = none;
  conditions = [];
}

abbrev pub source : FullyQualifiedResource
source = record {
  name = "gw";
  namespace = "apps";
  group = "gateway.networking.k8s.io";
  version = "v1";
  kind = "Gateway";
  uid = "1";
}

abbrev pub by_path : HttpRouteMatch
by_path = record {
  path = some (record { type = some PathMatchType.path_prefix; value = some "/shop" });
  headers = (record { type = some MatchType.exact; name = "x"; value = "1" }) ∷ [];
  query_params = [];
  method = some "GET";
}

abbrev mirror_away : HttpRouteFilter
mirror_away = record {
  type = HttpRouteFilterType.other "none";
  request_header_modifier = none;
  response_header_modifier = none;
  request_mirror = none;
  request_redirect = none;
  url_rewrite = none;
  external_auth = none;
}

-- A rule with an existing and a missing service.
abbrev pub rule : HttpRouteRule
rule = record {
  matches = by_path ∷ [];
  filters = mirror_away ∷ [];
  backend_refs =
      (record { backend_ref = to_service none "shop"; filters = [] })
      ∷ (record { backend_ref = to_service (some "other") "shop"; filters = [] })
      ∷ [];
}

abbrev pub route : Api.HttpRoute
route = record {
  name = "shop";
  namespace = "apps";
  generation = 3;
  parent_refs = to_gateway ∷ [];
  hostnames = "shop.example.com" ∷ [];
  rules = rule ∷ [];
  parents = [];
}

abbrev pub tls_route : TlsRoute
tls_route = record {
  name = "tls";
  namespace = "apps";
  generation = 1;
  parent_refs = to_gateway ∷ [];
  hostnames = "a.example.com" ∷ [];
  rules = (record { backend_refs = to_service none "shop" ∷ [] }) ∷ [];
  parents = [];
}

abbrev pub gateway_input : Input
gateway_input = record {
  gateway = gw;
  listeners = none;
  http_routes = route ∷ [];
  tls_routes = tls_route ∷ tls_route ∷ [];
  grpc_routes = [];
  tcp_routes = [];
  udp_routes = [];
  reference_grants = [];
  services = shop ∷ [];
}

abbrev pub grant : ReferenceGrant
grant = record {
  namespace = "other";
  from =
      (record { group = "gateway.networking.k8s.io"; kind = "HTTPRoute"; namespace = "apps" }) ∷ [];
  to = (record { group = ""; kind = "Service"; name = none }) ∷ [];
}

abbrev pub http_route_gvk : GroupVersionKind
http_route_gvk = record { group = "gateway.networking.k8s.io"; version = "v1"; kind = "HTTPRoute" }

abbrev pub accepted : Condition
accepted = record {
  kind = "Accepted";
  status = "True";
  reason = "Accepted";
  message = "";
  observed_generation = 2;
  last_transition_time = 5;
}

abbrev pub rejected_now : Condition
rejected_now = record {
  kind = "Accepted";
  status = "False";
  reason = "NoMatchingParent";
  message = "";
  observed_generation = 3;
  last_transition_time = 9;
}
