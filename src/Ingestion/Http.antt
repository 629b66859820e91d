-- ===== src/Ingestion/Http.antt =====
-- pkg/model/ingestion/gateway.go, `toHTTPRoutes`. `none` is the panic of a nil pointer.
pub mod Laws
pub mod Total
use controller_powered_by_di.Base.{
  ◌<>◌, String, Bool, true, false, ◌&&◌, ◌||◌, not, Option, none, some, List, [], ◌∷◌, ◌++◌, map,
  ◌>>=◌, ◌==◌, if◌then◌else◌, any, keep, gather?, traverse, is_nil, is_some, some_and, deref_or,
}
use controller_powered_by_di.Base.Decimal.{itoa}
use controller_powered_by_di.Api.{
  ParentReference, BackendRef, ReferenceGrant, Service, Listener, HttpRouteFilter,
  HttpRouteFilterType, HttpBackendRef, HttpRouteMatch, HttpRouteRule, HttpRoute,
}
use controller_powered_by_di.Helpers.Kinds.{is_gateway, is_listener_set, kind_gateway}
use controller_powered_by_di.Helpers.Grants.{namespace_deref_or}
use controller_powered_by_di.Model
use controller_powered_by_di.Model.{FullyQualifiedResource, no_match}
use controller_powered_by_di.Model.Hosts.{compute_hosts}
use controller_powered_by_di.Ingestion.Backends.{
  is_usable, usable_backends, direct_response_for, names_listener, drop_all_hosts,
}
use controller_powered_by_di.Ingestion.Filters.{
  to_header_filter, to_http_request_mirror, to_http_request_redirect_filter, to_http_rewrite_filter,
}
use controller_powered_by_di.Ingestion.Matches.{to_path_match, to_header_match, to_query_match}

-- Whether a parent reference that names the listener is one to the listener's owner.
refers_to_source : Option FullyQualifiedResource → String → ParentReference → Bool
unfolding is_gateway is_listener_set namespace_deref_or
refers_to_source none route_namespace ref =
    is_gateway ref || (not (is_some ref.kind) && not (is_some ref.group))
refers_to_source (some source) route_namespace ref =
    if source.kind == kind_gateway
    then is_gateway ref || (not (is_some ref.kind) && not (is_some ref.group))
    else if is_listener_set ref
    then namespace_deref_or ref.namespace route_namespace == source.namespace
      && ref.name == source.name
    else false

unfoldable pub is_attached : Listener → Option FullyQualifiedResource → HttpRoute → Bool
unfolding refers_to_source
is_attached listener source route =
    any (λ ref. names_listener listener ref && refers_to_source source route.namespace ref)
      route.parent_refs

-- The name of a backend's filter, `namespace:name:port`.
unfoldable pub filter_name : BackendRef → String → String
unfolding itoa namespace_deref_or
filter_name be route_namespace =
    namespace_deref_or be.namespace route_namespace
    <> (":" <> (be.name <> (":" <> itoa (deref_or be.port 0))))

unfoldable pub backend_filter :
    HttpRouteFilterType → HttpRouteFilter → String → Option (List Model.BackendHttpFilter)
unfolding to_header_filter
backend_filter HttpRouteFilterType.request_header_modifier f name = do
  filter ← to_header_filter f.request_header_modifier
  some (
      (record { name = name; request_header_filter = some filter; response_header_modifier = none })
      ∷ [])
backend_filter HttpRouteFilterType.response_header_modifier f name = do
  filter ← to_header_filter f.response_header_modifier
  some (
      (record { name = name; request_header_filter = none; response_header_modifier = some filter })
      ∷ [])
backend_filter _ f name = some []

-- The filters of the usable backends. The code collects them and does not use them.
unfoldable pub backend_http_filters :
    String
    → List Service
    → List ReferenceGrant
    → List HttpBackendRef
    → Option (List Model.BackendHttpFilter)
unfolding backend_filter filter_name
backend_http_filters route_namespace services grants refs =
    gather?
      (λ be.
        gather? (λ f. backend_filter f.type f (filter_name be.backend_ref route_namespace))
          be.filters)
      (keep (λ be. is_usable "HttpRoute" route_namespace services grants be.backend_ref) refs)

-- What the loop over a rule's filters has found so far.
pub record RuleFilters : Type 0 where
  pub request_header : Option Model.HttpHeaderFilter
  pub response_header : Option Model.HttpHeaderFilter
  pub redirect : Option Model.HttpRequestRedirectFilter
  pub rewrite : Option Model.HttpUrlRewriteFilter
  pub mirrors : List Model.HttpRequestMirror

abbrev pub no_filters : RuleFilters
no_filters = record {
  request_header = none;
  response_header = none;
  redirect = none;
  rewrite = none;
  mirrors = [];
}

unfoldable pub filter_step :
    Listener → String → RuleFilters → HttpRouteFilterType → HttpRouteFilter → Option RuleFilters
unfolding to_header_filter to_http_request_mirror to_http_request_redirect_filter
    to_http_rewrite_filter
filter_step listener ns found HttpRouteFilterType.request_header_modifier f = do
  filter ← to_header_filter f.request_header_modifier
  some (record found { request_header = some filter })
filter_step listener ns found HttpRouteFilterType.response_header_modifier f = do
  filter ← to_header_filter f.response_header_modifier
  some (record found { response_header = some filter })
filter_step listener ns found HttpRouteFilterType.request_redirect f = do
  redirect ← to_http_request_redirect_filter listener f.request_redirect
  some (record found { redirect = redirect })
filter_step listener ns found HttpRouteFilterType.url_rewrite f = do
  rewrite ← to_http_rewrite_filter f.url_rewrite
  some (record found { rewrite = rewrite })
filter_step listener ns found HttpRouteFilterType.request_mirror f = do
  mirror ← to_http_request_mirror f.request_mirror ns
  some (record found { mirrors = found.mirrors ++ mirror ∷ [] })
filter_step listener ns found HttpRouteFilterType.external_auth f = some found
filter_step listener ns found (HttpRouteFilterType.other _) f = some found

unfoldable pub rule_filters :
    Listener → String → RuleFilters → List HttpRouteFilter → Option RuleFilters
unfolding filter_step
rule_filters listener ns found [] = some found
rule_filters listener ns found (f ∷ filters) = do
  found' ← filter_step listener ns found f.type f
  rule_filters listener ns found' filters

-- The zero value of a route.
abbrev pub zero_route : Model.HttpRoute
zero_route = record {
  name = "";
  hostnames = [];
  path_match = no_match;
  headers_match = [];
  query_params_match = [];
  method = none;
  backends = [];
  backend_http_filters = [];
  direct_response = none;
  response_header_match = none;
  response_header_modifier = none;
  request_header_filter = none;
  request_redirect = none;
  rewrite = none;
  request_mirrors = [];
  is_grpc = false;
  timeout = record { request = none; backend = none };
}

-- The route of a rule without its match.
abbrev pub rule_route : List String → List Model.Backend → RuleFilters → Model.HttpRoute
rule_route hosts backends found = record zero_route {
  hostnames = hosts;
  backends = backends;
  direct_response = direct_response_for backends;
  request_header_filter = found.request_header;
  response_header_modifier = found.response_header;
  request_mirrors = found.mirrors;
  request_redirect = found.redirect;
  rewrite = found.rewrite;
}

unfoldable pub match_route : Model.HttpRoute → HttpRouteMatch → Option Model.HttpRoute
unfolding to_path_match to_header_match to_query_match
match_route base match = do
  path ← to_path_match match
  headers ← to_header_match match
  some (record base {
    path_match = path;
    headers_match = headers;
    query_params_match = to_query_match match;
  })

-- A rule with no match gives one route, any other one for each match.
unfoldable pub match_routes : Model.HttpRoute → List HttpRouteMatch → Option (List Model.HttpRoute)
unfolding match_route
match_routes base [] = some (base ∷ [])
match_routes base (m ∷ ms) = traverse (match_route base) (m ∷ ms)

module _ (listener : Listener) (services : List Service) (grants : List ReferenceGrant) where
  unfoldable pub rule_routes : String → List String → HttpRouteRule → Option (List Model.HttpRoute)
  unfolding usable_backends backend_http_filters rule_filters direct_response_for match_routes
  rule_routes ns hosts rule = do
    let backends =
        usable_backends "HttpRoute" ns services grants
          (map (λ be. be.backend_ref) rule.backend_refs)
    unused ← backend_http_filters ns services grants rule.backend_refs
    found ← rule_filters listener ns no_filters rule.filters
    match_routes (rule_route hosts backends found) rule.matches

  -- The routes of one route, for the hostnames that it shares with the listener.
  unfoldable pub route_routes : HttpRoute → List String → Option (List Model.HttpRoute)
  unfolding rule_routes
  route_routes route [] = some []
  route_routes route (h ∷ hs) =
      gather? (rule_routes route.namespace (drop_all_hosts (h ∷ hs))) route.rules

  unfoldable pub attached_routes :
      Option FullyQualifiedResource → HttpRoute → Option (List Model.HttpRoute)
  unfolding is_attached route_routes compute_hosts
  attached_routes source route =
      if is_attached listener source route
      then route_routes route (compute_hosts route.hostnames listener.hostname)
      else some []

  unfoldable pub to_http_routes :
      List HttpRoute → Option FullyQualifiedResource → Option (List Model.HttpRoute)
  unfolding attached_routes
  to_http_routes input source = gather? (attached_routes source) input
