-- ===== src/Ingestion/Grpc.antt =====
-- pkg/model/ingestion/gateway.go, `toGRPCRoutes`. `none` is the panic of a nil pointer.
pub mod Total
use controller_powered_by_di.Base.{
  String, Bool, true, Option, none, some, List, [], ◌∷◌, ◌++◌, map, ◌>>=◌, if◌then◌else◌, any,
  gather?, traverse,
}
use controller_powered_by_di.Api.{
  ReferenceGrant, Service, Listener, GrpcRouteFilter, GrpcRouteFilterType, GrpcRouteMatch,
  GrpcRouteRule, GrpcRoute,
}
use controller_powered_by_di.Model
use controller_powered_by_di.Model.Hosts.{compute_hosts}
use controller_powered_by_di.Ingestion.Backends.{
  usable_backends, direct_response_for, names_listener, drop_all_hosts,
}
use controller_powered_by_di.Ingestion.Filters.{to_header_filter, to_http_request_mirror}
use controller_powered_by_di.Ingestion.Matches.{to_grpc_path_match, to_grpc_header_match}
use controller_powered_by_di.Ingestion.Http.{RuleFilters, no_filters, rule_route}

unfoldable pub grpc_filter_step :
    String → RuleFilters → GrpcRouteFilterType → GrpcRouteFilter → Option RuleFilters
unfolding to_header_filter to_http_request_mirror
grpc_filter_step ns found GrpcRouteFilterType.request_header_modifier f = do
  filter ← to_header_filter f.request_header_modifier
  some (record found { request_header = some filter })
grpc_filter_step ns found GrpcRouteFilterType.response_header_modifier f = do
  filter ← to_header_filter f.response_header_modifier
  some (record found { response_header = some filter })
grpc_filter_step ns found GrpcRouteFilterType.request_mirror f = do
  mirror ← to_http_request_mirror f.request_mirror ns
  some (record found { mirrors = found.mirrors ++ mirror ∷ [] })
grpc_filter_step ns found (GrpcRouteFilterType.other _) f = some found

unfoldable pub grpc_rule_filters : String → RuleFilters → List GrpcRouteFilter → Option RuleFilters
unfolding grpc_filter_step
grpc_rule_filters ns found [] = some found
grpc_rule_filters ns found (f ∷ filters) = do
  found' ← grpc_filter_step ns found f.type f
  grpc_rule_filters ns found' filters

unfoldable pub grpc_match_route : Model.HttpRoute → GrpcRouteMatch → Option Model.HttpRoute
unfolding to_grpc_path_match to_grpc_header_match
grpc_match_route base match = do
  path ← to_grpc_path_match match
  some (record base {
    path_match = path;
    headers_match = to_grpc_header_match match;
    is_grpc = true;
  })

-- The route of a rule with no match is not marked as gRPC.
unfoldable pub grpc_match_routes :
    Model.HttpRoute → List GrpcRouteMatch → Option (List Model.HttpRoute)
unfolding grpc_match_route
grpc_match_routes base [] = some (base ∷ [])
grpc_match_routes base (m ∷ ms) = traverse (grpc_match_route base) (m ∷ ms)

module _ (listener : Listener) (services : List Service) (grants : List ReferenceGrant) where
  unfoldable pub grpc_rule_routes :
      String → List String → GrpcRouteRule → Option (List Model.HttpRoute)
  unfolding usable_backends grpc_rule_filters direct_response_for grpc_match_routes
  grpc_rule_routes ns hosts rule = do
    let backends =
        usable_backends "GrpcRoute" ns services grants
          (map (λ be. be.backend_ref) rule.backend_refs)
    found ← grpc_rule_filters ns no_filters rule.filters
    grpc_match_routes (rule_route hosts backends found) rule.matches

  unfoldable pub grpc_route_routes : GrpcRoute → List String → Option (List Model.HttpRoute)
  unfolding grpc_rule_routes
  grpc_route_routes route [] = some []
  grpc_route_routes route (h ∷ hs) =
      gather? (grpc_rule_routes route.namespace (drop_all_hosts (h ∷ hs))) route.rules

  unfoldable pub grpc_attached_routes : GrpcRoute → Option (List Model.HttpRoute)
  unfolding grpc_route_routes compute_hosts
  grpc_attached_routes route =
      if any (names_listener listener) route.parent_refs
      then grpc_route_routes route (compute_hosts route.hostnames listener.hostname)
      else some []

  unfoldable pub to_grpc_routes : List GrpcRoute → Option (List Model.HttpRoute)
  unfolding grpc_attached_routes
  to_grpc_routes input = gather? grpc_attached_routes input
