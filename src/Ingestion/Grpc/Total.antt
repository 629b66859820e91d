-- ===== src/Ingestion/Grpc/Total.antt =====
-- `toGRPCRoutes` returns, without the panic of a nil pointer, on routes whose matches and filters
-- have the fields set that their types name.
use controller_powered_by_di.Base.{
  String, refl, List, [], ◌∷◌, map, All, gather?-total, traverse-total, Bool-cases, inl, inr, any,
}
use controller_powered_by_di.Api
use controller_powered_by_di.Api.{
  ReferenceGrant, Service, Listener, Protocol, HttpRouteRule, HttpRouteMatch, HttpRouteFilter,
  HttpRouteFilterType, HttpBackendRef, GrpcRouteRule, GrpcRouteMatch, GrpcRouteFilter,
  GrpcRouteFilterType,
}
use controller_powered_by_di.Model
use controller_powered_by_di.Model.{FullyQualifiedResource}
use controller_powered_by_di.Model.Hosts.{compute_hosts}
use controller_powered_by_di.Ingestion.Backends.{usable_backends, drop_all_hosts, names_listener}
use controller_powered_by_di.Ingestion.Fits.{
  Present, IfPresent, bind-Present, MethodFits, GrpcFilterFits, to_grpc_path_match-total,
  to_header_filter-total, to_http_request_mirror-total,
}
use controller_powered_by_di.Ingestion.Matches.{to_grpc_path_match}
use controller_powered_by_di.Ingestion.Filters.{to_header_filter, to_http_request_mirror}
use controller_powered_by_di.Ingestion.Http.{RuleFilters, no_filters, rule_route}
use controller_powered_by_di.Ingestion.Grpc.{
  grpc_filter_step, grpc_rule_filters, grpc_match_route, grpc_match_routes, grpc_rule_routes,
  grpc_route_routes, grpc_attached_routes, to_grpc_routes,
}

pub record GrpcRuleFits (r : GrpcRouteRule) : Type 0 where
  pub matches : All (λ m. IfPresent MethodFits m.method) r.matches
  pub filters : All (λ f. GrpcFilterFits f.type f) r.filters

grpc_filter_step-total :
    (ns : String) (found : RuleFilters) (t : GrpcRouteFilterType) (f : GrpcRouteFilter)
    → GrpcFilterFits t f
    → Present (grpc_filter_step ns found t f)
unfolding grpc_filter_step
grpc_filter_step-total ns found GrpcRouteFilterType.request_header_modifier f p =
    bind-Present (to_header_filter f.request_header_modifier) _
      (to_header_filter-total f.request_header_modifier p) (λ _. (_, refl))
grpc_filter_step-total ns found GrpcRouteFilterType.response_header_modifier f p =
    bind-Present (to_header_filter f.response_header_modifier) _
      (to_header_filter-total f.response_header_modifier p) (λ _. (_, refl))
grpc_filter_step-total ns found GrpcRouteFilterType.request_mirror f p =
    bind-Present (to_http_request_mirror f.request_mirror ns) _
      (to_http_request_mirror-total f.request_mirror ns p) (λ _. (_, refl))
grpc_filter_step-total ns found (GrpcRouteFilterType.other _) f p = (_, refl)

grpc_rule_filters-total :
    (ns : String) (found : RuleFilters) (fs : List GrpcRouteFilter)
    → All (λ f. GrpcFilterFits f.type f) fs
    → Present (grpc_rule_filters ns found fs)
unfolding grpc_rule_filters
grpc_rule_filters-total ns found [] _ = (_, refl)
grpc_rule_filters-total ns found (f ∷ fs) (p, ps) =
    bind-Present (grpc_filter_step ns found f.type f) _ (grpc_filter_step-total ns found f.type f p)
      (λ next. grpc_rule_filters-total ns next fs ps)

grpc_match_routes-total :
    (base : Model.HttpRoute) (ms : List GrpcRouteMatch)
    → All (λ m. IfPresent MethodFits m.method) ms
    → Present (grpc_match_routes base ms)
unfolding grpc_match_routes grpc_match_route
grpc_match_routes-total base [] _ = (_, refl)
grpc_match_routes-total base (m ∷ ms) p =
    traverse-total (λ m. IfPresent MethodFits m.method) (grpc_match_route base)
      (λ m f. bind-Present (to_grpc_path_match m) _ (to_grpc_path_match-total m f) (λ _. (_, refl)))
      (m ∷ ms) p

module _ (listener : Listener) (services : List Service) (grants : List ReferenceGrant) where
  grpc_rule_routes-total :
      (ns : String) (hosts : List String) (rule : GrpcRouteRule)
      → GrpcRuleFits rule
      → Present (grpc_rule_routes listener services grants ns hosts rule)
  unfolding grpc_rule_routes
  grpc_rule_routes-total ns hosts rule fits =
      let refs = map (λ be. be.backend_ref) rule.backend_refs in
      let backends = usable_backends "GrpcRoute" ns services grants refs in
      bind-Present (grpc_rule_filters ns no_filters rule.filters) _
        (grpc_rule_filters-total ns no_filters rule.filters fits.filters)
        (λ found.
          grpc_match_routes-total (rule_route hosts backends found) rule.matches fits.matches)

  -- The routes of gRPC routes whose rules fit come out, whatever the listener.
  pub to_grpc_routes-total :
      (input : List Api.GrpcRoute)
      → All (λ r. All GrpcRuleFits r.rules) input
      → Present (to_grpc_routes listener services grants input)
  unfolding to_grpc_routes grpc_attached_routes grpc_route_routes
  to_grpc_routes-total input fits =
      gather?-total (λ r. All GrpcRuleFits r.rules) (grpc_attached_routes listener services grants)
        attached input fits
    where
      of_route :
          (route : Api.GrpcRoute) (hosts : List String)
          → All GrpcRuleFits route.rules
          → Present (grpc_route_routes listener services grants route hosts)
      of_route route [] _ = (_, refl)
      of_route route (h ∷ hs) fits =
          gather?-total GrpcRuleFits
            (grpc_rule_routes listener services grants route.namespace (drop_all_hosts (h ∷ hs)))
            (grpc_rule_routes-total route.namespace (drop_all_hosts (h ∷ hs))) route.rules fits

      attached :
          (route : Api.GrpcRoute)
          → All GrpcRuleFits route.rules
          → Present (grpc_attached_routes listener services grants route)
      attached route fits = elim (Bool-cases (any (names_listener listener) route.parent_refs)) [
        | inl hit ↦ rw hit (of_route route (compute_hosts route.hostnames listener.hostname) fits)
        | inr miss ↦ rw miss ([], refl)
      ]
