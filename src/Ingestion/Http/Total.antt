-- ===== src/Ingestion/Http/Total.antt =====
-- `toHTTPRoutes` returns, without the panic of a nil pointer, on routes whose matches and filters
-- have the fields set that their types name.
use controller_powered_by_di.Base.{
  String, refl, Option, List, [], ◌∷◌, map, keep, All, All-keep, gather?-total, traverse-total,
  Bool-cases, inl, inr, Bool,
}
use controller_powered_by_di.Api
use controller_powered_by_di.Api.{
  ReferenceGrant, Service, Listener, Protocol, HttpRouteRule, HttpRouteMatch, HttpRouteFilter,
  HttpRouteFilterType, HttpBackendRef, GrpcRouteRule, GrpcRouteMatch, GrpcRouteFilter,
  GrpcRouteFilterType,
}
use controller_powered_by_di.Model
use controller_powered_by_di.Model.{FullyQualifiedResource}
use controller_powered_by_di.Model.Hosts.{compute_hosts}
use controller_powered_by_di.Ingestion.Backends.{is_usable, usable_backends, drop_all_hosts}
use controller_powered_by_di.Ingestion.Fits.{
  Present, bind-Present, MatchFits, FilterFits, to_path_match-total, to_header_match-total,
  to_header_filter-total, to_http_request_mirror-total, to_http_request_redirect_filter-total,
  to_http_rewrite_filter-total,
}
use controller_powered_by_di.Ingestion.Matches.{to_path_match, to_header_match}
use controller_powered_by_di.Ingestion.Filters.{
  to_header_filter, to_http_request_mirror, to_http_request_redirect_filter, to_http_rewrite_filter,
}
use controller_powered_by_di.Ingestion.Http.{
  is_attached, backend_filter, filter_name, backend_http_filters, RuleFilters, no_filters,
  filter_step, rule_filters, rule_route, match_route, match_routes, rule_routes, route_routes,
  attached_routes, to_http_routes,
}

pub record RuleFits (r : HttpRouteRule) : Type 0 where
  pub matches : All MatchFits r.matches
  pub filters : All (λ f. FilterFits f.type f) r.filters
  pub backends : All (λ b. All (λ f. FilterFits f.type f) b.filters) r.backend_refs

backend_filter-total :
    (t : HttpRouteFilterType) (f : HttpRouteFilter) (name : String)
    → FilterFits t f
    → Present (backend_filter t f name)
unfolding backend_filter
backend_filter-total HttpRouteFilterType.request_header_modifier f name p =
    bind-Present (to_header_filter f.request_header_modifier) _
      (to_header_filter-total f.request_header_modifier p) (λ _. (_, refl))
backend_filter-total HttpRouteFilterType.response_header_modifier f name p =
    bind-Present (to_header_filter f.response_header_modifier) _
      (to_header_filter-total f.response_header_modifier p) (λ _. (_, refl))
backend_filter-total HttpRouteFilterType.request_redirect f name p = (_, refl)
backend_filter-total HttpRouteFilterType.url_rewrite f name p = (_, refl)
backend_filter-total HttpRouteFilterType.request_mirror f name p = (_, refl)
backend_filter-total HttpRouteFilterType.external_auth f name p = (_, refl)
backend_filter-total (HttpRouteFilterType.other _) f name p = (_, refl)

backend_http_filters-total :
    (ns : String) (services : List Service) (grants : List ReferenceGrant)
    (refs : List HttpBackendRef)
    → All (λ b. All (λ f. FilterFits f.type f) b.filters) refs
    → Present (backend_http_filters ns services grants refs)
unfolding backend_http_filters
backend_http_filters-total ns services grants refs p =
    gather?-total (λ b. All (λ f. FilterFits f.type f) b.filters) _
      (λ be fs.
        gather?-total (λ f. FilterFits f.type f) _
          (λ f fits. backend_filter-total f.type f (filter_name be.backend_ref ns) fits) be.filters
          fs)
      (keep usable refs) (All-keep _ usable refs p)
  where
    usable : HttpBackendRef → Bool
    usable be = is_usable "HttpRoute" ns services grants be.backend_ref

filter_step-total :
    (listener : Listener) (ns : String) (found : RuleFilters) (t : HttpRouteFilterType)
    (f : HttpRouteFilter)
    → FilterFits t f
    → Present (filter_step listener ns found t f)
unfolding filter_step
filter_step-total l ns found HttpRouteFilterType.request_header_modifier f p =
    bind-Present (to_header_filter f.request_header_modifier) _
      (to_header_filter-total f.request_header_modifier p) (λ _. (_, refl))
filter_step-total l ns found HttpRouteFilterType.response_header_modifier f p =
    bind-Present (to_header_filter f.response_header_modifier) _
      (to_header_filter-total f.response_header_modifier p) (λ _. (_, refl))
filter_step-total l ns found HttpRouteFilterType.request_redirect f p =
    bind-Present (to_http_request_redirect_filter l f.request_redirect) _
      (to_http_request_redirect_filter-total l f.request_redirect p) (λ _. (_, refl))
filter_step-total l ns found HttpRouteFilterType.url_rewrite f p =
    bind-Present (to_http_rewrite_filter f.url_rewrite) _
      (to_http_rewrite_filter-total f.url_rewrite p) (λ _. (_, refl))
filter_step-total l ns found HttpRouteFilterType.request_mirror f p =
    bind-Present (to_http_request_mirror f.request_mirror ns) _
      (to_http_request_mirror-total f.request_mirror ns p) (λ _. (_, refl))
filter_step-total l ns found HttpRouteFilterType.external_auth f p = (_, refl)
filter_step-total l ns found (HttpRouteFilterType.other _) f p = (_, refl)

rule_filters-total :
    (listener : Listener) (ns : String) (found : RuleFilters) (fs : List HttpRouteFilter)
    → All (λ f. FilterFits f.type f) fs
    → Present (rule_filters listener ns found fs)
unfolding rule_filters
rule_filters-total l ns found [] _ = (_, refl)
rule_filters-total l ns found (f ∷ fs) (p, ps) =
    bind-Present (filter_step l ns found f.type f) _ (filter_step-total l ns found f.type f p)
      (λ next. rule_filters-total l ns next fs ps)

match_routes-total :
    (base : Model.HttpRoute) (ms : List HttpRouteMatch)
    → All MatchFits ms
    → Present (match_routes base ms)
unfolding match_routes match_route
match_routes-total base [] _ = (_, refl)
match_routes-total base (m ∷ ms) p =
    traverse-total MatchFits (match_route base)
      (λ m f.
        bind-Present (to_path_match m) _ (to_path_match-total m f)
          (λ _. bind-Present (to_header_match m) _ (to_header_match-total m f) (λ _. (_, refl))))
      (m ∷ ms) p

module _ (listener : Listener) (services : List Service) (grants : List ReferenceGrant) where
  rule_routes-total :
      (ns : String) (hosts : List String) (rule : HttpRouteRule)
      → RuleFits rule
      → Present (rule_routes listener services grants ns hosts rule)
  unfolding rule_routes
  rule_routes-total ns hosts rule fits =
      let refs = map (λ be. be.backend_ref) rule.backend_refs in
      let backends = usable_backends "HttpRoute" ns services grants refs in
      bind-Present (backend_http_filters ns services grants rule.backend_refs) _
        (backend_http_filters-total ns services grants rule.backend_refs fits.backends)
        (λ _.
          bind-Present (rule_filters listener ns no_filters rule.filters) _
            (rule_filters-total listener ns no_filters rule.filters fits.filters)
            (λ found.
              match_routes-total (rule_route hosts backends found) rule.matches fits.matches))

  -- The routes of routes whose rules fit come out, whatever the listener and the attachment.
  pub to_http_routes-total :
      (input : List Api.HttpRoute) (source : Option FullyQualifiedResource)
      → All (λ r. All RuleFits r.rules) input
      → Present (to_http_routes listener services grants input source)
  unfolding to_http_routes attached_routes route_routes
  to_http_routes-total input source fits =
      gather?-total (λ r. All RuleFits r.rules) (attached_routes listener services grants source)
        attached input fits
    where
      of_route :
          (route : Api.HttpRoute) (hosts : List String)
          → All RuleFits route.rules
          → Present (route_routes listener services grants route hosts)
      of_route route [] _ = (_, refl)
      of_route route (h ∷ hs) fits =
          gather?-total RuleFits
            (rule_routes listener services grants route.namespace (drop_all_hosts (h ∷ hs)))
            (rule_routes-total route.namespace (drop_all_hosts (h ∷ hs))) route.rules fits

      attached :
          (route : Api.HttpRoute)
          → All RuleFits route.rules
          → Present (attached_routes listener services grants source route)
      attached route fits = elim (Bool-cases (is_attached listener source route)) [
        | inl hit ↦ rw hit (of_route route (compute_hosts route.hostnames listener.hostname) fits)
        | inr miss ↦ rw miss ([], refl)
      ]
