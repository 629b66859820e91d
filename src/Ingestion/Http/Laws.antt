-- ===== src/Ingestion/Http/Laws.antt =====
-- What is true of every route that `toHTTPRoutes` and `toGRPCRoutes` return.
use controller_powered_by_di.Base.{
  String, ◌≡◌, ◌≢◌, ◌⊎◌, refl, sym, Option, none, some, List, [], ◌∷◌, map, >>=-eq-some, some_inj,
  All, All-gather?, All-traverse, Bool-cases, inl, inr,
}
use controller_powered_by_di.Api
use controller_powered_by_di.Api.{
  BackendRef, ReferenceGrant, Service, Listener, HttpRouteRule, HttpRouteMatch,
}
use controller_powered_by_di.Model
use controller_powered_by_di.Model.{FullyQualifiedResource}
use controller_powered_by_di.Model.Hosts.{compute_hosts}
use controller_powered_by_di.Ingestion.Backends.{
  usable_backends, direct_response_for, drop_all_hosts,
}
use controller_powered_by_di.Ingestion.Backends.Laws.{Resolved, usable_backends-Resolved}
use controller_powered_by_di.Ingestion.Matches.{to_path_match, to_header_match}
use controller_powered_by_di.Ingestion.Http.{
  is_attached, no_filters, rule_route, rule_filters, match_route, match_routes,
  backend_http_filters, rule_routes, route_routes, attached_routes, to_http_routes,
}

-- A route with no backend answers with status 500 and an empty body, any other by its backends.
abbrev pub Answers : List Model.Backend → Option Model.DirectResponse → Type 0
Answers backends response =
    ((backends ≡ []) × (response ≡ some (record { status_code = 500; body = "" })))
    ⊎ ((backends ≢ []) × (response ≡ none))

-- A route whose backends can be sent traffic to, and that answers.
pub record Served (services : List Service) (r : Model.HttpRoute) : Type 0 where
  pub resolved : All (Resolved services) r.backends
  pub answer : Answers r.backends r.direct_response
  pub no_method : r.method ≡ none
  pub no_backend_filters : r.backend_http_filters ≡ []

direct_response_for-Answers :
    (backends : List Model.Backend) → Answers backends (direct_response_for backends)
unfolding direct_response_for
direct_response_for-Answers [] = inl (refl, refl)
direct_response_for-Answers (b ∷ bs) = inr (λ e. cc, refl)

-- What a match leaves of the route it is added to.
module _ {ℓ} (P : Model.HttpRoute → Type ℓ)
    (stable : (base r : Model.HttpRoute) (m : HttpRouteMatch)
      → match_route base m ≡ some r
      → P base
      → P r) where
  match_routes-All :
      (base : Model.HttpRoute) (ms : List HttpRouteMatch) (rs : List Model.HttpRoute)
      → P base
      → match_routes base ms ≡ some rs
      → All P rs
  unfolding match_routes
  match_routes-All base [] rs p e = rw (sym (some_inj e)) (p, tt)
  match_routes-All base (m ∷ ms) rs p e =
      All-traverse P (match_route base) (λ m r e. stable base r m e p) (m ∷ ms) rs e

-- The matches are added to the route, and the rest of it stays.
match_route-Served :
    (services : List Service) (base r : Model.HttpRoute) (m : HttpRouteMatch)
    → match_route base m ≡ some r
    → Served services base
    → Served services r
unfolding match_route
match_route-Served services base r m e s =
    let (path, _, e1) = >>=-eq-some (to_path_match m) _ e in
    let (headers, _, e2) = >>=-eq-some (to_header_match m) _ e1 in
    rw (sym (some_inj e2)) (record {
      resolved = s.resolved;
      answer = s.answer;
      no_method = s.no_method;
      no_backend_filters = s.no_backend_filters;
    })

module _ (listener : Listener) (services : List Service) (grants : List ReferenceGrant) where
  rule_routes-Served :
      (ns : String) (hosts : List String) (rule : HttpRouteRule) (routes : List Model.HttpRoute)
      → rule_routes listener services grants ns hosts rule ≡ some routes
      → All (Served services) routes
  unfolding rule_routes
  rule_routes-Served ns hosts rule routes e =
      let refs = map (λ be. be.backend_ref) rule.backend_refs in
      let (_, _, e1) =
        >>=-eq-some (backend_http_filters ns services grants rule.backend_refs) _ e in
      let (found, _, e2) = >>=-eq-some (rule_filters listener ns no_filters rule.filters) _ e1 in
      let backends = usable_backends "HttpRoute" ns services grants refs in
      match_routes-All (Served services) (match_route-Served services)
        (rule_route hosts backends found) rule.matches routes
        (record {
          resolved = usable_backends-Resolved "HttpRoute" ns services grants refs;
          answer = direct_response_for-Answers backends;
          no_method = refl;
          no_backend_filters = refl;
        })
        e2

  -- Whatever the listener, the grants and the services: every backend of every route that comes
  -- out has an existing service of its name and namespace, and a port; the route answers with
  -- status 500 where it has no backend, and only there; and it has no method and no backend
  -- filters, whatever the matches and the backends of the input ask for.
  pub to_http_routes-Served :
      (input : List Api.HttpRoute) (source : Option FullyQualifiedResource)
      (routes : List Model.HttpRoute)
      → to_http_routes listener services grants input source ≡ some routes
      → All (Served services) routes
  unfolding to_http_routes attached_routes route_routes
  to_http_routes-Served input source routes e =
      All-gather? (Served services) (attached_routes listener services grants source) attached input
        routes e
    where
      of_route :
          (route : Api.HttpRoute) (hosts : List String) (rs : List Model.HttpRoute)
          → route_routes listener services grants route hosts ≡ some rs
          → All (Served services) rs
      of_route route [] rs e = rw (sym (some_inj e)) tt
      of_route route (h ∷ hs) rs e =
          All-gather? (Served services)
            (rule_routes listener services grants route.namespace (drop_all_hosts (h ∷ hs)))
            (rule_routes-Served route.namespace (drop_all_hosts (h ∷ hs))) route.rules rs e

      attached :
          (route : Api.HttpRoute) (rs : List Model.HttpRoute)
          → attached_routes listener services grants source route ≡ some rs
          → All (Served services) rs
      attached route rs e = elim (Bool-cases (is_attached listener source route)) [
        | inl hit ↦
            of_route route (compute_hosts route.hostnames listener.hostname) rs (rw hit at e)
        | inr miss ↦ rw (sym (some_inj (rw miss at e))) tt
      ]
