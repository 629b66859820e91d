-- ===== src/Translation/VirtualHost.antt =====
-- pkg/model/translation/envoy_virtual_host.go: a virtual host, with its routes in the order in which
-- Envoy tries them. `none` is a panic.
pub mod Order
pub mod References
pub mod Total
use controller_powered_by_di.Base.{
  ◌<>◌, ℕ, String, Bool, true, false, ◌&&◌, not, Option, none, some, List, [], ◌∷◌, ◌++◌, ◌==◌,
  ◌>>=◌, if◌then◌else◌, map, gather, traverse, deref_or, is_nil, is_some, length,
}
use controller_powered_by_di.Base.Strings.{byte_len, join_host_port}
use controller_powered_by_di.Base.StableSort.{by_largest, stable_sort}
use controller_powered_by_di.Base.Assoc.{find, upsert, remove}
use controller_powered_by_di.Model.{HttpRoute, BackendHttpFilter, Backend}
use controller_powered_by_di.Model.MatchKey.{get_match_key}
use controller_powered_by_di.Translation.Envoy.{
  PathSpecifier, RouteMatch, Route, VirtualHost, Action, SchemeRewrite, RedirectAction,
  RedirectResponseCode, HeaderChanges, no_changes,
}
use controller_powered_by_di.Translation.Infra.{Infra}
use controller_powered_by_di.Translation.Matchers.{get_route_match}
use controller_powered_by_di.Translation.Headers.{header_changes, append_changes}
use controller_powered_by_di.Translation.Actions.{get_route_action, get_route_redirect}

pub record VirtualHostParameter : Type 0 where
  pub host_names : List String
  pub https_redirect : Bool
  pub host_name_suffix_match : Bool
  pub listener_port : ℕ

-- `len` of what the accessors of a match give.
abbrev path_len : PathSpecifier → ℕ
unfolding byte_len
path_len (PathSpecifier.path p) = byte_len p
path_len _ = 0

abbrev regex_len : PathSpecifier → ℕ
unfolding byte_len
regex_len (PathSpecifier.safe_regex r) = byte_len r
regex_len _ = 0

abbrev prefix_len : PathSpecifier → ℕ
unfolding byte_len
prefix_len (PathSpecifier.prefix p) = byte_len p
prefix_len _ = 0

abbrev separated_len : PathSpecifier → ℕ
unfolding byte_len
separated_len (PathSpecifier.path_separated_prefix p) = byte_len p
separated_len _ = 0

-- `SortableRoute.Less`
unfoldable pub less : Infra → Route → Route → Bool
unfolding path_len regex_len prefix_len separated_len
less infra =
    by_largest (λ r. path_len r.match.path_specifier)
      (by_largest (λ r. regex_len r.match.path_specifier)
        (by_largest
          (λ r.
            infra.int_max (separated_len r.match.path_specifier)
              (prefix_len r.match.path_specifier))
          (by_largest (λ r. length r.match.headers)
            (by_largest (λ r. length r.match.query_parameters) (λ a b. false)))))

-- `sort.Stable(routes)` reads every route of a list of two or more through its pointer.
unfoldable pub sort_routes : Infra → List (Option Route) → Option (List (Option Route))
unfolding less stable_sort
sort_routes infra [] = some []
sort_routes infra (r ∷ []) = some (r ∷ [])
sort_routes infra (r ∷ (s ∷ routes)) = do
  present ← traverse (λ o. o) (r ∷ (s ∷ routes))
  some (map some (stable_sort (less infra) present))

-- The routes by their match keys. The computation of a key sorts the matches of the route.
group_routes :
    List (String × HttpRoute) → List (String × List HttpRoute) → List (String × List HttpRoute)
unfolding find upsert
group_routes [] groups = groups
group_routes ((k, r) ∷ routes) groups =
    group_routes routes
      (upsert (λ a b. a == b) k (deref_or (find (λ a b. a == b) k groups) [] ++ r ∷ []) groups)

-- The loop over the routes, for what a step makes of a route and its group: an Envoy route, and
-- whether the group is deleted.
unfoldable pub group_loop :
    (HttpRoute → List HttpRoute → Option (Option Route × Bool))
    → List (String × HttpRoute)
    → List (String × List HttpRoute)
    → Option (List (Option Route))
unfolding find remove
group_loop step [] groups = some []
group_loop step ((k, r) ∷ routes) groups = elim (find (λ a b. a == b) k groups) [
  | none ↦ group_loop step routes groups
  | some group ↦ do
    made ← step r group
    rest ← group_loop step routes (if made.1 then remove (λ a b. a == b) k groups else groups)
    some (made.0 ∷ rest)
]

abbrev keyed : List HttpRoute → List (String × HttpRoute)
unfolding get_match_key
keyed routes = map get_match_key routes

unfoldable pub envoy_http_route_no_backend : HttpRoute → List String → Bool → Option Route
unfolding get_route_match
envoy_http_route_no_backend route hostnames suffix_match = elim route.direct_response [
  | none ↦ none
  | some response ↦ some (record {
    match =
        get_route_match hostnames suffix_match route.path_match route.headers_match
          route.query_params_match route.method;
    action = Action.direct_response response.status_code response.body;
    changes = no_changes;
  })
]

abbrev https_action : Action
https_action = Action.redirect (record {
  scheme_rewrite = some SchemeRewrite.https_redirect;
  host_redirect = "";
  port_redirect = 0;
  response_code = RedirectResponseCode.moved_permanently;
  path_rewrite = none;
})

-- The query matches stand where the header matches are expected, and the other way round.
https_step : List String → Bool → HttpRoute → List HttpRoute → Option (Option Route × Bool)
unfolding get_route_match
https_step hostnames suffix_match r [] = none
https_step hostnames suffix_match r (h ∷ _) = some (
  some (record {
    match =
        get_route_match hostnames suffix_match h.path_match h.query_params_match h.headers_match
          h.method;
    action = https_action;
    changes = no_changes;
  }),
  true,
)

unfoldable pub envoy_https_routes :
    List HttpRoute → List String → Bool → Option (List (Option Route))
unfolding keyed group_loop group_routes https_step
envoy_https_routes http_routes hostnames suffix_match =
    group_loop (https_step hostnames suffix_match) (keyed http_routes)
      (group_routes (keyed http_routes) [])

-- With one backend, the changes of its filters are appended.
filter_changes : List Backend → List BackendHttpFilter → HeaderChanges → HeaderChanges
unfolding append_changes header_changes
filter_changes (be ∷ []) [] changes = changes
filter_changes (be ∷ []) (f ∷ filters) changes =
    filter_changes (be ∷ []) filters
      (append_changes changes (header_changes f.request_header_filter f.response_header_modifier))
filter_changes backends filters changes = changes

route_action : HttpRoute → HttpRoute → List Backend → ℕ → Option Action
unfolding get_route_action get_route_redirect
route_action r h backends listener_port = elim h.request_redirect [
  | none ↦ do
    action ← get_route_action r backends r.backend_http_filters r.rewrite r.request_mirrors
    some (Action.route action)
  | some redirect ↦ some (Action.redirect (get_route_redirect redirect listener_port))
]

-- A group without a backend is not deleted.
http_step : List String → Bool → ℕ → HttpRoute → List HttpRoute → Option (Option Route × Bool)
unfolding get_route_match filter_changes route_action header_changes envoy_http_route_no_backend
http_step hostnames suffix_match listener_port r [] = none
http_step hostnames suffix_match listener_port r (h ∷ group) =
    let backends = gather (λ route. route.backends) (h ∷ group) in
    if is_nil backends && not (is_some h.request_redirect)
    then some (envoy_http_route_no_backend h hostnames suffix_match, false)
    else (do
      action ← route_action r h backends listener_port
      some (
        some (record {
          match =
              get_route_match hostnames suffix_match h.path_match h.headers_match
                h.query_params_match h.method;
          action = action;
          changes =
              filter_changes backends h.backend_http_filters
                (header_changes h.request_header_filter h.response_header_modifier);
        }),
        true,
      ))

unfoldable pub envoy_http_routes :
    List HttpRoute → List String → Bool → ℕ → Option (List (Option Route))
unfolding keyed group_loop group_routes http_step
envoy_http_routes http_routes hostnames suffix_match listener_port =
    group_loop (http_step hostnames suffix_match listener_port) (keyed http_routes)
      (group_routes (keyed http_routes) [])

-- The star alone, where it is among the hosts.
domains_loop : List String → List String → List String
unfolding join_host_port
domains_loop domains [] = domains
domains_loop domains (host ∷ hosts) =
    let rest = domains_loop (domains ++ host ∷ (join_host_port host "*" ∷ [])) hosts in
    if host == "*" then "*" ∷ [] else rest

host_with : List String → List (Option Route) → Option VirtualHost
host_with [] routes = none
host_with (name ∷ names) routes =
    some (record { name = name; domains = name ∷ names; routes = routes })

unfoldable pub routes_for : List HttpRoute → VirtualHostParameter → Option (List (Option Route))
unfolding envoy_http_routes envoy_https_routes
routes_for http_routes param =
    if param.https_redirect
    then envoy_https_routes http_routes param.host_names param.host_name_suffix_match
    else envoy_http_routes http_routes param.host_names param.host_name_suffix_match
        param.listener_port

-- Its callers pass no mutators.
unfoldable pub new_virtual_host : Infra → List HttpRoute → VirtualHostParameter → Option VirtualHost
unfolding routes_for sort_routes domains_loop host_with
new_virtual_host infra http_routes param = do
  routes ← routes_for http_routes param
  ordered ← sort_routes infra routes
  host_with (domains_loop [] param.host_names) ordered
