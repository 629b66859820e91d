-- ===== src/Translation/Actions.antt =====
-- pkg/model/translation/envoy_virtual_host.go: the actions of a route. `none` is the panic of a
-- backend without a port.
pub mod References
pub mod Total
use controller_powered_by_di.Base.{
  ◌<>◌, ℕ, String, Bool, true, false, ◌||◌, Option, none, some, List, [], ◌∷◌, ◌==◌, ◌>>=◌,
  if◌then◌else◌, traverse, deref_or, is_nil, is_some, num_eq, ltb,
}
use controller_powered_by_di.Base.Text.{is_empty}
use controller_powered_by_di.Base.Strings.{quote_meta}
use controller_powered_by_di.Base.Assoc.{find, upsert}
use controller_powered_by_di.Model.{
  StringMatch, HttpRoute, HttpUrlRewriteFilter, HttpRequestMirror, HttpRequestRedirectFilter,
  Backend, BackendHttpFilter, Timeout,
}
use controller_powered_by_di.Model.Ports.{backend_port}
use controller_powered_by_di.Translation.Envoy.{
  RouteAction, RegexRewrite, RequestMirrorPolicy, ClusterSpecifier, ClusterWeight, RedirectAction,
  RedirectResponseCode, SchemeRewrite, PathRewrite, no_changes,
}
use controller_powered_by_di.Translation.Headers.{header_changes}

-- `fmt.Sprintf("%s:%s:%s", ns, name, port)`
unfoldable pub get_cluster_name : String → String → String → String
get_cluster_name ns name port = ns <> (":" <> (name <> (":" <> port)))

-- The name of the cluster of a backend.
unfoldable pub backend_cluster : Backend → Option String
unfolding backend_port get_cluster_name
backend_cluster be = do port ← backend_port be; some (get_cluster_name be.namespace be.name port)

unfoldable pub host_rewrite_mutation : Option HttpUrlRewriteFilter → RouteAction → RouteAction
host_rewrite_mutation none r = r
host_rewrite_mutation (some rewrite) r = elim rewrite.host_name [
  | none ↦ r
  | some h ↦ record r { host_rewrite_literal = some h }
]

replace_prefix : StringMatch → HttpRoute → RouteAction → RouteAction
unfolding quote_meta
replace_prefix path http_route r =
    if is_empty path.exact
    then (if is_empty path.regex
        then (if is_empty path.prefix || path.prefix == "/"
            then record r {
              regex_rewrite = some (record {
                regex = "^" <> (quote_meta http_route.path_match.prefix <> "(/?)(.*)");
                substitution = "/\\2";
              });
            }
            else record r { prefix_rewrite = path.prefix })
        else r)
    else r

unfoldable pub path_prefix_mutation :
    Option HttpUrlRewriteFilter → HttpRoute → RouteAction → RouteAction
unfolding replace_prefix
path_prefix_mutation none http_route r = r
path_prefix_mutation (some rewrite) http_route r = elim rewrite.path [
  | none ↦ r
  | some path ↦ replace_prefix path http_route r
]

unfoldable pub path_full_replace_mutation : Option HttpUrlRewriteFilter → RouteAction → RouteAction
path_full_replace_mutation none r = r
path_full_replace_mutation (some rewrite) r = elim rewrite.path [
  | none ↦ r
  | some path ↦
      if is_empty path.exact
      then r
      else record r { regex_rewrite = some (record { regex = "^/.*$"; substitution = path.exact }) }
]

-- The mirrors that have a backend.
mirror_policies : List HttpRequestMirror → Option (List RequestMirrorPolicy)
unfolding backend_cluster
mirror_policies [] = some []
mirror_policies (m ∷ mirrors) = do
  rest ← mirror_policies mirrors
  elim m.backend [
    | none ↦ some rest
    | some be ↦ do
      name ← backend_cluster be
      some (record { cluster = name; numerator = 100 } ∷ rest)
  ]

unfoldable pub request_mirror_mutation : List HttpRequestMirror → RouteAction → Option RouteAction
unfolding mirror_policies
request_mirror_mutation mirrors r =
    if is_nil mirrors
    then some r
    else (do action ← mirror_policies mirrors; some (record r { request_mirror_policies = action }))

-- The shorter of the timeouts that are given.
unfoldable pub timeout_mutation : Option ℕ → Option ℕ → RouteAction → RouteAction
timeout_mutation none none r = r
timeout_mutation none (some request) r = record r { timeout = some request }
timeout_mutation (some backend) none r = record r { timeout = some backend }
timeout_mutation (some backend) (some request) r = record r {
  timeout = some (if ltb request backend then request else backend);
}

-- The list of mutators, applied in their order.
mutate :
    HttpRoute
    → Option HttpUrlRewriteFilter
    → List HttpRequestMirror
    → RouteAction
    → Option RouteAction
unfolding host_rewrite_mutation path_prefix_mutation path_full_replace_mutation
    request_mirror_mutation timeout_mutation
mutate route rewrite mirrors r = do
  mirrored ← request_mirror_mutation mirrors (
      path_full_replace_mutation rewrite
        (path_prefix_mutation rewrite route (host_rewrite_mutation rewrite r)))
  some (timeout_mutation route.timeout.backend route.timeout.request mirrored)

-- The map of the filters by name.
filter_map :
    List BackendHttpFilter → List (String × BackendHttpFilter) → List (String × BackendHttpFilter)
unfolding upsert
filter_map [] m = m
filter_map (f ∷ filters) m = filter_map filters (upsert (λ a b. a == b) f.name f m)

cluster_weight : List (String × BackendHttpFilter) → Backend → Option ClusterWeight
unfolding backend_cluster header_changes find
cluster_weight filters be = do
  name ← backend_cluster be
  some (record {
    name = name;
    weight = deref_or be.weight 1;
    changes = elim (find (λ a b. a == b) name filters) [
      | none ↦ no_changes
      | some f ↦ header_changes f.request_header_filter f.response_header_modifier
    ];
  })

abbrev action_to : ClusterSpecifier → Option ℕ → RouteAction
action_to specifier max_stream = record {
  cluster_specifier = specifier;
  max_stream_duration = max_stream;
  host_rewrite_literal = none;
  regex_rewrite = none;
  prefix_rewrite = "";
  request_mirror_policies = [];
  timeout = none;
}

-- One backend is a cluster; any other number of them are weighted clusters.
clusters_for : List Backend → List BackendHttpFilter → Option RouteAction
unfolding backend_cluster cluster_weight filter_map
clusters_for (be ∷ []) filters = do
  name ← backend_cluster be
  some (action_to (ClusterSpecifier.cluster name) (some 0))
clusters_for backends filters = do
  clusters ← traverse (cluster_weight (filter_map filters [])) backends
  some (action_to (ClusterSpecifier.weighted_clusters clusters) none)

unfoldable pub get_route_action :
    HttpRoute
    → List Backend
    → List BackendHttpFilter
    → Option HttpUrlRewriteFilter
    → List HttpRequestMirror
    → Option RouteAction
unfolding clusters_for mutate
get_route_action route backends filters rewrite mirrors = do
  r ← clusters_for backends filters
  mutate route rewrite mirrors r

unfoldable pub to_redirect_response_code : ℕ → RedirectResponseCode
to_redirect_response_code code =
    if num_eq code 301
    then RedirectResponseCode.moved_permanently
    else if num_eq code 302
    then RedirectResponseCode.found
    else if num_eq code 303
    then RedirectResponseCode.see_other
    else if num_eq code 307
    then RedirectResponseCode.temporary_redirect
    else if num_eq code 308
    then RedirectResponseCode.permanent_redirect
    else RedirectResponseCode.moved_permanently

-- The port where the redirect names none.
unfoldable pub default_port : Option String → ℕ → ℕ
default_port none listener_port = listener_port
default_port (some scheme) listener_port =
    if scheme == "https" then 443 else if scheme == "http" then 80 else 0

-- The path that is set last wins.
path_rewrite_for : StringMatch → Option PathRewrite
path_rewrite_for path =
    if is_empty path.exact
    then (if is_empty path.prefix then none else some (PathRewrite.prefix_rewrite path.prefix))
    else some (PathRewrite.path_redirect path.exact)

unfoldable pub get_route_redirect : HttpRequestRedirectFilter → ℕ → RedirectAction
unfolding default_port to_redirect_response_code path_rewrite_for
get_route_redirect r listener_port = record {
  scheme_rewrite = elim r.scheme [ none ↦ none | some s ↦ some (SchemeRewrite.scheme_redirect s) ];
  host_redirect = deref_or r.hostname "";
  port_redirect = deref_or r.port (default_port r.scheme listener_port);
  response_code = elim r.status_code [
    | none ↦ RedirectResponseCode.moved_permanently
    | some code ↦ to_redirect_response_code code
  ];
  path_rewrite = elim r.path [ none ↦ none | some path ↦ path_rewrite_for path ];
}
