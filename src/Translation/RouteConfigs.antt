-- ===== src/Translation/RouteConfigs.antt =====
-- pkg/model/translation/envoy_route_configuration.go, and `getEnvoyHTTPRouteConfiguration` of
-- translator.go: the route configurations of the two ports. `none` is a panic.
pub mod References
use controller_powered_by_di.Base.{
  ◌<>◌, ℕ, String, Bool, true, false, ◌&&◌, not, Option, none, some, List, [], ◌∷◌, ◌++◌, ◌==◌,
  ◌>>=◌, if◌then◌else◌, map, traverse, is_nil, is_some, fold, keep, contains,
}
use controller_powered_by_di.Base.Sort.{text_lt}
use controller_powered_by_di.Base.StableSort.{stable_sort}
use controller_powered_by_di.Base.Assoc.{find, upsert}
use controller_powered_by_di.Model
use controller_powered_by_di.Model.{HttpRoute, HttpListener}
use controller_powered_by_di.Translation.Envoy.{VirtualHost, RouteConfiguration}
use controller_powered_by_di.Translation.Infra.{Infra}
use controller_powered_by_di.Translation.VirtualHost.{VirtualHostParameter, new_virtual_host}
use controller_powered_by_di.Translation.BackendPorts.{at, put}
use controller_powered_by_di.Translation.Settings.{DefaultTranslator}

-- The function's callers pass no mutators.
abbrev new_route_configuration : String → List VirtualHost → RouteConfiguration
new_route_configuration name virtual_hosts = record { name = name; virtual_hosts = virtual_hosts }

-- `portHostName` and `hostNamePortRoutes`
abbrev pub PortHosts : Type 0
PortHosts = List (String × List String)

abbrev pub HostRoutes : Type 0
HostRoutes = List (String × List (String × List HttpRoute))

abbrev port_of : HttpListener → String
port_of l = if is_some l.tls then "secure" else "insecure"

add_host : String → HttpRoute → String → PortHosts × HostRoutes → PortHosts × HostRoutes
unfolding find upsert
add_host port r h (hosts, routes) =
    let ports = at h [] routes in
    (
      put port (at port [] hosts ++ h ∷ []) hosts,
      put h (put port (at port [] ports ++ r ∷ []) ports) routes,
    )

-- A route without hostnames has the listener's.
abbrev hosts_of : HttpListener → HttpRoute → List String
hosts_of l r = if is_nil r.hostnames then l.hostname ∷ [] else r.hostnames

add_route : HttpListener → HttpRoute → PortHosts × HostRoutes → PortHosts × HostRoutes
unfolding add_host
add_route l r state = fold (add_host (port_of l) r) (hosts_of l r) state

unfoldable pub hosts_and_routes : List HttpListener → PortHosts × HostRoutes
unfolding add_route
hosts_and_routes listeners = fold (λ l. fold (add_route l) l.routes) listeners ([], [])

-- `m.HTTP[0].Port`
first_port : List HttpListener → Option ℕ
first_port [] = none
first_port (l ∷ listeners) = some l.port

abbrev parameter_for : DefaultTranslator → Bool → String → ℕ → VirtualHostParameter
parameter_for translator redirect h listener_port = record {
  host_names = h ∷ [];
  https_redirect = redirect;
  host_name_suffix_match = translator.host_name_suffix_match;
  listener_port = listener_port;
}

module _ (infra : Infra) (translator : DefaultTranslator) (listeners : List HttpListener)
    (hosts : PortHosts) (routes : HostRoutes) where
  host_for : Bool → String → String → Option VirtualHost
  unfolding first_port new_virtual_host find
  host_for redirect port h = do
    listener_port ← first_port listeners
    new_virtual_host infra (at port [] (at h [] routes))
        (parameter_for translator redirect h listener_port)

  -- The hosts that redirect to the secure port.
  redirected : String → List String
  unfolding find
  redirected port =
      if (port == "insecure") && translator.enforce_https
      then infra.unique (at "secure" [] hosts)
      else []

  is_served : String → String → Bool
  unfolding redirected find
  is_served port h =
      not ((port == "insecure") && contains (redirected port) h)
      && is_some (find (λ a b. a == b) port (at h [] routes))

  unfoldable pub configuration_for : String → Option (List RouteConfiguration)
  unfolding host_for redirected is_served find stable_sort text_lt
  configuration_for port = elim (find (λ a b. a == b) port hosts) [
    | none ↦ some (
        if (port == "insecure") && not (is_nil listeners)
        then new_route_configuration "listener-insecure" [] ∷ []
        else [])
    | some names ↦ do
      first ← traverse (host_for true "secure") (redirected port)
      second ← traverse (host_for false port) (keep (is_served port) (infra.unique names))
      some (
          new_route_configuration ("listener-" <> port)
            (stable_sort (λ a b. text_lt a.name b.name) (first ++ second))
          ∷ [])
  ]

unfoldable pub get_envoy_http_route_configuration :
    Infra → DefaultTranslator → Model.Model → Option (List RouteConfiguration)
unfolding hosts_and_routes configuration_for
get_envoy_http_route_configuration infra translator m =
    let (hosts, routes) = hosts_and_routes m.http in
    do
      insecure ← configuration_for infra translator m.http hosts routes "insecure"
      secure ← configuration_for infra translator m.http hosts routes "secure"
      some (insecure ++ secure)
