-- ===== src/Ingestion/Streams.antt =====
-- pkg/model/ingestion/gateway.go: `toUDPRoutes`, `toTCPRoutes` and `toTLSRoutes`.
pub mod Laws
use controller_powered_by_di.Base.{
  String, Option, List, [], ◌∷◌, ◌++◌, map, if◌then◌else◌, any, gather,
}
use controller_powered_by_di.Api.{ReferenceGrant, Service, Listener, BackendRule, TlsRoute, L4Route}
use controller_powered_by_di.Model
use controller_powered_by_di.Model.Hosts.{compute_hosts}
use controller_powered_by_di.Ingestion.Backends.{usable_backends, names_listener, drop_all_hosts}

module _ (listener : Listener) (services : List Service) (grants : List ReferenceGrant) where
  -- The backends of each rule of an attached TCP or UDP route. The two loops differ in the kind.
  l4_route_backends : String → L4Route → List (List Model.Backend)
  unfolding usable_backends
  l4_route_backends kind route =
      if any (names_listener listener) route.parent_refs
      then map (λ rule. usable_backends kind route.namespace services grants rule.backend_refs)
          route.rules
      else []

  unfoldable pub to_udp_routes : List L4Route → List Model.UdpRoute
  unfolding l4_route_backends
  to_udp_routes input =
      gather (λ route. map (λ b. record { backends = b }) (l4_route_backends "UDPRoute" route))
        input

  unfoldable pub to_tcp_routes : List L4Route → List Model.TcpRoute
  unfolding l4_route_backends
  to_tcp_routes input =
      gather (λ route. map (λ b. record { backends = b }) (l4_route_backends "TCPRoute" route))
        input

  tls_rule_route : String → List String → BackendRule → Model.TlsRoute
  unfolding usable_backends
  tls_rule_route ns hosts rule = record {
    name = "";
    hostnames = hosts;
    backends = usable_backends "TLSRoute" ns services grants rule.backend_refs;
  }

  -- The rules of a route that is attached and shares a hostname, with those hostnames.
  tls_rules_for : TlsRoute → List String → List (List String × BackendRule)
  tls_rules_for route [] = []
  tls_rules_for route (h ∷ hs) = map (λ rule. (drop_all_hosts (h ∷ hs), rule)) route.rules

  unfoldable pub tls_rules : TlsRoute → List (List String × BackendRule)
  unfolding tls_rules_for compute_hosts
  tls_rules route =
      if any (names_listener listener) route.parent_refs
      then tls_rules_for route (compute_hosts route.hostnames listener.hostname)
      else []

  -- The inner loop over the whole input.
  unfoldable pub tls_round : List TlsRoute → List Model.TlsRoute
  unfolding tls_rules tls_rule_route
  tls_round input =
      gather
        (λ route.
          map (λ (hosts, rule). tls_rule_route route.namespace hosts rule) (tls_rules route))
        input

  -- The outer loop runs the inner one for each of its rules; what it computes itself is not used.
  unfoldable pub to_tls_routes : List TlsRoute → List Model.TlsRoute
  unfolding tls_rules tls_round
  to_tls_routes input = gather (λ route. gather (λ _. tls_round input) (tls_rules route)) input
