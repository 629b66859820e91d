-- ===== src/Ingestion/Gateway.antt =====
-- pkg/model/ingestion/gateway.go, `GatewayAPI`, with `toTLS`, `toHostname` and `toMapString`.
-- `none` is the panic of a nil pointer.
pub mod Laws
pub mod Total
use controller_powered_by_di.Base.{
  String, Bool, true, false, not, Option, none, some, List, [], ◌∷◌, ◌++◌, map, ◌>>=◌,
  if◌then◌else◌, keep, deref_or,
}
use controller_powered_by_di.Base.Text.{is_empty}
use controller_powered_by_di.Api
use controller_powered_by_di.Api.{
  ReferenceGrant, SecretObjectReference, ListenerTlsConfig, Protocol, Gateway,
  GatewayInfrastructure,
}
use controller_powered_by_di.Helpers.Kinds.{gateway_v1_gvk, kind_gateway}
use controller_powered_by_di.Helpers.Grants.{namespace_deref_or, is_secret_reference_allowed}
use controller_powered_by_di.Model
use controller_powered_by_di.Model.{FullyQualifiedResource}
use controller_powered_by_di.Model.Hosts.{all_hosts}
use controller_powered_by_di.Ingestion.Http.{to_http_routes}
use controller_powered_by_di.Ingestion.Grpc.{to_grpc_routes}
use controller_powered_by_di.Ingestion.Streams.{to_udp_routes, to_tcp_routes, to_tls_routes}

-- A listener with the object that declares it.
pub record ListenerWithContext : Type 0 where
  pub listener : Api.Listener
  pub source : FullyQualifiedResource

-- The fields of the input that the function reads. `listeners` may be nil.
pub record Input : Type 0 where
  pub gateway : Gateway
  pub listeners : Option (List ListenerWithContext)
  pub http_routes : List Api.HttpRoute
  pub tls_routes : List Api.TlsRoute
  pub grpc_routes : List Api.GrpcRoute
  pub tcp_routes : List Api.L4Route
  pub udp_routes : List Api.L4Route
  pub reference_grants : List ReferenceGrant
  pub services : List Api.Service

unfoldable pub to_tls :
    Option ListenerTlsConfig → List ReferenceGrant → String → Option (List Model.TlsSecret)
unfolding is_secret_reference_allowed namespace_deref_or
to_tls none grants default_namespace = none
to_tls (some tls) grants default_namespace = some (
    map
      (λ cert. record {
        name = cert.name;
        namespace = namespace_deref_or cert.namespace default_namespace;
      })
      (keep
        (λ cert.
          is_secret_reference_allowed default_namespace cert (gateway_v1_gvk kind_gateway) grants)
        tls.certificate_refs))

unfoldable pub to_hostname : Option String → String
to_hostname hostname = deref_or hostname all_hosts

-- A copy of a map that may be nil; the copy is not.
abbrev to_map_string : Option (List (String × String)) → Option (List (String × String))
to_map_string m = some (deref_or m [])

infrastructure_of : Option GatewayInfrastructure → Option Model.Infrastructure
infrastructure_of none = none
infrastructure_of (some i) =
    some (record { labels = to_map_string i.labels; annotations = to_map_string i.annotations })

abbrev gateway_source : Gateway → FullyQualifiedResource
gateway_source g = record {
  name = g.name;
  namespace = g.namespace;
  group = g.group;
  version = g.version;
  kind = g.kind;
  uid = g.uid;
}

abbrev pub no_listeners : Model.Model
no_listeners = record { http = []; tls = []; tcp = []; udp = [] }

module _ (input : Input) where
  http_listener : Api.Listener → FullyQualifiedResource → Option Model.HttpListener
  unfolding infrastructure_of to_hostname to_tls to_http_routes to_grpc_routes
  http_listener l source = do
    http ← to_http_routes l input.services input.reference_grants input.http_routes (some source)
    grpc ← to_grpc_routes l input.services input.reference_grants input.grpc_routes
    some (record {
      name = l.name;
      sources = source ∷ [];
      address = "";
      port = l.port;
      hostname = to_hostname l.hostname;
      tls = to_tls l.tls input.reference_grants input.gateway.namespace;
      routes = http ++ grpc;
      service = none;
      infrastructure = infrastructure_of input.gateway.infrastructure;
      force_http_to_https_redirect = false;
    })

  tls_listener : Api.Listener → FullyQualifiedResource → Model.TlsListener
  unfolding infrastructure_of to_hostname to_tls_routes
  tls_listener l source = record {
    name = l.name;
    sources = source ∷ [];
    address = "";
    port = l.port;
    hostname = to_hostname l.hostname;
    routes = to_tls_routes l input.services input.reference_grants input.tls_routes;
    service = none;
    infrastructure = infrastructure_of input.gateway.infrastructure;
  }

  tcp_listener : Api.Listener → FullyQualifiedResource → Model.TcpListener
  unfolding infrastructure_of to_tcp_routes
  tcp_listener l source = record {
    name = l.name;
    port = l.port;
    sources = source ∷ [];
    routes = to_tcp_routes l input.services input.reference_grants input.tcp_routes;
    infrastructure = infrastructure_of input.gateway.infrastructure;
  }

  udp_listener : Api.Listener → FullyQualifiedResource → Model.UdpListener
  unfolding infrastructure_of to_udp_routes
  udp_listener l source = record {
    name = l.name;
    port = l.port;
    sources = source ∷ [];
    routes = to_udp_routes l input.services input.reference_grants input.udp_routes;
    infrastructure = infrastructure_of input.gateway.infrastructure;
  }

  -- One round of either loop, by the listener's protocol.
  ingest_protocol :
      Protocol → Api.Listener → FullyQualifiedResource → Model.Model → Option Model.Model
  unfolding http_listener tls_listener tcp_listener udp_listener
  ingest_protocol Protocol.udp l source m =
      some (record m { udp = m.udp ++ udp_listener l source ∷ [] })
  ingest_protocol Protocol.tcp l source m =
      some (record m { tcp = m.tcp ++ tcp_listener l source ∷ [] })
  ingest_protocol (Protocol.other _) l source m = some m
  ingest_protocol _ l source m = do
    http ← http_listener l source
    some (record m { http = m.http ++ http ∷ []; tls = m.tls ++ tls_listener l source ∷ [] })

  unfoldable pub ingest_loop : List ListenerWithContext → Model.Model → Option Model.Model
  unfolding ingest_protocol
  ingest_loop [] m = some m
  ingest_loop (c ∷ listeners) m = do
    m' ← ingest_protocol c.listener.protocol c.listener c.source m
    ingest_loop listeners m'

  -- The listener's own source, or the Gateway where that has no name.
  abbrev with_source : ListenerWithContext → ListenerWithContext
  with_source c =
      if is_empty c.source.name then record c { source = gateway_source input.gateway } else c

  -- The listeners that the loops go through: those of the input, or the Gateway's own for a nil list.
  unfoldable pub listeners_of : Option (List ListenerWithContext) → List ListenerWithContext
  listeners_of none =
      map (λ l. record { listener = l; source = gateway_source input.gateway })
        input.gateway.listeners
  listeners_of (some listeners) = map with_source listeners

  unfoldable pub gateway_api : Option Model.Model
  unfolding ingest_loop listeners_of
  gateway_api = ingest_loop (listeners_of input.listeners) no_listeners
