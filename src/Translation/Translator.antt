-- ===== src/Translation/Translator.antt =====
-- pkg/model/translation/translator.go: the translation of a model to the configuration of Envoy.
-- `none` is a panic.
pub mod Ports
use controller_powered_by_di.Base.{
  ◌<>◌, ℕ, ◌%◌, ◌^◌, String, Bool, true, false, Option, none, some, List, [], ◌∷◌, ◌++◌, ◌==◌, ◌&&◌,
  ◌>>=◌, if◌then◌else◌, map, gather, is_nil, fold, any, num_eq, ltb, deref_or,
}
use controller_powered_by_di.Base.Sort.{text_lt}
use controller_powered_by_di.Base.StableSort.{stable_sort}
use controller_powered_by_di.Base.NumberSets.{insert_new}
use controller_powered_by_di.Base.Assoc.{find, upsert}
use controller_powered_by_di.Model
use controller_powered_by_di.Model.{
  HttpListener, TlsListener, TlsRoute, TcpListener, TcpRoute, TlsSecret, Backend,
}
use controller_powered_by_di.Model.Ports.{backend_port, get_port}
use controller_powered_by_di.Translation.Infra.{Infra}
use controller_powered_by_di.Translation.Actions.{get_cluster_name}
use controller_powered_by_di.Translation.BackendPorts.{at, put, get_namespace_name_ports_map}
use controller_powered_by_di.Translation.Clusters.{Cluster, get_clusters}
use controller_powered_by_di.Translation.Listeners.{
  Listener, TlsPassthroughBackend, SecretHostnames, PassthroughBackends, new_listener_with_defaults,
  new_tcp_listener_with_defaults, with_proxy_protocol,
}
use controller_powered_by_di.Translation.RouteConfigs.{get_envoy_http_route_configuration}
use controller_powered_by_di.Translation.Settings.{DefaultTranslator, XdsResource}

-- The records of the API of Envoy's configuration.
pub record BackendService : Type 0 where
  pub name : String
  pub namespace : String
  pub ports : List String

pub record ServiceListener : Type 0 where
  pub name : String
  pub namespace : String
  pub ports : List ℕ

pub record OwnerReference : Type 0 where
  pub kind : String
  pub name : String
  pub uid : String

pub record DolphinEnvoyConfig : Type 0 where
  pub name : String
  pub namespace : String
  pub labels : List (String × String)
  pub owner_references : List OwnerReference
  pub backend_services : List BackendService
  pub services : List ServiceListener
  pub resources : List XdsResource

-- One namespace and name has one entry, so the ports of two entries are never compared.
abbrev service_before : BackendService → BackendService → Bool
unfolding text_lt
service_before a b =
    if a.namespace == b.namespace then text_lt a.name b.name else text_lt a.namespace b.namespace

unfoldable pub get_backend_services : Infra → Model.Model → List BackendService
unfolding service_before get_namespace_name_ports_map stable_sort
get_backend_services infra m = stable_sort service_before (
    gather
      (λ (ns, names).
        map (λ (name, ports). record { name = name; namespace = ns; ports = ports }) names)
      (get_namespace_name_ports_map infra m))

-- The set of the ports, without zero and cut to 16 bits.
unfoldable pub add_port : ℕ → List ℕ → List ℕ
unfolding insert_new
add_port port ports = if num_eq port 0 then ports else insert_new (port % 2 ^ 16) ports

unfoldable pub all_ports : Model.Model → List ℕ
all_ports m = map (λ l. l.port) m.http ++ (map (λ l. l.port) m.tls ++ map (λ l. l.port) m.tcp)

unfoldable pub get_services : DefaultTranslator → Model.Model → List ServiceListener
unfolding add_port all_ports stable_sort
get_services translator m =
    record {
      name = translator.name;
      namespace = translator.namespace;
      ports = stable_sort ltb (fold add_port (all_ports m) []);
    }
    ∷ []

secret_eq : TlsSecret → TlsSecret → Bool
secret_eq a b = (a.name == b.name) && (a.namespace == b.namespace)

add_hostname : String → TlsSecret → SecretHostnames → SecretHostnames
unfolding find upsert secret_eq
add_hostname hostname s m = upsert secret_eq s (deref_or (find secret_eq s m) [] ++ hostname ∷ []) m

-- A listener without TLS has no secrets.
unfoldable pub tls_secrets_to_hostnames : List HttpListener → SecretHostnames
unfolding add_hostname
tls_secrets_to_hostnames listeners =
    fold (λ h. fold (add_hostname h.hostname) (deref_or h.tls [])) listeners []

-- The prefix is of the last route with a hostname.
prefix_for : String → List String → String → String
prefix_for name [] stat_prefix = stat_prefix
prefix_for name (h ∷ hostnames) stat_prefix = name <> (":" <> h)

-- A backend without a port panics.
add_passthrough : String → TlsRoute → Backend → PassthroughBackends → Option PassthroughBackends
unfolding prefix_for get_cluster_name get_port find upsert
add_passthrough name r be m = do
  port ← be.port
  let key = get_cluster_name be.namespace be.name (get_port port)
  let entry = at key (record { hostnames = []; stat_prefix = "" }) m
  some (
      put key
        (record {
          hostnames = entry.hostnames ++ r.hostnames;
          stat_prefix = prefix_for name r.hostnames entry.stat_prefix;
        })
        m)

each : {A S : Type 0} → (A → S → Option S) → List A → S → Option S
each f [] s = some s
each f (a ∷ xs) s = do s' ← f a s; each f xs s'

unfoldable pub tls_passthrough_backends_to_hostnames : List TlsListener → Option PassthroughBackends
unfolding add_passthrough each
tls_passthrough_backends_to_hostnames listeners =
    each (λ l. each (λ r. each (add_passthrough l.name r) r.backends) l.routes) listeners []

-- The cluster of the first route with backends; none where its first backend has no port.
first_cluster : List TcpRoute → Option String
unfolding backend_port get_cluster_name
first_cluster [] = none
first_cluster (r ∷ routes) = elim r.backends [
  | [] ↦ first_cluster routes
  | be ∷ _ ↦ do port ← be.port; some (get_cluster_name be.namespace be.name (get_port port))
]

abbrev tcp_route_listener : TcpListener → List Listener
unfolding first_cluster new_tcp_listener_with_defaults
tcp_route_listener l = elim (first_cluster l.routes) [
  | none ↦ []
  | some cluster ↦ new_tcp_listener_with_defaults "tcp-listener" l.port cluster [] ∷ []
]

unfoldable pub get_tcp_route_listeners : Model.Model → List Listener
unfolding tcp_route_listener
get_tcp_route_listeners m = gather tcp_route_listener m.tcp

module _ (infra : Infra) (hops : ℕ) (translator : DefaultTranslator) where
  unfoldable pub get_listener : Model.Model → Option (List Listener)
  unfolding tls_passthrough_backends_to_hostnames tls_secrets_to_hostnames
      new_listener_with_defaults
  get_listener m = if is_nil m.http && is_nil m.tls then some [] else (do
    backends ← tls_passthrough_backends_to_hostnames m.tls
    some (
        new_listener_with_defaults infra hops "listener" translator.secrets_namespace
          (if is_nil m.http then false else true) (tls_secrets_to_hostnames m.http) backends
          translator.ipv4_enabled translator.ipv6_enabled
          (if translator.use_proxy_protocol then with_proxy_protocol ∷ [] else [])
        ∷ []))

  abbrev cluster_resource? : Option Cluster → XdsResource
  cluster_resource? none = XdsResource.empty_resource
  cluster_resource? (some c) = XdsResource.cluster_resource c

  unfoldable pub get_resources : Model.Model → Option (List XdsResource)
  unfolding get_listener get_envoy_http_route_configuration get_clusters get_tcp_route_listeners
  get_resources m = do
    listener ← get_listener m
    configurations ← get_envoy_http_route_configuration infra translator m
    some (
        map XdsResource.listener_resource listener
        ++ (map XdsResource.route_resource configurations
            ++ (map cluster_resource? (
                  get_clusters infra translator.secrets_namespace translator.idle_timeout_seconds m)
                ++ map XdsResource.listener_resource (get_tcp_route_listeners m))))

  unfoldable pub translate : Model.Model → Option DolphinEnvoyConfig
  unfolding get_backend_services get_services get_resources
  translate m = do
    resources ← get_resources m
    some (record {
      name = translator.name;
      namespace = translator.namespace;
      labels = (infra.use_original_source_address_label, "false") ∷ [];
      owner_references = [];
      backend_services = get_backend_services infra m;
      services = get_services translator m;
      resources = resources;
    })
