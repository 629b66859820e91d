-- ===== src/Translation/Clusters.antt =====
-- pkg/model/translation/envoy_cluster.go and `getClusters` of translator.go: the clusters of the
-- backends.
pub mod Members
use controller_powered_by_di.Base.{
  ◌<>◌, ℕ, String, Bool, true, false, Option, none, some, List, [], ◌∷◌, ◌++◌, ◌==◌, if◌then◌else◌,
  map, gather, fold, is_some, deref_or,
}
use controller_powered_by_di.Base.Sort.{sort_texts}
use controller_powered_by_di.Base.Assoc.{find, upsert}
use controller_powered_by_di.Model
use controller_powered_by_di.Model.{HttpRoute, HttpListener}
use controller_powered_by_di.Translation.Infra.{Infra}
use controller_powered_by_di.Translation.Actions.{get_cluster_name}
use controller_powered_by_di.Translation.BackendPorts.{
  NamespaceNamePorts, put, get_namespace_name_ports_map_for_http,
  get_namespace_name_ports_map_for_tls, get_namespace_name_ports_map_for_tcp,
}

-- The messages of Envoy's API, with the fields that the arguments decide: the discovery by EDS and
-- the largest version of TLS are the same in every cluster. `round_robin` is the policy that is
-- passed, and the zero value as well.
pub data LbPolicy : Type 0 where
  round_robin : LbPolicy

pub record UpstreamTls : Type 0 where
  pub sni : String
  pub validation_secret : String

-- The options of HTTP: the protocol of the downstream, and the idle timeout in seconds.
pub record HttpProtocolOptions : Type 0 where
  pub idle_timeout : Option ℕ

pub record Cluster : Type 0 where
  pub name : String
  pub service_name : String
  pub http_options : Option HttpProtocolOptions
  pub connect_timeout : Option ℕ
  pub lb_policy : LbPolicy
  pub outlier_detection : Option Bool
  pub upstream_tls : Option UpstreamTls

-- `fmt.Sprintf("%s/%s:%s", ns, name, port)`
unfoldable pub get_cluster_service_name : String → String → String → String
get_cluster_service_name ns name port = ns <> ("/" <> (name <> (":" <> port)))

abbrev with_cluster_lb_policy : LbPolicy → Cluster → Cluster
with_cluster_lb_policy policy c = record c { lb_policy = policy }

abbrev with_outlier_detection : Bool → Cluster → Cluster
with_outlier_detection split c = record c { outlier_detection = some split }

abbrev with_connection_timeout : ℕ → Cluster → Cluster
with_connection_timeout seconds c = record c { connect_timeout = some seconds }

-- A cluster without options of HTTP stays as it is.
abbrev with_idle_timeout : ℕ → Cluster → Cluster
with_idle_timeout seconds c = elim c.http_options [
  | none ↦ c
  | some options ↦ record c { http_options = some (record { idle_timeout = some seconds }) }
]

abbrev with_upstream_tls : String → String → String → Cluster → Cluster
with_upstream_tls secrets_namespace validation_secret sni c = record c {
  upstream_tls =
      some
        (record { sni = sni; validation_secret = secrets_namespace <> ("/" <> validation_secret) });
}

unfoldable pub new_http_cluster : String → String → List (Cluster → Cluster) → Cluster
new_http_cluster name service_name mutators =
    fold (λ f. f) mutators
      (record {
        name = name;
        service_name = service_name;
        http_options = some (record { idle_timeout = none });
        connect_timeout = none;
        lb_policy = LbPolicy.round_robin;
        outlier_detection = none;
        upstream_tls = none;
      })

unfoldable pub new_tcp_cluster : String → String → List (Cluster → Cluster) → Cluster
new_tcp_cluster name service_name mutators =
    fold (λ f. f) mutators
      (record {
        name = name;
        service_name = service_name;
        http_options = none;
        connect_timeout = none;
        lb_policy = LbPolicy.round_robin;
        outlier_detection = none;
        upstream_tls = none;
      })

unfoldable pub new_tcp_cluster_with_defaults : String → String → Cluster
unfolding new_tcp_cluster
new_tcp_cluster_with_defaults name service_name = new_tcp_cluster name service_name (
    with_connection_timeout 5
    ∷ (with_cluster_lb_policy LbPolicy.round_robin ∷ (with_outlier_detection true ∷ [])))

-- The first hostname of the last route that has one.
route_hostname : HttpRoute → String → String
route_hostname r hostname = elim r.hostnames [ [] ↦ hostname | h ∷ _ ↦ h ]

upstream_hostname : List HttpListener → String
unfolding route_hostname
upstream_hostname listeners = fold (λ l. fold route_hostname l.routes) listeners ""

-- Every namespace, name and port of a map.
unfoldable pub entries : NamespaceNamePorts → List (String × (String × String))
entries m =
    gather (λ (ns, names). gather (λ (name, ports). map (λ port. (ns, (name, port))) ports) names) m

-- The map of the clusters and the list of their names.
abbrev pub ClusterState : Type 0
ClusterState = List (String × Cluster) × List String

abbrev pub entry_name : String × (String × String) → String
unfolding get_cluster_name
entry_name (ns, (name, port)) = get_cluster_name ns name port

module _ (infra : Infra) (secrets_namespace : String) (idle_timeout_seconds : ℕ) where
  http_mutators : Model.Model → String → List (Cluster → Cluster)
  unfolding upstream_hostname
  http_mutators m port =
      with_connection_timeout 5
      ∷ (with_idle_timeout idle_timeout_seconds
          ∷ (with_cluster_lb_policy LbPolicy.round_robin
              ∷ (with_outlier_detection true
                  ∷ (if port == "443"
                      then with_upstream_tls secrets_namespace "example-cert"
                          (upstream_hostname m.http)
                        ∷ []
                      else []))))

  unfoldable pub add_http_cluster :
      Model.Model → String × (String × String) → ClusterState → ClusterState
  unfolding entry_name get_cluster_service_name new_http_cluster http_mutators upsert
  add_http_cluster m (ns, (name, port)) (clusters, names) =
      let cluster_name = entry_name (ns, (name, port)) in
      (
        put cluster_name
            (new_http_cluster cluster_name (get_cluster_service_name ns name port)
              (http_mutators m port))
            clusters,
        names ++ cluster_name ∷ [],
      )

  -- A cluster that is there already stays.
  unfoldable pub add_tcp_cluster : String × (String × String) → ClusterState → ClusterState
  unfolding entry_name get_cluster_service_name new_tcp_cluster_with_defaults find upsert
  add_tcp_cluster (ns, (name, port)) (clusters, names) =
      let cluster_name = entry_name (ns, (name, port)) in
      if is_some (find (λ a b. a == b) cluster_name clusters) then (clusters, names) else (
        put cluster_name
            (new_tcp_cluster_with_defaults cluster_name (get_cluster_service_name ns name port))
            clusters,
        names ++ cluster_name ∷ [],
      )

  unfoldable pub cluster_state : Model.Model → ClusterState
  unfolding add_http_cluster add_tcp_cluster entries get_namespace_name_ports_map_for_http
      get_namespace_name_ports_map_for_tls get_namespace_name_ports_map_for_tcp
  cluster_state m = fold add_tcp_cluster (entries (get_namespace_name_ports_map_for_tcp infra m)) (
      fold add_tcp_cluster (entries (get_namespace_name_ports_map_for_tls infra m)) (
        fold (add_http_cluster m) (entries (get_namespace_name_ports_map_for_http infra m))
          ([], [])))

  -- By name; a name without a cluster would be an empty resource.
  unfoldable pub get_clusters : Model.Model → List (Option Cluster)
  unfolding cluster_state sort_texts find
  get_clusters m =
      let state = cluster_state m in
      map (λ name. find (λ a b. a == b) name state.0) (sort_texts state.1)
