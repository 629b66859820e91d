-- ===== src/Translation/Listeners.antt =====
-- pkg/model/translation/envoy_listener.go: the listeners and their filter chains.
use controller_powered_by_di.Base.{
  ◌<>◌, ℕ, String, Bool, not, Option, none, some, List, [], ◌∷◌, ◌++◌, ◌==◌, if◌then◌else◌, map,
  fold, contains,
}
use controller_powered_by_di.Base.Sort.{text_lt}
use controller_powered_by_di.Base.StableSort.{stable_sort}
use controller_powered_by_di.Model.{TlsSecret}
use controller_powered_by_di.Translation.Infra.{Infra}
use controller_powered_by_di.Translation.ConnectionManager.{
  HttpConnectionManager, new_http_connection_manager, with_xff_num_trusted_hops,
  with_internal_address_config, get_internal_listener_cidrs,
}

-- The messages of Envoy's API, with the fields that are set.
pub data FilterConfig : Type 0 where
  http_connection_manager : HttpConnectionManager → FilterConfig
  tcp_proxy : (stat_prefix cluster : String) → FilterConfig

pub record Filter : Type 0 where
  pub name : String
  pub config : FilterConfig

pub record FilterChainMatch : Type 0 where
  pub transport_protocol : String
  pub server_names : List String

-- The names of the secrets of the certificates.
pub record TransportSocket : Type 0 where
  pub name : String
  pub sds_configs : List String

pub record FilterChain : Type 0 where
  pub filter_chain_match : Option FilterChainMatch
  pub filters : List Filter
  pub transport_socket : Option TransportSocket

pub data ListenerFilterConfig : Type 0 where
  tls_inspector proxy_protocol : ListenerFilterConfig

pub record ListenerFilter : Type 0 where
  pub name : String
  pub config : ListenerFilterConfig

-- The description is left out; the state of an option is before the binding of the socket.
pub record SocketOption : Type 0 where
  pub level : ℕ
  pub name : ℕ
  pub value : ℕ

pub record Address : Type 0 where
  pub address : String
  pub port : ℕ

pub record Listener : Type 0 where
  pub name : String
  pub address : Option Address
  pub filter_chains : List FilterChain
  pub listener_filters : List ListenerFilter
  pub socket_options : List SocketOption

pub record TlsPassthroughBackend : Type 0 where
  pub hostnames : List String
  pub stat_prefix : String

abbrev pub with_proxy_protocol : Listener → Listener
with_proxy_protocol l = record l {
  listener_filters =
      record {
        name = "envoy.filters.listener.proxy_protocol";
        config = ListenerFilterConfig.proxy_protocol;
      }
      ∷ l.listener_filters;
}

abbrev with_socket_option : ℕ → ℕ → ℕ → ℕ → Listener → Listener
with_socket_option keep_alive idle interval failures l = record l {
  socket_options =
      record { level = 1; name = 9; value = keep_alive }
      ∷ (record { level = 6; name = 4; value = idle }
          ∷ (record { level = 6; name = 5; value = interval }
              ∷ (record { level = 6; name = 6; value = failures } ∷ [])));
}

-- The mutators of the variants with the defaults.
abbrev with_defaults : List (Listener → Listener) → List (Listener → Listener)
with_defaults mutators = mutators ++ with_socket_option 1 10 5 10 ∷ []

-- The set of the names of the secrets.
add_secret : String → TlsSecret → List String → List String
add_secret namespace t names =
    let name = namespace <> ("/" <> t.name) in
    if contains names name then names else names ++ name ∷ []

unfoldable pub new_transport_socket : String → List TlsSecret → TransportSocket
unfolding add_secret
new_transport_socket namespace tls = record {
  name = "envoy.transport_sockets.tls";
  sds_configs = fold (add_secret namespace) tls [];
}

-- More than one name, or one that is not the star.
is_match : List String → Bool
is_match [] = Bool.false
is_match (name ∷ []) = not (name == "*")
is_match (name ∷ (other ∷ names)) = Bool.true

unfoldable pub to_filter_chain_match : Infra → List String → FilterChainMatch
unfolding is_match
to_filter_chain_match infra hostnames =
    let names = infra.sorted_unique hostnames in
    record { transport_protocol = "tls"; server_names = if is_match names then names else [] }

abbrev manager_filter : HttpConnectionManager → Filter
manager_filter manager = record {
  name = "envoy.filters.network.http_connection_manager";
  config = FilterConfig.http_connection_manager manager;
}

abbrev proxy_filter : String → String → Filter
proxy_filter stat_prefix cluster = record {
  name = "envoy.filters.network.tcp_proxy";
  config = FilterConfig.tcp_proxy stat_prefix cluster;
}

abbrev inspector : ListenerFilter
inspector = record {
  name = "envoy.filters.listener.tls_inspector";
  config = ListenerFilterConfig.tls_inspector;
}

-- Go's maps from secrets to hostnames, and from backends to what is passed through to them.
abbrev pub SecretHostnames : Type 0
SecretHostnames = List (TlsSecret × List String)

abbrev pub PassthroughBackends : Type 0
PassthroughBackends = List (String × TlsPassthroughBackend)

-- The order of the secrets, by their namespaces and names.
abbrev secret_before : TlsSecret × List String → TlsSecret × List String → Bool
unfolding text_lt
secret_before (a, _) (b, _) =
    text_lt (a.namespace <> ("/" <> a.name)) (b.namespace <> ("/" <> b.name))

abbrev raw_chain : HttpConnectionManager → FilterChain
raw_chain manager = record {
  filter_chain_match = some (record { transport_protocol = "raw_buffer"; server_names = [] });
  filters = manager_filter manager ∷ [];
  transport_socket = none;
}

abbrev secure_chain : Infra → String → HttpConnectionManager → TlsSecret × List String → FilterChain
unfolding to_filter_chain_match new_transport_socket
secure_chain infra secrets_namespace manager (secret, hostnames) = record {
  filter_chain_match = some (to_filter_chain_match infra hostnames);
  filters = manager_filter manager ∷ [];
  transport_socket = some (new_transport_socket secrets_namespace (secret ∷ []));
}

abbrev base_listener : String → List FilterChain → Listener
base_listener name chains = record {
  name = name;
  address = none;
  filter_chains = chains;
  listener_filters = inspector ∷ [];
  socket_options = [];
}

-- The number of trusted hops of the operator's options is an argument.
unfoldable pub http_filter_chain : ℕ → String → Bool → Bool → FilterChain
unfolding new_http_connection_manager get_internal_listener_cidrs
http_filter_chain hops name ipv4 ipv6 = raw_chain (
    new_http_connection_manager (name <> "-insecure") (name <> "-insecure")
      (with_xff_num_trusted_hops hops ∷ (with_internal_address_config ipv4 ipv6 ∷ [])))

unfoldable pub https_filter_chains :
    Infra → String → String → SecretHostnames → Bool → Bool → List FilterChain
unfolding secret_before secure_chain new_http_connection_manager get_internal_listener_cidrs
    stable_sort
https_filter_chains infra name secrets_namespace secrets ipv4 ipv6 =
    map
      (secure_chain infra secrets_namespace (
        new_http_connection_manager (name <> "-secure") (name <> "-secure")
          (with_internal_address_config ipv4 ipv6 ∷ [])))
      (stable_sort secret_before secrets)

passthrough_chain : Infra → String × TlsPassthroughBackend → FilterChain
unfolding to_filter_chain_match
passthrough_chain infra (backend, entry) = record {
  filter_chain_match = some (to_filter_chain_match infra entry.hostnames);
  filters =
      proxy_filter (if entry.stat_prefix == "" then backend else entry.stat_prefix) backend ∷ [];
  transport_socket = none;
}

unfoldable pub tls_passthrough_filter_chains : Infra → PassthroughBackends → List FilterChain
unfolding passthrough_chain stable_sort text_lt
tls_passthrough_filter_chains infra backends =
    map (passthrough_chain infra) (stable_sort (λ a b. text_lt a.0 b.0) backends)

unfoldable pub new_listener :
    Infra
    → ℕ
    → String
    → String
    → Bool
    → SecretHostnames
    → PassthroughBackends
    → Bool
    → Bool
    → List (Listener → Listener)
    → Listener
unfolding http_filter_chain https_filter_chains tls_passthrough_filter_chains
new_listener infra hops name secrets_namespace with_http secrets backends ipv4 ipv6 mutators =
    fold (λ f. f) mutators
      (base_listener name (
        (if with_http then http_filter_chain hops name ipv4 ipv6 ∷ [] else [])
        ++ (https_filter_chains infra name secrets_namespace secrets ipv4 ipv6
            ++ tls_passthrough_filter_chains infra backends)))

unfoldable pub new_listener_with_defaults :
    Infra
    → ℕ
    → String
    → String
    → Bool
    → SecretHostnames
    → PassthroughBackends
    → Bool
    → Bool
    → List (Listener → Listener)
    → Listener
unfolding new_listener
new_listener_with_defaults infra hops name secrets_namespace with_http secrets backends ipv4 ipv6
      mutators =
    new_listener infra hops name secrets_namespace with_http secrets backends ipv4 ipv6
      (with_defaults mutators)

unfoldable pub new_tcp_listener : String → ℕ → String → List (Listener → Listener) → Listener
new_tcp_listener name port cluster mutators =
    fold (λ f. f) mutators
      (record {
        name = name;
        address = some (record { address = "0.0.0.0"; port = port });
        filter_chains =
            record {
              filter_chain_match = none;
              filters = proxy_filter "tcp" cluster ∷ [];
              transport_socket = none;
            }
            ∷ [];
        listener_filters = [];
        socket_options = [];
      })

unfoldable pub new_tcp_listener_with_defaults :
    String → ℕ → String → List (Listener → Listener) → Listener
unfolding new_tcp_listener
new_tcp_listener_with_defaults name port cluster mutators =
    new_tcp_listener name port cluster (with_defaults mutators)
