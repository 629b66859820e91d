-- ===== src/Translation/ConnectionManager.antt =====
-- pkg/model/translation/envoy_http_connection_manager.go, and the internal ranges of
-- pkg/envoy/xds.go.
use controller_powered_by_di.Base.{
  ℕ, String, Bool, true, false, Option, none, some, List, [], ◌∷◌, ◌++◌, if◌then◌else◌, fold,
}

-- The messages of Envoy's API, with the fields that are set. Durations are in seconds.
pub record CidrRange : Type 0 where
  pub address_prefix : String
  pub prefix_len : ℕ

pub data HttpFilterConfig : Type 0 where
  grpc_web router : HttpFilterConfig
  grpc_stats : Bool → Bool → HttpFilterConfig

pub record HttpFilter : Type 0 where
  pub name : String
  pub config : HttpFilterConfig

pub record InternalAddressConfig : Type 0 where
  pub unix_sockets : Bool
  pub cidr_ranges : List CidrRange

pub record HttpConnectionManager : Type 0 where
  pub stat_prefix : String
  pub route_config_name : String
  pub use_remote_address : Bool
  pub skip_xff_append : Bool
  pub http_filters : List HttpFilter
  pub upgrade_types : List String
  pub max_stream_duration : ℕ
  pub stream_idle_timeout : ℕ
  pub xff_num_trusted_hops : ℕ
  pub internal_address_config : Option InternalAddressConfig

unfoldable pub get_internal_listener_cidrs : Bool → Bool → List CidrRange
get_internal_listener_cidrs ipv4 ipv6 =
    (if ipv4
      then record { address_prefix = "10.0.0.0"; prefix_len = 8 }
        ∷ (record { address_prefix = "172.16.0.0"; prefix_len = 12 }
            ∷ (record { address_prefix = "192.168.0.0"; prefix_len = 16 }
                ∷ (record { address_prefix = "127.0.0.1"; prefix_len = 32 } ∷ [])))
      else [])
    ++ (if ipv6 then record { address_prefix = "::1"; prefix_len = 128 } ∷ [] else [])

-- The number of the operator's options is an argument.
abbrev pub with_xff_num_trusted_hops : ℕ → HttpConnectionManager → HttpConnectionManager
with_xff_num_trusted_hops hops manager = record manager { xff_num_trusted_hops = hops }

abbrev pub with_internal_address_config :
    Bool → Bool → HttpConnectionManager → HttpConnectionManager
unfolding get_internal_listener_cidrs
with_internal_address_config ipv4 ipv6 manager = record manager {
  internal_address_config =
      some (record { unix_sockets = false; cidr_ranges = get_internal_listener_cidrs ipv4 ipv6 });
}

unfoldable pub new_http_connection_manager :
    String → String → List (HttpConnectionManager → HttpConnectionManager) → HttpConnectionManager
new_http_connection_manager name route_name mutators =
    fold (λ f. f) mutators
      (record {
        stat_prefix = name;
        route_config_name = route_name;
        use_remote_address = true;
        skip_xff_append = false;
        http_filters =
            record { name = "envoy.filters.http.grpc_web"; config = HttpFilterConfig.grpc_web }
            ∷ (record {
              name = "envoy.filters.http.grpc_stats";
              config = HttpFilterConfig.grpc_stats true true;
            }
                ∷ (record { name = "envoy.filters.http.router"; config = HttpFilterConfig.router }
                    ∷ []));
        upgrade_types = "websocket" ∷ [];
        max_stream_duration = 0;
        stream_idle_timeout = 300;
        xff_num_trusted_hops = 0;
        internal_address_config = none;
      })
