-- ===== src/Translation/Settings.antt =====
-- pkg/model/translation/translator.go: the fields of the default translator, and the resources that
-- it makes. A resource is its message: the marshalling of the messages is taken to succeed.
use controller_powered_by_di.Base.{ℕ, String, Bool}
use controller_powered_by_di.Translation.Envoy.{RouteConfiguration}
use controller_powered_by_di.Translation.Clusters.{Cluster}
use controller_powered_by_di.Translation.Listeners.{Listener}

pub record DefaultTranslator : Type 0 where
  pub name : String
  pub namespace : String
  pub secrets_namespace : String
  pub enforce_https : Bool
  pub use_proxy_protocol : Bool
  pub host_name_suffix_match : Bool
  pub idle_timeout_seconds : ℕ
  pub ipv4_enabled : Bool
  pub ipv6_enabled : Bool

-- The resource without a value is `empty_resource`.
pub data XdsResource : Type 0 where
  listener_resource : Listener → XdsResource
  route_resource : RouteConfiguration → XdsResource
  cluster_resource : Cluster → XdsResource
  empty_resource : XdsResource
