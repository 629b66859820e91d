-- ===== src/Api/Listeners.antt =====
-- Gateways, their listeners, and label selectors.
use controller_powered_by_di.Base.{ℕ, String, Option, List}
use controller_powered_by_di.Api.Refs.{Condition, SecretObjectReference}

pub data Protocol : Type 0 where
  http https tls tcp udp : Protocol
  other : String → Protocol

pub data TlsMode : Type 0 where
  terminate passthrough : TlsMode
  other : String → TlsMode

pub record ListenerTlsConfig : Type 0 where
  pub mode : Option TlsMode
  pub certificate_refs : List SecretObjectReference

pub record LabelSelectorRequirement : Type 0 where
  pub key : String
  pub operator : String
  pub values : List String

pub record LabelSelector : Type 0 where
  pub match_labels : List (String × String)
  pub match_expressions : List LabelSelectorRequirement

pub data FromNamespaces : Type 0 where
  all same selector none_allowed : FromNamespaces
  other : String → FromNamespaces

pub record RouteNamespaces : Type 0 where
  pub from : Option FromNamespaces
  pub selector : Option LabelSelector

pub record RouteGroupKind : Type 0 where
  pub group : Option String
  pub kind : String

pub record AllowedRoutes : Type 0 where
  pub namespaces : Option RouteNamespaces
  pub kinds : Option (List RouteGroupKind)

pub record Listener : Type 0 where
  pub name : String
  pub hostname : Option String
  pub port : ℕ
  pub protocol : Protocol
  pub tls : Option ListenerTlsConfig
  pub allowed_routes : Option AllowedRoutes

pub record GatewayInfrastructure : Type 0 where
  pub labels : Option (List (String × String))
  pub annotations : Option (List (String × String))

pub record Gateway : Type 0 where
  pub name : String
  pub namespace : String
  pub group : String
  pub version : String
  pub kind : String
  pub uid : String
  pub generation : ℕ
  pub listeners : List Listener
  pub infrastructure : Option GatewayInfrastructure
  pub conditions : List Condition

pub record Service : Type 0 where
  pub name : String
  pub namespace : String
  pub ports : List ℕ

pub record Namespace : Type 0 where
  pub name : String
  pub labels : List (String × String)
