-- ===== src/Translation.antt =====
-- pkg/model/translation: the model as resources for Envoy.
pub mod Envoy
pub mod Infra
pub mod Matchers
pub mod Headers
pub mod Actions
pub mod VirtualHost
pub mod BackendPorts
pub mod Clusters
pub mod ConnectionManager
pub mod Listeners
pub mod Settings
pub mod RouteConfigs
pub mod Translator
pub mod Gateway
pub mod Ingress
