-- ===== src/Helpers.antt =====
-- pkg/gateway_api/helpers
pub mod Kinds
pub mod Grants
pub mod Namespaces
pub mod Conditions
pub mod Sni
