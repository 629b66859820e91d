-- ===== src/Listeners.antt =====
-- pkg/gateway_api/gateway_reconcile.go and pkg/gateway_api/helpers.go: the validation of a listener,
-- and the routes that may attach to it.
pub mod Supported
pub mod Certs
pub mod Validation
pub mod Attach
