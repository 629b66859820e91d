-- ===== src/RouteChecks.antt =====
-- pkg/gateway_api/routechecker: the checks that decide a route's status at a parent.
pub mod Status
pub mod Verdict
pub mod Backends
pub mod Gateways
