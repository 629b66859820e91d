-- ===== src/Ingestion.antt =====
-- pkg/model/ingestion/gateway.go: from the objects of the Gateway API to the model.
pub mod Backends
pub mod Filters
pub mod Matches
pub mod Fits
pub mod Http
pub mod Grpc
pub mod Streams
pub mod Gateway
pub mod Annotations
pub mod Ingress
