-- ===== src/Model.antt =====
-- pkg/model
pub mod Hosts
mod Types
pub mod MatchKey
pub mod Ports
pub mod Names
pub use Types.*
