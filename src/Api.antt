-- ===== src/Api.antt =====
-- The objects of the Kubernetes and Gateway API types that the program reads, with the fields that
-- it uses. A pointer is an `Option`. A Go string type with named values is a data type whose
-- constructor `other` holds every other value.
mod Refs
mod Listeners
mod Routes
mod Ingresses
pub use Refs.*
pub use Listeners.*
pub use Routes.*
pub use Ingresses.*
