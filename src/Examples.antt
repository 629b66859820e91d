-- ===== src/Examples.antt =====
-- The theorems at concrete objects: a Gateway with an HTTP and a TCP listener, and routes to it.
mod Objects
mod Hosts
mod Pem
mod Policies
mod Routes
mod Checks
mod Listeners
mod Ingress
mod Translation
