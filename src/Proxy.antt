-- ===== src/Proxy.antt =====
-- src/proxy.rs: the HTTP proxy, from the Host header of a request to the answer of a target.
pub mod Domain
pub mod Zone
pub mod Outside
pub mod Locate
pub mod Targets
pub mod Handler
