-- ===== src/Tailscale.antt =====
-- hire-attestors/src/tailscale.rs: the login that the local tailscaled reports.
pub mod Body
pub mod Status
pub mod Chunks
pub mod Login
