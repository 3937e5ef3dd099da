-- ===== src/Http.antt =====
-- internal/httpmw: what stands between the network and the handlers.
pub mod RateLimit
pub mod ClientIp
pub mod Ssrf
