-- ===== src/Service.antt =====
-- internal/service: the routes of calls and short data.
pub mod Callouts
pub mod LastHeard
pub mod Netstack
pub mod RateLimit
pub mod Sds
pub mod VirtualSds
