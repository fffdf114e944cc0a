-- ===== src/ThreatIntel.antt =====
-- server/oseye/threat_intel: the circuit breaker, the cache of reports, the retry loop and the
-- client.
pub mod Breaker
pub mod Cache
pub mod Retry
pub mod Client
