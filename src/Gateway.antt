-- ===== src/Gateway.antt =====
-- services/gateway.
pub mod CircuitBreaker
pub mod RateLimit
pub mod Router
