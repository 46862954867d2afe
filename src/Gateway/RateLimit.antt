-- ===== src/Gateway/RateLimit.antt =====
-- services/gateway/internal/ratelimit.
pub mod Redis
pub mod TokenBucket
pub mod Build
pub mod Strategy
