-- ===== src/RateLimit.antt =====
-- internal/ratelimit: the Redis-backed limiter and its in-process fallback.
pub mod Memory
pub mod Limiter
pub mod Redis
