-- ===== src/RateLimiter.antt =====
-- processors/ratelimiter: the processor that asks a rate limit service about each batch of traces.
pub mod Config
pub mod Consume
pub mod Lifecycle
