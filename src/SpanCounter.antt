-- ===== src/SpanCounter.antt =====
-- processors/spancounter: the processor that counts the spans of a tenant's service by criteria.
pub mod Config
pub mod Process
