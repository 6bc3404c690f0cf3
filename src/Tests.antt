-- ===== src/Tests.antt =====
-- The theorems at concrete inputs, and runs of the definitions.
mod Sample
mod TenantId
mod RateLimiter
mod SpanCounter
mod Metrics
mod Cures
mod Exporter
mod Accumulator
mod Receiver
mod TargetInfo
mod Pipeline
mod Producers
mod Handlers
mod Interleaved
mod Scrapes
mod Wiring
mod Tables
mod Runs
