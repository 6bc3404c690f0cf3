-- ===== src/Pdata.antt =====
-- The data that the pipeline's components pass on: attribute maps, metrics, traces, and the tags and
-- events of the collector's own telemetry.
pub mod Attributes
pub mod Metrics
pub mod Traces
pub mod Telemetry
