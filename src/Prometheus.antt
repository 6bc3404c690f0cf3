-- ===== src/Prometheus.antt =====
-- exporter/prometheusexporter: the exporter that keeps the last value of each time series for a scrape.
pub mod Labels
pub mod Signature
pub mod Histogram
pub mod LastValues
pub mod Accumulator
pub mod Buckets
pub mod Convert
pub mod TargetInfo
pub mod Exporter
