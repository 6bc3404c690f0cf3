-- ===== src/Kafka.antt =====
-- exporter/kafkaexporter: the exporter that sends telemetry to Kafka, and the curing of spans that are
-- larger than a Kafka message may be.
pub mod Message
pub mod Span
pub mod Describe
pub mod Truncate
pub mod Cure
pub mod Curer
pub mod Config
pub mod Exporter
pub mod Factory
pub mod Marshalers
pub mod Tables
