-- ===== src/JaegerReceiver.antt =====
-- receiver/jaegerreceiver: the Jaeger receiver, its settings and its handlers.
pub mod Config
pub mod Request
pub mod Handlers
pub mod Receiver
pub mod Start
pub mod Shutdown
