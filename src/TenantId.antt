-- ===== src/TenantId.antt =====
-- processors/tenantidprocessor: the processor that stamps the tenant of a request on its data.
pub mod Config
pub mod Process
