-- ===== src/Crm.antt =====
-- The CRM synchronisation: the outbox of adapters/storage and the worker of core/services.
pub mod Outbox
pub mod Worker
pub mod Monday
