-- ===== src/Crm/Monday.antt =====
-- The CRM: adapters/crm/monday_adapter.py, by its parts.
pub mod Stages
pub mod Columns
pub mod Api
pub mod Upsert
pub mod Adapter
pub mod Advance
pub mod Sync
pub mod Payload
pub mod Resync
pub mod StageColumn
