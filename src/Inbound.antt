-- ===== src/Inbound.antt =====
-- The inbound path: the webhook's handler, its stores, the orchestrator and the debounce.
pub mod Types
pub mod Store
pub mod Orchestrator
pub mod World
pub mod Media
pub mod Profile
pub mod Branches
pub mod Handler
pub mod Debounce
pub mod HandoffService
