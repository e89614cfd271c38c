-- ===== src/Outbound.antt =====
-- The outbound queue and the workers and the agent of campaigns.
pub mod Queue
pub mod QueueWorker
pub mod CampaignWorker
