-- ===== src/Agent.antt =====
-- The conversation agent: core/services/conversation_agent.py with the policies that it reads.
pub mod Policies
pub mod Messages
pub mod Answer
pub mod Ports
pub mod Respond
pub mod Cost
pub mod Bounded
