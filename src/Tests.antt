-- ===== src/Tests.antt =====
-- Runs of the model and instances of its theorems at concrete inputs.
mod Fsm
mod Crm
mod Outbound
mod Inbound
mod Knowledge
mod Login
mod Accounts
mod Monday
mod Agent
mod Replay
