-- ===== src/Agent.antt =====
-- src/agent: the confirmation gate, the tool-calling loop, the conversation and the tools.
pub mod Confirm
pub mod ToolLoop
pub mod Session
pub mod EditTools
