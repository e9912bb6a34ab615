-- ===== src/Llm.antt =====
-- llm: the messages that the agent exchanges with a provider.
pub mod Message
pub mod Blocks
pub mod Tracker
pub mod Retry
pub mod Prepare
