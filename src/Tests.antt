-- ===== src/Tests.antt =====
-- Runs of the definitions on concrete inputs, and the instances of the theorems.
mod Scheduling
mod Cache
mod Tools
mod Memory
mod Texts
mod Prompts
mod Blackboards
mod Conversations
mod Calls
mod Requests
