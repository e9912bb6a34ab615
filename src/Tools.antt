-- ===== src/Tools.antt =====
-- tools/: the tool interface, the registry and the guarded execution of a call.
pub mod Tool
pub mod Registry
pub mod Execute
pub mod Filter
