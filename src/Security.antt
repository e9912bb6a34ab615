-- ===== src/Security.antt =====
-- security: the boundary between a prompt and what untrusted sources say.
pub mod Wrap
