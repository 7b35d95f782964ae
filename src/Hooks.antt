-- ===== src/Hooks.antt =====
-- The hooks that run in pods.
pub mod Namespaces
