-- ===== src/Errm.antt =====
-- The error manager and the stack of deferred clean-ups: src/errm/errm.c and src/errm/errm.h.
pub mod State
pub mod Ops
pub mod Cleanup
pub mod Register
pub mod Scope
pub mod Scopes
