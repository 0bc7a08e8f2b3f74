-- ===== src/Tracer.antt =====
-- The ptrace library: src/libtracer/tracer.c and src/libtracer/tracer.h.
pub mod Env
pub mod ReadString
pub mod Syscalls
pub mod Loop
