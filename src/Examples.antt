-- ===== src/Examples.antt =====
-- The programs that come with the components as examples: src/libtracer/examples.
pub mod FileReads
