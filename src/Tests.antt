-- ===== src/Tests.antt =====
-- Runs of the models on concrete inputs.
mod Deferred
mod Arrays
mod Traced
mod Reading
mod Session
mod Files
mod Listings
mod Console
mod Logged
