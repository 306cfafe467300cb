-- ===== src/Strategy.antt =====
-- Strategy requests: the evidence that one may argue from, and the request itself.
pub mod Manifest
pub mod Evidence
