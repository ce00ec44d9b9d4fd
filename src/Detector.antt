-- ===== src/Detector.antt =====
-- core/changedetector: what a new version of a schema changes, and what depends on that.
pub mod Impact
pub mod Reverse
pub mod Fields
pub mod Event
