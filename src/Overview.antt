-- ===== src/Overview.antt =====
-- services/ui/src/features/map: what the live view derives from tracks and detections.
pub mod Aircraft
pub mod Selection
