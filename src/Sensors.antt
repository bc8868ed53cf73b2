-- ===== src/Sensors.antt =====
-- services/ui/src/features/health and features/spectrum: what the page of the sensors derives from
-- the free-form detail of each.
pub mod Detail
pub mod Summary
pub mod Survey
