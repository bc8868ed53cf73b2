-- ===== src/Timeline.antt =====
-- services/ui/src/features/timeline: the bars of the timeline.
pub mod Lanes
