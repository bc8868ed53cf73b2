-- ===== src/Charts.antt =====
-- services/ui/src/features/settings/hosts/telemetry-series.ts and
-- services/ui/src/features/spectrum/trace-series.ts: from readings to what a chart draws.
pub mod Segments
pub mod Downsample
