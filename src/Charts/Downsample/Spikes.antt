-- ===== src/Charts/Downsample/Spikes.antt =====
-- downsampleSegment of telemetry-series.ts: what the whole keeps of a segment.
