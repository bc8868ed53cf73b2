-- ===== src/Logs/Bridge/Repeats.antt =====
-- A frame that log-bridge.ts gets twice in a row.
use classg.Prelude.{true, false, [], ◌≡◌, refl, arith, DistinctBy}
use classg.Api.{
  SystemStatus, ServerFrame, track_update, track_closed, detection, health, capture_status,
  sweep_status, monitoring, ping,
}
use classg.Logs.Bridge.{
  FrameLogger, same_status, status_lines, on_health, on_monitoring, on_track_update, on_frame,
}
use classg.Logs.Bridge.Changes.{same_bool_refl, remembers, silent_when_known}
use classg.Logs.Bridge.Sensors.{All-IsKnown, silent_when-IsKnown}

-- The frames that sample a state: the other ones tell an event, and each is logged.
abbrev pub IsSample : ServerFrame → Type 0
IsSample (track_update raw) = Unit
IsSample (health h) = DistinctBy (λ s. s.sensor_id) h.sensors
IsSample (monitoring m) = Unit
IsSample _ = ⊥

same_status_refl : (s : SystemStatus) → same_status s s ≡ true
same_status_refl SystemStatus.ok = refl
same_status_refl SystemStatus.degraded = refl
same_status_refl SystemStatus.down = refl

-- A track update that did not throw, a health report in which no sensor id occurs twice, or a
-- monitoring frame, that comes again right after it was handled, writes nothing.
pub repeated_sample_is_silent :
    (f : ServerFrame) (l : FrameLogger)
    → IsSample f
    → (on_frame f l).threw ≡ false
    → (on_frame f (on_frame f l).logger).written ≡ []
unfolding on_frame on_health on_monitoring status_lines
repeated_sample_is_silent (track_update raw) l sample calm =
    silent_when_known raw (on_track_update raw l).logger (remembers raw l calm)
repeated_sample_is_silent (health h) l sample calm =
    let same = same_status_refl h.status in
    let quiet = silent_when-IsKnown h.sensors _ (All-IsKnown h.sensors l.sensor_health sample) in
    ground (arith, same, quiet)
repeated_sample_is_silent (monitoring m) l sample calm = ground (arith, same_bool_refl m.enabled)
repeated_sample_is_silent (track_closed id) l sample calm = absurd sample
repeated_sample_is_silent (detection d) l sample calm = absurd sample
repeated_sample_is_silent (capture_status c) l sample calm = absurd sample
repeated_sample_is_silent (sweep_status s) l sample calm = absurd sample
repeated_sample_is_silent ping l sample calm = absurd sample
