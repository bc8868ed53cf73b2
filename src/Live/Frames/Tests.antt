-- ===== src/Live/Frames/Tests.antt =====
-- Runs of live-frames.ts on small caches, and its theorems at inputs that meet their hypotheses.
use classg.Prelude.{
  ◌≤◌, String, ◌≡◌, refl, true, false, none, some, List, [], ◌∷◌, map, arith, length, filter, All,
  min, not, text_ltb,
}
use classg.Api.{
  class_d, wifi, sdr, tentative, confirmed, closed, Track, Detection, SensorHealth, Health,
  degraded, running, SpectrumSweep, other, TracksQuery, TracksResponse, ServerFrame, track_update,
  track_closed, detection, health,
}
use classg.Live.Frames.{
  update_entry, close_entry, append_track, replace_track, drop_track, matches_query,
  normalize_track, push_detection, merge_sensors, merge_sensor, config_of, put_sweep, is_closed,
  QueryCache, oldest_closed, evict_excess_closed, update_response, close_response, apply_frame,
  apply_frames,
}
use classg.Live.Frames.Filters.{ListsAreConsistent, apply_frames-ListsAreConsistent}
use classg.Live.Frames.Eviction.{evict_excess_closed_exact}
use classg.Live.Frames.Totals.{unlisted, update_response_total}
use classg.Live.Frames.Streams.{FitsWindow, apply_frame-FitsWindow}

-- A browser whose `toLowerCase` changes nothing.
abbrev lower : String → String
lower s = s

abbrev drone : Track
drone = record {
  track_id = "T1";
  state = confirmed;
  first_seen = "2026-09-15T10:00:00Z";
  last_seen = "2026-09-15T10:05:00Z";
  detection_count = 3;
  identity = none;
  confidence = 700;
  evidence = none;
  current = none;
  history = none;
  operator = none;
  adsb_correlated = none;
}

abbrev other_drone : Track
other_drone = record drone { track_id = "T2"; last_seen = "2026-09-15T10:06:00Z" }

-- The query of the notifications drawer, less CLOSED.
abbrev confirmed_only : TracksQuery
confirmed_only = record {
  state = some (confirmed ∷ []);
  since = none;
  until = none;
  serial = none;
  vendor = none;
  min_confidence = some 500;
}

abbrev loaded : TracksResponse
loaded = record { tracks = drone ∷ []; next_cursor = none; total = 1 }

abbrev cache : QueryCache
cache = record {
  track_details = λ _. none;
  track_lists = record { query = confirmed_only; response = some loaded } ∷ [];
  detection_lists = none ∷ [];
  health = none;
  sensors = none;
  monitoring = none;
  capture_details = λ _. none;
  sweeps = none;
  invalidated = [];
}

abbrev frame_of : Track → ServerFrame
frame_of t = track_update (record { track = t; evidence = other; suppression = none })

-- Everything that a run of the reducer computes with.
frames : Unit {0}
unfolding apply_frame update_entry update_response close_entry close_response append_track
    replace_track drop_track evict_excess_closed oldest_closed matches_query normalize_track
    push_detection merge_sensors merge_sensor config_of put_sweep text_ltb
frames = tt

abbrev script : List ServerFrame
script =
    frame_of other_drone
    ∷ track_closed "T1"
    ∷ frame_of (record drone { track_id = "T3"; state = tentative })
    ∷ []

-- The update adds T2; closing T1 takes it out of a list that asks for CONFIRMED; T3 never enters.
lists_after :
    map (λ e. e.response) (apply_frames lower script cache).track_lists
    ≡ some (record {
      tracks =
          record other_drone { evidence = some []; history = some []; adsb_correlated = some false }
          ∷ [];
      next_cursor = none;
      total = 1;
    })
      ∷ []
unfolding frames apply_frames
lists_after = refl

cache-ListsAreConsistent : ListsAreConsistent lower cache
unfolding matches_query
cache-ListsAreConsistent = (record { matching = (refl, tt); distinct = (tt, tt) }, tt)

apply_frames-ListsAreConsistent_example : ListsAreConsistent lower (apply_frames lower script cache)
apply_frames-ListsAreConsistent_example =
    apply_frames-ListsAreConsistent lower script cache cache-ListsAreConsistent

abbrev closed_pair : List Track
closed_pair = record drone { state = closed } ∷ other_drone ∷ []

evict_excess_closed_exact_example :
    (length (filter is_closed (evict_excess_closed closed_pair))
      ≡ min 500 (length (filter is_closed closed_pair)))
    × (filter (λ t. not (is_closed t)) (evict_excess_closed closed_pair)
        ≡ filter (λ t. not (is_closed t)) closed_pair)
evict_excess_closed_exact_example = evict_excess_closed_exact closed_pair ((refl, tt), (tt, tt))

update_response_total_example :
    (unlisted (update_response lower other_drone confirmed_only loaded) ≡ unlisted loaded)
    × (length (update_response lower other_drone confirmed_only loaded).tracks
        ≤ (update_response lower other_drone confirmed_only loaded).total)
update_response_total_example =
    update_response_total lower other_drone confirmed_only loaded (tt, tt) (omega arith)
      (omega arith)

abbrev airliner : Detection
airliner = record {
  detection_id = "D1";
  ts = "2026-09-15T10:00:00Z";
  sensor_id = "sdr-0";
  sensor_kind = sdr;
  detection_class = class_d;
  rf = none;
  adsb = some (record { icao = "a1b2c3" });
}

abbrev with_detections : QueryCache
with_detections = record cache {
  detection_lists =
      some (record { detections = airliner ∷ []; next_cursor = none; total = 1 }) ∷ [];
}

-- A second report of an aircraft takes the place of the first.
one_per_aircraft :
    (apply_frame lower
      (detection (record airliner { detection_id = "D2" }))
      with_detections).detection_lists
    ≡ some (record {
      detections = record airliner { detection_id = "D2" } ∷ [];
      next_cursor = none;
      total = 1;
    })
      ∷ []
unfolding frames
one_per_aircraft = refl

apply_frame-FitsWindow_example :
    All FitsWindow
      (apply_frame lower
        (detection (record airliner { detection_id = "D2" }))
        with_detections).detection_lists
apply_frame-FitsWindow_example =
    apply_frame-FitsWindow lower (detection (record airliner { detection_id = "D2" }))
      with_detections ((omega arith, ((λ _. tt), tt)), tt)

abbrev radio : SensorHealth
radio = record {
  sensor_id = "wifi-0";
  sensor_kind = wifi;
  healthy = true;
  last_heartbeat = "2026-09-15T10:00:00Z";
  detections_5m = some 0;
  seconds_since_heartbeat = 0;
  detail = none;
  reason = none;
  config = some (record {
    unit = "classg-sensor-wifi";
    stale_after_s = 30;
    expected = true;
    restart_command = "systemctl restart";
    restart_available = true;
  });
}

abbrev report : Health
report = record {
  status = degraded;
  version = "1.0";
  sensors = record radio { healthy = false; config = none } ∷ [];
}

abbrev sweep : SpectrumSweep
sweep = record {
  sweep_id = "S1";
  band = "868";
  state = running;
  noise_floor_dbfs = none;
  peak_dbfs = none;
  error = none;
}
