-- ===== src/Live/Frames.antt =====
-- services/ui/src/app/live-frames.ts: the cache reducer for one server frame, and `normalizeTrack`
-- of services/ui/src/lib/api/client.ts. The query cache is TanStack's; what the reducer reads and
-- writes of it is the record `QueryCache`: one place for each key that the reducer names, and
-- `invalidated`, the keys whose queries it asks to be fetched again, in order.
mod Query
pub mod Filters
pub mod Eviction
pub mod Streams
pub mod Totals
mod Tests
pub use Query.*
unfoldable pub use Query.{normalize_track, matches_query}
use classg.Prelude.{
  ℕ, ◌+◌, ◌-◌, String, Bool, true, false, Option, none, some, List, [], ◌∷◌, ◌++◌, map, leb,
  if◌then◌else◌, not, length, take, set, filter, any, find_index, get_elem?, str_eq, text_ltb,
  write, opt_eq, sort_by,
}
use classg.Api.{
  DetectionClass, class_d, closed, Track, Adsb, Detection, SensorRuntimeConfig, SensorHealth,
  Health, MonitoringState, running, JobState, Capture, SpectrumSweep, TracksQuery, TracksResponse,
  DetectionsResponse, ServerFrame, track_update, track_closed, detection, health, capture_status,
  sweep_status, monitoring, ping,
}

-- One entry of the `['tracks', 'list', query]` caches. Its data is `none` until it is fetched.
pub record ListEntry : Type 0 where
  pub query : TracksQuery
  pub response : Option TracksResponse

pub data CacheKey : Type 0 where
  captures_key spectrum_bands_key : CacheKey
  sweep_detail_key : String → CacheKey

pub record QueryCache : Type 0 where
  pub track_details : String → Option Track
  pub track_lists : List ListEntry
  pub detection_lists : List (Option DetectionsResponse)
  pub health : Option Health
  pub sensors : Option (List SensorHealth)
  pub monitoring : Option MonitoringState
  pub capture_details : String → Option Capture
  pub sweeps : Option (List SpectrumSweep)
  pub invalidated : List CacheKey

abbrev pub has_id : String → Track → Bool
has_id id t = str_eq t.track_id id

abbrev pub max_closed_per_list : ℕ
max_closed_per_list = 500

-- The comparator of the sort answers at most 0.
abbrev pub seen_first : Track → Track → Bool
seen_first a b = not (text_ltb b.last_seen a.last_seen)

-- The closed tracks that are over the limit, oldest `last_seen` first, and their ids.
pub oldest_closed : List Track → List Track
oldest_closed tracks =
    let closed_tracks = filter is_closed tracks in
    take (length closed_tracks - max_closed_per_list) (sort_by seen_first closed_tracks)

abbrev pub doomed : List Track → List String
doomed tracks = map (λ t. t.track_id) (oldest_closed tracks)

pub evict_excess_closed : List Track → List Track
evict_excess_closed tracks =
    if leb (length (filter is_closed tracks)) max_closed_per_list
    then tracks
    else filter (λ t. not (any (str_eq t.track_id) (doomed tracks))) tracks

-- `{ ...old, tracks: old.tracks.filter(…), total: Math.max(0, old.total - 1) }`
pub drop_track : String → TracksResponse → TracksResponse
drop_track id old = record old {
  tracks = filter (λ t. not (has_id id t)) old.tracks;
  total = old.total - 1;
}

pub replace_track : ℕ → Track → TracksResponse → TracksResponse
replace_track index track old = record old { tracks = set old.tracks index track }

pub append_track : Track → TracksResponse → TracksResponse
append_track track old = record old {
  tracks = evict_excess_closed (old.tracks ++ track ∷ []);
  total = old.total + 1;
}

-- `toLowerCase` follows the Unicode tables of the browser, and is a parameter.
module _ (lower : String → String) where
  -- One round of the loop of `track.update`.
  pub update_response : Track → TracksQuery → TracksResponse → TracksResponse
  update_response track query old =
      let matches = matches_query lower track query in
      elim (find_index (has_id track.track_id) old.tracks) [
        | none ↦ if matches then append_track track old else old
        | some index ↦
            if matches then replace_track index track old else drop_track track.track_id old
      ]

  pub update_entry : Track → ListEntry → ListEntry
  update_entry track e = elim e.response [
    | none ↦ e
    | some old ↦ record e { response = some (update_response track e.query old) }
  ]

  -- One round of the loop of `track.closed`, for the track that stands at `index`.
  pub close_at : String → ℕ → Track → TracksQuery → TracksResponse → TracksResponse
  close_at id index existing query old =
      let closed_track : Track = record existing { state = closed } in
      if is_closed existing
      then old
      else if matches_query lower closed_track query
      then replace_track index closed_track old
      else drop_track id old

  pub close_response : String → TracksQuery → TracksResponse → TracksResponse
  unfolding close_at
  close_response id query old = elim (find_index (has_id id) old.tracks) [
    | none ↦ old
    | some index ↦ elim (get_elem? old.tracks index) [
      | none ↦ old
      | some existing ↦ close_at id index existing query old
    ]
  ]

  pub close_entry : String → ListEntry → ListEntry
  close_entry id e = elim e.response [
    | none ↦ e
    | some old ↦ record e { response = some (close_response id e.query old) }
  ]

abbrev pub close_track : Option Track → Option Track
close_track none = none
close_track (some t) = some (record t { state = closed })

abbrev pub icao_of : Option Adsb → Option String
icao_of none = none
icao_of (some a) = some a.icao

abbrev pub is_adsb : DetectionClass → Bool
is_adsb class_d = true
is_adsb _ = false

-- Whether a cached detection survives a new one: not of the same aircraft, or the same report.
abbrev pub outlives : Detection → Detection → Bool
outlives new d = elim (icao_of new.adsb) [
  | none ↦ not (str_eq d.detection_id new.detection_id)
  | some icao ↦
      if str_eq icao ""
      then not (str_eq d.detection_id new.detection_id)
      else not (opt_eq (icao_of d.adsb) icao)
]

abbrev pub max_detections : ℕ
max_detections = 200

pub push_detection : Detection → DetectionsResponse → DetectionsResponse
push_detection new old = record old {
  detections = take max_detections (new ∷ filter (outlives new) old.detections);
}

abbrev pub push_detections :
    Detection → List (Option DetectionsResponse) → List (Option DetectionsResponse)
push_detections new [] = []
push_detections new (none ∷ es) = none ∷ push_detections new es
push_detections new (some old ∷ es) = some (push_detection new old) ∷ push_detections new es

-- The `Map` from sensor id to configuration: the last sensor of an id stands.
pub config_of : List SensorHealth → String → Option SensorRuntimeConfig
config_of [] id = none
config_of (s ∷ ss) id =
    let later = config_of ss id in
    if any (λ r. str_eq r.sensor_id id) ss
    then later
    else if str_eq s.sensor_id id
    then s.config
    else none

pub merge_sensor : List SensorHealth → SensorHealth → SensorHealth
merge_sensor old s = elim (config_of old s.sensor_id) [
  | none ↦ s
  | some known ↦ record s { config = some known }
]

pub merge_sensors : Option (List SensorHealth) → Health → Option (List SensorHealth)
merge_sensors none h = none
merge_sensors (some old) h = some (map (merge_sensor old) h.sensors)

pub put_sweep : SpectrumSweep → List SpectrumSweep → List SpectrumSweep
put_sweep sweep sweeps = elim (find_index (λ s. str_eq s.sweep_id sweep.sweep_id) sweeps) [
  | none ↦ sweep ∷ sweeps
  | some index ↦ set sweeps index sweep
]

abbrev put_sweeps : SpectrumSweep → Option (List SpectrumSweep) → Option (List SpectrumSweep)
put_sweeps sweep none = none
put_sweeps sweep (some old) = some (put_sweep sweep old)

abbrev is_running : JobState → Bool
is_running running = true
is_running _ = false

module _ (lower : String → String) where
  pub apply_frame : ServerFrame → QueryCache → QueryCache
  apply_frame (track_update raw) c =
      let track = normalize_track raw in
      record c {
        track_details = write c.track_details track.track_id (some track);
        track_lists = map (update_entry lower track) c.track_lists;
      }
  apply_frame (track_closed id) c = record c {
    track_details = write c.track_details id (close_track (c.track_details id));
    track_lists = map (close_entry lower id) c.track_lists;
  }
  apply_frame (detection d) c =
      if is_adsb d.detection_class
      then record c { detection_lists = push_detections d c.detection_lists }
      else c
  apply_frame (health h) c = record c { health = some h; sensors = merge_sensors c.sensors h }
  apply_frame (monitoring m) c = record c { monitoring = some m }
  apply_frame (capture_status capture) c = record c {
    capture_details = write c.capture_details capture.capture_id (some capture);
    invalidated = c.invalidated ++ captures_key ∷ [];
  }
  apply_frame (sweep_status sweep) c = record c {
    sweeps = put_sweeps sweep c.sweeps;
    invalidated =
        if is_running sweep.state
        then c.invalidated
        else c.invalidated ++ (sweep_detail_key sweep.sweep_id ∷ spectrum_bands_key ∷ []);
  }
  apply_frame ping c = c

  -- The cache after a sequence of frames.
  pub apply_frames : List ServerFrame → QueryCache → QueryCache
  apply_frames [] c = c
  apply_frames (f ∷ fs) c = apply_frames fs (apply_frame f c)
