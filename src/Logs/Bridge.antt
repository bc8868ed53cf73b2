-- ===== src/Logs/Bridge.antt =====
-- services/ui/src/features/logs/log-bridge.ts: what the frames of the live stream write to the log.
-- `FrameLogger` is what the closure of `createFrameLogger` keeps. An `Outcome` is what one call
-- leaves: the closure's state, the entries it passed to the log, in order, and whether it threw.
mod Lines
pub mod Changes
pub mod Sensors
pub mod Repeats
mod Tests
pub use Lines.*
use classg.Prelude.{
  ℕ, ◌+◌, String, Bool, true, false, Option, none, some, List, [], ◌∷◌, ◌++◌, if◌then◌else◌, length,
  write,
}
use classg.Api.{
  TrackState, SystemStatus, Track, SensorHealth, Health, MonitoringState, RawTrack, ServerFrame,
  track_update, track_closed, detection, health, capture_status, sweep_status, monitoring, ping,
}
use classg.Live.Frames.{same_state}
use classg.Live.Stream.{ConnectionState}
use classg.Logs.Store.{LogLevel, LogSource, Message, DetailValue, Field, LogInput}

pub record TrackMemo : Type 0 where
  pub state : TrackState
  pub confirmed : Bool
  pub had_position : Bool

pub record FrameLogger : Type 0 where
  pub tracks : String → Option TrackMemo
  pub last_status : Option SystemStatus
  pub sensor_health : String → Option Bool
  pub last_recording : Option Bool

abbrev pub create_frame_logger : FrameLogger
create_frame_logger = record {
  tracks = λ _. none;
  last_status = none;
  sensor_health = λ _. none;
  last_recording = none;
}

pub record Outcome : Type 0 where
  pub logger : FrameLogger
  pub written : List LogInput
  pub threw : Bool

abbrev pub same_status : SystemStatus → SystemStatus → Bool
same_status SystemStatus.ok SystemStatus.ok = true
same_status SystemStatus.degraded SystemStatus.degraded = true
same_status SystemStatus.down SystemStatus.down = true
same_status _ _ = false

pub state_lines : Track → TrackMemo → List LogInput
state_lines t memo =
    if same_state memo.state t.state
    then []
    else entry (if is_coasting t.state then LogLevel.warn else LogLevel.info) LogSource.track
        (Message.track_changed (track_name t) memo.state t.state) (some (confidence_field t ∷ []))
        (some t.track_id)
      ∷ []

-- `none` where reading the evidence throws.
pub confirmed_lines : RawTrack → TrackMemo → Option (List LogInput)
confirmed_lines raw memo =
    if same_bool memo.confirmed (is_confirmed raw.track)
    then some []
    else elim (evidence_classes raw.evidence) [
      | none ↦ none
      | some classes ↦ some (confirmed_line raw.track classes ∷ [])
    ]

pub position_lines : Track → TrackMemo → List LogInput
position_lines t memo =
    if same_bool memo.had_position (has_position t)
    then []
    else entry (if has_position t then LogLevel.info else LogLevel.warn) LogSource.track
        (if has_position t
          then Message.track_positioned (track_name t)
          else Message.track_unpositioned (track_name t))
        none (some t.track_id)
      ∷ []

abbrev pub memo_of : Track → TrackMemo
memo_of t = record { state = t.state; confirmed = is_confirmed t; had_position = has_position t }

abbrev pub remember : FrameLogger → Track → TrackMemo → FrameLogger
remember l t memo = record l { tracks = write l.tracks t.track_id (some memo) }

-- A track that was not seen before: it is remembered before the entry is built.
pub open_track : RawTrack → FrameLogger → Outcome
open_track raw l =
    let remembered = remember l raw.track (memo_of raw.track) in
    elim (evidence_classes raw.evidence) [
      | none ↦ record { logger = remembered; written = []; threw = true }
      | some classes ↦ record {
        logger = remembered;
        written = opened_line raw.track classes ∷ [];
        threw = false;
      }
    ]

pub update_track : RawTrack → TrackMemo → FrameLogger → Outcome
update_track raw memo l =
    let t = raw.track in
    elim (confirmed_lines raw memo) [
      | none ↦ record {
        logger = remember l t (record memo { state = t.state });
        written = state_lines t memo;
        threw = true;
      }
      | some lines ↦ record {
        logger = remember l t (memo_of t);
        written = state_lines t memo ++ lines ++ position_lines t memo;
        threw = false;
      }
    ]

pub on_track_update : RawTrack → FrameLogger → Outcome
on_track_update raw l = elim (l.tracks raw.track.track_id) [
  | none ↦ open_track raw l
  | some memo ↦ update_track raw memo l
]

abbrev last_state_detail : Option TrackMemo → Option (List Field)
last_state_detail none = none
last_state_detail (some memo) = some (field "last_state" (DetailValue.state memo.state) ∷ [])

pub on_track_closed : String → FrameLogger → Outcome
on_track_closed id l = record {
  logger = record l { tracks = write l.tracks id none };
  written =
      entry LogLevel.info LogSource.track (Message.track_closed id)
        (last_state_detail (l.tracks id)) (some id)
      ∷ [];
  threw = false;
}

-- The line on a change of the system's status; there is none for the first one seen.
pub status_lines : Option SystemStatus → Health → List LogInput
status_lines none h = []
status_lines (some previous) h =
    if same_status previous h.status
    then []
    else entry (status_level h.status) LogSource.sensor (Message.status_changed previous h.status)
        (some (
          field "sensors" (DetailValue.number (length h.sensors))
          ∷ field "version" (DetailValue.words h.version)
          ∷ []))
        none
      ∷ []

-- One round of the loop over the sensors, on what was known of the sensor.
pub sensor_lines : Option Bool → SensorHealth → List LogInput
sensor_lines none s = if s.healthy then [] else sensor_line s ∷ []
sensor_lines (some previous) s = if same_bool previous s.healthy then [] else sensor_line s ∷ []

pub sensors_known : List SensorHealth → (String → Option Bool) → String → Option Bool
sensors_known [] known = known
sensors_known (s ∷ ss) known = sensors_known ss (write known s.sensor_id (some s.healthy))

pub all_sensor_lines : List SensorHealth → (String → Option Bool) → List LogInput
unfolding sensor_lines
all_sensor_lines [] known = []
all_sensor_lines (s ∷ ss) known =
    sensor_lines (known s.sensor_id) s
    ++ all_sensor_lines ss (write known s.sensor_id (some s.healthy))

pub on_health : Health → FrameLogger → Outcome
on_health h l = record {
  logger = record l {
    last_status = some h.status;
    sensor_health = sensors_known h.sensors l.sensor_health;
  };
  written = status_lines l.last_status h ++ all_sensor_lines h.sensors l.sensor_health;
  threw = false;
}

abbrev recording_is : Option Bool → Bool → Bool
recording_is none b = false
recording_is (some a) b = same_bool a b

pub on_monitoring : MonitoringState → FrameLogger → Outcome
on_monitoring m l =
    if recording_is l.last_recording m.enabled
    then record { logger = l; written = []; threw = false }
    else record {
      logger = record l { last_recording = some m.enabled };
      written = recording_line m ∷ [];
      threw = false;
    }

abbrev just : LogInput → FrameLogger → Outcome
just line l = record { logger = l; written = line ∷ []; threw = false }

pub on_frame : ServerFrame → FrameLogger → Outcome
on_frame (track_update raw) l = on_track_update raw l
on_frame (track_closed id) l = on_track_closed id l
on_frame (detection d) l = just (detection_line d) l
on_frame (health h) l = on_health h l
on_frame (monitoring m) l = on_monitoring m l
on_frame (capture_status c) l = just (capture_line c) l
on_frame (sweep_status s) l = just (sweep_line s) l
on_frame ping l = record { logger = l; written = []; threw = false }

pub log_connection : ConnectionState → ℕ → List LogInput
log_connection ConnectionState.opened attempt =
    entry LogLevel.info LogSource.stream (Message.text "Live stream connected")
      (note "tracks refetched to close the gap") none
    ∷ []
log_connection ConnectionState.reconnecting attempt =
    entry LogLevel.warn LogSource.stream (Message.stream_dropped attempt)
      (note "positions on screen may be stale") none
    ∷ []
log_connection ConnectionState.closed attempt =
    entry LogLevel.error LogSource.stream (Message.text "Live stream closed") none none ∷ []
log_connection ConnectionState.connecting attempt = []

-- `logSessionStart`, on the module's flag: the flag it leaves and the line.
pub log_session_start : Bool → Bool × List LogInput
log_session_start true = (true, [])
log_session_start false = (
  true,
  entry LogLevel.info LogSource.ui (Message.text "Console session started")
        (note "this log covers this browser session only") none
      ∷ [],
)
