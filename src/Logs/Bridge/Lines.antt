-- ===== src/Logs/Bridge/Lines.antt =====
-- The entries that log-bridge.ts writes, each from what the frame says.
use classg.Prelude.{
  ℕ, String, Bool, true, false, Option, none, some, List, [], ◌∷◌, ◌++◌, map, if◌then◌else◌, not,
  ltb, leb, get_or_else, is_some, truthy,
}
use classg.Api.{
  DetectionClass, TrackState, coasting, SystemStatus, Identity, Track, Detection, Rf, Adsb,
  SensorHealth, MonitoringState, Capture, SpectrumSweep, JobState, RawEvidence, entries, by_class,
  absent, other,
}
use classg.Logs.Store.{LogLevel, LogSource, Message, DetailValue, Field, LogInput}

abbrev pub same_bool : Bool → Bool → Bool
same_bool true b = b
same_bool false b = not b

abbrev pub entry : LogLevel → LogSource → Message → Option (List Field) → Option String → LogInput
entry level source message detail track_id = record {
  at = none;
  level = level;
  source = source;
  message = message;
  detail = detail;
  track_id = track_id;
}

abbrev pub field : String → DetailValue → Field
field key value = record { key = key; value = value }

abbrev pub words_field : String → Option String → List Field
words_field key none = []
words_field key (some w) = field key (DetailValue.words w) ∷ []

-- The field only if the text is neither absent nor empty.
abbrev pub truthy_field : String → Option String → List Field
truthy_field key w = if truthy w then words_field key w else []

-- In thousandths.
abbrev pub confirm_threshold : ℕ
confirm_threshold = 600

abbrev pub first_of : List String → Option String
first_of [] = none
first_of (m ∷ ms) = some m

abbrev pub name_of : String → Option Identity → String
name_of id none = id
name_of id (some i) = get_or_else i.serial (get_or_else (first_of i.macs) id)

abbrev pub track_name : Track → String
track_name t = name_of t.track_id t.identity

-- `(track.evidence ?? []).map(…)` throws, which is `none`, on a value that is not an array.
abbrev pub evidence_classes : RawEvidence → Option (List DetectionClass)
evidence_classes (entries es) = some (map (λ e. e.detection_class) es)
evidence_classes absent = some []
evidence_classes (by_class es) = none
evidence_classes other = none

abbrev pub is_confirmed : Track → Bool
is_confirmed t = leb confirm_threshold t.confidence

abbrev pub has_position : Track → Bool
has_position t = is_some t.current

abbrev pub confidence_field : Track → Field
confidence_field t = field "confidence" (DetailValue.thousandths_to_fixed_2 t.confidence)

abbrev pub opened_line : Track → List DetectionClass → LogInput
opened_line t classes =
    entry LogLevel.info LogSource.track (Message.track_opened (track_name t))
      (some (
        field "state" (DetailValue.state t.state)
        ∷ confidence_field t
        ∷ field "evidence" (DetailValue.evidence_classes classes)
        ∷ field "position" (DetailValue.words (if has_position t then "reported" else "none"))
        ∷ []))
      (some t.track_id)

abbrev pub is_coasting : TrackState → Bool
is_coasting coasting = true
is_coasting _ = false

abbrev pub confirmed_line : Track → List DetectionClass → LogInput
confirmed_line t classes =
    entry LogLevel.info LogSource.track
      (if is_confirmed t
        then Message.track_confirmed (track_name t)
        else Message.track_unconfirmed (track_name t))
      (some (confidence_field t ∷ field "evidence" (DetailValue.evidence_classes classes) ∷ []))
      (some t.track_id)

abbrev pub status_level : SystemStatus → LogLevel
status_level SystemStatus.ok = LogLevel.info
status_level SystemStatus.down = LogLevel.error
status_level SystemStatus.degraded = LogLevel.warn

abbrev pub sensor_line : SensorHealth → LogInput
sensor_line s =
    entry (if s.healthy then LogLevel.info else LogLevel.error) LogSource.sensor
      (if s.healthy
        then Message.sensor_recovered s.sensor_id
        else Message.sensor_unhealthy s.sensor_id)
      (some (
        field "kind" (DetailValue.kind s.sensor_kind) ∷ truthy_field "reason" s.reason
        ++ field "last_heartbeat" (DetailValue.words s.last_heartbeat) ∷ []))
      none

abbrev pub rssi_of : Option Rf → Option String
rssi_of none = none
rssi_of (some rf) = rf.rssi_dbm

abbrev pub icao_of : Option Adsb → Option String
icao_of none = none
icao_of (some a) = some a.icao

abbrev pub detection_line : Detection → LogInput
detection_line d =
    entry LogLevel.debug LogSource.detection (Message.detected d.detection_class d.sensor_id)
      (some (
        field "kind" (DetailValue.kind d.sensor_kind) ∷ words_field "rssi_dbm" (rssi_of d.rf)
        ++ truthy_field "icao" (icao_of d.adsb)))
      none

abbrev pub discarded_field : ℕ → List Field
discarded_field n =
    if ltb 0 n then field "discarded_while_paused" (DetailValue.number n) ∷ [] else []

abbrev pub recording_line : MonitoringState → LogInput
recording_line m =
    entry (if m.enabled then LogLevel.info else LogLevel.warn) LogSource.ui
      (if m.enabled then Message.recording_resumed else Message.recording_paused)
      (some (truthy_field "reason" m.reason ++ discarded_field m.discarded_while_paused)) none

abbrev pub is_failed : JobState → Bool
is_failed JobState.failed = true
is_failed _ = false

abbrev pub capture_line : Capture → LogInput
capture_line c =
    entry (if is_failed c.state then LogLevel.error else LogLevel.info) LogSource.capture
      (Message.capture_changed c.capture_id c.state)
      (some (
        field "iface" (DetailValue.words c.iface)
        ∷ field "channel" (DetailValue.number c.channel)
        ∷ field "frames" (DetailValue.number c.frame_count)
        ∷ field "bytes" (DetailValue.number c.size_bytes)
        ∷ []))
      none

abbrev pub sweep_message : String → JobState → Message
sweep_message band JobState.running = Message.sweep_started band
sweep_message band state = Message.sweep_changed band state

abbrev pub sweep_line : SpectrumSweep → LogInput
sweep_line s =
    entry (if is_failed s.state then LogLevel.error else LogLevel.info) LogSource.spectrum
      (sweep_message s.band s.state)
      (some (
        field "sweep_id" (DetailValue.words s.sweep_id)
          ∷ words_field "noise_floor_dbfs" s.noise_floor_dbfs
        ++ words_field "peak_dbfs" s.peak_dbfs
        ++ truthy_field "error" s.error))
      none

abbrev pub note : String → Option (List Field)
note n = some (field "note" (DetailValue.words n) ∷ [])
