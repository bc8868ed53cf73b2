-- ===== src/Api.antt =====
-- The documents of the API that the console reads: services/ui/src/lib/api/schema.gen.ts and
-- services/ui/src/lib/api/types.ts. A field that may be absent or null is an `Option`. Fractions
-- are whole numbers of a smaller unit: a confidence is in thousandths, which is how fusion rounds
-- it; a level in decibels, with which nothing computes, is the text of its number. Timestamps are the
-- ISO texts of the wire. Fields that the modelled code does not read are left out.
use classg.Prelude.{ℕ, String, Bool, Option, List}

pub data DetectionClass : Type 0 where
  class_a class_b class_c class_d class_e class_f class_g class_h : DetectionClass

pub data SensorKind : Type 0 where
  wifi sdr ble net : SensorKind

pub data TrackState : Type 0 where
  tentative confirmed coasting closed : TrackState

pub record Evidence : Type 0 where
  pub detection_class : DetectionClass
  pub sensor_kind : SensorKind
  pub weight : ℕ
  pub count : ℕ

pub record Position : Type 0 where
  pub lat : ℕ
  pub lon : ℕ
  pub track_deg : Option ℕ
  pub height_agl_m : Option ℕ
  pub speed_mps : Option ℕ
  pub at : Option String

pub record Identity : Type 0 where
  pub serial : Option String
  pub macs : List String
  pub vendor : Option String
  pub ua_type : Option String
  pub manufacturer_code : Option String
  pub model_hint : Option String
  pub operator_id : Option String

pub record Track : Type 0 where
  pub track_id : String
  pub state : TrackState
  pub first_seen : String
  pub last_seen : String
  pub detection_count : ℕ
  pub identity : Option Identity
  pub confidence : ℕ
  pub evidence : Option (List Evidence)
  pub current : Option Position
  pub history : Option (List Position)
  pub operator : Option Position
  pub adsb_correlated : Option Bool

pub record Adsb : Type 0 where
  pub icao : String

pub record Rf : Type 0 where
  pub rssi_dbm : Option String

pub record Detection : Type 0 where
  pub detection_id : String
  pub ts : String
  pub sensor_id : String
  pub sensor_kind : SensorKind
  pub detection_class : DetectionClass
  pub rf : Option Rf
  pub adsb : Option Adsb

pub data SystemStatus : Type 0 where
  ok degraded down : SystemStatus

pub record SensorRuntimeConfig : Type 0 where
  pub unit : String
  pub stale_after_s : ℕ
  pub expected : Bool
  pub restart_command : String
  pub restart_available : Bool

pub record AircraftLabel : Type 0 where
  pub serial : String
  pub label : String

-- A value of a sensor's free-form `detail`: a number is a whole count of thousandths, and one below 0
-- is kept as how far below it is.
mutual
  pub data Json : Type 0 where
    number negative : ℕ → Json
    words : String → Json
    flag : Bool → Json
    null : Json
    array : JsonItems → Json
    object : JsonFields → Json

  pub data JsonItems : Type 0 where
    no_items : JsonItems
    item : Json → JsonItems → JsonItems

  pub data JsonFields : Type 0 where
    no_fields : JsonFields
    field : String → Json → JsonFields → JsonFields

pub record SensorHealth : Type 0 where
  pub sensor_id : String
  pub sensor_kind : SensorKind
  pub healthy : Bool
  pub last_heartbeat : String
  pub detections_5m : Option ℕ
  pub seconds_since_heartbeat : ℕ
  pub detail : Option (List (String × Json))
  pub reason : Option String
  pub config : Option SensorRuntimeConfig

pub record Health : Type 0 where
  pub status : SystemStatus
  pub version : String
  pub sensors : List SensorHealth

pub record MonitoringState : Type 0 where
  pub enabled : Bool
  pub since : String
  pub reason : Option String
  pub discarded_while_paused : ℕ

pub data JobState : Type 0 where
  running completed failed : JobState

pub record Capture : Type 0 where
  pub capture_id : String
  pub state : JobState
  pub iface : String
  pub channel : ℕ
  pub frame_count : ℕ
  pub size_bytes : ℕ

pub record SpectrumSweep : Type 0 where
  pub sweep_id : String
  pub band : String
  pub state : JobState
  pub noise_floor_dbfs : Option String
  pub peak_dbfs : Option String
  pub error : Option String

-- `evidence` as it may arrive: an array, an object keyed by class whose values may be null, null or
-- nothing, or anything else. The other fields stand in `track`.
pub data RawEvidence : Type 0 where
  entries : List Evidence → RawEvidence
  by_class : List (Option Evidence) → RawEvidence
  absent other : RawEvidence

pub record RawTrack : Type 0 where
  pub track : Track
  pub evidence : RawEvidence
  pub suppression : Option (Option Bool)

pub record TracksQuery : Type 0 where
  pub state : Option (List TrackState)
  pub since : Option String
  pub until : Option String
  pub serial : Option String
  pub vendor : Option String
  pub min_confidence : Option ℕ

pub record TracksResponse : Type 0 where
  pub tracks : List Track
  pub next_cursor : Option String
  pub total : ℕ

pub record DetectionsResponse : Type 0 where
  pub detections : List Detection
  pub next_cursor : Option String
  pub total : ℕ

-- The figures that are never negative.
pub record TelemetrySample : Type 0 where
  pub ts : String
  pub load1 : Option ℕ
  pub mem_available_kb : Option ℕ
  pub disk_free_bytes : Option ℕ
  pub uptime_s : Option ℕ

pub record SpectrumTrace : Type 0 where
  pub start_hz : ℕ
  pub bin_width_hz : ℕ
  pub dbfs : List (Option String)

-- The frames of the live stream.
pub data ServerFrame : Type 0 where
  track_update : RawTrack → ServerFrame
  track_closed : String → ServerFrame
  detection : Detection → ServerFrame
  health : Health → ServerFrame
  capture_status : Capture → ServerFrame
  sweep_status : SpectrumSweep → ServerFrame
  monitoring : MonitoringState → ServerFrame
  ping : ServerFrame
