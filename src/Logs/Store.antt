-- ===== src/Logs/Store.antt =====
-- services/ui/src/features/logs/log-store.ts: the ring of log entries. A `LogStore` is the object's
-- fields; `timer` says whether one is set, and `emits` counts the calls of `emit`, each of which
-- calls every listener. What the clock reads comes with the call: milliseconds, and their ISO text.
-- A message is its template and the values in it.
pub mod Ids
pub mod Invariant
pub mod Bounds
pub mod Throttle
mod Tests
use classg.Prelude.{
  ℕ, suc, ◌+◌, ◌-◌, String, Bool, true, false, Option, none, List, [], ◌∷◌, ◌++◌, if◌then◌else◌,
  ltb, ◌==◌, min, max, length, drop, get_or_else,
}
use classg.Api.{TrackState, SystemStatus, SensorKind, DetectionClass, JobState}

pub data LogLevel : Type 0 where
  debug info warn error : LogLevel

abbrev pub level_rank : LogLevel → ℕ
level_rank LogLevel.debug = 0
level_rank LogLevel.info = 1
level_rank LogLevel.warn = 2
level_rank LogLevel.error = 3

pub data LogSource : Type 0 where
  stream track detection sensor capture spectrum deploy api ui : LogSource

-- The templates that the modelled code logs; any other message is a text.
pub data Message : Type 0 where
  text : String → Message
  suppressed stream_dropped : ℕ → Message
  status_changed : (before after : SystemStatus) → Message
  sensor_recovered sensor_unhealthy : (id : String) → Message
  track_opened : (name : String) → Message
  track_changed : (name : String) (before after : TrackState) → Message
  track_confirmed track_unconfirmed track_positioned track_unpositioned : (name : String) → Message
  track_closed : (id : String) → Message
  detected : DetectionClass → (sensor : String) → Message
  recording_resumed recording_paused : Message
  capture_changed : (id : String) → JobState → Message
  sweep_started : (band : String) → Message
  sweep_changed : (band : String) → JobState → Message
  unit_event : (unit : String) → String → Message

pub data DetailValue : Type 0 where
  words : String → DetailValue
  number : ℕ → DetailValue
  thousandths_to_fixed_2 : ℕ → DetailValue
  kind : SensorKind → DetailValue
  state : TrackState → DetailValue
  evidence_classes : List DetectionClass → DetailValue

pub record Field : Type 0 where
  pub key : String
  pub value : DetailValue

pub record LogInput : Type 0 where
  pub at : Option String
  pub level : LogLevel
  pub source : LogSource
  pub message : Message
  pub detail : Option (List Field)
  pub track_id : Option String

pub record LogEntry : Type 0 where
  pub id : ℕ
  pub at : String
  pub level : LogLevel
  pub source : LogSource
  pub message : Message
  pub detail : Option (List Field)
  pub track_id : Option String

pub record LogStore : Type 0 where
  pub entries : List LogEntry
  pub pending : List LogEntry
  pub timer : Bool
  pub next_id : ℕ
  pub limit : ℕ
  pub dropped : ℕ
  pub debug_window_start : ℕ
  pub debug_window_count : ℕ
  pub suppressed_debug : ℕ
  pub emits : ℕ

abbrev pub debug_burst_limit : ℕ
debug_burst_limit = 12

abbrev pub debug_burst_window_ms : ℕ
debug_burst_window_ms = 1000

abbrev pub new_log_store : LogStore
new_log_store = record {
  entries = [];
  pending = [];
  timer = false;
  next_id = 1;
  limit = 1000;
  dropped = 0;
  debug_window_start = 0;
  debug_window_count = 0;
  suppressed_debug = 0;
  emits = 0;
}

abbrev pub is_debug : LogLevel → Bool
is_debug LogLevel.debug = true
is_debug _ = false

-- `xs.slice(-n)`, which is all of `xs` for 0.
abbrev pub slice_last {ℓ} : {A : Type ℓ} → ℕ → List A → List A
slice_last n xs = if n == 0 then xs else drop (length xs - n) xs

pub emit : LogStore → LogStore
emit s = record s { emits = suc s.emits }

pub set_limit : ℕ → LogStore → LogStore
unfolding emit
set_limit limit s =
    let bound = max 50 (min 10000 limit) in
    let cut = record s {
      limit = bound;
      dropped = s.dropped + (length s.entries - bound);
      entries = slice_last bound s.entries;
    } in
    if ltb bound (length s.entries) then emit cut else record s { limit = bound }

abbrev pub entry_of : ℕ → String → LogInput → LogEntry
entry_of id iso input = record {
  id = id;
  at = get_or_else input.at iso;
  level = input.level;
  source = input.source;
  message = input.message;
  detail = input.detail;
  track_id = input.track_id;
}

-- `schedule` sets the timer if it is not set.
pub push : String → LogInput → LogStore → LogStore
push iso input s = record s {
  pending = s.pending ++ entry_of s.next_id iso input ∷ [];
  next_id = suc s.next_id;
  timer = true;
}

-- `isDebugThrottled`: the window and the count that it leaves, and its answer.
pub count_debug : ℕ → LogStore → LogStore
count_debug now s =
    if ltb debug_burst_window_ms (now - s.debug_window_start)
    then record s { debug_window_start = now; debug_window_count = 1 }
    else record s { debug_window_count = suc s.debug_window_count }

abbrev pub over_burst : LogStore → Bool
over_burst s = ltb debug_burst_limit s.debug_window_count

abbrev pub gap_notice : ℕ → LogInput
gap_notice count = record {
  at = none;
  level = LogLevel.debug;
  source = LogSource.ui;
  message = suppressed count;
  detail = none;
  track_id = none;
}

pub append_debug : ℕ → String → LogInput → LogStore → LogStore
append_debug now iso input s =
    let counted = count_debug now s in
    if over_burst counted
    then record counted { suppressed_debug = suc s.suppressed_debug }
    else push iso input counted

pub append : ℕ → String → LogInput → LogStore → LogStore
append now iso input s =
    if is_debug input.level
    then append_debug now iso input s
    else if ltb 0 s.suppressed_debug
    then push iso input
        (push iso (gap_notice s.suppressed_debug) (record s { suppressed_debug = 0 }))
    else push iso input s

pub clear : LogStore → LogStore
unfolding emit
clear s = emit (record s { entries = []; pending = []; dropped = 0 })

abbrev pub is_empty {ℓ} : {A : Type ℓ} → List A → Bool
is_empty [] = true
is_empty (x ∷ xs) = false

pub flush : LogStore → LogStore
unfolding emit
flush s =
    let merged = s.entries ++ s.pending in
    let cut = record s {
      pending = [];
      dropped = s.dropped + (length merged - s.limit);
      entries = slice_last s.limit merged;
    } in
    if is_empty s.pending
    then s
    else if ltb s.limit (length merged)
    then emit cut
    else emit (record s { pending = []; entries = merged })

pub data Event : Type 0 where
  appended : (now : ℕ) (iso : String) → LogInput → Event
  limited : ℕ → Event
  cleared : Event
  timer_fired : Event

-- The timer's callback runs only while the timer is set.
pub step : Event → LogStore → LogStore
step (appended now iso input) s = append now iso input s
step (limited n) s = set_limit n s
step cleared s = clear s
step timer_fired s = if s.timer then flush (record s { timer = false }) else s

pub run : List Event → LogStore → LogStore
run [] s = s
run (e ∷ es) s = run es (step e s)
