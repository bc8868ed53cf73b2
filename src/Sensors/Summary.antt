-- ===== src/Sensors/Summary.antt =====
-- services/ui/src/features/health/sensor-summary.ts: the few counters of a sensor that its page shows
-- as tiles. The texts of the labels are left out. A hint is a text or the values it is made of.
pub mod Readings
mod Tests
use classg.Prelude.{
  ℕ, ◌*◌, String, Bool, true, false, Option, none, some, List, [], ◌∷◌, ◌++◌, ◌&&◌, if◌then◌else◌,
  ltb, ◌==◌, any, str_eq, lookup, get_or_else,
}
use classg.Api.{Json, SensorHealth, SensorKind}

pub data SummaryKind : Type 0 where
  count fraction millis seconds : SummaryKind

pub data StatTone : Type 0 where
  plain ok warn down muted : StatTone

pub data SummaryHint : Type 0 where
  no_hint : SummaryHint
  words : String → SummaryHint
  hops : Json → SummaryHint
  percent_of : (parsed messages : Json) → SummaryHint

pub record SummaryMetric : Type 0 where
  pub id : String
  pub kind : SummaryKind
  pub value : Json
  pub hint : SummaryHint
  pub tone : StatTone

pub record SensorSummary : Type 0 where
  pub metrics : List SummaryMetric
  pub consumed : List String

-- `typeof value === 'number'`
abbrev pub as_number : Option Json → Option Json
as_number (some (Json.number n)) = some (Json.number n)
as_number (some (Json.negative n)) = some (Json.negative n)
as_number _ = none

abbrev pub number_at : List (String × Json) → String → Option Json
number_at detail key = as_number (lookup str_eq detail key)

abbrev pub add_key : List String → String → List String
add_key consumed key = if any (str_eq key) consumed then consumed else consumed ++ key ∷ []

-- What a read answers, and the keys consumed after it.
abbrev pub found :
    Option Json → String → List String → Option Json × List String → Option Json × List String
found none key consumed rest = rest
found (some v) key consumed rest = (some v, add_key consumed key)

-- `read(...keys)`
abbrev pub read : List (String × Json) → List String → List String → Option Json × List String
read detail [] consumed = (none, consumed)
read detail (key ∷ keys) consumed =
    found (number_at detail key) key consumed (read detail keys consumed)

abbrev pub is_positive : Json → Bool
is_positive (Json.number n) = ltb 0 n
is_positive _ = false

-- LISTENING_FLOOR, of a number in thousandths.
abbrev pub below_floor : Json → Bool
below_floor (Json.number n) = ltb n 750
below_floor _ = true

abbrev pub heartbeat : SensorHealth → SummaryMetric
heartbeat s = record {
  id = "heartbeat";
  kind = seconds;
  value = Json.number s.seconds_since_heartbeat;
  hint = no_hint;
  tone = if s.healthy then plain else down;
}

-- A tile that is made of a reading, if there is one, or of the sensor itself.
pub data Tile : Type 0 where
  from : List String → (Json → SummaryMetric) → Tile
  always : SummaryMetric → Tile

abbrev pub tile : String → SummaryKind → SummaryHint → StatTone → Json → SummaryMetric
tile id kind hint tone v = record { id = id; kind = kind; value = v; hint = hint; tone = tone }

abbrev pub five_minutes : SensorHealth → Option ℕ → List Tile
five_minutes s none = []
five_minutes s (some n) =
    always (record {
      id = "detections-5m";
      kind = count;
      value = Json.number (n * 1_000);
      hint = if n == 0 && s.healthy then words "quiet, not deaf" else no_hint;
      tone = if n == 0 then muted else plain;
    })
    ∷ []

abbrev pub heard_hint : Option Json → SummaryHint
heard_hint none = words "frames"
heard_hint (some v) = words "beacons"

abbrev pub hops_hint : Option Json → SummaryHint
hops_hint none = no_hint
hops_hint (some v) = hops v

abbrev pub percent_hint : Option Json → Json → SummaryHint
percent_hint none parsed = no_hint
percent_hint (some messages) parsed =
    if is_positive messages then percent_of parsed messages else no_hint

abbrev pub first_number : Option Json → Option Json → Option Json
first_number none b = b
first_number (some a) b = some a

pub wifi_metrics : SensorHealth → List (String × Json) → List Tile
wifi_metrics s detail =
    from ("beacons" ∷ "frames" ∷ [])
        (tile "heard" count (heard_hint (number_at detail "beacons")) plain)
      ∷ from ("detections" ∷ []) (λ v.
        tile "detections" count (words "since this sensor started")
          (if is_positive v then ok else plain) v)
      ∷ five_minutes s s.detections_5m
    ++ from ("listening_fraction" ∷ []) (λ v.
      tile "listening" fraction (words "of the time, not retuning")
        (if below_floor v then warn else plain) v)
      ∷ from ("hop_overhead_ms" ∷ [])
          (tile "hop-overhead" millis (hops_hint (number_at detail "hops")) plain)
      ∷ always (heartbeat s)
      ∷ []

pub sdr_metrics : SensorHealth → List (String × Json) → List Tile
sdr_metrics s detail =
    from ("messages_read" ∷ "frames" ∷ []) (tile "read" count no_hint plain)
    ∷ from ("parsed" ∷ []) (λ v.
      tile "parsed" count
        (percent_hint (first_number (number_at detail "messages_read") (number_at detail "frames"))
          v)
        plain v)
    ∷ from ("icaos" ∷ []) (tile "icaos" count (words "manned traffic, context only") plain)
    ∷ from ("parse_errors" ∷ [])
        (λ v. tile "parse-errors" count no_hint (if is_positive v then warn else plain) v)
    ∷ from ("uptime_s" ∷ []) (tile "uptime" seconds no_hint plain)
    ∷ always (heartbeat s)
    ∷ []

pub other_metrics : SensorHealth → List Tile
other_metrics s =
    from ("detections" ∷ [])
      (λ v. tile "detections" count no_hint (if is_positive v then ok else plain) v)
    ∷ from ("uptime_s" ∷ []) (tile "uptime" seconds no_hint plain)
    ∷ always (heartbeat s)
    ∷ []

abbrev pub tiles_of : SensorKind → SensorHealth → List (String × Json) → List Tile
tiles_of SensorKind.wifi s detail = wifi_metrics s detail
tiles_of SensorKind.sdr s detail = sdr_metrics s detail
tiles_of _ s detail = other_metrics s

abbrev pub with_metric : SummaryMetric → SensorSummary → SensorSummary
with_metric m s = record s { metrics = m ∷ s.metrics }

-- A tile where there is a reading.
abbrev pub shown : Option Json → (Json → SummaryMetric) → SensorSummary → SensorSummary
shown none make s = s
shown (some v) make s = with_metric (make v) s

-- The tiles in order, each reading what it needs.
abbrev pub run_tiles : List (String × Json) → List Tile → List String → SensorSummary
run_tiles detail [] consumed = record { metrics = []; consumed = consumed }
run_tiles detail (always m ∷ ts) consumed = with_metric m (run_tiles detail ts consumed)
run_tiles detail (from keys make ∷ ts) consumed =
    shown (read detail keys consumed).0 make (run_tiles detail ts (read detail keys consumed).1)

pub summarise_sensor : SensorHealth → SensorSummary
summarise_sensor s =
    let detail = get_or_else s.detail [] in run_tiles detail (tiles_of s.sensor_kind s detail) []
