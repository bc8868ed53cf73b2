-- ===== src/Sensors/Survey.antt =====
-- services/ui/src/features/spectrum/wifi-survey.ts: how busy the Wi-Fi channels are, read from the
-- detail of a sensor. A number is a whole count of thousandths.
mod Bands
mod Shares
mod Tests
use classg.Prelude.{
  ℕ, String, Bool, true, false, Option, none, some, List, [], ◌∷◌, ◌||◌, not, if◌then◌else◌, ltb,
  min, filter, find, map, str_eq, lookup, get_or_else, sort_by, is_some,
}
use classg.Api.{Json, JsonItems, JsonFields, SensorHealth, SensorKind}
use classg.Sensors.Summary.{as_number}

pub data BandKey : Type 0 where
  ghz2 ghz5 ghz6 : BandKey

pub record ChannelOccupancy : Type 0 where
  pub freq_mhz : Json
  pub channel : Option Json
  pub band : BandKey
  pub active_ms : Json
  pub busy_fraction : ℕ
  pub noise_dbm : Option Json
  pub rx_ms : Json
  pub tx_ms : Json
  pub in_use : Bool

pub data SurveyState : Type 0 where
  no_sensor : SurveyState
  unknown : String → SurveyState
  unsupported : (sensor_id reason : String) → SurveyState
  warming : String → SurveyState
  ready : String → List ChannelOccupancy → SurveyState

-- `a < b` of two numbers.
abbrev pub less : Json → Json → Bool
less (Json.number a) (Json.number b) = ltb a b
less (Json.negative a) (Json.number b) = true
less (Json.negative a) (Json.negative b) = ltb b a
less _ _ = false

abbrev pub member : JsonFields → String → Option Json
member JsonFields.no_fields key = none
member (JsonFields.field k v fs) key = if str_eq k key then some v else member fs key

abbrev pub clamped : Json → ℕ
clamped (Json.number n) = min n 1_000
clamped _ = 0

abbrev pub band_for : Json → BandKey
band_for freq =
    if less freq (Json.number 3_000_000)
    then ghz2
    else if less freq (Json.number 5_925_000)
    then ghz5
    else ghz6

abbrev pub band_of : Option Json → Json → BandKey
band_of (some (Json.words b)) freq =
    if str_eq b "2.4"
    then ghz2
    else if str_eq b "5"
    then ghz5
    else if str_eq b "6"
    then ghz6
    else band_for freq
band_of _ freq = band_for freq

abbrev pub is_true : Option Json → Bool
is_true (some (Json.flag b)) = b
is_true _ = false

abbrev pub occupancy :
    JsonFields → Option Json → Option Json → Option Json → Option ChannelOccupancy
occupancy entry (some freq) (some active) (some busy) = some (record {
  freq_mhz = freq;
  channel = as_number (member entry "channel");
  band = band_of (member entry "band") freq;
  active_ms = active;
  busy_fraction = clamped busy;
  noise_dbm = as_number (member entry "noise_dbm");
  rx_ms = get_or_else (as_number (member entry "rx_ms")) (Json.number 0);
  tx_ms = get_or_else (as_number (member entry "tx_ms")) (Json.number 0);
  in_use = is_true (member entry "in_use");
})
occupancy entry _ _ _ = none

-- An array has none of the members either.
abbrev pub read_channel : Json → Option ChannelOccupancy
read_channel (Json.object entry) =
    occupancy entry (as_number (member entry "freq_mhz")) (as_number (member entry "active_ms"))
      (as_number (member entry "busy_fraction"))
read_channel _ = none

abbrev pub kept : Option ChannelOccupancy → List ChannelOccupancy → List ChannelOccupancy
kept none cs = cs
kept (some c) cs = c ∷ cs

abbrev pub read_channels : JsonItems → List ChannelOccupancy
read_channels JsonItems.no_items = []
read_channels (JsonItems.item j js) = kept (read_channel j) (read_channels js)

abbrev pub lower_first : ChannelOccupancy → ChannelOccupancy → Bool
lower_first a b = not (less b.freq_mhz a.freq_mhz)

abbrev pub is_wifi : SensorKind → Bool
is_wifi SensorKind.wifi = true
is_wifi _ = false

abbrev pub no_survey : String
no_survey = "the driver reported no survey for this interface"

abbrev pub text_of : Option Json → String
text_of (some (Json.words t)) = t
text_of _ = ""

abbrev pub is_false : Option Json → Bool
is_false (some (Json.flag b)) = not b
is_false _ = false

abbrev pub of_channels : String → List ChannelOccupancy → SurveyState
of_channels id [] = SurveyState.warming id
of_channels id (c ∷ cs) = SurveyState.ready id (c ∷ cs)

abbrev pub of_survey : String → Option Json → Option Json → SurveyState
of_survey id available (some (Json.array items)) =
    of_channels id (sort_by lower_first (read_channels items))
of_survey id available _ =
    if is_true available then SurveyState.warming id else SurveyState.unknown id

abbrev pub of_detail : String → List (String × Json) → SurveyState
of_detail id detail =
    let reason = text_of (lookup str_eq detail "survey_reason") in
    let available = lookup str_eq detail "survey_available" in
    if is_false available || not (str_eq reason "")
    then SurveyState.unsupported id (if str_eq reason "" then no_survey else reason)
    else of_survey id available (lookup str_eq detail "survey")

abbrev pub of_sensor : Option SensorHealth → SurveyState
of_sensor none = SurveyState.no_sensor
of_sensor (some s) = of_detail s.sensor_id (get_or_else s.detail [])

-- `wifi.find(…)` or `wifi[0]`
abbrev pub chosen : Option String → List SensorHealth → Option SensorHealth
chosen (some id) wifi =
    if str_eq id "" then find (λ _. true) wifi else find (λ s. str_eq s.sensor_id id) wifi
chosen none wifi = find (λ _. true) wifi

pub survey_state : Option (List SensorHealth) → Option String → SurveyState
survey_state sensors want =
    of_sensor (chosen want (filter (λ s. is_wifi s.sensor_kind) (get_or_else sensors [])))

pub record OccupancyBand : Type 0 where
  pub band : BandKey
  pub channels : List ChannelOccupancy

abbrev pub same_band : BandKey → BandKey → Bool
same_band ghz2 ghz2 = true
same_band ghz5 ghz5 = true
same_band ghz6 ghz6 = true
same_band _ _ = false

abbrev pub band_group : List ChannelOccupancy → BandKey → OccupancyBand
band_group cs b = record { band = b; channels = filter (λ c. same_band c.band b) cs }

abbrev pub is_measured : OccupancyBand → Bool
is_measured g = is_some (find (λ _. true) g.channels)

pub group_by_band : List ChannelOccupancy → List OccupancyBand
group_by_band cs = filter is_measured (map (band_group cs) (ghz2 ∷ ghz5 ∷ ghz6 ∷ []))

abbrev pub busier : Option ChannelOccupancy → ChannelOccupancy → ChannelOccupancy
busier none c = c
busier (some best) c = if ltb best.busy_fraction c.busy_fraction then c else best

abbrev pub busiest_from : Option ChannelOccupancy → List ChannelOccupancy → Option ChannelOccupancy
busiest_from best [] = best
busiest_from best (c ∷ cs) = busiest_from (some (busier best c)) cs

pub busiest : List ChannelOccupancy → Option ChannelOccupancy
busiest cs = busiest_from none cs

pub transmitting : List ChannelOccupancy → List ChannelOccupancy
transmitting cs = filter (λ c. less (Json.number 0) c.tx_ms) cs
