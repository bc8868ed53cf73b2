-- ===== src/Sensors/Survey/Shares.antt =====
-- services/ui/src/features/spectrum/wifi-survey.ts: the share of the time that a channel is busy.
use classg.Prelude.{
  ◌≤◌, ◌≢◌, arith, String, Bool, true, false, Option, none, some, List, [], ◌∷◌, ◌||◌, not, filter,
  str_eq, if◌then◌else◌, All, All-sort_by, Bool-cases, inl, inr, sort_by, lookup, get_or_else,
}
use classg.Api.{Json, JsonItems, JsonFields, SensorHealth}
use classg.Sensors.Summary.{as_number}
use classg.Sensors.Survey.{
  ChannelOccupancy, SurveyState, member, clamped, occupancy, read_channel, read_channels, kept,
  lower_first, is_true, is_false, is_wifi, text_of, chosen, of_channels, of_survey, of_detail,
  of_sensor, survey_state,
}

clamped-le : (j : Json) → clamped j ≤ 1_000
clamped-le (Json.number n) = omega arith
clamped-le (Json.negative n) = omega arith
clamped-le (Json.words t) = omega arith
clamped-le (Json.flag b) = omega arith
clamped-le Json.null = omega arith
clamped-le (Json.array js) = omega arith
clamped-le (Json.object fs) = omega arith

IsShare : ChannelOccupancy → Type 0
IsShare c = c.busy_fraction ≤ 1_000

MayShare : Option ChannelOccupancy → Type 0
MayShare none = Unit
MayShare (some c) = IsShare c

occupancy-MayShare : (entry : JsonFields) (f a b : Option Json) → MayShare (occupancy entry f a b)
unfolding MayShare IsShare
occupancy-MayShare entry (some f) (some a) (some b) = clamped-le b
occupancy-MayShare entry (some f) (some a) none = tt
occupancy-MayShare entry (some f) none b = tt
occupancy-MayShare entry none a b = tt

read_channel-MayShare : (j : Json) → MayShare (read_channel j)
unfolding MayShare
read_channel-MayShare (Json.object entry) =
    occupancy-MayShare entry (as_number (member entry "freq_mhz"))
      (as_number (member entry "active_ms")) (as_number (member entry "busy_fraction"))
read_channel-MayShare (Json.number n) = tt
read_channel-MayShare (Json.negative n) = tt
read_channel-MayShare (Json.words t) = tt
read_channel-MayShare (Json.flag b) = tt
read_channel-MayShare Json.null = tt
read_channel-MayShare (Json.array js) = tt

kept-IsShare :
    (o : Option ChannelOccupancy) (cs : List ChannelOccupancy)
    → MayShare o
    → All IsShare cs
    → All IsShare (kept o cs)
unfolding MayShare
kept-IsShare none cs m h = h
kept-IsShare (some c) cs m h = (m, h)

read_channels-IsShare : (js : JsonItems) → All IsShare (read_channels js)
read_channels-IsShare JsonItems.no_items = tt
read_channels-IsShare (JsonItems.item j js) =
    kept-IsShare (read_channel j) (read_channels js) (read_channel-MayShare j)
      (read_channels-IsShare js)

-- A state has channels only if it is ready, and then the busy share of each is 1 at most.
IsPlausible : SurveyState → Type 0
IsPlausible (SurveyState.ready id cs) = (cs ≢ []) × All IsShare cs
IsPlausible _ = Unit

of_channels-IsPlausible :
    (id : String) (cs : List ChannelOccupancy) → All IsShare cs → IsPlausible (of_channels id cs)
unfolding IsPlausible
of_channels-IsPlausible id [] h = tt
of_channels-IsPlausible id (c ∷ cs) h = ((λ e. cc), h)

no_window-IsPlausible :
    (id : String) (b : Bool)
    → IsPlausible (if b then SurveyState.warming id else SurveyState.unknown id)
unfolding IsPlausible
no_window-IsPlausible id true = tt
no_window-IsPlausible id false = tt

of_survey-IsPlausible :
    (id : String) (available survey : Option Json) → IsPlausible (of_survey id available survey)
of_survey-IsPlausible id available (some (Json.array items)) =
    of_channels-IsPlausible id (sort_by lower_first (read_channels items))
      (All-sort_by lower_first IsShare (read_channels items) (read_channels-IsShare items))
of_survey-IsPlausible id available (some (Json.number n)) =
    no_window-IsPlausible id (is_true available)
of_survey-IsPlausible id available (some (Json.negative n)) =
    no_window-IsPlausible id (is_true available)
of_survey-IsPlausible id available (some (Json.words t)) =
    no_window-IsPlausible id (is_true available)
of_survey-IsPlausible id available (some (Json.flag b)) =
    no_window-IsPlausible id (is_true available)
of_survey-IsPlausible id available (some Json.null) = no_window-IsPlausible id (is_true available)
of_survey-IsPlausible id available (some (Json.object fs)) =
    no_window-IsPlausible id (is_true available)
of_survey-IsPlausible id available none = no_window-IsPlausible id (is_true available)

of_detail-IsPlausible :
    (id : String) (detail : List (String × Json)) → IsPlausible (of_detail id detail)
unfolding IsPlausible
of_detail-IsPlausible id detail =
    elim (Bool-cases (
      is_false (lookup str_eq detail "survey_available")
      || not (str_eq (text_of (lookup str_eq detail "survey_reason")) ""))) [
        | inl off ↦ rw off tt
        | inr on ↦ rw on (
            of_survey-IsPlausible id (lookup str_eq detail "survey_available")
              (lookup str_eq detail "survey"))
      ]

survey_state-IsPlausible :
    (sensors : Option (List SensorHealth)) (want : Option String)
    → IsPlausible (survey_state sensors want)
unfolding survey_state IsPlausible
survey_state-IsPlausible sensors want =
    shown (chosen want (filter (λ s. is_wifi s.sensor_kind) (get_or_else sensors [])))
  where
    shown : (o : Option SensorHealth) → IsPlausible (of_sensor o)
    shown none = tt
    shown (some s) = of_detail-IsPlausible s.sensor_id (get_or_else s.detail [])
