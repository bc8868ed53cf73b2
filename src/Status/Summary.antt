-- ===== src/Status/Summary.antt =====
-- services/ui/src/features/health/status-summary.ts. A sentence is its template and the values in it.
use classg.Prelude.{
  ℕ, Bool, true, false, Option, none, some, if◌then◌else◌, not, ltb, ◌==◌, length, filter,
}
use classg.Api.{SystemStatus, Health, MonitoringState}
use classg.Live.Stream.{ConnectionState}

pub data StatusTone : Type 0 where
  ok warn down unknown : StatusTone

pub data Label : Type 0 where
  no_api checking no_coverage paused stale healthy : Label
  sensors_down : ℕ → Label

pub data Detail : Type 0 where
  unreachable waiting none_registered discarding disconnected reconnecting : Detail
  every_unhealthy some_unhealthy : (unhealthy sensors : ℕ) → Detail
  discarded recording : ℕ → Detail

pub record StatusSummary : Type 0 where
  pub tone : StatusTone
  pub label : Label
  pub detail : Detail

pub record StatusInputs : Type 0 where
  pub health : Option Health
  pub monitoring : Option MonitoringState
  pub connection : ConnectionState
  pub health_error : Bool

abbrev summary : StatusTone → Label → Detail → StatusSummary
summary tone label detail = record { tone = tone; label = label; detail = detail }

abbrev unhealthy_count : Health → ℕ
unhealthy_count h = length (filter (λ s. not s.healthy) h.sensors)

abbrev pub is_down : SystemStatus → Bool
is_down SystemStatus.down = true
is_down _ = false

abbrev pub is_degraded : SystemStatus → Bool
is_degraded SystemStatus.degraded = true
is_degraded _ = false

abbrev pub is_open : ConnectionState → Bool
is_open ConnectionState.opened = true
is_open _ = false

abbrev is_shut : ConnectionState → Bool
is_shut ConnectionState.closed = true
is_shut _ = false

-- `monitoring && !monitoring.enabled`
abbrev pub is_paused : Option MonitoringState → Bool
is_paused none = false
is_paused (some m) = not m.enabled

abbrev discarded_count : Option MonitoringState → ℕ
discarded_count none = 0
discarded_count (some m) = m.discarded_while_paused

-- The branches once a health report is there.
unfoldable pub summarise_health : Health → Option MonitoringState → ConnectionState → StatusSummary
summarise_health h m connection =
    let unhealthy = unhealthy_count h in
    let sensors = length h.sensors in
    if is_down h.status
    then summary StatusTone.down Label.no_coverage
        (if sensors == 0 then Detail.none_registered else every_unhealthy unhealthy sensors)
    else if is_paused m
    then summary StatusTone.warn Label.paused
        (if ltb 0 (discarded_count m) then discarded (discarded_count m) else Detail.discarding)
    else if (if is_degraded h.status then true else ltb 0 unhealthy)
    then summary StatusTone.warn (sensors_down unhealthy) (some_unhealthy unhealthy sensors)
    else if not (is_open connection)
    then summary StatusTone.warn Label.stale
        (if is_shut connection then Detail.disconnected else Detail.reconnecting)
    else summary StatusTone.ok Label.healthy (recording sensors)

unfoldable pub summarise_status : StatusInputs → StatusSummary
summarise_status i =
    if i.health_error
    then summary StatusTone.down Label.no_api Detail.unreachable
    else elim i.health [
      | none ↦ summary StatusTone.unknown Label.checking Detail.waiting
      | some h ↦ summarise_health h i.monitoring i.connection
    ]
