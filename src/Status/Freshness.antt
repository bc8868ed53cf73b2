-- ===== src/Status/Freshness.antt =====
-- services/ui/src/features/offline/freshness.ts. Times are milliseconds since the epoch. A sentence
-- is its template and the age in it.
use classg.Prelude.{ℕ, ◌-◌, Bool, true, false, Option, none, some, if◌then◌else◌, not, ltb}
use classg.Live.Stream.{ConnectionState}
use classg.Status.Summary.{is_open}

pub data FreshnessLevel : Type 0 where
  live reconnecting stale offline : FreshnessLevel

pub data Title : Type 0 where
  offline_title live_title connecting_title no_data_title reconnecting_title stream_down_title :
      Title

pub data Detail : Type 0 where
  never_received stream_connected waiting_for_frame not_reached : Detail
  frozen newest_reading frozen_stream : (age_ms : ℕ) → Detail

pub record Freshness : Type 0 where
  pub level : FreshnessLevel
  pub age_ms : Option ℕ
  pub announce : Bool
  pub title : Title
  pub detail : Detail

pub record FreshnessInput : Type 0 where
  pub online : Bool
  pub connection : ConnectionState
  pub reconnect_attempt : ℕ
  pub last_update_at : Option ℕ
  pub now : ℕ
  pub stale_after_ms : ℕ

abbrev pub default_stale_after_ms : ℕ
default_stale_after_ms = 30000

abbrev pub attempts_before_announcing : ℕ
attempts_before_announcing = 2

abbrev freshness : FreshnessLevel → Option ℕ → Bool → Title → Detail → Freshness
freshness level age announce title detail = record {
  level = level;
  age_ms = age;
  announce = announce;
  title = title;
  detail = detail;
}

-- `Math.max(0, now - lastUpdateAt)`
abbrev pub age_of : ℕ → Option ℕ → Option ℕ
age_of now none = none
age_of now (some at) = some (now - at)

abbrev offline_detail : Option ℕ → Detail
offline_detail none = never_received
offline_detail (some age) = frozen age

-- The stream is not open: by what was ever received.
unfoldable pub closed_freshness : FreshnessInput → Option ℕ → Freshness
closed_freshness i none =
    if ltb i.reconnect_attempt attempts_before_announcing
    then freshness reconnecting none false connecting_title waiting_for_frame
    else freshness stale none true no_data_title not_reached
closed_freshness i (some age) =
    if ltb age i.stale_after_ms
    then freshness reconnecting (some age) false reconnecting_title (newest_reading age)
    else freshness stale (some age) true stream_down_title (frozen_stream age)

unfoldable pub compute_freshness : FreshnessInput → Freshness
compute_freshness i =
    let age = age_of i.now i.last_update_at in
    if not i.online
    then freshness offline age true offline_title (offline_detail age)
    else if is_open i.connection
    then freshness live age false live_title stream_connected
    else closed_freshness i age
