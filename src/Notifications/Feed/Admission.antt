-- ===== src/Notifications/Feed/Admission.antt =====
-- What the feed of feed.ts lets in.
use classg.Prelude.{◌≡◌, Bool, true, false, ◌&&◌, Option, none, some, if◌then◌else◌, not, leb}
use classg.Logs.Store.{LogLevel, level_rank}
use classg.Notifications.Feed.{
  NotifyCategory, NotificationId, track_id, log_id, Notification, FeedInput, is_category_enabled,
  level_floor, is_drone,
}

abbrev is_track_id : NotificationId → Bool
is_track_id (track_id id) = true
is_track_id (log_id n) = false

abbrev is_info : LogLevel → Bool
is_info LogLevel.info = true
is_info _ = false

-- Its category is not switched off, and it is a drone at level info from the list of tracks, or an
-- entry of the log, of another category, at or above the floor.
abbrev pub is_admissible : FeedInput → Notification → Bool
is_admissible i n =
    is_category_enabled i.categories n.category
    && (if is_drone n.category
        then is_track_id n.id && is_info n.level
        else not (is_track_id n.id) && leb (level_floor i.min_level) (level_rank n.level))

abbrev IsAdmissible : FeedInput → Notification → Type 0
IsAdmissible i n = is_admissible i n ≡ true

abbrev names_drone : Option NotifyCategory → Bool
names_drone none = false
names_drone (some c) = is_drone c
