-- ===== src/Notifications/Feed/Tests.antt =====
-- The feed of feed.ts on a track and two entries, and its theorems there.
use classg.Prelude.{
  ℕ, ◌≤◌, ◌≡◌, refl, arith, String, Bool, true, false, Option, none, some, List, [], ◌∷◌, ◌++◌, map,
  length, leb, All, sort_by, codes,
}
use mathlib.Core.List.{Perm}
use classg.Api.{Track, TrackState}
use classg.Logs.Store.{LogLevel, LogSource, LogEntry, Message}
use classg.Notifications.Feed.{
  NotificationId, track_id, log_id, Notification, FeedInput, merged, track_notifications,
  track_notification, entry_notifications, admit_entry, entry_notification, build_feed,
  count_unread, track_title,
}
use classg.Notifications.Feed.Order.{IsDated, IsNewer, IsNewestFirst, feed_is_newest}

abbrev time : String → Option ℕ
time t = some (length (codes t))

abbrev rank : NotificationId → ℕ
rank (track_id id) = 0
rank (log_id n) = 1

abbrev id_before : NotificationId → NotificationId → Bool
id_before a b = leb (rank a) (rank b)

id_before_total : (a b : NotificationId) → id_before a b ≡ false → id_before b a ≡ true
id_before_total a b h = ground arith

id_before_trans :
    (a b c : NotificationId) → id_before a b ≡ true → id_before b c ≡ true → id_before a c ≡ true
id_before_trans a b c h k = ground arith

abbrev drone_seen : Track
drone_seen = record {
  track_id = "T1";
  state = TrackState.confirmed;
  first_seen = "12";
  last_seen = "1234";
  detection_count = 3;
  identity = none;
  confidence = 700;
  evidence = none;
  current = none;
  history = none;
  operator = none;
  adsb_correlated = none;
}

abbrev entry : ℕ → LogLevel → LogSource → LogEntry
entry id level source = record {
  id = id;
  at = "123";
  level = level;
  source = source;
  message = Message.text "said";
  detail = none;
  track_id = none;
}

abbrev input : FeedInput
input = record {
  tracks = drone_seen ∷ [];
  entries =
      entry 1 LogLevel.warn LogSource.sensor
      ∷ entry 2 LogLevel.error LogSource.track
      ∷ entry 3 LogLevel.debug LogSource.ui
      ∷ [];
  categories = λ _. none;
  min_level = none;
  limit = 200;
}

calls : Unit {0}
unfolding build_feed sort_by merged track_notifications track_notification entry_notifications
    admit_entry entry_notification count_unread track_title
calls = tt

feed_of_input : map (λ n. n.id) (build_feed time id_before input) ≡ log_id 1 ∷ track_id "T1" ∷ []
unfolding calls
feed_of_input = refl

All-IsDated : All (IsDated time id_before) (merged input)
unfolding calls
All-IsDated = (refl, (refl, tt))

feed_is_newest_example :
    (cut : List Notification) × (length (build_feed time id_before input) ≤ 200)
    × IsNewestFirst time id_before (build_feed time id_before input)
    × Perm (build_feed time id_before input ++ cut) (merged input)
    × All (λ y. All (λ x. IsNewer time id_before x y) (build_feed time id_before input)) cut
feed_is_newest_example =
    feed_is_newest time id_before id_before_total id_before_trans input All-IsDated
