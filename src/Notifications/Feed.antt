-- ===== src/Notifications/Feed.antt =====
-- services/ui/src/features/notifications/feed.ts. The id of a notification is `track:` or `log:` with
-- what follows it, and a title or a line of `meta` is its template with the values in it.
pub mod Order
pub mod Admission
mod Unread
mod Tests
use classg.Prelude.{
  ℕ, ◌+◌, String, Bool, true, false, ◌||◌, ◌&&◌, Option, none, some, List, [], ◌∷◌, ◌++◌, map,
  if◌then◌else◌, not, ltb, ◌==◌, length, filter, take, get_or_else, truthy, codes, sort_by, str_eq,
}
use classg.Api.{Track, TrackState, Identity, confirmed}
use classg.Live.Frames.{serial_of, vendor_of}
use classg.Logs.Store.{LogLevel, level_rank, LogSource, LogEntry, Message, Field}

pub data NotifyCategory : Type 0 where
  drone sensor stream capture spectrum unit api action : NotifyCategory

-- `SOURCE_CATEGORY`
abbrev pub source_category : LogSource → Option NotifyCategory
source_category LogSource.sensor = some sensor
source_category LogSource.stream = some stream
source_category LogSource.capture = some capture
source_category LogSource.spectrum = some spectrum
source_category LogSource.deploy = some unit
source_category LogSource.api = some api
source_category LogSource.ui = some action
source_category LogSource.track = none
source_category LogSource.detection = none

pub data NotificationId : Type 0 where
  track_id : String → NotificationId
  log_id : ℕ → NotificationId

-- A serial whole, or its last six characters after an ellipsis.
pub data Tail : Type 0 where
  whole abbreviated : String → Tail

-- `headline` is that of `formatHeadline` on the vendor and the type.
pub data Title : Type 0 where
  drone_title : Option Tail → Title
  headline : (vendor ua_type : String) → Option Tail → Title
  logged : Message → Title

pub data Meta : Type 0 where
  vendor : String → Meta
  unknown_vendor in_flight : Meta
  state : TrackState → Meta
  detections : ℕ → Meta
  detail : Field → Meta

pub record Notification : Type 0 where
  pub id : NotificationId
  pub at : String
  pub category : NotifyCategory
  pub level : LogLevel
  pub title : Title
  pub meta : List Meta
  pub confidence : Option ℕ
  pub track : Option String

pub record FeedInput : Type 0 where
  pub tracks : List Track
  pub entries : List LogEntry
  -- What the stored preferences say of a category; `none` if there is no such key.
  pub categories : NotifyCategory → Option Bool
  pub min_level : Option LogLevel
  pub limit : ℕ

abbrev is_false : Option Bool → Bool
is_false (some false) = true
is_false _ = false

abbrev pub is_category_enabled : (NotifyCategory → Option Bool) → NotifyCategory → Bool
is_category_enabled categories c = not (is_false (categories c))

abbrev ua_type_of : Option Identity → Option String
ua_type_of none = none
ua_type_of (some i) = i.ua_type

abbrev tail_of : Option String → Option Tail
tail_of none = none
tail_of (some serial) =
    if str_eq serial ""
    then none
    else if ltb 8 (length (codes serial))
    then some (abbreviated serial)
    else some (whole serial)

-- What `formatHeadline` leaves out: the empty text, and the dash for an empty value.
abbrev is_named : String → Bool
is_named v = not (str_eq v "" || str_eq v "—")

pub track_title : Track → Title
track_title t =
    let vendor_name = get_or_else (vendor_of t.identity) "" in
    let type_name = get_or_else (ua_type_of t.identity) "" in
    if is_named vendor_name || is_named type_name
    then headline vendor_name type_name (tail_of (serial_of t.identity))
    else drone_title (tail_of (serial_of t.identity))

abbrev state_label : TrackState → Meta
state_label confirmed = in_flight
state_label st = state st

abbrev vendor_meta : Option String → Meta
vendor_meta none = unknown_vendor
vendor_meta (some v) = vendor v

pub track_notification : Track → Notification
track_notification t = record {
  id = track_id t.track_id;
  at = t.first_seen;
  category = drone;
  level = LogLevel.info;
  title = track_title t;
  meta =
      vendor_meta (vendor_of t.identity)
      ∷ state_label t.state
      ∷ (if ltb 0 t.detection_count then detections t.detection_count ∷ [] else []);
  confidence = some t.confidence;
  track = some t.track_id;
}

abbrev details_of : Option (List Field) → List Meta
details_of none = []
details_of (some fs) = map (λ f. detail f) fs

pub entry_notification : LogEntry → NotifyCategory → Notification
entry_notification e c = record {
  id = log_id e.id;
  at = e.at;
  category = c;
  level = e.level;
  title = logged e.message;
  meta = details_of e.detail;
  confidence = none;
  track = if truthy e.track_id then e.track_id else none;
}

abbrev pub level_floor : Option LogLevel → ℕ
level_floor m = level_rank (get_or_else m LogLevel.info)

-- One round of the loop over the entries.
pub admit_entry : FeedInput → LogEntry → Option Notification
admit_entry i e = elim (source_category e.source) [
  | none ↦ none
  | some c ↦
      if not (is_category_enabled i.categories c)
      then none
      else if ltb (level_rank e.level) (level_floor i.min_level)
      then none
      else some (entry_notification e c)
]

abbrev pub push_some : Option Notification → List Notification → List Notification
push_some none ns = ns
push_some (some n) ns = n ∷ ns

pub entry_notifications : FeedInput → List LogEntry → List Notification
entry_notifications i [] = []
entry_notifications i (e ∷ es) = push_some (admit_entry i e) (entry_notifications i es)

pub track_notifications : FeedInput → List Notification
track_notifications i =
    if is_category_enabled i.categories drone then map track_notification i.tracks else []

-- What the sort gets.
pub merged : FeedInput → List Notification
merged i = track_notifications i ++ entry_notifications i i.entries

abbrev pub is_drone : NotifyCategory → Bool
is_drone drone = true
is_drone _ = false

-- `delta <= 0` for the times of `b` and `a`, and the order of their ids where it is 0. The delta of a
-- date that is none is NaN, which the sort reads as a tie, so the order is then the sort's own.
abbrev pub delta_first : Option ℕ → Option ℕ → Bool → Bool
delta_first (some a) (some b) ids = if b == a then ids else ltb b a
delta_first _ _ ids = true

abbrev pub is_later : ℕ → Option ℕ → Bool
is_later last_seen none = false
is_later last_seen (some ms) = ltb last_seen ms

-- `new Date(text).getTime()`, `none` where it is NaN, and `localeCompare(…) <= 0` are parameters.
module _ (time : String → Option ℕ) (id_before : NotificationId → NotificationId → Bool) where
  -- `byNewestFirst(a, b) <= 0`
  abbrev pub newest_first : Notification → Notification → Bool
  newest_first a b = delta_first (time a.at) (time b.at) (id_before a.id b.id)

  pub build_feed : FeedInput → List Notification
  build_feed i = take i.limit (sort_by newest_first (merged i))

module _ (time : String → Option ℕ) where
  abbrev pub is_unread : ℕ → Notification → Bool
  is_unread last_seen n =
      is_later last_seen (time n.at)
      && (is_drone n.category || ltb (level_rank LogLevel.info) (level_rank n.level))

  pub count_unread : List Notification → ℕ → ℕ
  count_unread feed last_seen = length (filter (is_unread last_seen) feed)
