-- ===== src/Lib.antt =====
-- ClassG console: a model of the core logic of services/ui, with proofs.
--
-- ClassG hears drones by radio. Sensors report detections, a fusion service turns them into tracks, an
-- API serves the tracks and streams what changes, and the console in services/ui shows it. This library
-- is about the console: how it keeps its picture of the tracks right while frames arrive, how it keeps
-- the stream itself alive, what it tells the operator, and what it leaves out.
--
-- How the parts interact. `LiveStream` (services/ui/src/lib/api/live.ts) holds one WebSocket, retries
-- with a growing delay when it is lost, and hands each frame of the server to its listeners. The live
-- provider gives every frame to `applyFrame` (services/ui/src/app/live-frames.ts), which rewrites the
-- query caches that the views read, and then to the log bridge (services/ui/src/features/logs/log-
-- bridge.ts), which writes an entry to the session log (services/ui/src/features/logs/log-store.ts) if
-- something changed. The notification feed (services/ui/src/features/notifications/feed.ts) merges the
-- list of tracks with the log; what was cleared from it and the read watermark are stores of their own.
-- The pages of the tracks filter, group and play back the list, and the search box resolves a text
-- against it. The sky state, the status summary, the recording state and the freshness say what the
-- reports of the sensors and the state of the stream allow the operator to conclude. The timeline packs
-- the tracks into lanes, the update watcher (services/ui/src/features/offline/app-update.ts) swaps in a
-- new build when the operator agrees.
--
-- Which file models which part:
--   Prelude         names passed on from the libraries, Boolean tests, lists, texts, sorting, keys
--   Api             the documents of the wire (services/ui/src/lib/api/types.ts)
--   Live.Frames     applyFrame and what it calls; `QueryCache` is the part of the query cache that it
--                   reads and writes, a place for each key that it names
--   Live.Stream     the stream client; `step` is one call or one event of the browser
--   Logs.Store      the log; `step` is one call or the firing of its timer
--   Logs.Export     toCsv and toNdjson of the log, and a reader of the CSV format
--   Logs.Bridge     the bridge; an `Outcome` says what one frame wrote and whether the call threw
--   Notifications   Feed (buildFeed, countUnread), Cleared (cleared-store.ts), LastSeen (last-seen.ts)
--   Status          Sky (sky-state.ts, recording-state.ts), Summary (status-summary.ts), Freshness
--                   (freshness.ts), and what their verdicts mean, in Covered
--   Offline         AppUpdate (app-update.ts)
--   Timeline        Lanes (lanes.ts)
--   Tracks          Flights (flight-metrics.ts), Partition (partition.ts, tier.ts), Playback
--                   (flight-playback.ts), Speed (flight-speed.ts), Groups (flight-groups.ts), Filters
--                   (flight-filters.ts and dayRangeMs of flight-time.ts)
--   Overview        Aircraft and Selection (aircraft.ts and selection.ts of the map)
--   Layout          Search (services/ui/src/components/layout/search-resolver.ts): the index and the
--                   resolution of what the operator types
--   Charts          Segments and Downsample (telemetry-series.ts, trace-series.ts): what the charts of
--                   the hosts and of the spectrum draw
--   Sensors         Detail (sensor-detail-groups.ts), Summary (sensor-summary.ts), Survey
--                   (wifi-survey.ts)
--   Deploy          UnitEvents (unit-events.ts)
--
-- How the code is read. An object that changes is a record, and each method is a function from the
-- record to the record; an event of the browser is a case of a data type. Numbers are natural numbers:
-- times are milliseconds since the epoch, a confidence is in thousandths, the value of Math.random is
-- in units of 2^-53. A text is compared, measured and searched by its UTF-16 code units. The one
-- floating-point number that decides what is shown, the size of a bucket of a chart, is modelled with
-- its rounding. A sentence for the operator is its template with the values in it. What listeners are
-- told is a list in the record, in order. What comes from outside, such as Date.parse, toLowerCase,
-- localeCompare and the clock, is a parameter or comes with the event, and a theorem names what it
-- needs of it.
--
-- Bounds and fuel. Three loops are on fuel. That of `ticks` in Timeline.Lanes: a step is at least a
-- minute, so one round for each millisecond of the window and one more pass its end, and no multiple of
-- the step in the window is missed. The bisection of Tracks.Playback has one round for each dated
-- point: a round makes the range shorter by one or more, so it ends before the fuel does, and
-- `frame_at` answers `none` only for the lack of fuel. `floor_log2` of Charts.Downsample halves a
-- number: a count of points has at most 53 binary digits, and its product with the 53 bits of a double
-- at most 106. All other loops are over lists, or count through an index range.
--
-- What is not modelled: the services in Go and Python, the React components and hooks, the drawing of
-- the map and its geometry, the service worker and its caches, the transport of the HTTP client,
-- formatting for the display, the download of exports, and the mocks.
pub mod Prelude
pub mod Api
pub mod Live
pub mod Logs
pub mod Notifications
pub mod Offline
pub mod Status
pub mod Timeline
pub mod Tracks
pub mod Deploy
pub mod Layout
pub mod Sensors
pub mod Charts
pub mod Overview
