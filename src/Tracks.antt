-- ===== src/Tracks.antt =====
-- services/ui/src/features/tracks: what the pages of the tracks derive from the list.
pub mod Flights
pub mod Partition
pub mod Playback
pub mod Groups
pub mod Filters
pub mod Speed
