-- ===== src/Tracks/Partition/Tests.antt =====
-- The partition of three tracks.
use classg.Prelude.{◌≡◌, refl, none, some, Option, List, [], ◌∷◌}
use classg.Api.{class_a, class_c, wifi, DetectionClass, Evidence, Track, TrackState}
use classg.Tracks.Partition.{partition_tracks, is_identified}

abbrev track : TrackState → Option (List Evidence) → Track
track state evidence = record {
  track_id = "T1";
  state = state;
  first_seen = "2026-09-15T10:00:00Z";
  last_seen = "2026-09-15T10:05:00Z";
  detection_count = 1;
  identity = none;
  confidence = 700;
  evidence = evidence;
  current = none;
  history = none;
  operator = none;
  adsb_correlated = none;
}

abbrev seen : DetectionClass → Evidence
seen class = record { detection_class = class; sensor_kind = wifi; weight = 100; count = 1 }

abbrev tracks : List Track
tracks =
    track TrackState.closed none
    ∷ track TrackState.tentative (some (seen class_c ∷ []))
    ∷ track TrackState.confirmed (some (seen class_c ∷ seen class_a ∷ []))
    ∷ []

-- An OUI alone leaves a track unidentified.
oui_alone :
    (partition_tracks tracks).unidentified
    ≡ track TrackState.tentative (some (seen class_c ∷ [])) ∷ []
unfolding partition_tracks is_identified
oui_alone = refl
