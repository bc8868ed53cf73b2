-- ===== src/Tracks/Partition.antt =====
-- services/ui/src/features/tracks/partition.ts and services/ui/src/features/tracks/tier.ts.
pub mod Tiers
mod Tests
use classg.Prelude.{
  Bool, true, false, List, [], ◌∷◌, if◌then◌else◌, not, any, length, ◌==◌, get_or_else,
}
use classg.Api.{DetectionClass, class_c, class_d, class_h, Track}
use classg.Live.Frames.{is_closed}

abbrev pub corroborating_only : DetectionClass → Bool
corroborating_only class_c = true
corroborating_only class_d = true
corroborating_only class_h = true
corroborating_only _ = false

pub is_identified : Track → Bool
is_identified t =
    let evidence = get_or_else t.evidence [] in
    if length evidence == 0
    then true
    else any (λ e. not (corroborating_only e.detection_class)) evidence

pub record Partition : Type 0 where
  pub active : List Track
  pub unidentified : List Track
  pub closed : List Track

pub partition_tracks : List Track → Partition
unfolding is_identified
partition_tracks [] = record { active = []; unidentified = []; closed = [] }
partition_tracks (t ∷ ts) =
    let rest = partition_tracks ts in
    if is_closed t
    then record rest { closed = t ∷ rest.closed }
    else if is_identified t
    then record rest { active = t ∷ rest.active }
    else record rest { unidentified = t ∷ rest.unidentified }
