-- ===== src/Tracks/Partition/Tiers.antt =====
-- The three lists of partition.ts.
use classg.Prelude.{
  ◌≡◌, refl, arith, Bool, ◌&&◌, List, [], ◌∷◌, not, any, all, length, ◌==◌, filter, get_or_else,
}
use classg.Api.{Evidence, Track}
use classg.Live.Frames.{is_closed}
use classg.Tracks.Partition.{corroborating_only, is_identified, partition_tracks}

-- There is evidence, and all of it only corroborates.
abbrev pub is_weak : Track → Bool
is_weak t =
    not (length (get_or_else t.evidence []) == 0)
    && all (λ e. corroborating_only e.detection_class) (get_or_else t.evidence [])

any-not :
    (es : List Evidence)
    → any (λ e. not (corroborating_only e.detection_class)) es
      ≡ not (all (λ e. corroborating_only e.detection_class) es)
any-not [] = refl
any-not (e ∷ es) = ground (arith, any-not es)

identified_unless_weak : (t : Track) → is_identified t ≡ not (is_weak t)
unfolding is_identified
identified_unless_weak t = ground (arith, any-not (get_or_else t.evidence []))

-- The closed list is the closed tracks; of the others the unidentified list is those that have evidence
-- and whose evidence is all of class C, D or H, and the active list is the rest; each in the order given.
pub partition_by_evidence :
    (ts : List Track)
    → ((partition_tracks ts).closed ≡ filter is_closed ts)
      × ((partition_tracks ts).unidentified ≡ filter (λ t. not (is_closed t) && is_weak t) ts)
      × ((partition_tracks ts).active ≡ filter (λ t. not (is_closed t) && not (is_weak t)) ts)
unfolding partition_tracks
partition_by_evidence [] = (refl, refl, refl)
partition_by_evidence (t ∷ ts) =
    let (shut, weak, active) = partition_by_evidence ts in
    let tier = identified_unless_weak t in
    (ground (arith, shut, tier), ground (arith, weak, tier), ground (arith, active, tier))
