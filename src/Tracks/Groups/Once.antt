-- ===== src/Tracks/Groups/Once.antt =====
-- services/ui/src/features/tracks/flight-groups.ts: how many groups there are, and their order.
use classg.Prelude.{
  ℕ, ◌≡◌, refl, arith, ap, ◌∙◌, All-imp, String, Bool, Option, none, some, List, [], ◌∷◌, map,
  filter, count_if, length, length-filter, count_if-sort_by, All, is_at, has_entry, IsSorted,
  sort_by-IsSorted, min,
}
use classg.Api.{Track}
use classg.Tracks.Flights.{AircraftKey}
use classg.Tracks.Groups.{
  AircraftGroup, key_eq, collect, add_flight, new_group, newest_group, group_by_aircraft,
}
use classg.Tracks.Groups.Folding.{flown_by, grown, lookup-collect, collect-KeysOnce}
use classg.Tracks.Groups.Members.{entries_gather, Gathered}

abbrev pub has_group_key : AircraftKey → AircraftGroup → Bool
has_group_key k g = key_eq g.key k

count_groups :
    (k : AircraftKey) (m : List (AircraftKey × AircraftGroup))
    → All (λ e. e.1.key ≡ e.0) m
    → count_if (has_group_key k) (map (λ e. e.1) m) ≡ count_if (is_at key_eq k) m
count_groups k [] h = refl
count_groups k ((j, g) ∷ m) h = rw (h.0, count_groups k m h.1)

module _ (parse : String → Option ℕ) where
  grown_once :
      (g : AircraftGroup) (ts : List Track) → has_entry key_eq (grown parse (some g) ts) ≡ 1
  grown_once g [] = refl
  grown_once g (t ∷ ts) = grown_once (add_flight parse g t) ts

  grown_entry : (ts : List Track) → has_entry key_eq (grown parse none ts) ≡ min 1 (length ts)
  grown_entry [] = refl
  grown_entry (t ∷ ts) = omega (arith, grown_once (new_group parse t) ts)

  -- An airframe with a flight in the list has exactly one group, and any other has none.
  pub one_group_each :
      (ts : List Track) (k : AircraftKey)
      → count_if (has_group_key k) (group_by_aircraft parse ts) ≡ min 1 (count_if (flown_by k) ts)
  unfolding group_by_aircraft
  one_group_each ts k =
      let m = collect parse [] ts in
      count_if-sort_by newest_group (has_group_key k) (map (λ e. e.1) m)
      ∙ count_groups k m (
          All-imp (λ e. (e.1.key ≡ e.0) × Gathered parse ts e.1) (λ e. e.1.key ≡ e.0) (λ e p. p.0) m
            (entries_gather parse ts))
      ∙ collect-KeysOnce parse [] ts (λ k. refl) k
      ∙ ap (has_entry key_eq) (lookup-collect parse [] ts k)
      ∙ grown_entry (filter (flown_by k) ts)
      ∙ ap (min 1) (length-filter (flown_by k) ts)

  -- The groups stand in the order of the last time that each states, the latest first, and one that
  -- states none counts as the earliest there is.
  pub groups_newest_first : (ts : List Track) → IsSorted newest_group (group_by_aircraft parse ts)
  unfolding group_by_aircraft
  groups_newest_first ts =
      sort_by-IsSorted newest_group (λ a b h. ground arith) (λ a b c h k. ground arith)
        (map (λ e. e.1) (collect parse [] ts))
