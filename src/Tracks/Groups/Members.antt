-- ===== src/Tracks/Groups/Members.antt =====
-- What services/ui/src/features/tracks/flight-groups.ts answers: which groups, which flights in each,
-- and the times that a group states.
use classg.Prelude.{
  ℕ, ◌≤◌, ◌≡◌, refl, arith, subst, sym, ◌∙◌, String, Option, none, some, List, [], ◌∷◌, ◌++◌, map,
  filter, All, All-map, All-sort_by, All-filter_of, All-const, All-imp, All-append, All-of_lookup,
  append_assoc,
}
use mathlib.Core.List.{append-nil}
use classg.Api.{Track}
use classg.Tracks.Flights.{AircraftKey, aircraft_key, flight_start_ms, flight_end_ms}
use classg.Tracks.Groups.{
  AircraftGroup, key_eq, add_flight, new_group, collect, newest_group, group_by_aircraft, earlier,
  later,
}
use classg.Tracks.Groups.Folding.{key_eq_iff, flown_by, grown, lookup-collect, collect-KeysOnce}

-- A known time is at most, and at least, that of a flight that has one.
abbrev pub NotAfter : Option ℕ → Option ℕ → Type 0
NotAfter seen none = Unit
NotAfter none (some ms) = ⊥
NotAfter (some s) (some ms) = s ≤ ms

abbrev pub NotBefore : Option ℕ → Option ℕ → Type 0
NotBefore seen none = Unit
NotBefore none (some ms) = ⊥
NotBefore (some s) (some ms) = ms ≤ s

module _ (parse : String → Option ℕ) where
  abbrev grow_all : AircraftGroup → List Track → AircraftGroup
  grow_all g [] = g
  grow_all g (t ∷ ts) = grow_all (add_flight parse g t) ts

  grown-some :
      (g : AircraftGroup) (ts : List Track) → grown parse (some g) ts ≡ some (grow_all g ts)
  grown-some g [] = refl
  grown-some g (t ∷ ts) = grown-some (add_flight parse g t) ts

  -- The times that a group states span those of its flights.
  abbrev pub SpansFlights : AircraftGroup → Type 0
  SpansFlights g =
      All
        (λ t.
          NotAfter g.first_seen_ms (flight_start_ms parse t)
          × NotBefore g.last_seen_ms (flight_end_ms parse t))
        g.flights

  earlier-NotAfter :
      (seen ms : Option ℕ) → NotAfter (earlier seen ms) seen × NotAfter (earlier seen ms) ms
  earlier-NotAfter none none = (tt, tt)
  earlier-NotAfter (some s) none = (omega arith, tt)
  earlier-NotAfter none (some m) = (tt, omega arith)
  earlier-NotAfter (some s) (some m) = ground arith

  later-NotBefore :
      (seen ms : Option ℕ) → NotBefore (later seen ms) seen × NotBefore (later seen ms) ms
  later-NotBefore none none = (tt, tt)
  later-NotBefore (some s) none = (omega arith, tt)
  later-NotBefore none (some m) = (tt, omega arith)
  later-NotBefore (some s) (some m) = ground arith

  NotAfter-trans : (a b c : Option ℕ) → NotAfter a b → NotAfter b c → NotAfter a c
  NotAfter-trans a b none h k = tt
  NotAfter-trans a none (some c) h k = elim k [ ]
  NotAfter-trans none (some b) (some c) h k = elim h [ ]
  NotAfter-trans (some a) (some b) (some c) h k = omega arith

  NotBefore-trans : (a b c : Option ℕ) → NotBefore a b → NotBefore b c → NotBefore a c
  NotBefore-trans a b none h k = tt
  NotBefore-trans a none (some c) h k = elim k [ ]
  NotBefore-trans none (some b) (some c) h k = elim h [ ]
  NotBefore-trans (some a) (some b) (some c) h k = omega arith

  -- What holds of a group as it grows: its key stays, the flights are added behind, the span widens.
  abbrev Gathers : AircraftGroup → List Track → AircraftGroup → Type 0
  Gathers g ts h = (h.key ≡ g.key) × (h.flights ≡ g.flights ++ ts) × SpansFlights h

  add_flight-SpansFlights :
      (g : AircraftGroup) (t : Track) → SpansFlights g → SpansFlights (add_flight parse g t)
  add_flight-SpansFlights g t h =
      let starts = earlier-NotAfter g.first_seen_ms (flight_start_ms parse t) in
      let ends = later-NotBefore g.last_seen_ms (flight_end_ms parse t) in
      All-append _ g.flights (t ∷ [])
        (All-imp _ _
          (λ u p. (
            NotAfter-trans _ g.first_seen_ms (flight_start_ms parse u) starts.0 p.0,
            NotBefore-trans _ g.last_seen_ms (flight_end_ms parse u) ends.0 p.1,
          ))
          g.flights h)
        ((starts.1, ends.1), tt)

  grow_all-Gathers :
      (g : AircraftGroup) (ts : List Track) → SpansFlights g → Gathers g ts (grow_all g ts)
  grow_all-Gathers g [] h = (refl, sym (append-nil g.flights), h)
  grow_all-Gathers g (t ∷ ts) h =
      let (k, f, s) = grow_all-Gathers (add_flight parse g t) ts (add_flight-SpansFlights g t h) in
      (k, f ∙ append_assoc g.flights (t ∷ []) ts, s)

  -- What the group of an airframe is, from all the flights.
  abbrev pub Gathered : List Track → AircraftGroup → Type 0
  Gathered ts g = (g.flights ≡ filter (flown_by g.key) ts) × SpansFlights g

  flown_by_key :
      (k : AircraftKey) (ts : List Track) → All (λ t. aircraft_key t ≡ k) (filter (flown_by k) ts)
  flown_by_key k ts =
      All-filter_of (λ t. aircraft_key t ≡ k) (flown_by k) ts
        (All-imp (λ _. Unit {0}) _ (λ t _ e. (key_eq_iff (aircraft_key t) k).0 e) ts (All-const ts))

  same_time : (o : Option ℕ) → NotAfter o o × NotBefore o o
  same_time none = (tt, tt)
  same_time (some ms) = (omega arith, omega arith)

  new-SpansFlights : (t : Track) → SpansFlights (new_group parse t)
  new-SpansFlights t =
      (((same_time (flight_start_ms parse t)).0, (same_time (flight_end_ms parse t)).1), tt)

  grown-Gathers :
      (k : AircraftKey) (fs : List Track) (g : AircraftGroup)
      → All (λ t. aircraft_key t ≡ k) fs
      → grown parse none fs ≡ some g
      → (g.key ≡ k) × (g.flights ≡ fs) × SpansFlights g
  grown-Gathers k [] g h e = cc
  grown-Gathers k (t ∷ fs) g h e =
      let q : grow_all (new_group parse t) fs ≡ g =
        ground (arith, grown-some (new_group parse t) fs) in
      let (a, b, c) = grow_all-Gathers (new_group parse t) fs (new-SpansFlights t) in
      subst (λ f. (f.key ≡ k) × (f.flights ≡ t ∷ fs) × SpansFlights f) q (a ∙ h.0, b, c)

  module _ (ts : List Track) where
    pub entries_gather : All (λ e. (e.1.key ≡ e.0) × Gathered ts e.1) (collect parse [] ts)
    entries_gather =
        All-of_lookup key_eq key_eq_iff (λ e. (e.1.key ≡ e.0) × Gathered ts e.1)
          (collect parse [] ts) (collect-KeysOnce parse [] ts (λ k. refl))
          (λ k g e.
            let (a, b, c) =
              grown-Gathers k (filter (flown_by k) ts) g (flown_by_key k ts)
                (sym (lookup-collect parse [] ts k) ∙ e) in
            (a, (subst (λ j. g.flights ≡ filter (flown_by j) ts) (sym a) b, c)))

    -- Each group has exactly the flights of its airframe, in the order of the list, and states times
    -- that span them: none of its flights starts before the first or ends after the last.
    pub groups_gather :
        All
          (λ g. (g.flights ≡ filter (flown_by g.key) ts) × SpansFlights g)
          (group_by_aircraft parse ts)
    unfolding group_by_aircraft
    groups_gather = All-sort_by newest_group (Gathered ts) (map (λ e. e.1) (collect parse [] ts)) (
        All-map (λ e. (e.1.key ≡ e.0) × Gathered ts e.1) (Gathered ts) (λ e. e.1) (λ e p. p.1)
          (collect parse [] ts) entries_gather)
