-- ===== src/Timeline/Lanes/NoOverlap.antt =====
-- The bars of lanes.ts within the window, and within a lane.
use classg.Prelude.{
  ℕ, zero, suc, ◌+◌, ◌≤◌, ◌<◌, ◌≡◌, refl, sym, subst, ap, ◌∙◌, ◌⊎◌, arith, String, Bool, true,
  false, ◌&&◌, Option, none, some, List, [], ◌∷◌, ◌++◌, map, sort_by-perm, ltb, leb, leb→le, ◌==◌,
  ==_iff, length, filter, find_index-some, set, get_elem?, sort_by, All, All-sort_by, Option-cases,
  Bool-cases, inl, inr,
}
use mathlib.Core.List.{Perm}
use mathlib.Core.List.Perm
use classg.Api.{Track}
use classg.Timeline.Lanes.{
  TimelineWindow, TimelineEvent, Timed, in_window, starts_first, timed, ordered, bar_start, bar_end,
  free_lane, lane_of, take_lane, event_of, place, pack_lanes,
}

-- The end of lane `k`, if there is one, is no earlier than `t`.
abbrev EndsBy : ℕ → ℕ → List ℕ → Type 0
EndsBy k t ends = (end : ℕ) × (get_elem? ends k ≡ some end) × (t ≤ end)

get_elem?-append :
    (ends : List ℕ) (k x : ℕ) (to : ℕ)
    → get_elem? ends k ≡ some x
    → get_elem? (ends ++ to ∷ []) k ≡ some x
get_elem?-append [] k x to h = cc
get_elem?-append (y ∷ ends) zero x to h = h
get_elem?-append (y ∷ ends) (suc k) x to h = get_elem?-append ends k x to h

get_elem?-length : (ends : List ℕ) (to : ℕ) → get_elem? (ends ++ to ∷ []) (length ends) ≡ some to
get_elem?-length [] to = refl
get_elem?-length (y ∷ ends) to = get_elem?-length ends to

get_elem?-bound : (ends : List ℕ) (k x : ℕ) → get_elem? ends k ≡ some x → k < length ends
get_elem?-bound [] k x h = cc
get_elem?-bound (y ∷ ends) zero x h = omega arith
get_elem?-bound (y ∷ ends) (suc k) x h = omega (arith, get_elem?-bound ends k x h)

get_elem?-set_same :
    (ends : List ℕ) (k x to : ℕ) → get_elem? ends k ≡ some x → get_elem? (set ends k to) k ≡ some to
get_elem?-set_same [] k x to h = cc
get_elem?-set_same (y ∷ ends) zero x to h = refl
get_elem?-set_same (y ∷ ends) (suc k) x to h = get_elem?-set_same ends k x to h

get_elem?-set_other :
    (ends : List ℕ) (j k to : ℕ) → (j == k) ≡ false → get_elem? (set ends j to) k ≡ get_elem? ends k
get_elem?-set_other [] j k to h = refl
get_elem?-set_other (y ∷ ends) zero zero to h = ground arith
get_elem?-set_other (y ∷ ends) zero (suc k) to h = refl
get_elem?-set_other (y ∷ ends) (suc j) zero to h = refl
get_elem?-set_other (y ∷ ends) (suc j) (suc k) to h = get_elem?-set_other ends j k to (ground arith)

-- A bar put into a free lane, or into a new one, never takes a lane's end back.
take_lane-EndsBy :
    (gap from to k t : ℕ) (ends : List ℕ)
    → from ≤ to
    → EndsBy k t ends
    → EndsBy k t (take_lane (free_lane gap from ends) to ends)
take_lane-EndsBy gap from to k t ends le (end, at, h) =
    elim (Option-cases (free_lane gap from ends)) [
      | inl e ↦ rw e (end, get_elem?-append ends k end to at, h)
      | inr (j, e) ↦
          let (old, there, free) = find_index-some (λ x. leb (x + gap) from) ends j e in
          rw e (elim (Bool-cases (j == k)) [
            | inl same ↦
                let is_k : j ≡ k = (==_iff j k).0 same in
                let there_k : get_elem? ends k ≡ some old =
                  subst (λ i. get_elem? ends i ≡ some old) is_k there in
                let same_end : old ≡ end = ground (arith, there_k, at) in
                (
                  to,
                  subst (λ i. get_elem? (set ends i to) k ≡ some to) (sym is_k)
                      (get_elem?-set_same ends k old to there_k),
                  omega (arith, leb→le (old + gap) from free, same_end),
                )
            | inr other ↦ (end, get_elem?-set_other ends j k to other ∙ at, h)
          ])
    ]

-- The lane that a bar gets ends with it.
takes_lane :
    (gap from to : ℕ) (ends : List ℕ)
    → EndsBy
        (lane_of (free_lane gap from ends) ends)
        to
        (take_lane (free_lane gap from ends) to ends)
takes_lane gap from to ends = elim (Option-cases (free_lane gap from ends)) [
  | inl e ↦ rw e (to, get_elem?-length ends to, omega arith)
  | inr (j, e) ↦
      let (old, there, free) = find_index-some (λ x. leb (x + gap) from) ends j e in
      rw e (to, get_elem?-set_same ends j old to there, omega arith)
]

-- A bar that gets lane `k` starts no earlier than `gap` after what that lane ended with.
starts_after :
    (gap from k t : ℕ) (ends : List ℕ)
    → EndsBy k t ends
    → lane_of (free_lane gap from ends) ends ≡ k
    → t + gap ≤ from
starts_after gap from k t ends (end, at, h) lane = elim (Option-cases (free_lane gap from ends)) [
  | inl e ↦ absurd (omega (arith, get_elem?-bound ends k end at, new_lane e))
  | inr (j, e) ↦
      let (old, there, free) = find_index-some (λ x. leb (x + gap) from) ends j e in
      let is_k : j ≡ k = sym (ap (λ o. lane_of o ends) e) ∙ lane in
      let there_k : get_elem? ends k ≡ some old =
        subst (λ i. get_elem? ends i ≡ some old) is_k there in
      let same_end : old ≡ end = ground (arith, there_k, at) in
      omega (arith, leb→le (old + gap) from free, same_end)
]
  where
    new_lane : free_lane gap from ends ≡ none → length ends ≡ k
    new_lane e = sym (ap (λ o. lane_of o ends) e) ∙ lane

-- In one lane, each bar starts at least `gap` after every earlier one ends.
abbrev pub clashes : ℕ → TimelineEvent → TimelineEvent → Bool
clashes gap earlier later = (earlier.lane == later.lane) && ltb later.from_ms (earlier.to_ms + gap)

abbrev pub NoClash : ℕ → List TimelineEvent → Type 0
NoClash gap [] = Unit
NoClash gap (e ∷ es) = All (λ later. clashes gap e later ≡ false) es × NoClash gap es

not_before : (a b : ℕ) → b ≤ a → ltb a b ≡ false
not_before a b h = ground arith

module _ (w : TimelineWindow) (gap : ℕ) (valid : w.start_ms ≤ w.end_ms) where
  bar_forward : (t : Timed) → in_window w t ≡ true → bar_start w t ≤ bar_end w t
  bar_forward t h = ground arith

  later_bars :
      (ts : List Timed) (ends : List ℕ) (e : TimelineEvent)
      → All (λ t. in_window w t ≡ true) ts
      → EndsBy e.lane e.to_ms ends
      → All (λ later. clashes gap e later ≡ false) (place w gap ends ts)
  unfolding place
  later_bars [] ends e h by = tt
  later_bars (t ∷ ts) ends e h by =
      let free = free_lane gap (bar_start w t) ends in
      (
        apart (Bool-cases (e.lane == lane_of free ends)),
        later_bars ts (take_lane free (bar_end w t) ends) e h.1 (
            take_lane-EndsBy gap (bar_start w t) (bar_end w t) e.lane e.to_ms ends
              (bar_forward t h.0) by),
      )
    where
      apart :
          ((e.lane == lane_of (free_lane gap (bar_start w t) ends) ends) ≡ true)
            ⊎ ((e.lane == lane_of (free_lane gap (bar_start w t) ends) ends) ≡ false)
          → clashes gap e (event_of w t (lane_of (free_lane gap (bar_start w t) ends) ends)) ≡ false
      apart (inl same) =
          let after =
            starts_after gap (bar_start w t) e.lane e.to_ms ends by (sym ((==_iff _ _).0 same)) in
          rw same (not_before (bar_start w t) (e.to_ms + gap) after)
      apart (inr other) = rw other refl

  place-NoClash :
      (ts : List Timed) (ends : List ℕ)
      → All (λ t. in_window w t ≡ true) ts
      → NoClash gap (place w gap ends ts)
  unfolding place
  place-NoClash [] ends h = tt
  place-NoClash (t ∷ ts) ends h =
      let free = free_lane gap (bar_start w t) ends in
      (
        later_bars ts (take_lane free (bar_end w t) ends) (event_of w t (lane_of free ends)) h.1
            (takes_lane gap (bar_start w t) (bar_end w t) ends),
        place-NoClash ts (take_lane free (bar_end w t) ends) h.1,
      )

  place-within :
      (ts : List Timed) (ends : List ℕ)
      → All (λ t. in_window w t ≡ true) ts
      → All
          (λ e. (w.start_ms ≤ e.from_ms) × (e.from_ms ≤ e.to_ms) × (e.to_ms ≤ w.end_ms))
          (place w gap ends ts)
  unfolding place
  place-within [] ends h = tt
  place-within (t ∷ ts) ends h =
      let free = free_lane gap (bar_start w t) ends in
      (
        (omega arith, bar_forward t h.0, omega arith),
        place-within ts (take_lane free (bar_end w t) ends) h.1,
      )

filtered :
    (w : TimelineWindow) (ts : List Timed)
    → All (λ t. in_window w t ≡ true) (filter (in_window w) ts)
filtered w [] = tt
filtered w (t ∷ ts) = ground (arith, filtered w ts)

place-tracks :
    (w : TimelineWindow) (gap : ℕ) (ts : List Timed) (ends : List ℕ)
    → map (λ e. e.track) (place w gap ends ts) ≡ map (λ t. t.track) ts
unfolding place
place-tracks w gap [] ends = refl
place-tracks w gap (t ∷ ts) ends =
    ap (λ l. t.track ∷ l)
      (place-tracks w gap ts (take_lane (free_lane gap (bar_start w t) ends) (bar_end w t) ends))

-- In a window that does not end before it starts, every bar lies in the window and does not end before
-- it starts; in one lane, each bar starts at least `gap` after every earlier one ends; and the bars are
-- those of the tracks with parsable times that overlap the window, one for each.
pub pack_lanes-NoClash :
    (parse : String → Option ℕ) (ts : List Track) (w : TimelineWindow) (gap : ℕ)
    → w.start_ms ≤ w.end_ms
    → NoClash gap (pack_lanes parse ts w gap)
      × All
          (λ e. (w.start_ms ≤ e.from_ms) × (e.from_ms ≤ e.to_ms) × (e.to_ms ≤ w.end_ms))
          (pack_lanes parse ts w gap)
      × Perm
          (map (λ e. e.track) (pack_lanes parse ts w gap))
          (map (λ t. t.track) (filter (in_window w) (timed parse ts)))
unfolding pack_lanes ordered
pack_lanes-NoClash parse ts w gap valid =
    let shown = filter (in_window w) (timed parse ts) in
    let inside =
      All-sort_by starts_first (λ t. in_window w t ≡ true) shown (filtered w (timed parse ts)) in
    (
      place-NoClash w gap valid (sort_by starts_first shown) [] inside,
      place-within w gap valid (sort_by starts_first shown) [] inside,
      subst (λ l. Perm l (map (λ t. t.track) shown))
          (sym (place-tracks w gap (sort_by starts_first shown) []))
          (Perm.map (λ t. t.track) (sort_by-perm starts_first shown)),
    )
