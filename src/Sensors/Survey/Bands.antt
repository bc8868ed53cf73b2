-- ===== src/Sensors/Survey/Bands.antt =====
-- services/ui/src/features/spectrum/wifi-survey.ts: what the bands and the busiest channel say.
use classg.Prelude.{
  ℕ, ◌+◌, ◌≤◌, ◌≡◌, refl, ap, sym, ◌∙◌, arith, Bool, true, false, some, List, [], ◌∷◌, ◌++◌, filter,
  map, count_if, All, Bool-cases, inl, inr, count_if-append, find, is_some,
}
use classg.Sensors.Survey.{
  BandKey, ghz2, ghz5, ghz6, ChannelOccupancy, OccupancyBand, same_band, is_measured, band_group,
  group_by_band, busier, busiest_from, busiest,
}

-- The channels of the groups, in their order.
abbrev pub channels_of : List OccupancyBand → List ChannelOccupancy
channels_of [] = []
channels_of (g ∷ gs) = g.channels ++ channels_of gs

empty_group : (cs : List ChannelOccupancy) → is_some (find (λ _. true) cs) ≡ false → cs ≡ []
empty_group [] h = refl
empty_group (c ∷ cs) h = cc

count_measured :
    (p : ChannelOccupancy → Bool) (gs : List OccupancyBand)
    → count_if p (channels_of (filter is_measured gs)) ≡ count_if p (channels_of gs)
count_measured p [] = refl
count_measured p (g ∷ gs) = elim (Bool-cases (is_measured g)) [
  | inl some_there ↦ rw some_there (
      count_if-append p g.channels (channels_of (filter is_measured gs))
      ∙ ap (λ n. count_if p g.channels + n) (count_measured p gs)
      ∙ sym (count_if-append p g.channels (channels_of gs)))
  | inr none_there ↦ rw (none_there, empty_group g.channels none_there) (count_measured p gs)
]

count_in : (ChannelOccupancy → Bool) → List ChannelOccupancy → ℕ
count_in p cs =
    count_if p (filter (λ c. same_band c.band ghz2) cs)
    + (count_if p (filter (λ c. same_band c.band ghz5) cs)
        + count_if p (filter (λ c. same_band c.band ghz6) cs))

count_in_head :
    (p : ChannelOccupancy → Bool) (c : ChannelOccupancy) (cs : List ChannelOccupancy) (b : BandKey)
    → c.band ≡ b
    → count_in p cs ≡ count_if p cs
    → count_in p (c ∷ cs) ≡ count_if p (c ∷ cs)
unfolding count_in
count_in_head p c cs ghz2 e h = rw e (ground arith)
count_in_head p c cs ghz5 e h = rw e (ground arith)
count_in_head p c cs ghz6 e h = rw e (ground arith)

count_in_all :
    (p : ChannelOccupancy → Bool) (cs : List ChannelOccupancy) → count_in p cs ≡ count_if p cs
unfolding count_in
count_in_all p [] = omega arith
count_in_all p (c ∷ cs) = count_in_head p c cs c.band refl (count_in_all p cs)

-- The groups hold the channels they are made of, each once.
groups_keep :
    (p : ChannelOccupancy → Bool) (cs : List ChannelOccupancy)
    → count_if p (channels_of (group_by_band cs)) ≡ count_if p cs
unfolding group_by_band count_in
groups_keep p cs =
    let low = filter (λ c. same_band c.band ghz2) cs in
    let middle = filter (λ c. same_band c.band ghz5) cs in
    let high = filter (λ c. same_band c.band ghz6) cs in
    count_measured p (map (band_group cs) (ghz2 ∷ ghz5 ∷ ghz6 ∷ []))
    ∙ omega (
      arith,
      count_if-append p low (middle ++ (high ++ [])),
      count_if-append p middle (high ++ []),
      count_if-append p high [],
      count_in_all p cs,
    )

busiest_from_bounds :
    (b : ChannelOccupancy) (cs : List ChannelOccupancy) (best : ChannelOccupancy)
    → busiest_from (some b) cs ≡ some best
    → (b.busy_fraction ≤ best.busy_fraction) × All (λ c. c.busy_fraction ≤ best.busy_fraction) cs
busiest_from_bounds b [] best h = (ground arith, tt)
busiest_from_bounds b (c ∷ cs) best h =
    let (top, rest) = busiest_from_bounds (busier (some b) c) cs best h in
    (ground arith, (ground arith, rest))

-- No channel is busier than the one that is shown as the busiest.
busiest_bounds :
    (cs : List ChannelOccupancy) (best : ChannelOccupancy)
    → busiest cs ≡ some best
    → All (λ c. c.busy_fraction ≤ best.busy_fraction) cs
unfolding busiest
busiest_bounds [] best h = tt
busiest_bounds (c ∷ cs) best h = busiest_from_bounds c cs best h
