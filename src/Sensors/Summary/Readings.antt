-- ===== src/Sensors/Summary/Readings.antt =====
-- services/ui/src/features/health/sensor-summary.ts: where the value of each tile comes from.
use classg.Prelude.{
  ℕ, ◌*◌, ◌≡◌, refl, sym, subst, ◌∙◌, ◌⊎◌, inl, inr, arith, String, Bool, true, false, Option, none,
  some, List, [], ◌∷◌, any, any-append, DistinctBy-append, str_eq, str_eq_refl, is_some,
  get_or_else, All, All-append, DistinctBy, Bool-cases, Option-cases, str_eq_symm,
}
use classg.Api.{Json, SensorHealth, SensorKind}
use classg.Sensors.Summary.{
  SummaryMetric, SensorSummary, Tile, from, always, number_at, add_key, read, five_minutes,
  tiles_of, shown, run_tiles, wifi_metrics, sdr_metrics, other_metrics, summarise_sensor,
}

abbrev pub consumes : List String → String → Bool
consumes consumed key = any (str_eq key) consumed

module _ (detail : List (String × Json)) where
  -- The keys are those of numbers, and stand once each.
  abbrev pub AreNumbers : List String → Type 0
  AreNumbers consumed =
      All (λ k. is_some (number_at detail k) ≡ true) consumed × DistinctBy (λ k. k) consumed

  -- The value is that of a key that was consumed.
  abbrev pub IsRead : List String → Json → Type 0
  IsRead consumed v = (k : String) × (consumes consumed k ≡ true) × (number_at detail k ≡ some v)

  abbrev Keeps : List String → List String → Type 0
  Keeps before after = (k : String) → consumes before k ≡ true → consumes after k ≡ true

  absent_apart :
      (key : String) (consumed : List String)
      → consumes consumed key ≡ false
      → All (λ k. str_eq k key ≡ false) consumed
  absent_apart key [] h = tt
  absent_apart key (k ∷ consumed) h = ground (arith, absent_apart key consumed, str_eq_symm key k)

  add_key-AreNumbers :
      (consumed : List String) (key : String)
      → is_some (number_at detail key) ≡ true
      → AreNumbers consumed
      → AreNumbers (add_key consumed key)
  add_key-AreNumbers consumed key n (numbers, once) = elim (Bool-cases (consumes consumed key)) [
    | inl e ↦ rw e (numbers, once)
    | inr e ↦ rw e (
      All-append (λ k. is_some (number_at detail k) ≡ true) consumed (key ∷ []) numbers (n, tt),
      DistinctBy-append (λ k. k) consumed key (absent_apart key consumed e) once,
    )
  ]

  add_key-Keeps : (consumed : List String) (key : String) → Keeps consumed (add_key consumed key)
  add_key-Keeps consumed key k h = elim (Bool-cases (consumes consumed key)) [
    | inl e ↦ rw e h
    | inr e ↦ rw e (any-append (str_eq k) consumed (key ∷ []) ∙ rw h refl)
  ]

  add_key_there :
      (consumed : List String) (key : String) → consumes (add_key consumed key) key ≡ true
  add_key_there consumed key = elim (Bool-cases (consumes consumed key)) [
    | inl e ↦ rw e e
    | inr e ↦ rw e (any-append (str_eq key) consumed (key ∷ []) ∙ rw (e, str_eq_refl key) refl)
  ]

  -- What a read answers, and what it leaves.
  abbrev ReadsWell : List String → Option Json × List String → Type 0
  ReadsWell consumed r =
      AreNumbers r.1 × Keeps consumed r.1 × ((v : Json) → r.0 ≡ some v → IsRead r.1 v)

  read-ReadsWell :
      (keys consumed : List String)
      → AreNumbers consumed
      → ReadsWell consumed (read detail keys consumed)
  read-ReadsWell [] consumed h = (h, (λ k e. e), (λ v e. cc))
  read-ReadsWell (key ∷ keys) consumed h = elim (Option-cases (number_at detail key)) [
    | inl e ↦ rw e (read-ReadsWell keys consumed h)
    | inr (v, e) ↦ rw e (
      add_key-AreNumbers consumed key (rw e) h,
      add_key-Keeps consumed key,
      (λ w q. (key, add_key_there consumed key, e ∙ q)),
    )
  ]

  IsRead-Keeps :
      (before after : List String) (v : Json)
      → Keeps before after
      → IsRead before v
      → IsRead after v
  IsRead-Keeps before after v keeps (k, c, e) = (k, keeps k c, e)

  module _ (Own : Json → Type 0) where
    -- A tile shows what it reads, or something of the sensor itself.
    abbrev IsFair : Tile → Type 0
    IsFair (from keys make) = (v : Json) → (make v).value ≡ v
    IsFair (always m) = Own m.value

    abbrev Sourced : List String → SummaryMetric → Type 0
    Sourced consumed m = IsRead consumed m.value ⊎ Own m.value

    abbrev IsSourced : List String → SensorSummary → Type 0
    IsSourced before s =
        AreNumbers s.consumed × Keeps before s.consumed × All (Sourced s.consumed) s.metrics

    shown-IsSourced :
        (o : Option Json) (make : Json → SummaryMetric) (s : SensorSummary) (before : List String)
        → ((v : Json) → (make v).value ≡ v)
        → IsSourced before s
        → ((v : Json) → o ≡ some v → IsRead s.consumed v)
        → IsSourced before (shown o make s)
    shown-IsSourced none make s before fair h reads = h
    shown-IsSourced (some v) make s before fair (numbers, keeps, metrics) reads =
        (numbers, keeps, (inl (subst (IsRead s.consumed) (sym (fair v)) (reads v refl)), metrics))

    run_tiles-IsSourced :
        (ts : List Tile) (consumed : List String)
        → All IsFair ts
        → AreNumbers consumed
        → IsSourced consumed (run_tiles detail ts consumed)
    run_tiles-IsSourced [] consumed fair h = (h, (λ k e. e), tt)
    run_tiles-IsSourced (always m ∷ ts) consumed fair h =
        let (numbers, keeps, metrics) = run_tiles-IsSourced ts consumed fair.1 h in
        (numbers, keeps, (inr fair.0, metrics))
    run_tiles-IsSourced (from keys make ∷ ts) consumed fair h =
        let (numbers, keeps, reads) = read-ReadsWell keys consumed h in
        let r = read detail keys consumed in
        let (all_numbers, all_keeps, metrics) = run_tiles-IsSourced ts r.1 fair.1 numbers in
        let s = run_tiles detail ts r.1 in
        shown-IsSourced r.0 make s consumed fair.0
          ((all_numbers, (λ k c. all_keeps k (keeps k c)), metrics))
          (λ v e. IsRead-Keeps r.1 s.consumed v all_keeps (reads v e))

-- A value of the sensor itself: the time since its heartbeat, or its detections of five minutes.
abbrev pub IsOwn : SensorHealth → Json → Type 0
IsOwn s v =
    (v ≡ Json.number s.seconds_since_heartbeat)
    ⊎ ((n : ℕ) × (s.detections_5m ≡ some n) × (v ≡ Json.number (n * 1_000)))

module _ (s : SensorHealth) (detail : List (String × Json)) where
  five-IsFair :
      (o : Option ℕ) → s.detections_5m ≡ o → All (IsFair detail (IsOwn s)) (five_minutes s o)
  five-IsFair none e = tt
  five-IsFair (some n) e = (inr (n, e, refl), tt)

  wifi-IsFair : All (IsFair detail (IsOwn s)) (wifi_metrics s detail)
  unfolding wifi_metrics
  wifi-IsFair = (
    (λ v. refl),
    (
      (λ v. refl),
      All-append (IsFair detail (IsOwn s)) (five_minutes s s.detections_5m) _
          (five-IsFair s.detections_5m refl) ((λ v. refl), ((λ v. refl), (inl refl, tt))),
    ),
  )

  sdr-IsFair : All (IsFair detail (IsOwn s)) (sdr_metrics s detail)
  unfolding sdr_metrics
  sdr-IsFair =
      ((λ v. refl), ((λ v. refl), ((λ v. refl), ((λ v. refl), ((λ v. refl), (inl refl, tt))))))

  other-IsFair : All (IsFair detail (IsOwn s)) (other_metrics s)
  unfolding other_metrics
  other-IsFair = ((λ v. refl), ((λ v. refl), (inl refl, tt)))

  kind-IsFair : (k : SensorKind) → All (IsFair detail (IsOwn s)) (tiles_of k s detail)
  kind-IsFair SensorKind.wifi = wifi-IsFair
  kind-IsFair SensorKind.sdr = sdr-IsFair
  kind-IsFair SensorKind.ble = other-IsFair
  kind-IsFair SensorKind.net = other-IsFair

-- Every tile of a sensor's summary shows a number of the sensor's detail under a key that the summary
-- states as consumed, or a value of the sensor itself: the time since its heartbeat, or its detections
-- of the last five minutes. The consumed keys are those of numbers, each stated once.
pub tiles_are_sourced :
    (s : SensorHealth)
    → AreNumbers (get_or_else s.detail []) (summarise_sensor s).consumed
      × All
          (λ m.
            IsRead (get_or_else s.detail []) (summarise_sensor s).consumed m.value
            ⊎ IsOwn s m.value)
          (summarise_sensor s).metrics
unfolding summarise_sensor
tiles_are_sourced s =
    let detail = get_or_else s.detail [] in
    let (numbers, keeps, metrics) =
      run_tiles-IsSourced detail (IsOwn s) (tiles_of s.sensor_kind s detail) []
        (kind-IsFair s detail s.sensor_kind) (tt, tt) in
    (numbers, metrics)
