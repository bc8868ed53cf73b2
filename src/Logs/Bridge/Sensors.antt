-- ===== src/Logs/Bridge/Sensors.antt =====
-- The health reports of log-bridge.ts.
use classg.Prelude.{
  String, Bool, false, Option, none, some, List, [], ◌∷◌, ◌≡◌, refl, arith, not, inl, inr, map,
  filter, Bool-cases, write, write_same, write_other, ap, sym, ◌∙◌, All, DistinctBy, str_eq,
  str_eq_symm, eq_iff, All-imp,
}
use classg.Api.{SensorHealth}
use classg.Logs.Bridge.{sensor_line, sensor_lines, sensors_known, all_sensor_lines}
use classg.Logs.Bridge.Changes.{same_bool_refl}

abbrev pub IsKnown : (String → Option Bool) → SensorHealth → Type 0
IsKnown known s = known s.sensor_id ≡ some s.healthy

abbrev id_of : SensorHealth → String
id_of s = s.sensor_id

sensors_known-other :
    (id : String) (ss : List SensorHealth) (known : String → Option Bool)
    → All (λ s. str_eq s.sensor_id id ≡ false) ss
    → sensors_known ss known id ≡ known id
unfolding sensors_known
sensors_known-other id [] known h = refl
sensors_known-other id (s ∷ ss) known h =
    sensors_known-other id ss (write known s.sensor_id (some s.healthy)) h.1
    ∙ write_other known s.sensor_id (some s.healthy) id h.0

-- After the loop, every sensor of the report is known as it was reported.
pub All-IsKnown :
    (ss : List SensorHealth) (known : String → Option Bool)
    → DistinctBy id_of ss
    → All (IsKnown (sensors_known ss known)) ss
unfolding sensors_known
All-IsKnown [] known d = tt
All-IsKnown (s ∷ ss) known d =
    let next = write known s.sensor_id (some s.healthy) in
    (
      sensors_known-other s.sensor_id ss next d.0 ∙ write_same known s.sensor_id (some s.healthy),
      All-IsKnown ss next d.1,
    )

still-IsKnown :
    (s other : SensorHealth) (known : String → Option Bool)
    → IsKnown known s
    → IsKnown known other
    → IsKnown (write known s.sensor_id (some s.healthy)) other
still-IsKnown s other known h k = elim (Bool-cases (str_eq s.sensor_id other.sensor_id)) [
  | inl e ↦ rw e (sym h ∙ ap known ((eq_iff s.sensor_id other.sensor_id).0 e) ∙ k)
  | inr e ↦ rw e k
]

pub silent_when-IsKnown :
    (ss : List SensorHealth) (known : String → Option Bool)
    → All (IsKnown known) ss
    → all_sensor_lines ss known ≡ []
unfolding all_sensor_lines sensor_lines
silent_when-IsKnown [] known h = refl
silent_when-IsKnown (s ∷ ss) known h =
    let rest = silent_when-IsKnown ss (write known s.sensor_id (some s.healthy)) (
      All-imp (IsKnown known) (IsKnown (write known s.sensor_id (some s.healthy)))
        (λ o. still-IsKnown s o known h.0) ss h.1) in
    let same = same_bool_refl s.healthy in rw (h.0, sensor_lines, same, rest) refl

abbrev pub IsNew : (String → Option Bool) → SensorHealth → Type 0
IsNew known s = known s.sensor_id ≡ none

still-IsNew :
    (s other : SensorHealth) (known : String → Option Bool)
    → str_eq other.sensor_id s.sensor_id ≡ false
    → IsNew known other
    → IsNew (write known s.sensor_id (some s.healthy)) other
still-IsNew s other known apart n =
    write_other known s.sensor_id (some s.healthy) other.sensor_id
      (str_eq_symm other.sensor_id s.sensor_id apart)
    ∙ n

All-IsNew :
    (s : SensorHealth) (known : String → Option Bool) (ss : List SensorHealth)
    → All (λ o. str_eq o.sensor_id s.sensor_id ≡ false) ss
    → All (IsNew known) ss
    → All (IsNew (write known s.sensor_id (some s.healthy))) ss
All-IsNew s known [] d n = tt
All-IsNew s known (o ∷ ss) d n = (still-IsNew s o known d.0 n.0, All-IsNew s known ss d.1 n.1)

abbrev is_broken : SensorHealth → Bool
is_broken s = not s.healthy

-- Of sensors that were not seen before, each with an id of its own, the loop logs those that arrive
-- broken, in their order, and no others.
pub first_sighting_logs_broken :
    (ss : List SensorHealth) (known : String → Option Bool)
    → DistinctBy id_of ss
    → All (IsNew known) ss
    → all_sensor_lines ss known ≡ map sensor_line (filter is_broken ss)
unfolding all_sensor_lines sensor_lines
first_sighting_logs_broken [] known d n = refl
first_sighting_logs_broken (s ∷ ss) known d n =
    let rest =
      first_sighting_logs_broken ss (write known s.sensor_id (some s.healthy)) d.1
        (All-IsNew s known ss d.0 n.1) in
    ground (arith, rest, n.0)
